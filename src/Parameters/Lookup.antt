-- ===== src/Parameters/Lookup.antt =====
-- About `find_parent_parameter` and `parameters` of src/takler/core/node.py and flow.py.
use Prim.Native.String.{String}
use text.Mathlib.Text.{◌==◌ as str_eq}
use text.Mathlib.TextEquality.{eq_iff}
use takler.Prelude.{
  ◌≡◌, refl, sym, ◌∙◌, ap, inl, inr, Bool, true, false, List, [], ◌∷◌, ◌++◌, Option, none, some,
  is_some, if◌then◌else◌, Bool-cases,
}
use takler.Parameters.{
  Parameter, Dict, Generated, plain, of_task, of_flow, of_server, Level, get, set_key, update,
  merge, or_else, generated_parameters, find_own, of_repeat, is_server, generated_parameters_only,
  find_generated_parameter, find_parameter, parameters_only, find_in_bunch, find_parent_parameter,
  find_flow_parameter, add_bunch, add_levels, parameters,
}

module _ {ℓ} {V : Type ℓ} where
  or_else_assoc : (a b c : Option (Parameter V)) → or_else (or_else a b) c ≡ or_else a (or_else b c)
  or_else_assoc none b c = refl
  or_else_assoc (some p) b c = refl

  get-append :
      (name : String) (d e : Dict V) → get name (d ++ e) ≡ or_else (get name d) (get name e)
  get-append name [] e = refl
  get-append name ((k, p) ∷ d) e = elim (Bool-cases (str_eq name k)) [
    | inl t ↦ rw t refl
    | inr t ↦ rw t (get-append name d e)
  ]

  or_else-none : (a : Option (Parameter V)) → or_else a none ≡ a
  or_else-none none = refl
  or_else-none (some p) = refl

  or_else-is_some : (a b : Option (Parameter V)) → is_some a ≡ true → or_else a b ≡ a
  or_else-is_some none b h = cc
  or_else-is_some (some p) b h = refl

  or_else-if :
      (b : Bool) (p : Parameter V) (a : Option (Parameter V))
      → or_else (if b then some p else none) a ≡ (if b then some p else a)
  or_else-if true p a = refl
  or_else-if false p a = refl

  get-kept :
      (name k : String) (p : Parameter V) (d : Dict V)
      → is_some (get k d) ≡ true
      → or_else (get name d) (if str_eq name k then some p else none) ≡ get name d
  get-kept name k p d h = elim (Bool-cases (str_eq name k)) [
    | inl t ↦ or_else-is_some (get name d) _ (ap (λ n. is_some (get n d)) ((eq_iff name k).0 t) ∙ h)
    | inr t ↦ rw t (or_else-none (get name d))
  ]

  get-inserted :
      (name k : String) (p : Parameter V) (d : Dict V)
      → get name (if is_some (get k d) then d else d ++ (k, p) ∷ [])
        ≡ or_else (get name d) (if str_eq name k then some p else none)
  get-inserted name k p d = elim (Bool-cases (is_some (get k d))) [
    | inl t ↦ rw t (sym (get-kept name k p d t))
    | inr t ↦ rw t (get-append name d ((k, p) ∷ []))
  ]

  get-merge :
      (name : String) (d e : Dict V) → get name (merge d e) ≡ or_else (get name d) (get name e)
  get-merge name d [] = sym (or_else-none (get name d))
  get-merge name d ((k, p) ∷ e) =
      get-merge name (if is_some (get k d) then d else d ++ (k, p) ∷ []) e
      ∙ ap (λ o. or_else o (get name e)) (get-inserted name k p d)
      ∙ or_else_assoc (get name d) (if str_eq name k then some p else none) (get name e)
      ∙ ap (or_else (get name d)) (or_else-if (str_eq name k) p (get name e))

  get-overwritten :
      (name k : String) (p q : Parameter V) (d : Dict V)
      → get name ((k, p) ∷ d) ≡ (if str_eq name k then some p else get name ((k, q) ∷ d))
  get-overwritten name k p q d = elim (Bool-cases (str_eq name k)) [
    | inl t ↦ rw t refl
    | inr t ↦ rw t refl
  ]

  get-behind :
      (name key k : String) (p q : Parameter V) (o : Option (Parameter V))
      → str_eq key k ≡ false
      → (if str_eq name k then some q else (if str_eq name key then some p else o))
        ≡ (if str_eq name key then some p else (if str_eq name k then some q else o))
  get-behind name key k p q o h = elim (Bool-cases (str_eq name k)) [
    | inl t ↦ elim (Bool-cases (str_eq name key)) [
      | inl u ↦ absurd (cc (h, t, sym ((eq_iff name key).0 u)))
      | inr u ↦ rw u (rw t refl)
    ]
    | inr t ↦ rw t refl
  ]

  get-set_key :
      (name key : String) (p : Parameter V) (d : Dict V)
      → get name (set_key key p d) ≡ (if str_eq name key then some p else get name d)
  get-set_key name key p [] = refl
  get-set_key name key p ((k, q) ∷ d) = elim (Bool-cases (str_eq key k)) [
    | inl t ↦ rw t (rw ((eq_iff key k).0 t) (get-overwritten name k p q d))
    | inr t ↦ rw t (
        ap (λ o. if str_eq name k then some q else o) (get-set_key name key p d)
        ∙ get-behind name key k p q (get name d) t)
  ]

  -- No key is there twice.
  abbrev HasDistinctKeys : Dict V → Type ℓ
  HasDistinctKeys [] = Unit
  HasDistinctKeys ((k, p) ∷ d) = (get k d ≡ none) × HasDistinctKeys d

  get-update :
      (name : String) (d e : Dict V)
      → HasDistinctKeys e
      → get name (update d e) ≡ or_else (get name e) (get name d)
  get-update name d [] h = refl
  get-update name d ((k, p) ∷ e) (h, hs) =
      get-update name (set_key k p d) e hs
      ∙ ap (or_else (get name e)) (get-set_key name k p d)
      ∙ elim (Bool-cases (str_eq name k)) [
        | inl t ↦ rw t (rw (ap (λ n. get n e) ((eq_iff name k).0 t) ∙ h) refl)
        | inr t ↦ rw t refl
      ]

  generated-HasDistinctKeys : (g : Generated V) → HasDistinctKeys (generated_parameters g)
  generated-HasDistinctKeys plain = tt
  generated-HasDistinctKeys (of_task a b c d e f) =
      (refl, (refl, (refl, (refl, (refl, (refl, tt))))))
  generated-HasDistinctKeys (of_flow d t) = (refl, (refl, tt))
  generated-HasDistinctKeys (of_server h p m) = (refl, (refl, (refl, tt)))

  find_own-get :
      (name : String) (g : Generated V) → find_own name g ≡ get name (generated_parameters g)
  find_own-get name plain = refl
  find_own-get name (of_task a b c d e f) = refl
  find_own-get name (of_flow d t) = refl
  find_own-get name (of_server h p m) = refl

  or_else_twice : (a b c : Option (Parameter V)) → c ≡ or_else a b → or_else a c ≡ c
  or_else_twice none b c h = refl
  or_else_twice (some p) b c h = sym h

  find_generated_parameter-get :
      (name : String) (l : Level V)
      → find_generated_parameter name l ≡ get name (generated_parameters_only l)
  unfolding find_generated_parameter
  find_generated_parameter-get name l = elim (Bool-cases (is_server l.generated)) [
    | inl t ↦ rw t (find_own-get name l.generated)
    | inr t ↦ rw t (
        or_else_twice (find_own name l.generated) (get name (update [] (of_repeat l.repeat))) _ (
          get-update name (update [] (of_repeat l.repeat)) (generated_parameters l.generated)
            (generated-HasDistinctKeys l.generated)
          ∙ ap (λ o. or_else o (get name (update [] (of_repeat l.repeat))))
              (sym (find_own-get name l.generated))))
  ]

  find_parameter-get :
      (name : String) (l : Level V) → find_parameter name l ≡ get name (parameters_only l)
  unfolding find_parameter parameters_only
  find_parameter-get name l =
      ap (or_else (get name l.user_parameters)) (find_generated_parameter-get name l)
      ∙ sym (get-merge name l.user_parameters (generated_parameters_only l))

  get-add_bunch :
      (name : String) (d : Dict V) (b : Option (Level V))
      → get name (add_bunch d b) ≡ or_else (get name d) (find_in_bunch name b)
  get-add_bunch name d none = sym (or_else-none (get name d))
  get-add_bunch name d (some b) =
      get-merge name d (parameters_only b)
      ∙ ap (or_else (get name d)) (sym (find_parameter-get name b))

  get-add_levels :
      (name : String) (d : Dict V) (ls : List (Level V)) (b : Option (Level V))
      → get name (add_levels d ls b) ≡ or_else (get name d) (find_parent_parameter name ls b)
  unfolding add_levels find_parent_parameter
  get-add_levels name d [] b = get-add_bunch name d b
  get-add_levels name d (l ∷ ls) b =
      get-add_levels name (merge d (parameters_only l)) ls b
      ∙ ap (λ o. or_else o (find_parent_parameter name ls b))
          (get-merge name d (parameters_only l)
            ∙ ap (or_else (get name d)) (sym (find_parameter-get name l)))
      ∙ or_else_assoc (get name d) (find_parameter name l) (find_parent_parameter name ls b)

  get-parameters :
      (name : String) (l : Level V) (ls : List (Level V)) (b : Option (Level V))
      → get name (parameters l ls b) ≡ find_parent_parameter name (l ∷ ls) b
  unfolding parameters find_parent_parameter
  get-parameters name l ls b =
      get-add_levels name (parameters_only l) ls b
      ∙ ap (λ o. or_else o (find_parent_parameter name ls b)) (sym (find_parameter-get name l))

  or_else_again : (a b : Option (Parameter V)) → or_else (or_else a b) b ≡ or_else a b
  or_else_again none none = refl
  or_else_again none (some p) = refl
  or_else_again (some p) b = refl

  -- The search for a parameter by its name, at a node, up its ancestors and in the bunch, finds what the
  -- dictionary of all parameters that the node can read has under this name; of a flow too, which asks
  -- the bunch a second time.
  pub find_parent_parameter-parameters :
      (name : String) (l : Level V) (ls : List (Level V)) (b : Option (Level V))
      → (find_parent_parameter name (l ∷ ls) b ≡ get name (parameters l ls b))
        × (find_flow_parameter name l b ≡ get name (parameters l [] b))
  unfolding find_flow_parameter
  find_parent_parameter-parameters name l ls b = (
    sym (get-parameters name l ls b),
    unfold find_parent_parameter in
        or_else_again (find_parameter name l) (find_in_bunch name b)
        ∙ sym (get-parameters name l [] b),
  )
