-- ===== src/Limit/Holders.antt =====
-- About the counter of a limit and the tasks that hold it, over courses of starts and ends
-- (src/takler/core/limit.py and task_node.py).
use Prim.Native.String.{String}
use text.Mathlib.Text.{◌==◌ as str_eq}
use text.Mathlib.TextEquality.{eq_iff}
use takler.Prelude.{
  ℕ, ◌+◌, ◌≤◌, ◌≡◌, refl, sym, ap, Bool, true, false, List, [], ◌∷◌, ltb, if◌then◌else◌, Option,
  none, some, arith, inl, inr, Bool-cases, fun_ext, subst,
}
use takler.Limit.{
  Limit, new_limit, holds, discard, increment, decrement, Level, Store, names, missing_up, is_nil,
  resolve_up, check_in_limit_up, increment_in_limit, decrement_in_limit,
}
use takler.Limit.Loops.{Settles, nearest, items_up, change, increment-Settles, decrement-Settles}
use takler.Limit.Reserve.{
  increment_in_limit-nearest, decrement_in_limit-nearest, check_in_limit_up_capacity,
}

-- What the scheduler does to a task's reservation: `Task.run` reserves after a check that passes and
-- fails otherwise; a status that is forced to submitted or active reserves with no check; a task that
-- ends or is requeued releases.
pub data Action : Type 0 where
  start force finish : (path : String) → Action

abbrev pub or_zero : Option ℕ → ℕ
or_zero none = 0
or_zero (some t) = t

module _ (reference : List Level → String → Option (List ℕ)) (ancestry : String → List Level) where
  unfoldable pub perform : Action → Store → Store
  perform (start p) s =
      if check_in_limit_up reference s p (ancestry p)
      then increment_in_limit reference p (ancestry p) s
      else s
  perform (force p) s = increment_in_limit reference p (ancestry p) s
  perform (finish p) s = decrement_in_limit reference p (ancestry p) s

  unfoldable pub performs : List Action → Store → Store
  unfolding perform
  performs [] s = s
  performs (a ∷ rest) s = performs rest (perform a s)

  -- The tokens that a task takes of a limit, by its nearest in-limit.
  abbrev pub tokens_of : (ℕ → String) → String → ℕ → ℕ
  tokens_of named p r = or_zero (nearest r (items_up (resolve_up reference named (ancestry p))))

  abbrev pub total : (ℕ → String) → ℕ → List String → ℕ
  total named r [] = 0
  total named r (p ∷ ps) = tokens_of named p r + total named r ps

-- A set kept as a list names each path once.
abbrev pub IsDistinct : List String → Type 0
IsDistinct [] = Unit
IsDistinct (p ∷ ps) = (holds p ps ≡ false) × IsDistinct ps

holds-discard_other :
    (p q : String) (ps : List String) → holds q ps ≡ false → holds q (discard p ps) ≡ false
holds-discard_other p q [] h = refl
holds-discard_other p q (x ∷ ps) h = ground (arith, holds-discard_other p q ps)

IsDistinct-discard : (p : String) (ps : List String) → IsDistinct ps → IsDistinct (discard p ps)
IsDistinct-discard p [] h = tt
IsDistinct-discard p (q ∷ ps) h = elim (Bool-cases (str_eq p q)) [
  | inl e ↦ rw e (IsDistinct-discard p ps h.1)
  | inr e ↦ rw e (holds-discard_other p q ps h.0, IsDistinct-discard p ps h.1)
]

discard_free : (p : String) (ps : List String) → holds p ps ≡ false → discard p ps ≡ ps
discard_free p [] h = refl
discard_free p (q ∷ ps) h = ground (arith, discard_free p ps)

module _ (reference : List Level → String → Option (List ℕ)) (ancestry : String → List Level)
    (named : ℕ → String) where
  total-discard :
      (r : ℕ) (p : String) (ps : List String)
      → IsDistinct ps
      → holds p ps ≡ true
      → total reference ancestry named r (discard p ps) + tokens_of reference ancestry named p r
        ≡ total reference ancestry named r ps
  total-discard r p [] h e = cc
  total-discard r p (q ∷ ps) (fresh, h) e = elim (Bool-cases (str_eq p q)) [
    | inl same ↦
        let eq : p ≡ q = (eq_iff p q).0 same in
        let free : holds p ps ≡ false = rw eq fresh in
        rw (same, discard_free p ps free)
          (omega (arith, ap (λ x. tokens_of reference ancestry named x r) eq))
    | inr other ↦ rw other (omega (arith, total-discard r p ps h (rw other at e)))
  ]

  -- The counter of the limit is the sum over the paths that hold it.
  pub record IsAccounted (r : ℕ) (l : Limit) : Type 0 where
    pub name_kept : l.name ≡ named r
    pub distinct : IsDistinct l.node_paths
    pub exact : l.value ≡ total reference ancestry named r l.node_paths

  increment-IsAccounted :
      (r : ℕ) (l : Limit) (p : String) (t : ℕ)
      → tokens_of reference ancestry named p r ≡ t
      → IsAccounted r l
      → IsAccounted r (increment t p l)
  unfolding increment
  increment-IsAccounted r l p t e h = elim (Bool-cases (holds p l.node_paths)) [
    | inl held ↦ rw held h
    | inr free ↦ rw free (record {
      name_kept = h.name_kept;
      distinct = (free, h.distinct);
      exact = omega (arith, h.exact, e);
    })
  ]

  decrement-IsAccounted :
      (r : ℕ) (l : Limit) (p : String) (t : ℕ)
      → tokens_of reference ancestry named p r ≡ t
      → IsAccounted r l
      → IsAccounted r (decrement t p l)
  unfolding decrement
  decrement-IsAccounted r l p t e h = elim (Bool-cases (holds p l.node_paths)) [
    | inl held ↦
        let sum = total-discard r p l.node_paths h.distinct held in
        elim (Bool-cases (ltb l.value t)) [
          | inl short ↦ absurd (ground (arith, h.exact))
          | inr enough ↦
              rw (held, enough)
                (record {
                  name_kept = h.name_kept;
                  distinct = IsDistinct-discard p l.node_paths h.distinct;
                  exact = omega (arith, h.exact, e, sum);
                })
        ]
    | inr free ↦ rw free h
  ]

  change-IsAccounted :
      (b : Bool) (op : ℕ → String → Limit → Limit) (p : String) (rule : Settles b p op)
      → ((r : ℕ) (l : Limit) (t : ℕ)
          → tokens_of reference ancestry named p r ≡ t
          → IsAccounted r l
          → IsAccounted r (op t p l))
      → (named' : ℕ → String) → named' ≡ named
      → (r : ℕ) (l : Limit) → IsAccounted r l
      → IsAccounted r
          (change rule (nearest r (items_up (resolve_up reference named' (ancestry p)))) l)
  change-IsAccounted b op p rule keep named' same r l h =
      subst
        (λ n.
          IsAccounted r
            (change rule (nearest r (items_up (resolve_up reference n (ancestry p)))) l))
        (sym same) (go (nearest r (items_up (resolve_up reference named (ancestry p)))) refl)
    where
      go :
          (o : Option ℕ)
          → nearest r (items_up (resolve_up reference named (ancestry p))) ≡ o
          → IsAccounted r (change rule o l)
      go none e = h
      go (some t) e = keep r l t (ap or_zero e) h

  module _ (s : Store) (h : (r : ℕ) → IsAccounted r (s r)) (p : String) (r : ℕ) where
    increment_in_limit-IsAccounted : IsAccounted r (increment_in_limit reference p (ancestry p) s r)
    increment_in_limit-IsAccounted =
        rw (increment_in_limit-nearest reference p (ancestry p) s r)
          (elim (Bool-cases (is_nil (missing_up (resolve_up reference (names s) (ancestry p))))) [
            | inl e ↦ rw e (
                change-IsAccounted true increment p (increment-Settles p)
                  (λ q l t. increment-IsAccounted q l p t) (names s)
                  (fun_ext (λ q. (h q).name_kept)) r (s r) (h r))
            | inr e ↦ rw e (h r)
          ])

    decrement_in_limit-IsAccounted : IsAccounted r (decrement_in_limit reference p (ancestry p) s r)
    decrement_in_limit-IsAccounted = rw (decrement_in_limit-nearest reference p (ancestry p) s r) (
        change-IsAccounted false decrement p (decrement-Settles p)
          (λ q l t. decrement-IsAccounted q l p t) (names s) (fun_ext (λ q. (h q).name_kept)) r
          (s r) (h r))

  perform-IsAccounted :
      (a : Action) (s : Store)
      → ((r : ℕ) → IsAccounted r (s r))
      → (r : ℕ) → IsAccounted r (perform reference ancestry a s r)
  unfolding perform
  perform-IsAccounted (finish p) s h r = decrement_in_limit-IsAccounted s h p r
  perform-IsAccounted (force p) s h r = increment_in_limit-IsAccounted s h p r
  perform-IsAccounted (start p) s h r =
      elim (Bool-cases (check_in_limit_up reference s p (ancestry p))) [
        | inl e ↦ rw e (increment_in_limit-IsAccounted s h p r)
        | inr e ↦ rw e (h r)
      ]

  performs-IsAccounted :
      (actions : List Action) (s : Store)
      → ((r : ℕ) → IsAccounted r (s r))
      → (r : ℕ) → IsAccounted r (performs reference ancestry actions s r)
  unfolding performs
  performs-IsAccounted [] s h = h
  performs-IsAccounted (a ∷ rest) s h =
      performs-IsAccounted rest (perform reference ancestry a s) (perform-IsAccounted a s h)

  -- Limits as they are created.
  abbrev pub fresh : (ℕ → ℕ) → Store
  fresh capacity r = new_limit (named r) (capacity r)

  -- Over any course of starts, forced starts and ends, in any order, the counter of a limit is the
  -- sum of the tokens of the tasks whose paths it holds, each held once: no token is lost or
  -- released twice.
  pub performs_exact :
      (capacity : ℕ → ℕ) (actions : List Action) (r : ℕ)
      → let l = performs reference ancestry actions (fresh capacity) r in
        (l.value ≡ total reference ancestry named r l.node_paths) × IsDistinct l.node_paths
  performs_exact capacity actions r =
      let h =
        performs-IsAccounted actions (fresh capacity)
          (λ q. record { name_kept = refl; distinct = tt; exact = refl }) r in
      (h.exact, h.distinct)

-- No start is forced.
abbrev pub IsChecked : List Action → Type 0
IsChecked [] = Unit
IsChecked (start p ∷ rest) = IsChecked rest
IsChecked (force p ∷ rest) = ⊥
IsChecked (finish p ∷ rest) = IsChecked rest

module _ (reference : List Level → String → Option (List ℕ)) (ancestry : String → List Level) where
  decrement_fits :
      (p : String) (o : Option ℕ) (l : Limit)
      → l.value ≤ l.limit
      → (change (decrement-Settles p) o l).value ≤ (change (decrement-Settles p) o l).limit
  decrement_fits p none l h = h
  decrement_fits p (some t) l h = unfold decrement in ground arith

  performs_fit :
      (actions : List Action) (s : Store)
      → IsChecked actions
      → ((r : ℕ) → (s r).value ≤ (s r).limit)
      → (r : ℕ)
      → (performs reference ancestry actions s r).value
        ≤ (performs reference ancestry actions s r).limit
  unfolding performs
  performs_fit [] s c h = h
  performs_fit (force p ∷ rest) s c h = absurd c
  performs_fit (finish p ∷ rest) s c h =
      performs_fit rest (perform reference ancestry (finish p) s) c λ r.
        unfold perform in
        rw (decrement_in_limit-nearest reference p (ancestry p) s r)
          (decrement_fits p _ (s r) (h r))
  performs_fit (start p ∷ rest) s c h =
      performs_fit rest (perform reference ancestry (start p) s) c λ r.
        unfold perform in
        elim (Bool-cases (check_in_limit_up reference s p (ancestry p))) [
          | inl e ↦ rw e (check_in_limit_up_capacity reference s p (ancestry p) h e r)
          | inr e ↦ rw e (h r)
        ]

  -- Over any course of starts that pass the check of `Task.run`, refused starts and ends, the tokens
  -- of the tasks that hold a limit are together at most its capacity.
  pub performs_capacity :
      (named : ℕ → String) (capacity : ℕ → ℕ) (actions : List Action)
      → IsChecked actions
      → (r : ℕ)
      → let l = performs reference ancestry actions (fresh reference ancestry named capacity) r in
        total reference ancestry named r l.node_paths ≤ l.limit
  performs_capacity named capacity actions c r = omega (
    arith,
    performs_exact reference ancestry named capacity actions r,
    performs_fit actions (fresh reference ancestry named capacity) c (λ q. omega arith) r,
  )
