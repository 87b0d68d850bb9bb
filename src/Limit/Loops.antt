-- ===== src/Limit/Loops.antt =====
-- About the loops over the in-limits of an ancestry (src/takler/core/limit.py and node.py).
use Prim.Native.String.{String}
use text.Mathlib.TextEquality.{eq_iff}
use takler.Prelude.{
  ℕ, ◌≡◌, refl, sym, ap, ◌∙◌, Bool, true, false, List, [], ◌∷◌, ◌++◌, ◌==◌, if◌then◌else◌, Option,
  none, some, arith, inl, inr, Bool-cases,
}
use takler.Limit.{
  Limit, holds, discard, increment, decrement, InLimit, Level, Store, write, is_among, add_limit,
  visit, visit_items, missing, missing_up, increment_levels, decrement_levels, is_nil,
}

-- The tokens of the nearest in-limit of a limit.
abbrev pub nearest : ℕ → List InLimit → Option ℕ
nearest r [] = none
nearest r (i ∷ is) = elim i.limit [
  | none ↦ nearest r is
  | some q ↦ let rest = nearest r is in if q == r then some i.tokens else rest
]

abbrev pub items_up : List Level → List InLimit
items_up [] = []
items_up (l ∷ ls) = l.in_limit_list ++ items_up ls

holds-increment :
    (t : ℕ) (path : String) (l : Limit) → holds path (increment t path l).node_paths ≡ true
unfolding increment
holds-increment t path l = ground (arith, eq_iff path path)

holds-discard : (path : String) (ps : List String) → holds path (discard path ps) ≡ false
holds-discard path [] = refl
holds-discard path (p ∷ ps) = ground (arith, holds-discard path ps)

holds-decrement :
    (t : ℕ) (path : String) (l : Limit) → holds path (decrement t path l).node_paths ≡ false
unfolding decrement
holds-decrement t path l = ground (arith, holds-discard path l.node_paths)

increment_held :
    (t : ℕ) (path : String) (l : Limit) → holds path l.node_paths ≡ true → increment t path l ≡ l
unfolding increment
increment_held t path l h = rw h

pub decrement_free :
    (t : ℕ) (path : String) (l : Limit) → holds path l.node_paths ≡ false → decrement t path l ≡ l
unfolding decrement
decrement_free t path l h = rw h

-- A change to the limits after which one path holds all that were visited, or none.
pub record Settles (b : Bool) (path : String) (op : ℕ → String → Limit → Limit) : Type 0 where
  pub settled : (t : ℕ) (l : Limit) → holds path (op t path l).node_paths ≡ b
  pub again : (t : ℕ) (l : Limit) → holds path l.node_paths ≡ b → op t path l ≡ l

pub increment-Settles : (path : String) → Settles true path increment
increment-Settles path = record {
  settled = λ t l. holds-increment t path l;
  again = λ t l. increment_held t path l;
}

pub decrement-Settles : (path : String) → Settles false path decrement
decrement-Settles path = record {
  settled = λ t l. holds-decrement t path l;
  again = λ t l. decrement_free t path l;
}

module _ {b : Bool} {path : String} {op : ℕ → String → Limit → Limit}
    (rule : Settles b path op) where
  abbrev pub change : Option ℕ → Limit → Limit
  change none l = l
  change (some t) l = op t path l

  abbrev AllSettled : Store × List ℕ → Type 0
  AllSettled st = (q : ℕ) → is_among q st.1 ≡ true → holds path (st.0 q).node_paths ≡ b

  change_settled : (o : Option ℕ) (l : Limit) → holds path l.node_paths ≡ b → change o l ≡ l
  change_settled none l h = refl
  change_settled (some t) l h = rule.again t l h

  write-AllSettled :
      (s : Store) (set : List ℕ) (r t : ℕ)
      → AllSettled (s, set)
      → AllSettled (write r (op t path (s r)) s, add_limit s r set)
  write-AllSettled s set r t h q m = elim (Bool-cases (q == r)) [
    | inl same ↦ rw same (rule.settled t (s r))
    | inr other ↦ rw other (h q (ground arith))
  ]

  visit-AllSettled :
      (item : InLimit) (s : Store) (set : List ℕ)
      → AllSettled (s, set)
      → AllSettled (visit op path item (s, set))
  unfolding visit
  visit-AllSettled item s set h = go item.limit
    where
      go :
          (o : Option ℕ)
          → AllSettled (elim o [
            | none ↦ (s, set)
            | some r ↦
                if is_among r set
                then (s, set)
                else (write r (op item.tokens path (s r)) s, add_limit s r set)
          ])
      go none = h
      go (some r) = elim (Bool-cases (is_among r set)) [
        | inl e ↦ rw e h
        | inr e ↦ rw e (write-AllSettled s set r item.tokens h)
      ]

  -- One round changes the limit that the item names, as the item alone would.
  visit-nearest :
      (item : InLimit) (s : Store) (set : List ℕ) (r : ℕ)
      → AllSettled (s, set)
      → (visit op path item (s, set)).0 r ≡ change (nearest r (item ∷ [])) (s r)
  unfolding visit
  visit-nearest item s set r h = ground (arith, h r, rule.again item.tokens (s r))

  change-change :
      (item : InLimit) (items : List InLimit) (r : ℕ) (l : Limit)
      → change (nearest r items) (change (nearest r (item ∷ [])) l)
        ≡ change (nearest r (item ∷ items)) l
  change-change item items r l =
      ground (
        arith,
        change_settled (nearest r items) (op item.tokens path l) (rule.settled item.tokens l),
      )

  visit_items-AllSettled :
      (items : List InLimit) (s : Store) (set : List ℕ)
      → AllSettled (s, set)
      → AllSettled (visit_items op path items (s, set))
  unfolding visit_items
  visit_items-AllSettled [] s set h = h
  visit_items-AllSettled (i ∷ is) s set h =
      let (s', set') = visit op path i (s, set) in
      visit_items-AllSettled is s' set' (visit-AllSettled i s set h)

  pub visit_items-nearest :
      (items : List InLimit) (s : Store) (set : List ℕ) (r : ℕ)
      → AllSettled (s, set)
      → (visit_items op path items (s, set)).0 r ≡ change (nearest r items) (s r)
  unfolding visit_items
  visit_items-nearest [] s set r h = refl
  visit_items-nearest (i ∷ is) s set r h =
      let (s', set') = visit op path i (s, set) in
      visit_items-nearest is s' set' r (visit-AllSettled i s set h)
      ∙ ap (change (nearest r is)) (visit-nearest i s set r h)
      ∙ change-change i is r (s r)

visit_items-append :
    (op : ℕ → String → Limit → Limit) (path : String) (xs ys : List InLimit) (st : Store × List ℕ)
    → visit_items op path (xs ++ ys) st ≡ visit_items op path ys (visit_items op path xs st)
unfolding visit_items
visit_items-append op path [] ys st = refl
visit_items-append op path (x ∷ xs) ys st = visit_items-append op path xs ys (visit op path x st)

is_nil-append {ℓ} :
    {A : Type ℓ} (xs ys : List A)
    → is_nil (xs ++ ys) ≡ true
    → (is_nil xs ≡ true) × (is_nil ys ≡ true)
is_nil-append [] ys h = (refl, h)
is_nil-append (x ∷ xs) ys h = cc

pub increment_levels-items_up :
    (path : String) (ls : List Level) (st : Store × List ℕ)
    → is_nil (missing_up ls) ≡ true
    → increment_levels path ls st ≡ visit_items increment path (items_up ls) st
unfolding increment_levels visit_items
increment_levels-items_up path [] st h = refl
increment_levels-items_up path (l ∷ ls) st h =
    let (here, above) = is_nil-append (missing l.in_limit_list) (missing_up ls) h in
    rw here (
      increment_levels-items_up path ls (visit_items increment path l.in_limit_list st) above
      ∙ sym (visit_items-append increment path l.in_limit_list (items_up ls) st))

pub decrement_levels-items_up :
    (path : String) (ls : List Level) (st : Store × List ℕ)
    → decrement_levels path ls st ≡ visit_items decrement path (items_up ls) st
unfolding decrement_levels visit_items
decrement_levels-items_up path [] st = refl
decrement_levels-items_up path (l ∷ ls) st =
    decrement_levels-items_up path ls (visit_items decrement path l.in_limit_list st)
    ∙ sym (visit_items-append decrement path l.in_limit_list (items_up ls) st)
