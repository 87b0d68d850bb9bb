-- ===== src/Limit/Reserve.antt =====
-- About the check, the reservation and the release of one node's tokens (src/takler/core/node.py).
use Prim.Native.String.{String}
use text.Mathlib.TextEquality.{eq_iff}
use takler.Prelude.{
  ℕ, ◌+◌, ◌≤◌, ◌≡◌, refl, sym, ap, ◌∙◌, ◌⊎◌, true, false, List, [], ◌∷◌, ◌++◌, if◌then◌else◌,
  Option, none, some, arith, inl, inr, Bool-cases, fun_ext, bind, bind_assoc, is_some,
}
use takler.Limit.{
  Limit, holds, discard, increment, decrement, InLimit, Level, Store, is_among, missing_up,
  check_items, check_levels, is_nil, names, check_item, resolve_up, check_in_limit_up,
  increment_in_limit, decrement_in_limit,
}
use takler.Limit.Loops.{
  nearest, items_up, change, increment-Settles, decrement-Settles, decrement_free,
  visit_items-nearest, increment_levels-items_up, decrement_levels-items_up,
}

-- The check goes over the in-limits of all levels as over one list.
check_items-append :
    (s : Store) (path : String) (xs ys : List InLimit) (seen : List ℕ)
    → check_items s path (xs ++ ys) seen ≡ bind (check_items s path xs seen) (check_items s path ys)
unfolding check_items
check_items-append s path [] ys seen = refl
check_items-append s path (x ∷ xs) ys seen =
    ap (bind (check_item s path x seen)) (fun_ext (check_items-append s path xs ys))
    ∙ sym (bind_assoc (check_item s path x seen) (check_items s path xs) (check_items s path ys))

check_levels-items_up :
    (s : Store) (path : String) (ls : List Level) (seen : List ℕ)
    → check_levels s path ls seen ≡ check_items s path (items_up ls) seen
unfolding check_levels check_items
check_levels-items_up s path [] seen = refl
check_levels-items_up s path (l ∷ ls) seen =
    ap (bind (check_items s path l.in_limit_list seen)) (fun_ext (check_levels-items_up s path ls))
    ∙ sym (check_items-append s path l.in_limit_list (items_up ls) seen)

-- The tokens that the path still needs of a limit.
abbrev pub needed : String → Limit → ℕ → ℕ
needed path l t = if holds path l.node_paths then 0 else t

-- A reference that is not seen yet is either not this item's, or its limit has room.
check_item_room :
    (s : Store) (path : String) (item : InLimit) (seen seen' : List ℕ) (r : ℕ)
    → check_item s path item seen ≡ some seen'
    → is_among r seen ≡ false
    → ((nearest r (item ∷ []) ≡ none) × (is_among r seen' ≡ false))
      ⊎ ((nearest r (item ∷ []) ≡ some item.tokens)
          × ((s r).value + needed path (s r) item.tokens ≤ (s r).limit))
unfolding check_item
check_item_room s path item seen seen' r h n = ground arith

check_items_room :
    (s : Store) (path : String) (items : List InLimit) (seen : List ℕ) (r t : ℕ)
    → is_some (check_items s path items seen) ≡ true
    → is_among r seen ≡ false
    → nearest r items ≡ some t
    → (s r).value + needed path (s r) t ≤ (s r).limit
unfolding check_items
check_items_room s path [] seen r t h n e = cc
check_items_room s path (i ∷ is) seen r t h n e =
    go (check_item s path i seen) refl (λ seen'. check_items_room s path is seen' r t)
  where
    go :
        (o : Option (List ℕ))
        → check_item s path i seen ≡ o
        → ((seen' : List ℕ)
            → is_some (check_items s path is seen') ≡ true
            → is_among r seen' ≡ false
            → nearest r is ≡ some t
            → (s r).value + needed path (s r) t ≤ (s r).limit)
        → (s r).value + needed path (s r) t ≤ (s r).limit
    go none q ih = cc
    go (some seen') q ih = elim (check_item_room s path i seen seen' r q n) [
      | inl (other, fresh) ↦ ih seen' (rw q at h) fresh (ground arith)
      | inr (this, fits) ↦ ground arith
    ]

module _ (reference : List Level → String → Option (List ℕ)) where
  -- The in-limits of the node and its ancestors, as the operations see them.
  abbrev pub effective : Store → List Level → List InLimit
  effective s levels = items_up (resolve_up reference (names s) levels)

  -- Reserving changes each limit by its nearest in-limit, or nothing if a reference is missing.
  pub increment_in_limit-nearest :
      (path : String) (levels : List Level) (s : Store) (r : ℕ)
      → increment_in_limit reference path levels s r ≡ (
          if is_nil (missing_up (resolve_up reference (names s) levels))
          then change (increment-Settles path) (nearest r (effective s levels)) (s r)
          else s r)
  unfolding increment_in_limit
  increment_in_limit-nearest path levels s r =
      elim (Bool-cases (is_nil (missing_up (resolve_up reference (names s) levels)))) [
        | inl e ↦
            rw (e, increment_levels-items_up path (resolve_up reference (names s) levels) (s, []) e)
              (visit_items-nearest (increment-Settles path) (effective s levels) s [] r (λ q m. cc))
        | inr e ↦ rw e
      ]

  -- Releasing changes each limit by its nearest in-limit.
  pub decrement_in_limit-nearest :
      (path : String) (levels : List Level) (s : Store) (r : ℕ)
      → decrement_in_limit reference path levels s r
        ≡ change (decrement-Settles path) (nearest r (effective s levels)) (s r)
  unfolding decrement_in_limit
  decrement_in_limit-nearest path levels s r =
      ap (λ st. st.0 r)
        (decrement_levels-items_up path (resolve_up reference (names s) levels) (s, []))
      ∙ (visit_items-nearest (decrement-Settles path) (effective s levels) s [] r (λ q m. cc))

  name-change :
      (path : String) (o : Option ℕ) (l : Limit)
      → (change (increment-Settles path) o l).name ≡ l.name
  name-change path none l = refl
  name-change path (some t) l = unfold increment in ground arith

  name-increment_in_limit :
      (path : String) (levels : List Level) (s : Store) (r : ℕ)
      → (increment_in_limit reference path levels s r).name ≡ (s r).name
  name-increment_in_limit path levels s r =
      rw (increment_in_limit-nearest path levels s r)
        (elim (Bool-cases (is_nil (missing_up (resolve_up reference (names s) levels)))) [
          | inl e ↦ rw e (name-change path (nearest r (effective s levels)) (s r))
          | inr e ↦ rw e
        ])

  effective-increment_in_limit :
      (path : String) (levels : List Level) (s : Store)
      → effective (increment_in_limit reference path levels s) levels ≡ effective s levels
  effective-increment_in_limit path levels s =
      ap (λ named. items_up (resolve_up reference named levels))
        (fun_ext (name-increment_in_limit path levels s))

  increment_fits :
      (path : String) (o : Option ℕ) (l : Limit)
      → l.value ≤ l.limit
      → ((t : ℕ) → o ≡ some t → l.value + needed path l t ≤ l.limit)
      → (change (increment-Settles path) o l).value ≤ (change (increment-Settles path) o l).limit
  increment_fits path none l h fits = h
  increment_fits path (some t) l h fits = unfold increment in ground (arith, fits t refl)

  -- Where no limit holds more tokens than its capacity and the check of the ancestry passes,
  -- reserving the tokens leaves no limit with more tokens than its capacity.
  pub check_in_limit_up_capacity :
      (s : Store) (path : String) (levels : List Level)
      → ((r : ℕ) → (s r).value ≤ (s r).limit)
      → check_in_limit_up reference s path levels ≡ true
      → (r : ℕ)
      → (increment_in_limit reference path levels s r).value
        ≤ (increment_in_limit reference path levels s r).limit
  unfolding check_in_limit_up
  check_in_limit_up_capacity s path levels h ok r =
      rw (increment_in_limit-nearest path levels s r)
        (elim (Bool-cases (is_nil (missing_up (resolve_up reference (names s) levels)))) [
          | inl e ↦ rw e (
              increment_fits path (nearest r (effective s levels)) (s r) (h r) λ t n.
                check_items_room s path (effective s levels) [] r t
                  (rw (e, check_levels-items_up s path (resolve_up reference (names s) levels) [])
                    at ok)
                  refl n)
          | inr e ↦ rw e (h r)
        ])

  discard_free : (path : String) (ps : List String) → holds path ps ≡ false → discard path ps ≡ ps
  discard_free path [] h = refl
  discard_free path (p ∷ ps) h = ground (arith, discard_free path ps)

  undo :
      (path : String) (o : Option ℕ) (l : Limit)
      → holds path l.node_paths ≡ false
      → change (decrement-Settles path) o (change (increment-Settles path) o l) ≡ l
  undo path none l h = refl
  undo path (some t) l h =
      unfold increment decrement in ground (arith, eq_iff path path, discard_free path l.node_paths)

  settled_free :
      (path : String) (o : Option ℕ) (l : Limit)
      → holds path l.node_paths ≡ false
      → change (decrement-Settles path) o l ≡ l
  settled_free path none l h = refl
  settled_free path (some t) l h = decrement_free t path l h

  -- Releasing what was just reserved gives back the store as it was, where the path held nothing:
  -- the counters and the sets of paths of all limits, also when a reference is missing.
  pub decrement-increment :
      (path : String) (levels : List Level) (s : Store)
      → ((r : ℕ) → holds path (s r).node_paths ≡ false)
      → decrement_in_limit reference path levels (increment_in_limit reference path levels s) ≡ s
  decrement-increment path levels s free = fun_ext λ r.
      decrement_in_limit-nearest path levels (increment_in_limit reference path levels s) r
      ∙ rw (effective-increment_in_limit path levels s, increment_in_limit-nearest path levels s r)
          (elim (Bool-cases (is_nil (missing_up (resolve_up reference (names s) levels)))) [
            | inl e ↦ rw e (undo path (nearest r (effective s levels)) (s r) (free r))
            | inr e ↦ rw e (settled_free path (nearest r (effective s levels)) (s r) (free r))
          ])
