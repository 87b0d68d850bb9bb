-- ===== src/Artifacts/Owned.antt =====
-- About the owners of a path and the recorded links (src/takler/serialization/artifact_path_index.py).
use Prim.Native.String.{String}
use takler.Prelude.{
  ◌≡◌, refl, sym, ap, ◌∙◌, subst, Bool, true, false, ◌&&◌, ◌||◌, not, List, [], ◌∷◌, ◌++◌, Option,
  none, some, if◌then◌else◌, Bool-cases, inl, inr, arith,
}
use takler.Artifacts.{
  Field, job_path, jobout_path, orvix_info_path, rank, Key, key_eq, Owners, one, many, has_key,
  without, look_up, popped, shrunk, taken_out, added,
}

rank_injective : (f g : Field) → rank f ≡ rank g → f ≡ g
rank_injective job_path job_path h = refl
rank_injective jobout_path jobout_path h = refl
rank_injective orvix_info_path orvix_info_path h = refl
rank_injective job_path jobout_path h = ground arith
rank_injective job_path orvix_info_path h = ground arith
rank_injective jobout_path job_path h = ground arith
rank_injective jobout_path orvix_info_path h = ground arith
rank_injective orvix_info_path job_path h = ground arith
rank_injective orvix_info_path jobout_path h = ground arith

pub key_eq_refl : (k : Key) → key_eq k k ≡ true
key_eq_refl (t, f) = ground arith

pub key_eq_sound : (j k : Key) → key_eq j k ≡ true → j ≡ k
key_eq_sound (t, f) (u, g) h =
    let e : t ≡ u = ground arith in let e' : f ≡ g = rank_injective f g (ground arith) in cc

-- Whether a key owns a path of which these are the owners.
abbrev pub owned : Option Owners → Key → Bool
owned none j = false
owned (some (one k)) j = key_eq j k
owned (some (many ks)) j = has_key j ks

-- Two keys that differ are not both the same key.
key_eq-apart : (i j k : Key) → key_eq k i ≡ false → (key_eq j i && key_eq j k) ≡ false
key_eq-apart i j k e = elim (Bool-cases (key_eq j i)) [
  | inr h ↦ rw h refl
  | inl h ↦ elim (Bool-cases (key_eq j k)) [
    | inr h' ↦ rw (h, h') refl
    | inl h' ↦
        let p = key_eq_sound j i h in
        let q = key_eq_sound j k h' in
        absurd (let r = key_eq_refl i in let m : key_eq k i ≡ true = cc in cc)
  ]
]

has_key-without :
    (j k : Key) (ks : List Key) → has_key j (without k ks) ≡ (has_key j ks && not (key_eq j k))
has_key-without j k [] = refl
has_key-without j k (i ∷ ks) = elim (Bool-cases (key_eq k i)) [
  | inl e ↦
      let ih = has_key-without j k ks in
      let same : key_eq j k ≡ key_eq j i = ap (key_eq j) (key_eq_sound k i e) in rw e (ground arith)
  | inr e ↦
      let ih = has_key-without j k ks in let apart = key_eq-apart i j k e in rw e (ground arith)
]

owned-shrunk : (j : Key) (ks : List Key) → owned (some (shrunk ks)) j ≡ has_key j ks
owned-shrunk j [] = refl
owned-shrunk j (k ∷ []) = ground arith
owned-shrunk j (i ∷ k ∷ ks) = refl

-- An owner is taken out without an exception, and alone.
pub taken_out_lem :
    (k : Key) (o : Option Owners)
    → owned o k ≡ true
    → (o' : Option Owners) × (taken_out k o ≡ some o')
      × ((j : Key) → owned o' j ≡ (owned o j && not (key_eq j k)))
taken_out_lem k none h = absurd (ground arith)
taken_out_lem k (some (one i)) h = (
  none,
  rw h refl,
  λ j. let same : key_eq j k ≡ key_eq j i = ap (key_eq j) (key_eq_sound k i h) in ground arith,
)
taken_out_lem k (some (many ks)) h = (
  some (shrunk (without k ks)),
  rw h refl,
  λ j. owned-shrunk j (without k ks) ∙ has_key-without j k ks,
)

-- A key that is added is an owner beside the others.
pub owned-added :
    (j k : Key) (o : Option Owners) → owned (some (added k o)) j ≡ (owned o j || key_eq j k)
owned-added j k none = refl
owned-added j k (some (one i)) = elim (Bool-cases (key_eq k i)) [
  | inl e ↦
      let same : key_eq j k ≡ key_eq j i = ap (key_eq j) (key_eq_sound k i e) in rw e (ground arith)
  | inr e ↦ rw e (ground arith)
]
owned-added j k (some (many ks)) = elim (Bool-cases (has_key k ks)) [
  | inr e ↦ rw e (ground arith)
  | inl e ↦ rw e (elim (Bool-cases (key_eq j k)) [
    | inr h ↦ ground arith
    | inl h ↦
        let same : has_key j ks ≡ has_key k ks = ap (λ i. has_key i ks) (key_eq_sound j k h) in
        ground arith
  ])
]

pub look_up-popped_same : (k : Key) (s : List (Key × String)) → look_up k (popped k s) ≡ none
look_up-popped_same k [] = refl
look_up-popped_same k ((j, p) ∷ s) = elim (Bool-cases (key_eq k j)) [
  | inl e ↦ rw e (look_up-popped_same k s)
  | inr e ↦ rw e (rw e (look_up-popped_same k s))
]

pub look_up-popped :
    (j k : Key) (s : List (Key × String))
    → key_eq j k ≡ false
    → look_up j (popped k s) ≡ look_up j s
look_up-popped j k [] h = refl
look_up-popped j k ((i, p) ∷ s) h = elim (Bool-cases (key_eq k i)) [
  | inl e ↦
      let differ : key_eq j i ≡ false = ap (key_eq j) (sym (key_eq_sound k i e)) ∙ h in
      rw (e, differ) (look_up-popped j k s h)
  | inr e ↦ rw e (ap (λ o. if key_eq j i then some p else o) (look_up-popped j k s h))
]

pub look_up-append :
    (j k : Key) (p : String) (s : List (Key × String))
    → look_up j s ≡ none
    → look_up j (s ++ ((k, p) ∷ [])) ≡ (if key_eq j k then some p else none)
look_up-append j k p [] h = refl
look_up-append j k p ((i, q) ∷ s) h = elim (Bool-cases (key_eq j i)) [
  | inl e ↦ absurd (
      let m : some q ≡ none = subst (λ b. (if b then some q else look_up j s) ≡ none) e h in
      ground arith)
  | inr e ↦
      rw e (look_up-append j k p s (subst (λ b. (if b then some q else look_up j s) ≡ none) e h))
]

pub look_up-append_apart :
    (j k : Key) (p : String) (s : List (Key × String))
    → key_eq j k ≡ false
    → look_up j (s ++ ((k, p) ∷ [])) ≡ look_up j s
look_up-append_apart j k p [] h = rw h refl
look_up-append_apart j k p ((i, q) ∷ s) h =
    ap (λ o. if key_eq j i then some q else o) (look_up-append_apart j k p s h)
