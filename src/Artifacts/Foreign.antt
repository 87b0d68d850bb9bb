-- ===== src/Artifacts/Foreign.antt =====
-- About the owners of paths that are of another task
-- (src/takler/serialization/artifact_path_index.py).
use Prim.Native.String.{String}
use text.Mathlib.Text.{◌==◌ as str_eq}
use takler.Prelude.{
  ℕ, ◌==◌, ◌≡◌, sym, ap, ◌∙◌, ◌↔◌, Bool, true, false, ◌||◌, List, [], ◌∷◌, Option, none, some,
  Bool-cases, inl, inr, arith,
}
use takler.Artifacts.{
  Key, key_eq, Owners, one, many, ArtifactPathIndex, any_other, has_key, is_foreign, any_foreign,
}
use takler.Artifacts.Owned.{key_eq_refl, key_eq_sound, owned}
use takler.Artifacts.Updated.{str_eq_sound, str_eq_refl}

-- Another task is an owner.
any_other_iff :
    (owner : ℕ) (ks : List Key)
    → (any_other owner ks ≡ true) ↔ ((k : Key) × (has_key k ks ≡ true) × ((k.0 == owner) ≡ false))
any_other_iff owner [] = (λ h. absurd (ground arith), λ r. absurd (let e = r.1 in ground arith))
any_other_iff owner (j ∷ ks) = (
  λ h. elim (Bool-cases (j.0 == owner)) [
    | inr e ↦ (j, (let m = key_eq_refl j in ground arith), e)
    | inl e ↦ let (k, m, d) = (any_other_iff owner ks).0 (ground arith) in (k, ground arith, d)
  ],
  λ (k, m, d). elim (Bool-cases (key_eq k j)) [
    | inl e ↦
        let same : (j.0 == owner) ≡ false =
          ap (λ (i : Key). i.0 == owner) (sym (key_eq_sound k j e)) ∙ d in
        ground arith
    | inr e ↦ let rest = (any_other_iff owner ks).1 (k, ground arith, d) in ground arith
  ],
)

pub is_foreign_iff :
    (owner : ℕ) (o : Option Owners)
    → (is_foreign owner o ≡ true) ↔ ((k : Key) × (owned o k ≡ true) × ((k.0 == owner) ≡ false))
is_foreign_iff owner none = (λ h. absurd (ground arith), λ r. absurd (let e = r.1 in ground arith))
is_foreign_iff owner (some (one j)) = (
  λ h. (j, key_eq_refl j, ground arith),
  λ (k, m, d).
      let same : (j.0 == owner) ≡ false =
        ap (λ (i : Key). i.0 == owner) (sym (key_eq_sound k j m)) ∙ d in
      ground arith,
)
is_foreign_iff owner (some (many ks)) = any_other_iff owner ks

abbrev pub has_path : String → List String → Bool
has_path p [] = false
has_path p (q ∷ qs) = str_eq p q || has_path p qs

pub any_foreign_iff :
    (owner : ℕ) (ps : List String) (i : ArtifactPathIndex)
    → (any_foreign owner ps i ≡ true)
      ↔ ((p : String) × (has_path p ps ≡ true) × (is_foreign owner (i.by_path p) ≡ true))
any_foreign_iff owner [] i = (λ h. absurd (ground arith), λ r. absurd (let e = r.1 in ground arith))
any_foreign_iff owner (q ∷ ps) i = (
  λ h. elim (Bool-cases (is_foreign owner (i.by_path q))) [
    | inl e ↦ (q, (let m = str_eq_refl q in ground arith), e)
    | inr e ↦ let (p, m, f) = (any_foreign_iff owner ps i).0 (ground arith) in (p, ground arith, f)
  ],
  λ (p, m, f). elim (Bool-cases (str_eq p q)) [
    | inl e ↦
        let same : is_foreign owner (i.by_path q) ≡ true =
          ap (λ r. is_foreign owner (i.by_path r)) (sym (str_eq_sound p q e)) ∙ f in
        ground arith
    | inr e ↦ let rest = (any_foreign_iff owner ps i).1 (p, ground arith, f) in ground arith
  ],
)
