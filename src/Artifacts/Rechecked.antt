-- ===== src/Artifacts/Rechecked.antt =====
-- About the loop of `conflicts` that looks at the recorded links again
-- (src/takler/serialization/artifact_path_index.py).
use Prim.Native.String.{String}
use text.Mathlib.Text.{◌==◌ as str_eq}
use takler.Prelude.{
  ◌≡◌, refl, sym, ap, ◌∙◌, subst, fun_ext, ◌⊎◌, Bool, true, false, List, [], ◌∷◌, Option, none,
  some, is_some, if◌then◌else◌, Bool-cases, Option-cases, inl, inr, All, arith,
}
use takler.Artifacts.{
  Key, key_eq, Disk, ArtifactPathIndex, look_up, update, recheck, refresh, with_value,
}
use takler.Artifacts.Owned.{key_eq_refl, key_eq_sound}
use takler.Artifacts.Updated.{str_eq_sound, Agrees, link, symlinked, IsIndex, update_lem}

-- Each recorded link is found.
abbrev pub IsFound : List (Key × String) → Key × String → Type 0
IsFound s (k, was) = is_some (look_up k s) ≡ true

more-IsFound :
    (e : Key × String) (s l : List (Key × String)) → All (IsFound s) l → All (IsFound (e ∷ s)) l
more-IsFound e s [] h = tt
more-IsFound (j, p) s ((k, was) ∷ l) (h, hs) = (
  elim (Bool-cases (key_eq k j)) [ inl e ↦ rw e refl | inr e ↦ rw e h ],
  more-IsFound (j, p) s l hs,
)

pub All-IsFound : (s : List (Key × String)) → All (IsFound s) s
All-IsFound [] = tt
All-IsFound ((k, p) ∷ s) = (rw (key_eq_refl k) refl, more-IsFound (k, p) s s (All-IsFound s))

module _ (absolute : String → String) (plain : String → Bool) where
  none-link :
      (resolve : Disk) (value : Option String)
      → symlinked absolute plain value ≡ false
      → none ≡ link absolute plain resolve value
  none-link resolve none h = refl
  none-link resolve (some v) h = elim (Bool-cases (plain v)) [
    | inl e ↦ rw e refl
    | inr e ↦ absurd (ground arith)
  ]

  module _ (resolve : Disk) (agrees : Agrees absolute plain resolve)
      (values : Key → Option String) where
    abbrev pub IsFresh : Key → ArtifactPathIndex → Type 0
    IsFresh k i = look_up k i.symlink_fields ≡ link absolute plain resolve (values k)

    -- A link that is still to be looked at is as it is in the list, or fresh.
    abbrev pub Settles : List (Key × String) → ArtifactPathIndex → Type 0
    Settles l i = (k : Key) → (look_up k i.symlink_fields ≡ look_up k l) ⊎ IsFresh k i

    abbrev pub HasValue : Key × String → Type 0
    HasValue (k, was) = is_some (values k) ≡ true

    symlinked-link :
        (o : Option String) (was v : String)
        → o ≡ some was
        → is_some o ≡ symlinked absolute plain (some v)
        → str_eq (resolve v) was ≡ true
        → o ≡ link absolute plain resolve (some v)
    symlinked-link o was v q h r = elim (Bool-cases (plain v)) [
      | inr e ↦ rw (q, e) (ap some (sym (str_eq_sound (resolve v) was r)))
      | inl e ↦ absurd (let m : is_some o ≡ true = ap is_some q in ground arith)
    ]

    next-Settles :
        (k : Key) (was : String) (l : List (Key × String)) (i : ArtifactPathIndex)
        → (look_up k i.symlink_fields ≡ some was → IsFresh k i)
        → Settles ((k, was) ∷ l) i
        → Settles l i
    next-Settles k was l i f s h = elim (Bool-cases (key_eq h k)) [
      | inr e ↦ elim (s h) [
        | inl q ↦ inl (q ∙ ap (λ b. if b then some was else look_up h l) e)
        | inr g ↦ inr g
      ]
      | inl e ↦ inr (
          subst (λ m. IsFresh m i) (sym (key_eq_sound h k e))
            (elim (s k) [
              | inl q ↦ f (q ∙ ap (λ b. if b then some was else look_up k l) (key_eq_refl k))
              | inr g ↦ g
            ]))
    ]

    with_value-same :
        (k : Key) (v : String) → values k ≡ some v → with_value k (some v) values ≡ values
    with_value-same k v e = fun_ext (λ j. elim (Bool-cases (key_eq j k)) [
      | inr d ↦ rw d refl
      | inl d ↦ rw d (sym (ap values (key_eq_sound j k d) ∙ e))
    ])

    rechecked-Settles :
        (k : Key) (was v : String) (l : List (Key × String)) (i : ArtifactPathIndex)
        → values k ≡ some v
        → IsIndex absolute plain values i
        → Settles ((k, was) ∷ l) i
        → (j : ArtifactPathIndex) × (recheck absolute resolve k was (some v) i ≡ some j)
          × IsIndex absolute plain values j
          × Settles l j
    rechecked-Settles k was v l i e w s = elim (Bool-cases (str_eq (resolve v) was)) [
      | inl r ↦ (
        i,
        rw r refl,
        w,
        next-Settles k was l i
            (λ q.
              symlinked-link (look_up k i.symlink_fields) was v q
                (w.links k ∙ ap (symlinked absolute plain) e) r
              ∙ ap (link absolute plain resolve) (sym e))
            s,
      )
      | inr r ↦
          let (j, done, w', same, other) =
            update_lem absolute plain resolve agrees k (some v) values i w in
          let fresh : IsFresh k j = same ∙ ap (link absolute plain resolve) (sym e) in
          (
            j,
            rw r (ap (λ o. update absolute resolve k (some v) o i) (sym e) ∙ done),
            subst (λ u. IsIndex absolute plain u j) (with_value-same k v e) w',
            next-Settles k was l j (λ q. fresh)
                (λ h. elim (Bool-cases (key_eq h k)) [
                  | inl d ↦ inr (subst (λ m. IsFresh m j) (sym (key_eq_sound h k d)) fresh)
                  | inr d ↦ elim (s h) [ inl q ↦ inl (other h d ∙ q) | inr g ↦ inr (other h d ∙ g) ]
                ]),
          )
    ]

    -- The loop ends without an exception, and then every link is recorded as it leads now.
    pub refresh-IsFresh :
        (l : List (Key × String)) (i : ArtifactPathIndex)
        → IsIndex absolute plain values i
        → All HasValue l
        → Settles l i
        → (j : ArtifactPathIndex) × (refresh absolute resolve values l i ≡ some j)
          × IsIndex absolute plain values j
          × ((k : Key) → IsFresh k j)
    unfolding refresh
    refresh-IsFresh [] i w a s = (
      i,
      refl,
      w,
      λ k. elim (s k) [
        | inr g ↦ g
        | inl q ↦ q ∙ none-link resolve (values k) (sym (w.links k) ∙ ap is_some q)
      ],
    )
    refresh-IsFresh ((k, was) ∷ l) i w (h, hs) s = elim (Option-cases (values k)) [
      | inl e ↦ absurd (let m : is_some (values k) ≡ false = ap is_some e in ground arith)
      | inr (v, e) ↦
          let (j, done, w', s') = rechecked-Settles k was v l i e w s in
          let (j', done', w'', f) = refresh-IsFresh l j w' hs s' in (j', rw (e, done) done', w'', f)
    ]
