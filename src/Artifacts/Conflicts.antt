-- ===== src/Artifacts/Conflicts.antt =====
-- About the question whether another task has one of some paths, `conflicts`, after any changes of fields
-- (src/takler/serialization/artifact_path_index.py, core/task_node.py).
use Prim.Native.String.{String}
use takler.Prelude.{
  ℕ, ◌==◌, ◌≡◌, refl, sym, ap, ◌∙◌, subst, fun_ext, ◌↔◌, Bool, true, false, List, [], ◌∷◌, Option,
  none, some, is_some, bind, Bool-cases, inl, inr, All, arith,
}
use takler.Artifacts.{
  Key, key_eq, Disk, ArtifactPathIndex, any_foreign, conflicts, State, with_value, same_value,
  set_attribute, empty,
}
use takler.Artifacts.Owned.{key_eq_sound, owned}
use takler.Artifacts.Updated.{
  leads, str_eq_sound, str_eq_refl, Agrees, target, symlinked, recorded, IsIndex, recorded-link,
  update_lem,
}
use takler.Artifacts.Rechecked.{IsFound, All-IsFound, HasValue, refresh-IsFresh}
use takler.Artifacts.Foreign.{is_foreign_iff, has_path, any_foreign_iff}

-- A field of another task leads to one of the paths.
abbrev pub Rival : Disk → (Key → Option String) → ℕ → List String → Type 0
Rival resolve values owner paths =
    (k : Key) × (v : String) × (values k ≡ some v)
    × (has_path (resolve v) paths ≡ true)
    × ((k.0 == owner) ≡ false)

-- A field is set, or a submission asks.
pub data Call : Type 0 where
  set : Key → Option String → Call
  ask : ℕ → List String → Call

abbrev answered : (Key → Option String) → Option (ArtifactPathIndex × Bool) → Option State
answered values none = none
answered values (some (i, b)) = some (values, i)

module _ (absolute : String → String) where
  unfoldable pub run : List (Disk × Call) → State → Option State
  unfolding set_attribute conflicts
  run [] s = some s
  run ((resolve, set k value) ∷ cs) s = bind (set_attribute absolute resolve k value s) (run cs)
  run ((resolve, ask owner paths) ∷ cs) (values, i) =
      bind (answered values (conflicts absolute resolve values owner paths i)) (run cs)

module _ (absolute : String → String) (plain : String → Bool) where
  empty-IsIndex : IsIndex absolute plain (λ k. none) empty
  empty-IsIndex = record { owners = λ p k. refl; links = λ k. refl }

  same_value_sound : (o o' : Option String) → same_value o o' ≡ true → o ≡ o'
  same_value_sound none none h = refl
  same_value_sound none (some v) h = absurd (ground arith)
  same_value_sound (some u) none h = absurd (ground arith)
  same_value_sound (some u) (some v) h = ap some (str_eq_sound u v h)

  module _ (resolve : Disk) (agrees : Agrees absolute plain resolve) where
    set_attribute-IsIndex :
        (k : Key) (value : Option String) (values : Key → Option String) (i : ArtifactPathIndex)
        → IsIndex absolute plain values i
        → (j : ArtifactPathIndex) × (set_attribute absolute resolve k value (values, i)
            ≡ some (with_value k value values, j))
          × IsIndex absolute plain (with_value k value values) j
    unfolding set_attribute
    set_attribute-IsIndex k value values i w = elim (Bool-cases (same_value (values k) value)) [
      | inr e ↦
          let (j, done, w', _, _) = update_lem absolute plain resolve agrees k value values i w in
          (j, rw e (rw done refl), w')
      | inl e ↦ (
        i,
        rw e refl,
        subst (λ u. IsIndex absolute plain u i)
            (sym (
              fun_ext (λ j. elim (Bool-cases (key_eq j k)) [
                | inr d ↦ rw d refl
                | inl d ↦
                    rw d
                      (sym (ap values (key_eq_sound j k d) ∙ same_value_sound (values k) value e))
              ])))
            w,
      )
    ]

    found-HasValue :
        (values : Key → Option String) (i : ArtifactPathIndex) (l : List (Key × String))
        → IsIndex absolute plain values i
        → All (IsFound i.symlink_fields) l
        → All (HasValue absolute plain resolve agrees values) l
    found-HasValue values i [] w h = tt
    found-HasValue values i ((k, was) ∷ l) w (h, hs) =
        (has_value (values k) (sym (w.links k) ∙ h), found-HasValue values i l w hs)
      where
        has_value : (o : Option String) → symlinked absolute plain o ≡ true → is_some o ≡ true
        has_value none e = e
        has_value (some v) e = refl

    target-leads :
        (o : Option String) (p : String)
        → leads (target absolute plain resolve o) p ≡ true
        → (v : String) × (o ≡ some v) × (p ≡ resolve v)
    target-leads none p h = absurd (ground arith)
    target-leads (some v) p h = (v, refl, str_eq_sound p (resolve v) h)

    any_foreign-Rival :
        (values : Key → Option String) (j : ArtifactPathIndex) (owner : ℕ) (paths : List String)
        → ((p : String) (k : Key)
            → owned (j.by_path p) k ≡ leads (target absolute plain resolve (values k)) p)
        → (any_foreign owner paths j ≡ true) ↔ Rival resolve values owner paths
    any_foreign-Rival values j owner paths current = (
      λ h.
          let (p, m, f) = (any_foreign_iff owner paths j).0 h in
          let (k, o, d) = (is_foreign_iff owner (j.by_path p)).0 f in
          let (v, e, q) = target-leads (values k) p (sym (current p k) ∙ o) in
          (k, v, e, subst (λ r. has_path r paths ≡ true) q m, d),
      λ (k, v, e, m, d).
          let o : owned (j.by_path (resolve v)) k ≡ true =
            current (resolve v) k
            ∙ (ap (λ u. leads (target absolute plain resolve u) (resolve v)) e
                ∙ str_eq_refl (resolve v)) in
          (any_foreign_iff owner paths j).1
            (resolve v, m, (is_foreign_iff owner (j.by_path (resolve v))).1 (k, o, d)),
    )

    conflicts-IsIndex :
        (values : Key → Option String) (i : ArtifactPathIndex) (owner : ℕ) (paths : List String)
        → IsIndex absolute plain values i
        → (j : ArtifactPathIndex) × (conflicts absolute resolve values owner paths i
            ≡ some (j, any_foreign owner paths j))
          × IsIndex absolute plain values j
          × ((any_foreign owner paths j ≡ true) ↔ Rival resolve values owner paths)
    unfolding conflicts
    conflicts-IsIndex values i owner paths w =
        let has = found-HasValue values i i.symlink_fields w (All-IsFound i.symlink_fields) in
        let (j, done, w', fresh) =
          refresh-IsFresh absolute plain resolve agrees values i.symlink_fields i w has
            (λ k. inl refl) in
        (
          j,
          rw done refl,
          w',
          any_foreign-Rival values j owner paths (λ p k.
              w'.owners p k
              ∙ (ap (λ o. leads (recorded absolute plain o (values k)) p) (fresh k)
                  ∙ ap (λ o. leads o p) (recorded-link absolute plain resolve agrees (values k)))),
        )

  abbrev pub AgreesAt : Disk × Call → Type 0
  AgreesAt (resolve, c) = Agrees absolute plain resolve

  run-IsIndex :
      (cs : List (Disk × Call)) (values : Key → Option String) (i : ArtifactPathIndex)
      → All AgreesAt cs
      → IsIndex absolute plain values i
      → (s : State) × (run absolute cs (values, i) ≡ some s) × IsIndex absolute plain s.0 s.1
  unfolding run
  run-IsIndex [] values i a w = ((values, i), refl, w)
  run-IsIndex ((resolve, set k value) ∷ cs) values i (a, at) w =
      let (j, done, w') = set_attribute-IsIndex resolve a k value values i w in
      let (s, done', w'') = run-IsIndex cs (with_value k value values) j at w' in
      (s, rw done done', w'')
  run-IsIndex ((resolve, ask owner paths) ∷ cs) values i (a, at) w =
      let (j, done, w', _) = conflicts-IsIndex resolve a values i owner paths w in
      let (s, done', w'') = run-IsIndex cs values j at w' in (s, rw done done', w'')

  -- After any course of changes of fields and of questions, none of which raises, the answer to a question
  -- is yes exactly if a field of another task leads to one of the paths now. Links may come to lead
  -- elsewhere between the steps, but a path that is no link stays none.
  pub conflicts-run :
      (cs : List (Disk × Call)) (resolve : Disk) (owner : ℕ) (paths : List String)
      → All AgreesAt cs
      → Agrees absolute plain resolve
      → (s : State) × (run absolute cs (λ k. none, empty) ≡ some s)
        × (b : Bool) × (j : ArtifactPathIndex) × (conflicts absolute resolve s.0 owner paths s.1
            ≡ some (j, b))
        × ((b ≡ true) ↔ Rival resolve s.0 owner paths)
  conflicts-run cs resolve owner paths at a =
      let (s, done, w) = run-IsIndex cs (λ k. none) empty at empty-IsIndex in
      let (j, asked, _, iff) = conflicts-IsIndex resolve a s.0 s.1 owner paths w in
      (s, done, any_foreign owner paths j, j, asked, iff)
