-- ===== src/Artifacts/Updated.antt =====
-- About updates of the index of artifacts (src/takler/serialization/artifact_path_index.py). A link may come
-- to lead elsewhere, but a path that is no link stays none: this is the assumption of the source.
use Prim.Native.String.{String}
use text.Mathlib.Text.{◌==◌ as str_eq}
use text.Mathlib.TextEquality.{eq_iff}
use takler.Prelude.{
  ◌≡◌, refl, sym, ap, ◌∙◌, Bool, true, false, ◌&&◌, ◌||◌, not, Option, none, some, is_some,
  if◌then◌else◌, Bool-cases, inl, inr, arith,
}
use takler.Prelude.Int.{pos, ◌-ℤ◌}
use takler.Artifacts.{
  Key, key_eq, Disk, Owners, ArtifactPathIndex, look_up, popped, assign, forget, enter, old_path,
  update, with_value,
}
use takler.Artifacts.Owned.{
  key_eq_refl, key_eq_sound, owned, taken_out_lem, owned-added, look_up-popped_same, look_up-popped,
  look_up-append, look_up-append_apart,
}

-- Whether a path is the recorded one.
abbrev pub leads : Option String → String → Bool
leads none p = false
leads (some q) p = str_eq p q

pub str_eq_sound : (p q : String) → str_eq p q ≡ true → p ≡ q
str_eq_sound p q = (eq_iff p q).0

pub str_eq_refl : (p : String) → str_eq p p ≡ true
str_eq_refl p = (eq_iff p p).1 refl

-- A key that is no owner is none of the owners.
not-owned :
    (o : Option Owners) (k j : Key)
    → owned o k ≡ false
    → owned o j ≡ (owned o j && not (key_eq j k))
not-owned o k j h = elim (Bool-cases (key_eq j k)) [
  | inr e ↦ rw e (ground arith)
  | inl e ↦ let same : owned o j ≡ false = ap (owned o) (key_eq_sound j k e) ∙ h in rw same refl
]

-- The key gives up the path that it is recorded under, and nothing else changes.
forget_lem :
    (k : Key) (o : Option String) (i : ArtifactPathIndex)
    → ((p : String) → owned (i.by_path p) k ≡ leads o p)
    → (m : ArtifactPathIndex) × (forget k o i ≡ some m)
      × (m.symlink_fields ≡ i.symlink_fields)
      × ((p : String) (j : Key)
          → owned (m.by_path p) j ≡ (owned (i.by_path p) j && not (key_eq j k)))
forget_lem k none i h = (i, refl, refl, λ p j. not-owned (i.by_path p) k j (h p))
forget_lem k (some q) i h =
    let (o, e, taken) = taken_out_lem k (i.by_path q) (h q ∙ str_eq_refl q) in
    (
      record i { by_path = assign q o i.by_path; entry_count = i.entry_count -ℤ pos 1 },
      rw e refl,
      refl,
      λ p j. elim (Bool-cases (str_eq p q)) [
        | inl s ↦ rw s (
            taken j
            ∙ ap (λ r. owned (i.by_path r) j && not (key_eq j k)) (sym (str_eq_sound p q s)))
        | inr s ↦ rw s (not-owned (i.by_path p) k j (h p ∙ s))
      ],
    )

module _ (absolute : String → String) (plain : String → Bool) where
  -- The links of the disk are the paths that are not plain.
  abbrev pub Agrees : Disk → Type 0
  Agrees resolve = (v : String) → str_eq (resolve v) (absolute v) ≡ plain v

  abbrev pub target : Disk → Option String → Option String
  target resolve none = none
  target resolve (some v) = some (resolve v)

  abbrev pub link : Disk → Option String → Option String
  link resolve none = none
  link resolve (some v) = if plain v then none else some (resolve v)

  abbrev pub symlinked : Option String → Bool
  symlinked none = false
  symlinked (some v) = not (plain v)

  -- The path that a field is recorded under: of its link, or its own.
  abbrev pub recorded : Option String → Option String → Option String
  recorded (some p) value = some p
  recorded none none = none
  recorded none (some v) = some (absolute v)

  -- Each field is an owner of the path that it is recorded under, and of no other; and the links are those
  -- of the fields with a path that is not plain.
  pub record IsIndex (values : Key → Option String) (i : ArtifactPathIndex) : Type 0 where
    pub owners :
        (p : String) (k : Key)
        → owned (i.by_path p) k ≡ leads (recorded (look_up k i.symlink_fields) (values k)) p
    pub links : (k : Key) → is_some (look_up k i.symlink_fields) ≡ symlinked (values k)

  module _ (resolve : Disk) (agrees : Agrees resolve) where
    old_path-recorded :
        (o value : Option String)
        → is_some o ≡ symlinked value
        → old_path absolute resolve o value ≡ recorded o value
    old_path-recorded (some p) value h = refl
    old_path-recorded none none h = refl
    old_path-recorded none (some v) h =
        ap some (str_eq_sound (resolve v) (absolute v) (agrees v ∙ ground arith))

    pub recorded-link :
        (value : Option String) → recorded (link resolve value) value ≡ target resolve value
    recorded-link none = refl
    recorded-link (some v) = elim (Bool-cases (plain v)) [
      | inr e ↦ rw e refl
      | inl e ↦ rw e (ap some (sym (str_eq_sound (resolve v) (absolute v) (agrees v ∙ e))))
    ]

    link-symlinked : (value : Option String) → is_some (link resolve value) ≡ symlinked value
    link-symlinked none = refl
    link-symlinked (some v) = elim (Bool-cases (plain v)) [ inl e ↦ rw e refl | inr e ↦ rw e refl ]

    enter-owned :
        (k : Key) (value : Option String) (m : ArtifactPathIndex) (p : String) (j : Key)
        → owned ((enter absolute resolve k value m).by_path p) j
          ≡ (owned (m.by_path p) j || (key_eq j k && leads (target resolve value) p))
    enter-owned k none m p j = ground arith
    enter-owned k (some v) m p j = elim (Bool-cases (str_eq p (resolve v))) [
      | inr e ↦ rw e (ground arith)
      | inl e ↦ rw e (
          owned-added j k (m.by_path (resolve v))
          ∙ (let same : owned (m.by_path (resolve v)) j ≡ owned (m.by_path p) j =
                ap (λ q. owned (m.by_path q) j) (sym (str_eq_sound p (resolve v) e)) in
              rw same (ground arith)))
    ]

    enter-same_link :
        (k : Key) (value : Option String) (m : ArtifactPathIndex)
        → look_up k m.symlink_fields ≡ none
        → look_up k (enter absolute resolve k value m).symlink_fields ≡ link resolve value
    enter-same_link k none m h = h
    enter-same_link k (some v) m h = rw (agrees v) (elim (Bool-cases (plain v)) [
      | inl e ↦ rw e h
      | inr e ↦ rw e (look_up-append k k (resolve v) m.symlink_fields h ∙ rw (key_eq_refl k) refl)
    ])

    enter-other_link :
        (k j : Key) (value : Option String) (m : ArtifactPathIndex)
        → key_eq j k ≡ false
        → look_up j (enter absolute resolve k value m).symlink_fields ≡ look_up j m.symlink_fields
    enter-other_link k j none m h = refl
    enter-other_link k j (some v) m h = elim (Bool-cases (str_eq (resolve v) (absolute v))) [
      | inl e ↦ rw e refl
      | inr e ↦ rw e (look_up-append_apart j k (resolve v) m.symlink_fields h)
    ]

    -- What holds an index together after a change of one key's path and link.
    changed-IsIndex :
        (k : Key) (value : Option String) (values : Key → Option String) (i n : ArtifactPathIndex)
        → IsIndex values i
        → ((p : String) (j : Key)
            → owned (n.by_path p) j ≡ (
                (owned (i.by_path p) j && not (key_eq j k))
                || (key_eq j k && leads (target resolve value) p)))
        → look_up k n.symlink_fields ≡ link resolve value
        → ((h : Key) → key_eq h k ≡ false → look_up h n.symlink_fields ≡ look_up h i.symlink_fields)
        → IsIndex (with_value k value values) n
    changed-IsIndex k value values i n w own same other = record {
      owners = λ p j. own p j ∙ elim (Bool-cases (key_eq j k)) [
        | inr e ↦ rw (e, other j e) (ground (arith, w.owners p j))
        | inl e ↦
            let same' : look_up j n.symlink_fields ≡ link resolve value =
              ap (λ h. look_up h n.symlink_fields) (key_eq_sound j k e) ∙ same in
            rw (e, same') (rw (recorded-link value) (ground arith))
      ];
      links = λ j. elim (Bool-cases (key_eq j k)) [
        | inr e ↦ rw (e, other j e) (w.links j)
        | inl e ↦
            let same' : look_up j n.symlink_fields ≡ link resolve value =
              ap (λ h. look_up h n.symlink_fields) (key_eq_sound j k e) ∙ same in
            rw (e, same') (link-symlinked value)
      ];
    }

    -- An update from the field's own value is done without an exception, records the new value, and leaves
    -- the links of the other fields.
    pub update_lem :
        (k : Key) (value : Option String) (values : Key → Option String) (i : ArtifactPathIndex)
        → IsIndex values i
        → (j : ArtifactPathIndex) × (update absolute resolve k value (values k) i ≡ some j)
          × IsIndex (with_value k value values) j
          × (look_up k j.symlink_fields ≡ link resolve value)
          × ((h : Key)
              → key_eq h k ≡ false
              → look_up h j.symlink_fields ≡ look_up h i.symlink_fields)
    unfolding update
    update_lem k value values i w =
        let o = look_up k i.symlink_fields in
        let old : old_path absolute resolve o (values k) ≡ recorded o (values k) =
          old_path-recorded o (values k) (w.links k) in
        let i' : ArtifactPathIndex = record i { symlink_fields = popped k i.symlink_fields } in
        let (m, e, links, owners) = forget_lem k (recorded o (values k)) i' (λ p. w.owners p k) in
        let gone : look_up k m.symlink_fields ≡ none =
          ap (look_up k) links ∙ look_up-popped_same k i.symlink_fields in
        let same = enter-same_link k value m gone in
        let other : (h : Key)
            → key_eq h k ≡ false
            → look_up h (enter absolute resolve k value m).symlink_fields
              ≡ look_up h i.symlink_fields =
          λ h d.
            enter-other_link k h value m d
            ∙ (ap (look_up h) links ∙ look_up-popped h k i.symlink_fields d) in
        (
          enter absolute resolve k value m,
          rw old (rw e refl),
          changed-IsIndex k value values i (enter absolute resolve k value m) w
              (λ p j.
                enter-owned k value m p j
                ∙ ap (λ b. b || (key_eq j k && leads (target resolve value) p)) (owners p j))
              same other,
          same,
          other,
        )
