-- ===== src/Journal/Complete.antt =====
-- About `since` after sequences of calls (src/takler/server/query_changes.py).
use Prim.Native.String.{String}
use takler.Prelude.{
  ℕ, ◌-◌, ◌<◌, ◌≡◌, refl, Bool, ◌||◌, ◌&&◌, not, List, [], ◌∷◌, ltb, ◌==◌, if◌then◌else◌, Option,
  none, some, Bool-cases, inl, inr, ◌⊎◌, arith,
}
use takler.Journal.{
  QueryChange, ChangeBatch, QueryChanges, is_none, new_changes, is_over, drop_oldest, expire_from,
  expire, begin, add_pending, bounded, finish, mark, newer, since,
}
use takler.Journal.Runs.{IsRun, IsValid, expire-IsValid, close-IsValid, newer-IsRun}

-- What an answer of `since` may say: the revision is out of the journal's reach, or the batches lead
-- from it to the current one.
abbrev pub Leads : ℕ → QueryChanges → Option (List ChangeBatch) → Type 0
Leads r q none = (r < q.oldest_revision) ⊎ (q.revision < r)
Leads r q (some bs) = IsRun r bs q.revision

pub new-IsValid : IsValid new_changes
new-IsValid = record { run = refl; changes_counted = refl; bytes_counted = refl }

expire_from-revision :
    (now : ℕ) (bs : List ChangeBatch) (q : QueryChanges)
    → (expire_from now bs q).revision ≡ q.revision
unfolding expire_from
expire_from-revision now [] q = refl
expire_from-revision now (b ∷ bs) q = elim (Bool-cases (is_over now q b)) [
  | inl over ↦ rw over (expire_from-revision now bs (drop_oldest q b bs))
  | inr kept ↦ rw kept refl
]

since-Leads :
    (now r : ℕ) (q : QueryChanges)
    → IsValid q
    → Leads r (since now r q).0 (since now r q).1 × ((since now r q).0.revision ≡ q.revision)
unfolding since expire
since-Leads now r q h =
    (go (expire now q) (expire-IsValid now q h), expire_from-revision now q.batches q)
  where
    go :
        (q' : QueryChanges)
        → IsValid q'
        → Leads r q' (
            if ltb r q'.oldest_revision || ltb q'.revision r
            then none
            else some (newer r q'.batches))
    go q' h' = elim (Bool-cases (ltb r q'.oldest_revision)) [
      | inl low ↦ simp low (inl (ground arith))
      | inr not_low ↦ elim (Bool-cases (ltb q'.revision r)) [
        | inl high ↦ simp (not_low, high) (inr (ground arith))
        | inr not_high ↦
            simp (not_low, not_high)
              (newer-IsRun q'.oldest_revision q'.batches q'.revision r h'.run (ground arith)
                (ground arith))
      ]
    ]

-- What a caller of the journal does. A call that raises leaves the journal as it is.
pub data Use : Type 0 where
  mark_one : ℕ → QueryChange → Use
  enter : Use
  end : ℕ → Use
  read : ℕ → ℕ → Use

abbrev pub or_same : QueryChanges → Option QueryChanges → QueryChanges
or_same q none = q
or_same q (some q') = q'

module _ (utf8_length : String → ℕ) (is_canonical : String → Bool) where
  unfoldable pub use_one : Use → QueryChanges → QueryChanges
  use_one (mark_one now c) q = or_same q (mark utf8_length is_canonical now c q)
  use_one enter q = begin q
  use_one (end now) q = or_same q (finish utf8_length now q)
  use_one (read now r) q = (since now r q).0

  unfoldable pub use_all : List Use → QueryChanges → QueryChanges
  use_all [] q = q
  use_all (u ∷ us) q = use_all us (use_one u q)

  mark-IsValid :
      (now : ℕ) (c : QueryChange) (q : QueryChanges)
      → IsValid q
      → IsValid (or_same q (mark utf8_length is_canonical now c q))
  unfolding mark
  mark-IsValid now c q h = elim (Bool-cases (is_canonical c.path)) [
    | inr e ↦ simp e h
    | inl e ↦ elim (Bool-cases (is_none c.groups && not c.invalidate)) [
      | inl e' ↦ simp (e, e') h
      | inr e' ↦
          simp (e, e')
            (close-IsValid utf8_length now
              (record q { pending = add_pending (bounded utf8_length c) q.pending })
              (record {
                run = h.run;
                changes_counted = h.changes_counted;
                bytes_counted = h.bytes_counted;
              }))
    ]
  ]

  finish-IsValid :
      (now : ℕ) (q : QueryChanges) → IsValid q → IsValid (or_same q (finish utf8_length now q))
  unfolding finish
  finish-IsValid now q h = elim (Bool-cases (q.depth == 0)) [
    | inl e ↦ rw e h
    | inr e ↦ rw e (
        close-IsValid utf8_length now (record q { depth = q.depth - 1 })
          (record {
            run = h.run;
            changes_counted = h.changes_counted;
            bytes_counted = h.bytes_counted;
          }))
  ]

  since-IsValid : (now r : ℕ) (q : QueryChanges) → IsValid q → IsValid (since now r q).0
  unfolding since
  since-IsValid now r q h = expire-IsValid now q h

  pub use_one-IsValid : (u : Use) (q : QueryChanges) → IsValid q → IsValid (use_one u q)
  unfolding use_one begin
  use_one-IsValid (mark_one now c) q h = mark-IsValid now c q h
  use_one-IsValid enter q h = record {
    run = h.run;
    changes_counted = h.changes_counted;
    bytes_counted = h.bytes_counted;
  }
  use_one-IsValid (end now) q h = finish-IsValid now q h
  use_one-IsValid (read now r) q h = since-IsValid now r q h

  pub use_all-IsValid : (us : List Use) (q : QueryChanges) → IsValid q → IsValid (use_all us q)
  unfolding use_all
  use_all-IsValid [] q h = h
  use_all-IsValid (u ∷ us) q h = use_all-IsValid us (use_one u q) (use_one-IsValid u q h)

  -- Whatever the calls were, a reader of revision r is either sent away, and then r is older than what
  -- the journal kept or newer than the journal itself, or gets exactly one batch for each revision
  -- after r, in order, up to the current one. The reading changes no revision.
  pub since_lem :
      (us : List Use) (now r : ℕ)
      → (Leads r (since now r (use_all us new_changes)).0 (since now r (use_all us new_changes)).1)
        × ((since now r (use_all us new_changes)).0.revision ≡ (use_all us new_changes).revision)
  since_lem us now r =
      let h : IsValid (use_all us new_changes) = use_all-IsValid us new_changes new-IsValid in
      since-Leads now r (use_all us new_changes) h
