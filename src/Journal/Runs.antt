-- ===== src/Journal/Runs.antt =====
-- About the batches and the totals of the journal (src/takler/server/query_changes.py).
use Prim.Native.String.{String}
use takler.Prelude.{
  ℕ, ◌+◌, ◌≤◌, ◌≡◌, refl, ap, ◌∙◌, true, List, [], ◌∷◌, ◌++◌, length, ltb, ◌==◌, Bool-cases, inl,
  inr, arith,
}
use takler.Journal.{
  ChangeBatch, QueryChanges, is_over, drop_oldest, expire_from, expire, append_batch, commit, close,
  newer, size_of,
}

-- One batch for each revision above the first number, in order, up to the last.
abbrev pub IsRun : ℕ → List ChangeBatch → ℕ → Type 0
IsRun r [] last = r ≡ last
IsRun r (b ∷ bs) last = (b.revision ≡ r + 1) × IsRun b.revision bs last

abbrev pub changes_in : List ChangeBatch → ℕ
changes_in [] = 0
changes_in (b ∷ bs) = length b.changes + changes_in bs

abbrev pub bytes_in : List ChangeBatch → ℕ
bytes_in [] = 0
bytes_in (b ∷ bs) = b.estimated_bytes + bytes_in bs

-- The batches are those of the revisions after the oldest, and the two totals are theirs.
pub record IsValid (q : QueryChanges) : Type 0 where
  pub run : IsRun q.oldest_revision q.batches q.revision
  pub changes_counted : q.retained_changes ≡ changes_in q.batches
  pub bytes_counted : q.retained_bytes ≡ bytes_in q.batches

IsRun-le : (r : ℕ) (bs : List ChangeBatch) (last : ℕ) → IsRun r bs last → r ≤ last
IsRun-le r [] last h = omega arith
IsRun-le r (b ∷ bs) last (e, h) = omega (arith, IsRun-le b.revision bs last h)

IsRun-append :
    (r : ℕ) (bs : List ChangeBatch) (last : ℕ) (b : ChangeBatch)
    → IsRun r bs last
    → b.revision ≡ last + 1
    → IsRun r (bs ++ b ∷ []) (last + 1)
IsRun-append r [] last b h e = (omega arith, e)
IsRun-append r (c ∷ bs) last b (e', h) e = (e', IsRun-append c.revision bs last b h e)

changes_in-append :
    (bs : List ChangeBatch) (b : ChangeBatch)
    → changes_in (bs ++ b ∷ []) ≡ changes_in bs + length b.changes
changes_in-append [] b = omega arith
changes_in-append (c ∷ bs) b = omega (arith, changes_in-append bs b)

bytes_in-append :
    (bs : List ChangeBatch) (b : ChangeBatch)
    → bytes_in (bs ++ b ∷ []) ≡ bytes_in bs + b.estimated_bytes
bytes_in-append [] b = omega arith
bytes_in-append (c ∷ bs) b = omega (arith, bytes_in-append bs b)

expire_from-IsValid :
    (now : ℕ) (bs : List ChangeBatch) (q : QueryChanges)
    → q.batches ≡ bs
    → IsValid q
    → IsValid (expire_from now bs q)
unfolding expire_from
expire_from-IsValid now [] q e h = h
expire_from-IsValid now (b ∷ bs) q e h = elim (Bool-cases (is_over now q b)) [
  | inl over ↦ rw over (expire_from-IsValid now bs (drop_oldest q b bs) refl (dropped b bs q e h))
  | inr kept ↦ rw kept h
]
  where
    dropped :
        (b : ChangeBatch) (bs : List ChangeBatch) (q : QueryChanges)
        → q.batches ≡ b ∷ bs
        → IsValid q
        → IsValid (drop_oldest q b bs)
    dropped b bs q e h =
        let r : IsRun q.oldest_revision (b ∷ bs) q.revision = rw e at h.run in
        let c : q.retained_changes ≡ changes_in (b ∷ bs) = h.changes_counted ∙ rw e in
        let y : q.retained_bytes ≡ bytes_in (b ∷ bs) = h.bytes_counted ∙ rw e in
        record { run = r.1; changes_counted = omega arith; bytes_counted = omega arith }

pub expire-IsValid : (now : ℕ) (q : QueryChanges) → IsValid q → IsValid (expire now q)
unfolding expire
expire-IsValid now q h = expire_from-IsValid now q.batches q refl h

pub append_batch-IsValid :
    (utf8_length : String → ℕ) (now : ℕ) (q : QueryChanges)
    → IsValid q
    → IsValid (append_batch utf8_length now q)
append_batch-IsValid utf8_length now q h =
    let b : ChangeBatch = record {
      revision = q.revision + 1;
      changes = q.pending;
      created_at = now;
      estimated_bytes = size_of utf8_length q.pending;
    } in
    record {
      run = IsRun-append q.oldest_revision q.batches q.revision b h.run refl;
      changes_counted = omega (arith, changes_in-append q.batches b, h.changes_counted);
      bytes_counted = omega (arith, bytes_in-append q.batches b, h.bytes_counted);
    }

commit-IsValid :
    (utf8_length : String → ℕ) (now : ℕ) (q : QueryChanges)
    → IsValid q
    → IsValid (commit utf8_length now q)
unfolding commit
commit-IsValid utf8_length now q h = elim (Bool-cases (length q.pending == 0)) [
  | inl e ↦ rw e h
  | inr e ↦ rw e (
      expire-IsValid now (append_batch utf8_length now q)
        (append_batch-IsValid utf8_length now q h))
]

pub close-IsValid :
    (utf8_length : String → ℕ) (now : ℕ) (q : QueryChanges)
    → IsValid q
    → IsValid (close utf8_length now q)
close-IsValid utf8_length now q h = elim (Bool-cases (q.depth == 0)) [
  | inl e ↦ rw e (commit-IsValid utf8_length now q h)
  | inr e ↦ rw e h
]

newer-whole :
    (r r' : ℕ) (bs : List ChangeBatch) (last : ℕ) → IsRun r' bs last → r ≤ r' → newer r bs ≡ bs
newer-whole r r' [] last h l = refl
newer-whole r r' (b ∷ bs) last (e, h) l =
    let above : ltb r b.revision ≡ true = ground arith in
    rw above (ap (λ rest. b ∷ rest) (newer-whole r b.revision bs last h (omega arith)))

-- Of a run, the batches above a number inside it are the run from that number.
pub newer-IsRun :
    (r₀ : ℕ) (bs : List ChangeBatch) (last r : ℕ)
    → IsRun r₀ bs last
    → r₀ ≤ r
    → r ≤ last
    → IsRun r (newer r bs) last
newer-IsRun r₀ [] last r h l l' = omega arith
newer-IsRun r₀ (b ∷ bs) last r (e, h) l l' = elim (Bool-cases (ltb r b.revision)) [
  | inl above ↦ rw above (rw (newer-whole r b.revision bs last h (ground arith)) (ground arith, h))
  | inr not_above ↦ rw not_above (newer-IsRun b.revision bs last r h (ground arith) l')
]
