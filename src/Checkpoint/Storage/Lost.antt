-- ===== src/Checkpoint/Storage/Lost.antt =====
-- About the states of the files from which a write of a checkpoint loses what could be restored
-- (src/takler/server/checkpoint.py).
use takler.Prelude.{
  ℕ, suc, ◌≡◌, ◌<◌, refl, true, false, Option, none, some, arith, ◌==◌, leb, Bool-cases, inl, inr,
  if◌then◌else◌,
}
use takler.Checkpoint.Storage.{
  Files, whole, Plan, put, same_file, is_overtaken, links, read, Publisher, publish_prepared,
  write_checkpoint, start,
}
use takler.Checkpoint.Storage.Rotated.{IsBelow, IsBelow-suc, apart_fresh}
use takler.Checkpoint.Restore.{Reader, restore_error, candidate, restore}

-- A write of which the last step fails, and no step before it.
abbrev pub stopping : {C : Type 0} → Plan C → Plan C
stopping p = record p {
  ensure_parent_directory = true;
  write_temp_file = whole;
  copy = whole;
  replace_backup = true;
  replace_checkpoint = false;
}

-- Files whose checkpoint is there.
abbrev pub with_checkpoint : {C : Type 0} → ℕ → Files C → Files C
with_checkpoint i f = record f { checkpoint_file = some i }

-- The files after such a write by a server that has just started: the backup is a copy of the checkpoint.
abbrev rotated_out : {C : Type 0} → C → C → ℕ → Files C → Option ℕ → Option ℕ → Files C
rotated_out blank payload i f m b =
    let written = put f.fresh payload f.contents in
    let emptied = put (suc f.fresh) blank written in
    record {
      contents = put (suc f.fresh) (emptied i) emptied;
      fresh = suc (suc f.fresh);
      checkpoint_file = some i;
      backup_file = some (suc f.fresh);
      main_temp = m;
      backup_temp = b;
    }

module _ {C : Type 0} (blank payload : C) (p : Plan C) where
  stopping-files :
      (k i : ℕ) (f : Files C)
      → same_file (some (suc f.fresh)) f.backup_file ≡ false
      → (m b : Option ℕ) × ((write_checkpoint blank payload
            (suc k)
            (stopping p)
            (start none (with_checkpoint i f))).0.files
          ≡ rotated_out blank payload i f m b)
  unfolding write_checkpoint
  stopping-files k i f apart =
      let e : leb (suc k) 0 ≡ false = ground arith in
      elim (Bool-cases p.killed) [
        | inl l ↦ (some f.fresh, none, rw (e, apart) (rw l refl))
        | inr l ↦ (
          if p.unlink_main then none else some f.fresh,
          if p.unlink_backup then none else none,
          rw (e, apart) (rw l refl),
        )
      ]

module _ {C B : Type 0} (r : Reader C B) (blank payload : C) (p : Plan C) where
  copied-lost :
      (i : ℕ) (f : Files C) (m b : Option ℕ)
      → i < f.fresh
      → candidate r (some (f.contents i)) ≡ none
      → restore r (rotated_out blank payload i f m b) ≡ restore_error
  unfolding restore
  copied-lost i f m b l c =
      let e : (i == suc f.fresh) ≡ false = ground arith in
      let e' : (i == f.fresh) ≡ false = ground arith in
      let e'' : (suc f.fresh == suc f.fresh) ≡ true = ground arith in rw (e, e', e'') (rw c refl)

  -- If the checkpoint is there and cannot be restored, then a first write of a server that finds no
  -- temporary backup of its name and fails at its last step, and only there, leaves nothing that
  -- can be restored, whatever the backup was.
  pub write_checkpoint-loses_backup :
      (k i : ℕ) (f : Files C)
      → i < f.fresh
      → IsBelow f.backup_file f.fresh
      → candidate r (some (f.contents i)) ≡ none
      → restore r
          (write_checkpoint blank payload
            (suc k)
            (stopping p)
            (start none (with_checkpoint i f))).0.files
        ≡ restore_error
  write_checkpoint-loses_backup k i f l below c =
      let apart =
        apart_fresh f.backup_file (suc f.fresh) (IsBelow-suc f.backup_file f.fresh below) in
      let (m, b, e) = stopping-files blank payload p k i f apart in rw e (copied-lost i f m b l c)

-- Files whose temporary backup is still a link to the checkpoint.
abbrev pub with_stale_link : {C : Type 0} → ℕ → Files C → Files C
with_stale_link i f = record f { checkpoint_file = some i; backup_temp = some i }

module _ {C : Type 0} (blank : C) (p : Plan C) where
  -- If a link that an earlier write made as its temporary backup is still there, then a write that fails at
  -- its last step, and only there, leaves an empty checkpoint.
  pub publish_prepared-empties :
      (n i : ℕ) (m : Publisher C)
      → is_overtaken n m ≡ false
      → leb n m.last_attempted_sequence ≡ false
      → let g =
          (publish_prepared blank n
            (stopping p)
            (record m { files = with_stale_link i m.files })).0.files in
        read g g.checkpoint_file ≡ some blank
  unfolding publish_prepared
  publish_prepared-empties n i m new next =
      let f = with_stale_link i m.files in
      let e : links m.can_link_backup (stopping p) f i ≡ false = ground arith in
      let e' : (i == i) ≡ true = ground arith in
      rw (new, next)
        (rw e (elim (Bool-cases (same_file (some i) m.files.backup_file)) [
          | inl s ↦
              rw s (elim (Bool-cases p.killed) [
                | inl l ↦ rw l (rw e' refl)
                | inr l ↦ rw l (rw e' refl)
              ])
          | inr s ↦
              rw s (elim (Bool-cases p.killed) [
                | inl l ↦ rw l (rw e' refl)
                | inr l ↦ rw l (rw e' refl)
              ])
        ]))
