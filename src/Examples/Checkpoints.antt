-- ===== src/Examples/Checkpoints.antt =====
-- Writes of checkpoints that fail and end at different points, and restores after them.
use takler.Prelude.{
  ℕ, ◌≡◌, refl, true, false, List, [], ◌∷◌, Option, none, some, ◌==◌, arith, if◌then◌else◌, All,
}
use takler.Checkpoint.Storage.{
  Files, Plan, whole, torn, Publisher, publish_prepared, write_checkpoint, start, read,
}
use takler.Checkpoint.Restore.{
  Reader, object, restore, restore_error, restored, primary, candidate, load_snapshot,
}
use takler.Checkpoint.Storage.Rotated.{IsLeft}
use takler.Checkpoint.Storage.Recovers.{
  Event, write, restart, run, Leads, Restores, IsUsableWrite, restore-run,
}
use takler.Checkpoint.Storage.Lost.{
  stopping, with_checkpoint, with_stale_link, write_checkpoint-loses_backup,
  publish_prepared-empties,
}

-- Snapshots are numbers; the empty file is 0, and it alone cannot be read.
abbrev reader : Reader ℕ ℕ
reader = record {
  decode = λ c. if c == 0 then none else some (object (some 3) true);
  validates = λ c. true;
  restore_into_bunch = λ c. some c;
}

abbrev good : Plan ℕ
good = record {
  ensure_parent_directory = true;
  write_temp_file = whole;
  is_linkable = true;
  link_works = true;
  copy = whole;
  replace_backup = true;
  replace_checkpoint = true;
  sync_directory = true;
  killed = false;
  unlink_main = true;
  unlink_backup = true;
  next_temp = none;
}

abbrev no_files : Files ℕ
no_files = record {
  contents = λ i. 0;
  fresh = 0;
  checkpoint_file = none;
  backup_file = none;
  main_temp = none;
  backup_temp = none;
}

-- Two good writes, one that cannot replace the backup, one that is torn, and one that ends the process
-- before its last step.
abbrev course : List (Event ℕ)
course =
    write 7 1 good
    ∷ write 8 2 good
    ∷ write 9 3 (record good { replace_backup = false })
    ∷ write 10 4 (record good { write_temp_file = torn 1 })
    ∷ write 11 5 (record good { replace_checkpoint = false; killed = true })
    ∷ restart none
    ∷ []

no_files-IsLeft : IsLeft none no_files
no_files-IsLeft = record { reads = refl; below = tt; alone = λ e. refl }

course_usable : All (IsUsableWrite reader) course
unfolding load_snapshot
course_usable = ((7, refl), ((8, refl), ((9, refl), ((10, refl), ((11, refl), (tt, tt))))))

restore-run_example :
    (o : Option ℕ) × Leads none (run 0 course (start none no_files)).1 o
    × Restores reader o (run 0 course (start none no_files)).0.files
restore-run_example =
    restore-run reader 0 course no_files none no_files-IsLeft tt
      ((refl, refl), ((refl, refl), ((refl, refl), ((refl, refl), ((refl, refl), (refl, tt))))))
      course_usable

-- Neither the payload that is torn nor one of the writes that failed is in place.
course_restores : restore reader (run 0 course (start none no_files)).0.files ≡ restored primary 8
unfolding restore write_checkpoint
course_restores = refl

-- A checkpoint that is empty, and a backup that is not.
abbrev empty_checkpoint : Files ℕ
empty_checkpoint = record {
  contents = λ i. if i == 1 then 5 else 0;
  fresh = 2;
  checkpoint_file = some 0;
  backup_file = some 1;
  main_temp = none;
  backup_temp = none;
}

empty_candidate : candidate reader (some 0) ≡ none
unfolding load_snapshot
empty_candidate = refl

write_checkpoint-loses_backup_example :
    restore reader
      (write_checkpoint 0 6 1
        (stopping good)
        (start none (with_checkpoint 0 empty_checkpoint))).0.files
    ≡ restore_error
write_checkpoint-loses_backup_example =
    write_checkpoint-loses_backup reader 0 6 good 0 0 empty_checkpoint (omega arith) (omega arith)
      empty_candidate

-- A server whose first write succeeds and whose second leaves its link behind.
abbrev with_link : Publisher ℕ
with_link =
    (write_checkpoint 0 8 2 (record good { replace_backup = false; unlink_backup = false })
      (write_checkpoint 0 7 1 good (start none no_files)).0).0

link_left : with_link.files.backup_temp ≡ with_link.files.checkpoint_file
unfolding write_checkpoint
link_left = refl

publish_prepared-empties_example :
    let g =
      (publish_prepared 0 2
        (stopping good)
        (record (start none no_files) { files = with_stale_link 0 no_files })).0.files in
    read g g.checkpoint_file ≡ some 0
publish_prepared-empties_example =
    publish_prepared-empties 0 good 2 0 (start none no_files) (ground arith) (ground arith)
