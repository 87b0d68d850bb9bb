-- ===== src/Checkpoint/Storage.antt =====
-- src/takler/server/checkpoint.py: the files of the checkpoints, how a write goes through temporary
-- files and puts them in place, and what a restore makes of them. A directory entry holds the number
-- of a file, so that two entries may be links to one file; `blank` is an empty file. The name of the
-- temporary backup has the number of the process, which a later process may have again, so that a
-- start is given what stands under that name; the name of a prepared snapshot is new for each write.
-- What the system does during one write, an error or the end of the process at any point included, is
-- an argument, `Plan`. Access modes, locks and logs are left out.
pub mod Rotated
pub mod Recovers
pub mod Lost
use takler.Prelude.{
  ℕ, suc, ◌==◌, leb, ltb, Bool, true, false, ◌&&◌, ◌||◌, not, if◌then◌else◌, Option, none, some,
  is_some, bind,
}

pub record Files (C : Type 0) : Type 0 where
  pub contents : ℕ → C
  pub fresh : ℕ
  pub checkpoint_file : Option ℕ
  pub backup_file : Option ℕ
  pub main_temp : Option ℕ
  pub backup_temp : Option ℕ

-- How the writing of a file goes: to its end; not at all; or it leaves other contents.
pub data Writing (C : Type 0) : Type 0 where
  whole : Writing C
  stopped : Writing C
  torn : C → Writing C

pub record Plan (C : Type 0) : Type 0 where
  pub ensure_parent_directory : Bool
  pub write_temp_file : Writing C
  -- The checkpoint is a regular file of the right mode with no link under another name.
  pub is_linkable : Bool
  pub link_works : Bool
  pub copy : Writing C
  pub replace_backup : Bool
  pub replace_checkpoint : Bool
  pub sync_directory : Bool
  -- Whether the process ends where a step fails, before it cleans up.
  pub killed : Bool
  pub unlink_main : Bool
  pub unlink_backup : Bool
  -- If the process ends: what stands under the name of the next one's temporary backup.
  pub next_temp : Option ℕ

abbrev pub same_file : Option ℕ → Option ℕ → Bool
same_file (some i) (some j) = i == j
same_file _ _ = false

-- What a step does to the files, and whether it returns.
abbrev pub Done : Type 0 → Type 0
Done C = Files C × Bool

infixl 20 ◌then_next◌
abbrev pub ◌then_next◌ : {C : Type 0} → Done C → (Files C → Done C) → Done C
(f, true) then_next k = k f
(f, false) then_next k = (f, false)

module _ {C : Type 0} where
  abbrev pub put : ℕ → C → (ℕ → C) → ℕ → C
  put i c contents j = if j == i then c else contents j

  abbrev pub read : Files C → Option ℕ → Option C
  read f none = none
  read f (some i) = some (f.contents i)

  -- The contents written to the prepared snapshot: opened in place, or a new file.
  abbrev pub write_main : C → Files C → Option ℕ → Files C
  write_main c f (some i) = record f { contents = put i c f.contents }
  write_main c f none = record f {
    contents = put f.fresh c f.contents;
    fresh = suc f.fresh;
    main_temp = some f.fresh;
  }

  abbrev pub write_backup : C → Files C → Option ℕ → Files C
  write_backup c f (some i) = record f { contents = put i c f.contents }
  write_backup c f none = record f {
    contents = put f.fresh c f.contents;
    fresh = suc f.fresh;
    backup_temp = some f.fresh;
  }

  -- `_write_temp_file`
  unfoldable pub write_temp_file : C → Writing C → Files C → Done C
  write_temp_file payload whole f = (write_main payload f f.main_temp, true)
  write_temp_file payload stopped f = (f, false)
  write_temp_file payload (torn c) f = (write_main c f f.main_temp, false)

  -- `st_nlink` is 1, as far as the names of this process go.
  abbrev pub has_one_link : Files C → ℕ → Bool
  has_one_link f i =
      not (same_file f.backup_file (some i))
      && not (same_file f.main_temp (some i))
      && not (same_file f.backup_temp (some i))

  -- `os.link` to the temporary backup returns.
  abbrev pub links : Bool → Plan C → Files C → ℕ → Bool
  links can_link p f i =
      can_link && p.is_linkable && has_one_link f i && not (is_some f.backup_temp) && p.link_works

  -- The temporary backup is opened, and so emptied, before the checkpoint is read.
  abbrev pub copy_file : C → Writing C → ℕ → Files C → Done C
  copy_file blank stopped i f = (f, false)
  copy_file blank (torn c) i f = (write_backup c f f.backup_temp, false)
  copy_file blank whole i f =
      let f' = write_backup blank f f.backup_temp in
      (write_backup (f'.contents i) f' f'.backup_temp, true)

  abbrev pub copy_from : C → Bool → Plan C → Files C → Option ℕ → Done C
  copy_from blank can_link p f none = (f, true)
  copy_from blank can_link p f (some i) =
      if links can_link p f i
      then (record f { backup_temp = some i }, true)
      else copy_file blank p.copy i f

  -- `_copy_to_backup_temp`
  unfoldable pub copy_to_backup_temp : C → Bool → Plan C → Files C → Done C
  copy_to_backup_temp blank can_link p f = copy_from blank can_link p f f.checkpoint_file

  -- `os.replace` does nothing where both names are links to one file.
  abbrev replaced_backup : Files C → Files C
  replaced_backup f =
      if same_file f.backup_temp f.backup_file
      then f
      else (record f { backup_file = f.backup_temp; backup_temp = none })

  -- `_replace_backup`
  unfoldable pub replace_backup : Bool → Files C → Done C
  replace_backup works f =
      if not (is_some f.backup_temp)
      then (f, true)
      else if works
      then (replaced_backup f, true)
      else (f, false)

  abbrev replaced_checkpoint : Files C → Files C
  replaced_checkpoint f =
      if same_file f.main_temp f.checkpoint_file
      then f
      else (record f { checkpoint_file = f.main_temp; main_temp = none })

  -- `_replace_checkpoint`, which raises where there is nothing to move.
  unfoldable pub replace_checkpoint : Bool → Files C → Done C
  replace_checkpoint works f =
      if works && is_some f.main_temp then (replaced_checkpoint f, true) else (f, false)

  abbrev pub unlink_main : Bool → Files C → Files C
  unlink_main works f = record f { main_temp = if works then none else f.main_temp }

  abbrev pub unlink_backup : Bool → Files C → Files C
  unlink_backup works f = record f { backup_temp = if works then none else f.backup_temp }

  -- `_cleanup_temp_files` of both, unless the process has ended.
  abbrev pub after_failure : Plan C → Files C → Files C
  after_failure p f =
      if p.killed then f else unlink_backup p.unlink_backup (unlink_main p.unlink_main f)

  abbrev pub failed : Plan C → Done C → Done C
  failed p (f, true) = (f, true)
  failed p (f, false) = (after_failure p f, false)

  -- `_write_payload`
  unfoldable pub write_payload : C → C → Bool → Plan C → Files C → Done C
  unfolding write_temp_file copy_to_backup_temp replace_backup replace_checkpoint
  write_payload blank payload can_link p f = failed p (
      (f, p.ensure_parent_directory)
      then_next write_temp_file payload p.write_temp_file
      then_next copy_to_backup_temp blank can_link p
      then_next replace_backup p.replace_backup
      then_next replace_checkpoint p.replace_checkpoint)

  -- The steps of `_publish_prepared`, for a snapshot that is written to a file of its own before.
  unfoldable pub rotate : C → Bool → Plan C → Files C → Done C
  unfolding copy_to_backup_temp replace_backup replace_checkpoint
  rotate blank can_link p f =
      (f, p.ensure_parent_directory)
      then_next copy_to_backup_temp blank can_link p
      then_next replace_backup p.replace_backup
      then_next replace_checkpoint p.replace_checkpoint
      then_next (λ g. (g, p.sync_directory))

  abbrev pub unprepared : Plan C → Done C → Done C
  unprepared p (f, true) = (f, true)
  unprepared p (f, false) = (if p.killed then f else unlink_main p.unlink_main f, false)

  -- `_prepare_fixed_version`, with its own removal of the file that it could not finish.
  unfoldable pub prepare : C → Plan C → Files C → Done C
  unfolding write_temp_file
  prepare payload p f = unprepared p (write_temp_file payload p.write_temp_file f)

-- The fields of the manager that order the writes.
pub record Publisher (C : Type 0) : Type 0 where
  pub files : Files C
  pub last_attempted_sequence : ℕ
  pub newer_failed_sequence : ℕ
  pub last_attempt_succeeded : Bool
  pub can_link_backup : Bool

-- Success, and whether it was this write that was published.
abbrev pub Answer : Type 0 → Type 0
Answer C = Publisher C × Bool × Bool

module _ {C : Type 0} where
  abbrev pub drop_prepared : Plan C → Publisher C → Publisher C
  drop_prepared p m = record m { files = unlink_main p.unlink_main m.files }

  abbrev pub is_overtaken : ℕ → Publisher C → Bool
  is_overtaken n m =
      leb n m.newer_failed_sequence && ltb m.last_attempted_sequence m.newer_failed_sequence

  abbrev pub published : Plan C → Publisher C → Done C → Answer C
  published p m (f, true) = (
    record m {
      files = unlink_backup p.unlink_backup f;
      last_attempt_succeeded = true;
      can_link_backup = true;
    },
    true,
    true,
  )
  published p m (f, false) =
      (record m { files = after_failure p f; last_attempt_succeeded = false }, false, false)

  -- `_publish_prepared`
  unfoldable pub publish_prepared : C → ℕ → Plan C → Publisher C → Answer C
  unfolding rotate
  publish_prepared blank n p m =
      if is_overtaken n m
      then (drop_prepared p m, false, false)
      else if leb n m.last_attempted_sequence
      then (drop_prepared p m, m.last_attempt_succeeded, false)
      else published p (record m { last_attempted_sequence = n })
          (rotate blank m.can_link_backup p m.files)

  abbrev pub note_failure : ℕ → Publisher C → Publisher C
  note_failure n m = record m {
    newer_failed_sequence = if ltb m.newer_failed_sequence n then n else m.newer_failed_sequence;
  }

  abbrev pub after_prepare : C → ℕ → Plan C → Publisher C → Done C → Answer C
  after_prepare blank n p m (f, true) = publish_prepared blank n p (record m { files = f })
  after_prepare blank n p m (f, false) = (note_failure n (record m { files = f }), false, false)

  -- `write_checkpoint` of a server, on the version that it pins. The prepared file has a new name.
  unfoldable pub write_checkpoint : C → C → ℕ → Plan C → Publisher C → Answer C
  unfolding prepare publish_prepared
  write_checkpoint blank payload n p m =
      after_prepare blank n p m (prepare payload p (record m.files { main_temp = none }))

  -- A new manager over the files that are there, and what stands under its `_temp_path` of the backup:
  -- nothing, or what an earlier process of the same number left.
  abbrev pub start : Option ℕ → Files C → Publisher C
  start left f = record {
    files = record f { main_temp = none; backup_temp = left };
    last_attempted_sequence = 0;
    newer_failed_sequence = 0;
    last_attempt_succeeded = false;
    can_link_backup = false;
  }
