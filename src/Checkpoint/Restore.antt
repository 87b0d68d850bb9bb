-- ===== src/Checkpoint/Restore.antt =====
-- src/takler/server/checkpoint.py: the choice of a snapshot at a start, `restore`, and the tests of a file,
-- `_load_snapshot`. The reading of a text as JSON, the schema of a snapshot and the building of the tree
-- from it (`_restore_into_bunch`) are the fields of `Reader`; an exception of theirs is `none`.
use takler.Prelude.{
  ℕ, ◌==◌, Bool, false, ◌&&◌, ◌||◌, if◌then◌else◌, Option, none, some, is_some, bind,
}
use takler.Checkpoint.Storage.{Files, read}

-- What a text reads as: an object, with its version, if that is an integer, and whether its definition is
-- an object; or something else.
pub data Decoded : Type 0 where
  object : (format_version : Option ℕ) → (definition_is_object : Bool) → Decoded
  other : Decoded

pub record Reader (C B : Type 0) : Type 0 where
  pub decode : C → Option Decoded
  pub validates : C → Bool
  pub restore_into_bunch : C → Option B

abbrev pub checkpoint_format_version : ℕ
checkpoint_format_version = 3

-- `"primary"` and `"backup"`.
pub data Source : Type 0 where
  primary backup : Source

-- `restore` returns `True`, with what it restored; returns `False`; or raises
-- `CheckpointRestoreError`.
pub data Restored (B : Type 0) : Type 0 where
  restored : Source → B → Restored B
  new_service : Restored B
  restore_error : Restored B

module _ {C B : Type 0} (r : Reader C B) where
  abbrev has_version : Option ℕ → Bool
  has_version none = false
  has_version (some v) = v == checkpoint_format_version

  abbrev is_snapshot : C → Decoded → Bool
  is_snapshot c (object version definition) = has_version version && definition && r.validates c
  is_snapshot c other = false

  -- `_load_snapshot`: the text, if it passes all tests.
  unfoldable pub load_snapshot : C → Option C
  load_snapshot c = bind (r.decode c) (λ d. if is_snapshot c d then some c else none)

  -- What a file that is there gives, by `_load_snapshot` and `_restore_into_bunch`.
  abbrev pub candidate : Option C → Option B
  candidate o = bind o (λ c. bind (load_snapshot c) r.restore_into_bunch)

  abbrev choose : Bool → Option B → Option B → Restored B
  choose present (some b) _ = restored primary b
  choose present none (some b) = restored backup b
  choose present none none = if present then restore_error else new_service

  -- `restore`
  unfoldable pub restore : Files C → Restored B
  unfolding load_snapshot
  restore f =
      choose (is_some f.checkpoint_file || is_some f.backup_file)
        (candidate (read f f.checkpoint_file)) (candidate (read f f.backup_file))
