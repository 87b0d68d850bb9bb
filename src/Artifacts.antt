-- ===== src/Artifacts.antt =====
-- src/takler/serialization/artifact_path_index.py: the index of the paths of jobs, their outputs and their
-- records, by which a submission sees that another task has one of its paths. A task is a number; a path
-- is the text of its normal form. What the links of the disk make of a path at one moment (`Disk`) is an
-- argument. An exception ends an operation with `none`. A dictionary that is only read by its keys is a
-- function, and one that is iterated is a list in its order.
pub mod Owned
pub mod Updated
pub mod Rechecked
pub mod Foreign
pub mod Conflicts
use Prim.Native.String.{String}
use text.Mathlib.Text.{◌==◌ as str_eq}
use takler.Prelude.{
  ℕ, ◌==◌, Bool, true, false, ◌&&◌, ◌||◌, not, List, [], ◌∷◌, ◌++◌, Option, none, some, bind,
  if◌then◌else◌,
}
use takler.Prelude.Int.{ℤ, pos, ◌+ℤ◌, ◌-ℤ◌}

-- `ARTIFACT_FIELDS`
pub data Field : Type 0 where
  job_path jobout_path orvix_info_path : Field

abbrev pub rank : Field → ℕ
rank job_path = 0
rank jobout_path = 1
rank orvix_info_path = 2

-- A task and the name of its field.
abbrev pub Key : Type 0
Key = ℕ × Field

abbrev pub key_eq : Key → Key → Bool
key_eq (t, f) (u, g) = (t == u) && (rank f == rank g)

-- `Path.resolve` at a moment.
abbrev pub Disk : Type 0
Disk = String → String

-- The tasks that have a path: most have one owner.
pub data Owners : Type 0 where
  one : Key → Owners
  many : List Key → Owners

pub record ArtifactPathIndex : Type 0 where
  pub by_path : String → Option Owners
  pub symlink_fields : List (Key × String)
  pub entry_count : ℤ

abbrev pub has_key : Key → List Key → Bool
has_key k [] = false
has_key k (j ∷ ks) = key_eq k j || has_key k ks

abbrev pub without : Key → List Key → List Key
without k [] = []
without k (j ∷ ks) = let rest = without k ks in if key_eq k j then rest else j ∷ rest

abbrev pub look_up : Key → List (Key × String) → Option String
look_up k [] = none
look_up k ((j, p) ∷ s) = let rest = look_up k s in if key_eq k j then some p else rest

abbrev pub popped : Key → List (Key × String) → List (Key × String)
popped k [] = []
popped k ((j, p) ∷ s) = let rest = popped k s in if key_eq k j then rest else (j, p) ∷ rest

-- A set that is left with one key is replaced by the key.
abbrev pub shrunk : List Key → Owners
shrunk [] = many []
shrunk (j ∷ []) = one j
shrunk (i ∷ j ∷ ks) = many (i ∷ j ∷ ks)

-- What a path is left with, where a key gives it up that has it.
abbrev pub taken_out : Key → Option Owners → Option (Option Owners)
taken_out k none = none
taken_out k (some (one j)) = if key_eq k j then some none else none
taken_out k (some (many ks)) = if has_key k ks then some (some (shrunk (without k ks))) else none

abbrev pub added : Key → Option Owners → Owners
added k none = one k
added k (some (one j)) = many (if key_eq k j then j ∷ [] else j ∷ k ∷ [])
added k (some (many ks)) = many (if has_key k ks then ks else k ∷ ks)

abbrev pub assign : String → Option Owners → (String → Option Owners) → String → Option Owners
assign p o by_path q = if str_eq q p then o else by_path q

abbrev pub forget : Key → Option String → ArtifactPathIndex → Option ArtifactPathIndex
forget k none i = some i
forget k (some p) i =
    bind (taken_out k (i.by_path p)) (λ o.
      some (record i { by_path = assign p o i.by_path; entry_count = i.entry_count -ℤ pos 1 }))

abbrev pub any_other : ℕ → List Key → Bool
any_other owner [] = false
any_other owner ((task, f) ∷ ks) = not (task == owner) || any_other owner ks

abbrev pub is_foreign : ℕ → Option Owners → Bool
is_foreign owner none = false
is_foreign owner (some (one (task, f))) = not (task == owner)
is_foreign owner (some (many ks)) = any_other owner ks

abbrev pub any_foreign : ℕ → List String → ArtifactPathIndex → Bool
any_foreign owner [] i = false
any_foreign owner (p ∷ ps) i = is_foreign owner (i.by_path p) || any_foreign owner ps i

-- The fields of the tasks, with the index of the bunch.
abbrev pub State : Type 0
State = (Key → Option String) × ArtifactPathIndex

abbrev pub with_value : Key → Option String → (Key → Option String) → Key → Option String
with_value k value values j = if key_eq j k then value else values j

abbrev pub same_value : Option String → Option String → Bool
same_value none none = true
same_value (some u) (some v) = str_eq u v
same_value _ _ = false

-- An index of no task.
abbrev pub empty : ArtifactPathIndex
empty = record { by_path = λ p. none; symlink_fields = []; entry_count = pos 0 }

-- `os.path.abspath`
module _ (absolute : String → String) where
  abbrev pub note_link : Key → String → String → List (Key × String) → List (Key × String)
  note_link k v p s = if str_eq p (absolute v) then s else s ++ ((k, p) ∷ [])

  abbrev pub enter : Disk → Key → Option String → ArtifactPathIndex → ArtifactPathIndex
  enter resolve k none i = i
  enter resolve k (some v) i = record i {
    by_path = assign (resolve v) (some (added k (i.by_path (resolve v)))) i.by_path;
    symlink_fields = note_link k v (resolve v) i.symlink_fields;
    entry_count = i.entry_count +ℤ pos 1;
  }

  abbrev pub old_path : Disk → Option String → Option String → Option String
  old_path resolve (some p) previous = some p
  old_path resolve none none = none
  old_path resolve none (some v) = some (resolve v)

  -- `update`
  unfoldable pub update :
      Disk → Key → (value previous : Option String) → ArtifactPathIndex → Option ArtifactPathIndex
  update resolve k value previous i =
      bind
        (forget k (old_path resolve (look_up k i.symlink_fields) previous)
          (record i { symlink_fields = popped k i.symlink_fields }))
        (λ j. some (enter resolve k value j))

  -- A field that a link was recorded for: nothing is done if the link leads where it led.
  abbrev pub recheck :
      Disk → Key → String → Option String → ArtifactPathIndex → Option ArtifactPathIndex
  recheck resolve k was none i = none
  recheck resolve k was (some v) i =
      if str_eq (resolve v) was then some i else update resolve k (some v) (some v) i

  -- The loop of `conflicts` over the links, at the values of the fields.
  unfoldable pub refresh :
      Disk
      → (Key → Option String)
      → List (Key × String)
      → ArtifactPathIndex
      → Option ArtifactPathIndex
  unfolding update
  refresh resolve values [] i = some i
  refresh resolve values ((k, was) ∷ s) i =
      bind (recheck resolve k was (values k) i) (refresh resolve values s)

  -- `conflicts`: the index after it, and the answer.
  unfoldable pub conflicts :
      Disk
      → (Key → Option String)
      → ℕ
      → List String
      → ArtifactPathIndex
      → Option (ArtifactPathIndex × Bool)
  unfolding refresh
  conflicts resolve values owner paths i =
      bind (refresh resolve values i.symlink_fields i) (λ j. some (j, any_foreign owner paths j))

  -- `Task.__setattr__` of one of the fields of a task in the bunch.
  unfoldable pub set_attribute : Disk → Key → Option String → State → Option State
  unfolding update
  set_attribute resolve k value (values, i) =
      if same_value (values k) value
      then some (with_value k value values, i)
      else bind (update resolve k value (values k) i) (λ j. some (with_value k value values, j))
