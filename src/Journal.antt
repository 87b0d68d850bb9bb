-- ===== src/Journal.antt =====
-- src/takler/server/query_changes.py: the bounded journal of changes that query clients follow. The
-- clock, in microseconds, and the length of a path in UTF-8 are arguments. A field group is one of the
-- six known ones, so the refusal of other names has no case here; the two callbacks are left out.
pub mod Runs
pub mod Complete
pub mod Bounded
use Prim.Native.String.{String}
use text.Mathlib.Text.{◌==◌ as str_eq}
use takler.Prelude.{
  ℕ, suc, ◌+◌, ◌-◌, ◌*◌, Bool, true, false, ◌&&◌, ◌||◌, not, List, [], ◌∷◌, ◌++◌, length, ltb, leb,
  ◌==◌, if◌then◌else◌, Option, none, some, is_some,
}

abbrev pub max_change_batches : ℕ
max_change_batches = 1024

abbrev pub max_changes_per_batch : ℕ
max_changes_per_batch = 2048

abbrev pub max_retained_changes : ℕ
max_retained_changes = 8192

abbrev pub max_change_window_bytes : ℕ
max_change_window_bytes = 33_554_432

abbrev pub max_change_path_bytes : ℕ
max_change_path_bytes = 4096

-- `MAX_CHANGE_SECONDS`, in microseconds.
abbrev pub max_change_age : ℕ
max_change_age = 120_000_000

-- `FIELD_GROUPS`
pub data Group : Type 0 where
  summary parameters definition runtime artifacts service : Group

abbrev pub Groups : Type 0
Groups = Group → Bool

abbrev pub no_groups : Groups
no_groups g = false

abbrev pub is_none : Groups → Bool
is_none gs =
    not (gs summary || gs parameters || gs definition || gs runtime || gs artifacts || gs service)

pub record QueryChange : Type 0 where
  pub path : String
  pub groups : Groups
  pub invalidate : Bool

pub record ChangeBatch : Type 0 where
  pub revision : ℕ
  pub changes : List QueryChange
  pub created_at : ℕ
  pub estimated_bytes : ℕ

pub record QueryChanges : Type 0 where
  pub revision : ℕ
  pub oldest_revision : ℕ
  pub batches : List ChangeBatch
  pub retained_changes : ℕ
  pub retained_bytes : ℕ
  pub depth : ℕ
  pub pending : List QueryChange

-- `QueryChanges.__init__`
abbrev pub new_changes : QueryChanges
new_changes = record {
  revision = 1;
  oldest_revision = 1;
  batches = [];
  retained_changes = 0;
  retained_bytes = 0;
  depth = 0;
  pending = [];
}

-- The test of the loop of `_expire`, with the oldest batch. A batch is too old from two minutes on.
abbrev pub is_over : ℕ → QueryChanges → ChangeBatch → Bool
is_over now q b =
    ltb max_change_batches (length q.batches)
    || ltb max_retained_changes q.retained_changes
    || ltb max_change_window_bytes q.retained_bytes
    || leb (b.created_at + max_change_age) now

abbrev pub drop_oldest : QueryChanges → ChangeBatch → List ChangeBatch → QueryChanges
drop_oldest q b rest = record q {
  batches = rest;
  retained_changes = q.retained_changes - length b.changes;
  retained_bytes = q.retained_bytes - b.estimated_bytes;
  oldest_revision = b.revision;
}

-- `_expire`, by recursion on the batches.
unfoldable pub expire_from : ℕ → List ChangeBatch → QueryChanges → QueryChanges
expire_from now [] q = q
expire_from now (b ∷ rest) q =
    let next = expire_from now rest (drop_oldest q b rest) in if is_over now q b then next else q

unfoldable pub expire : ℕ → QueryChanges → QueryChanges
expire now q = expire_from now q.batches q

abbrev pub find_change : String → List QueryChange → Option QueryChange
find_change p [] = none
find_change p (c ∷ cs) = if str_eq c.path p then some c else find_change p cs

abbrev pub merge : QueryChange → QueryChange → QueryChange
merge c old = record c {
  groups = λ g. c.groups g || old.groups g;
  invalidate = c.invalidate || old.invalidate;
}

-- `_pending[path] = ...`: a new path comes last, an old one keeps its place.
abbrev pub put_change : QueryChange → List QueryChange → List QueryChange
put_change c [] = c ∷ []
put_change c (d ∷ ds) = if str_eq d.path c.path then merge c d ∷ ds else d ∷ put_change c ds

abbrev pub reset_all : QueryChange
reset_all = record { path = "/"; groups = no_groups; invalidate = true }

abbrev pub is_reset : Option QueryChange → Bool
is_reset none = false
is_reset (some c) = c.invalidate

abbrev pub add_pending : QueryChange → List QueryChange → List QueryChange
add_pending c pending =
    if leb max_changes_per_batch (length pending) && not (is_some (find_change c.path pending))
    then reset_all ∷ []
    else (if is_reset (find_change "/" pending) then pending else put_change c pending)

unfoldable pub begin : QueryChanges → QueryChanges
begin q = record q { depth = q.depth + 1 }

module _ (utf8_length : String → ℕ) where
  abbrev pub size_of : List QueryChange → ℕ
  size_of [] = 0
  size_of (c ∷ cs) = (utf8_length c.path + 512) + size_of cs

  abbrev pub append_batch : ℕ → QueryChanges → QueryChanges
  append_batch now q = record q {
    revision = q.revision + 1;
    batches =
        q.batches
        ++ (record {
          revision = q.revision + 1;
          changes = q.pending;
          created_at = now;
          estimated_bytes = size_of q.pending;
        })
          ∷ [];
    retained_changes = q.retained_changes + length q.pending;
    retained_bytes = q.retained_bytes + size_of q.pending;
    pending = [];
  }

  unfoldable pub commit : ℕ → QueryChanges → QueryChanges
  commit now q = if length q.pending == 0 then q else expire now (append_batch now q)

  abbrev pub close : ℕ → QueryChanges → QueryChanges
  close now q = if q.depth == 0 then commit now q else q

  -- `end`: `none` is the `RuntimeError` of a transaction that is not open.
  unfoldable pub finish : ℕ → QueryChanges → Option QueryChanges
  finish now q = if q.depth == 0 then none else some (close now (record q { depth = q.depth - 1 }))

  -- A path that is too long stands for everything.
  abbrev pub bounded : QueryChange → QueryChange
  bounded c = if ltb max_change_path_bytes (utf8_length c.path) then reset_all else c

  -- `mark`, of a path whose form the caller has found canonical: `none` is its `ValueError`.
  unfoldable pub mark :
      (is_canonical : String → Bool) → ℕ → QueryChange → QueryChanges → Option QueryChanges
  mark is_canonical now c q =
      if not (is_canonical c.path)
      then none
      else (if is_none c.groups && not c.invalidate
          then none
          else some (close now (record q { pending = add_pending (bounded c) q.pending })))

-- `tuple(batch for batch in self._batches if batch.revision > revision)`
abbrev pub newer : ℕ → List ChangeBatch → List ChangeBatch
newer r [] = []
newer r (b ∷ bs) = let rest = newer r bs in if ltb r b.revision then b ∷ rest else rest

-- `since`: the journal as the call leaves it, and the batches, unless the revision is out of reach.
unfoldable pub since : ℕ → ℕ → QueryChanges → QueryChanges × Option (List ChangeBatch)
since now r q =
    let q' = expire now q in
    (q', if ltb r q'.oldest_revision || ltb q'.revision r then none else some (newer r q'.batches))
