-- ===== src/Status/Cache.antt =====
-- src/takler/core/node_container.py: the counters of the children's statuses that a container keeps
-- between two computations of its status, and the operations on the children that use or drop them.
-- The children are given by their statuses, in order; a counter is a natural number, where the source
-- has integers.
pub mod Coherent
use takler.Prelude.{
  ℕ, zero, suc, ◌+◌, ◌-◌, ◌≡◌, Bool, true, false, List, [], ◌∷◌, ◌++◌, ltb, leb, ◌==◌,
  if◌then◌else◌, Option, none, some, length, set, get_elem?, erase_idx,
}
use takler.Status.{NodeStatus, status_eq, count, priority, first_counted, most_significant}

-- The fields of a `NodeContainer` that its own status is computed from.
pub record Container : Type 0 where
  pub own : NodeStatus
  pub children : List NodeStatus
  pub status_counts : Option (NodeStatus → ℕ)
  pub status_child_count : ℕ

-- `NodeContainer.__init__`
abbrev pub new : Container
new = record {
  own = NodeStatus.unknown;
  children = [];
  status_counts = none;
  status_child_count = 0;
}

abbrev recount : Container → Container
recount c = record c {
  status_counts = some (λ s. count s c.children);
  status_child_count = length c.children;
}

-- The counters that are there after the test `_status_counts is None or ...`.
abbrev refresh : Container → Container
refresh c = elim c.status_counts [
  | none ↦ recount c
  | some counts ↦ if c.status_child_count == length c.children then c else recount c
]

abbrev counters : Option (NodeStatus → ℕ) → NodeStatus → ℕ
counters none s = 0
counters (some counts) s = counts s

-- `NodeContainer.computed_status(immediate=True)`
unfoldable pub computed_status : Container → Container × NodeStatus
computed_status c =
    if length c.children == 0
    then (c, c.own)
    else (let c' = refresh c in (c', first_counted (counters c'.status_counts) priority))

abbrev bump : NodeStatus → (ℕ → ℕ) → (NodeStatus → ℕ) → NodeStatus → ℕ
bump s f counts t = if status_eq s t then f (counts t) else counts t

-- `NodeContainer._child_status_changed`
abbrev child_status_changed : NodeStatus → NodeStatus → Container → Container
child_status_changed old new c = elim c.status_counts [
  | none ↦ c
  | some counts ↦ record c {
    status_counts = some (bump new (λ n. n + 1) (bump old (λ n. n - 1) counts));
  }
]

-- `Node.set_node_status_only`, called on the child at an index.
unfoldable pub set_child_status : ℕ → NodeStatus → Container → Container
set_child_status i status c = elim (get_elem? c.children i) [
  | none ↦ c
  | some old ↦
      if status_eq old status
      then c
      else child_status_changed old status (record c { children = set c.children i status })
]

-- `Node.append_child`
unfoldable pub append_child : NodeStatus → Container → Container
append_child s c = record c { children = c.children ++ s ∷ []; status_counts = none }

-- `Node.update_child`, at the index that `find_child_index` has found.
unfoldable pub update_child : ℕ → NodeStatus → Container → Container
update_child i s c = record c { children = set c.children i s; status_counts = none }

-- `Node.delete_child`, at the index that `find_child_index` has found.
unfoldable pub delete_child : ℕ → Container → Container
delete_child i c = record c { children = erase_idx c.children i; status_counts = none }

-- `Node.delete_children`
unfoldable pub delete_children : Container → Container
delete_children c = record c { children = []; status_counts = none }

-- One call on the container, by the scheduler or by a user who edits the tree.
pub data Call : Type 0 where
  compute : Call
  set_own : NodeStatus → Call
  set_status : ℕ → NodeStatus → Call
  append : NodeStatus → Call
  update : ℕ → NodeStatus → Call
  delete : ℕ → Call
  clear : Call

unfoldable pub call : Call → Container → Container
unfolding computed_status set_child_status append_child update_child delete_child delete_children
call compute c = (computed_status c).0
call (set_own s) c = record c { own = s }
call (set_status i s) c = set_child_status i s c
call (append s) c = append_child s c
call (update i s) c = update_child i s c
call (delete i) c = delete_child i c
call clear c = delete_children c

unfoldable pub calls : List Call → Container → Container
calls [] c = c
calls (x ∷ xs) c = calls xs (call x c)
