-- ===== src/Status.antt =====
-- src/takler/core/state.py: the ordered node statuses, and the aggregate that
-- src/takler/core/node.py and bunch.py compute from the statuses of the children.
pub mod Significant
pub mod Cache
use takler.Prelude.{
  ℕ, suc, ◌+◌, ◌≡◌, Bool, true, false, List, [], ◌∷◌, ltb, leb, ◌==◌, if◌then◌else◌,
}

pub data NodeStatus : Type 0 where
  unknown complete queued submitted active aborted : NodeStatus

NodeStatus-discrete : Discrete NodeStatus
NodeStatus-discrete = hlevel

-- `Enum.value`
abbrev pub value : NodeStatus → ℕ
value unknown = 1
value complete = 2
value queued = 3
value submitted = 4
value active = 5
value aborted = 6

-- Members of an `Enum` are equal exactly when their values are.
abbrev pub status_eq : NodeStatus → NodeStatus → Bool
status_eq s t = value s == value t

-- `OrderedEnum.__gt__`
abbrev pub status_gt : NodeStatus → NodeStatus → Bool
status_gt s t = ltb (value t) (value s)

-- `count[status]` after the loop that counts the statuses.
abbrev pub count : NodeStatus → List NodeStatus → ℕ
count s [] = 0
count s (x ∷ xs) = let rest = count s xs in if status_eq x s then suc rest else rest

-- The order in which the counters are looked at.
abbrev pub priority : List NodeStatus
priority = aborted ∷ active ∷ submitted ∷ queued ∷ complete ∷ []

abbrev pub first_counted : (NodeStatus → ℕ) → List NodeStatus → NodeStatus
first_counted counts [] = unknown
first_counted counts (s ∷ ss) =
    let rest = first_counted counts ss in if ltb 0 (counts s) then s else rest

-- `compute_most_significant_status`, from the statuses that its loop has collected.
unfoldable pub most_significant : List NodeStatus → NodeStatus
most_significant xs = first_counted (λ s. count s xs) priority

-- Python's `max` of two statuses keeps the first unless the second is greater.
abbrev pub max_status : NodeStatus → NodeStatus → NodeStatus
max_status s t = if status_gt t s then t else s

abbrev pub max_from : NodeStatus → List NodeStatus → NodeStatus
max_from s [] = s
max_from s (x ∷ xs) = max_from (max_status s x) xs

-- `Bunch.get_node_status`, from the computed statuses of its flows.
unfoldable pub bunch_status : List NodeStatus → NodeStatus
bunch_status [] = unknown
bunch_status (x ∷ xs) = max_from x xs
