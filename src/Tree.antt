-- ===== src/Tree.antt =====
-- src/takler/core/node.py, node_container.py and task_node.py: the tree of nodes, the status that
-- swims up from a changed node, the status that sinks to the descendants, and requeue. A node stands
-- at a path, the list of its positions among the children on the way down from the root. The status
-- of a container is computed without the counters of Status.Cache. Reservations of tokens (Limit),
-- the query index, and the logs are left out. The index of the paths of tasks (Artifacts) is taken
-- not to refuse a write of a requeue. Left out is also an exception from a meter whose bounds are not
-- in order, which the definition schema refuses: such a meter keeps its value here.
pub mod Aggregated
pub mod Sound
pub mod Requeue
use Prim.Native.String.{String}
use takler.Prelude.{
  ℕ, zero, suc, ◌+◌, Bool, true, false, ◌&&◌, ◌||◌, List, [], ◌∷◌, map, Option, none, some, is_some,
  bind, if◌then◌else◌,
}
use takler.Status.{
  NodeStatus, unknown, complete, queued, submitted, active, aborted, status_eq, most_significant,
}
use takler.Attr.Event.{Event, reset_event}
use takler.Attr.Meter
use takler.Attr.Meter.{Meter, reset_meter}
use takler.Attr.Repeat.{RepeatDate}
use takler.Attr.Repeat
use takler.Attr.TimeAttr.{TimeAttribute, clear_free}
use takler.Task.{Attempt, clear_current_attempt}

-- The fields of a node. `trigger_free` is the flag of the trigger expression, where there is one. An
-- attempt belongs to a task, and a container never changes its own.
pub record Node : Type 0 where
  pub name : String
  pub is_task : Bool
  pub node_status : NodeStatus
  pub suspended : Bool
  pub default_node_status : NodeStatus
  pub is_complete_triggered : Bool
  pub times : List TimeAttribute
  pub events : List Event
  pub meters : List Meter
  pub repeat : Option RepeatDate
  pub trigger_free : Option Bool
  pub attempt : Attempt

mutual
  pub data Tree : Type 0 where
    node : Node → Forest → Tree

  pub data Forest : Type 0 where
    nil : Forest
    cons : Tree → Forest → Forest

abbrev pub root : Tree → Node
root (node a f) = a

abbrev pub statuses : Forest → List NodeStatus
statuses nil = []
statuses (cons t f) = (root t).node_status ∷ statuses f

abbrev is_leaf : Forest → Bool
is_leaf nil = true
is_leaf (cons t f) = false

-- `computed_status(immediate=True)`: of a task its own status, of a container that of its children.
unfoldable pub computed_status : Node → Forest → NodeStatus
computed_status a f =
    if a.is_task || is_leaf f then a.node_status else most_significant (statuses f)

abbrev is_in_flight : NodeStatus → Bool
is_in_flight s = status_eq s submitted || status_eq s active

-- `Node.set_node_status_only`, with the override of `Task`.
unfoldable pub set_status_only : NodeStatus → Node → Node
set_status_only s a =
    let attempt =
      if a.is_task
      then (if is_in_flight s
          then a.attempt
          else (record a.attempt { submission_unknown_reason = none }))
      else a.attempt in
    record a { node_status = s; attempt = attempt }

abbrev pub has_unknown : Node → Bool
has_unknown a = a.is_task && is_some a.attempt.submission_unknown_reason

abbrev reset_meter_of : Meter → Meter
reset_meter_of m = elim (reset_meter m) [ Meter.ok m' ↦ m' | Meter.err e ↦ m ]

abbrev reset_repeat_of : Bool → Option RepeatDate → Option RepeatDate
reset_repeat_of reset none = none
reset_repeat_of reset (some r) = some (if reset then Repeat.reset r else r)

abbrev clear_trigger : Option Bool → Option Bool
clear_trigger none = none
clear_trigger (some free) = some false

-- `Node.requeue`: what a requeue does to the node itself.
unfoldable pub requeue_node : Bool → Node → Node
unfolding set_status_only reset_event reset_meter Repeat.reset
requeue_node reset_repeat a = record (set_status_only a.default_node_status a) {
  is_complete_triggered = false;
  times = map clear_free a.times;
  events = map reset_event a.events;
  meters = map reset_meter_of a.meters;
  repeat = reset_repeat_of reset_repeat a.repeat;
  trigger_free = clear_trigger a.trigger_free;
}

-- `Task.requeue`, past its test for an unknown submission.
unfoldable pub requeue_task : Bool → Node → Node
unfolding requeue_node clear_current_attempt
requeue_task reset_repeat a =
    requeue_node reset_repeat
      (record a { attempt = record (clear_current_attempt a.attempt) { try_no = 0 } })

-- `sink_status_change_only`: of a container, to all its descendants.
unfoldable mutual
  pub sink_only : NodeStatus → Tree → Tree
  sink_only s (node a f) = node (set_status_only s a) (if a.is_task then f else sink_all s f)

  pub sink_all : NodeStatus → Forest → Forest
  sink_all s nil = nil
  sink_all s (cons t f) = cons (sink_only s t) (sink_all s f)

-- The test of `requeue` for a task with an unknown submission among the node and its descendants.
unfoldable mutual
  pub unknown_within : Tree → Bool
  unknown_within (node a f) = has_unknown a || unknown_among f

  pub unknown_among : Forest → Bool
  unknown_among nil = false
  unknown_among (cons t f) = unknown_within t || unknown_among f

abbrev finish_requeue : Node → Forest → Tree
finish_requeue a f =
    if status_eq a.default_node_status complete then sink_only complete (node a f) else node a f

-- `requeue`: `none` is the `FlowStateError` for a task whose submission is unknown.
unfoldable mutual
  pub requeue : Bool → Tree → Option Tree
  requeue reset (node a f) =
      if a.is_task
      then (if is_some a.attempt.submission_unknown_reason
          then none
          else some (node (requeue_task reset a) f))
      else (if unknown_among f
          then none
          else bind (requeue_all reset f) (λ f'. some (finish_requeue (requeue_node reset a) f')))

  pub requeue_all : Bool → Forest → Option Forest
  requeue_all reset nil = some nil
  requeue_all reset (cons t f) =
      bind (requeue reset t) (λ t'. bind (requeue_all reset f) (λ f'. some (cons t' f')))

-- How a change of status goes on above a node: not at all, since there is no such node or since an
-- exception ends it, or by the parent's `swim_status_change` or `swim_status_change_only`.
pub data Progress : Type 0 where
  absent failed swim only : Progress

-- `set_node_status_only` of the computed status, if that differs.
unfoldable pub refresh : Node → Forest → Node
unfolding computed_status set_status_only
refresh a f =
    let s = computed_status a f in if status_eq s a.node_status then a else set_status_only s a

-- `swim_status_change_only`, at one node.
unfoldable pub step_only : Tree → Tree × Progress
step_only (node a f) = if a.is_task then (node a f, only) else (node (refresh a f) f, swim)

abbrev after_requeue : Tree → Option Tree → Tree × Progress
after_requeue t none = (t, failed)
after_requeue t (some t') = step_only t'

-- The status is written already where the increment raises.
abbrev after_increment : Node → Forest → Option (RepeatDate × Bool) → Tree × Progress
after_increment a f none = (node a f, failed)
after_increment a f (some (r, false)) = (node a f, swim)
after_increment a f (some (r, true)) =
    let t = node (record a { repeat = some r }) f in after_requeue t (requeue false t)

abbrev next_pass : Node → Forest → Option RepeatDate → Tree × Progress
next_pass a f none = (node a f, swim)
next_pass a f (some r) = after_increment a f (Repeat.increment r)

-- `swim_status_change`, at one node.
unfoldable pub step_swim : Tree → Tree × Progress
step_swim (node a f) =
    let s = computed_status a f in
    let a' = refresh a f in
    if status_eq s complete then next_pass a' f a'.repeat else (node a' f, swim)

abbrev pub climb : Progress → Tree → Tree × Progress
climb absent t = (t, absent)
climb failed t = (t, failed)
climb swim t = step_swim t
climb only t = step_only t

-- The child at a position; past the end there is none.
unfoldable pub at_child : (Tree → Tree × Progress) → ℕ → Forest → Forest × Progress
at_child op i nil = (nil, absent)
at_child op zero (cons t f) = let (t', p) = op t in (cons t' f, p)
at_child op (suc i) (cons t f) = let (f', p) = at_child op i f in (cons t f', p)

-- A change at a path, and what it brings about on the way up to the root.
unfoldable pub at_path : (Tree → Tree × Progress) → List ℕ → Tree → Tree × Progress
at_path op [] t = op t
at_path op (i ∷ path) (node a f) =
    let (f', p) = at_child (at_path op path) i f in climb p (node a f')

-- `set_node_status` at one node. An equal status ends the call.
unfoldable pub set_status : NodeStatus → Tree → Tree × Progress
set_status s (node a f) =
    if status_eq a.node_status s
    then (node a f, absent)
    else step_swim (node (set_status_only s a) f)

-- `sink_status_change` at one node: a container's whole subtree, or a task.
unfoldable pub sink_status : NodeStatus → Tree → Tree × Progress
sink_status s (node a f) =
    if a.is_task then set_status s (node a f) else step_swim (sink_only s (node a f))

unfoldable pub set_node_status : NodeStatus → List ℕ → Tree → Tree × Progress
set_node_status s = at_path (set_status s)

unfoldable pub sink_status_change : NodeStatus → List ℕ → Tree → Tree × Progress
sink_status_change s = at_path (sink_status s)
