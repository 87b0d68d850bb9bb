-- ===== src/Force.antt =====
-- src/takler/server/scheduler.py: the force command on one target (`_force_path`), a node or an event, on
-- the flow that the target is in. Limits are Limit's: whether the limits of a task have room is an
-- argument, and so is whether a node has a parameter of a name. The logs are left out.
pub mod Sound
use Prim.Native.String.{String}
use text.Mathlib.Text.{◌==◌ as str_eq}
use takler.Prelude.{
  ℕ, zero, suc, Bool, true, false, ◌&&◌, ◌||◌, not, List, [], ◌∷◌, ◌++◌, ◌==◌, Option, none, some,
  is_some, if◌then◌else◌,
}
use takler.Status.{NodeStatus, complete, aborted, queued, status_eq}
use takler.Attr.Event.{Event, set_event}
use takler.Attr.Meter.{Meter}
use takler.Task.{clear_current_attempt}
use takler.Tree.{
  Node, Tree, node, Forest, nil, cons, root, has_unknown, unknown_within, set_node_status,
  sink_status_change,
}
use takler.Paths.{node_at, child_at, children}
use takler.Client.{
  Error, node_not_found_error, flow_state_error, unsupported_value_error, node_type_error,
}
use takler.Zombie.{is_empty}
use takler.Reports.{
  Outcome, accepted, refused, settle, write_at, CommandPath, Looked, at, raises, in_flight,
}
use takler.Reports.Attributes.{look_up_node}

-- A change of the subtree at a path and of nothing else.
unfoldable mutual
  pub rewrite_at : (Tree → Tree) → List ℕ → Tree → Tree
  rewrite_at g [] t = g t
  rewrite_at g (i ∷ is) (node a f) = node a (rewrite_child g i is f)

  pub rewrite_child : (Tree → Tree) → ℕ → List ℕ → Forest → Forest
  rewrite_child g i is nil = nil
  rewrite_child g zero is (cons t f) = cons (rewrite_at g is t) f
  rewrite_child g (suc i) is (cons t f) = cons t (rewrite_child g i is f)

abbrev pub clear_task : Node → Node
clear_task a = record a {
  attempt = if a.is_task then clear_current_attempt a.attempt else a.attempt;
}

-- `clear_current_attempt` of the tasks among the targets: the node, or the node and its descendants.
unfoldable mutual
  pub clear_all : Tree → Tree
  clear_all (node a f) = node (clear_task a) (clear_among f)

  pub clear_among : Forest → Forest
  clear_among nil = nil
  clear_among (cons t f) = cons (clear_all t) (clear_among f)

abbrev pub clear_one : Tree → Tree
clear_one (node a f) = node (clear_task a) f

abbrev pub clear_targets : Bool → Tree → Tree
clear_targets true t = clear_all t
clear_targets false t = clear_one t

abbrev carries : Option String → Bool
carries none = false
carries (some s) = not (is_empty s)

abbrev same_generation : Option String → Option String → Bool
same_generation none none = true
same_generation (some a) (some b) = str_eq a b
same_generation _ _ = false

-- Whether a status in flight may be forced on a task, for the generation of the flow, and with room.
abbrev pub may_fly : Option String → Bool → Node → Bool
may_fly generation room a =
    not a.is_task
    || (in_flight a.node_status
        && not (a.attempt.try_no == 0)
        && carries a.attempt.attempt_id
        && carries a.attempt.job_password
        && same_generation a.attempt.definition_generation generation
        && room)

module _ (room : List ℕ → Bool) (generation : Option String) where
  unfoldable mutual
    pub all_may_fly : List ℕ → Tree → Bool
    all_may_fly is (node a f) = may_fly generation (room is) a && among_may_fly is 0 f

    pub among_may_fly : List ℕ → ℕ → Forest → Bool
    among_may_fly is i nil = true
    among_may_fly is i (cons t f) = all_may_fly (is ++ (i ∷ [])) t && among_may_fly is (suc i) f

  abbrev targets_may_fly : Bool → List ℕ → Tree → Bool
  targets_may_fly true is t = all_may_fly is t
  targets_may_fly false is t = may_fly generation (room is) (root t)

  abbrev targets_unknown : Bool → Tree → Bool
  targets_unknown true t = unknown_within t
  targets_unknown false t = has_unknown (root t)

  abbrev is_terminal : NodeStatus → Bool
  is_terminal s = status_eq s complete || status_eq s aborted

  -- Whether the checks before any change refuse the node.
  unfoldable pub refuses : Bool → NodeStatus → List ℕ → Tree → Bool
  unfolding unknown_within
  refuses recursive s is t =
      (targets_unknown recursive t && (recursive || not (root t).is_task || not (is_terminal s)))
      || (in_flight s && not (targets_may_fly recursive is t))

  abbrev pub change_status_of : Bool → NodeStatus → List ℕ → Tree → Outcome
  change_status_of true s is t = settle (sink_status_change s is t)
  change_status_of false s is t = settle (set_node_status s is t)

  -- The node at the path, which is there.
  unfoldable pub force_node : Bool → NodeStatus → List ℕ → Tree → Tree → Outcome
  unfolding clear_all rewrite_at
  force_node recursive s is target t =
      if refuses recursive s is target
      then refused flow_state_error t
      else change_status_of recursive s is
          (if status_eq s queued then rewrite_at (clear_targets recursive) is t else t)

-- `ForceCommand.state`: the name of a status, `set` or `clear`.
pub data ForceState : Type 0 where
  to_status : NodeStatus → ForceState
  set clear : ForceState

abbrev pub has_event : String → List Event → Bool
has_event name [] = false
has_event name (e ∷ es) = str_eq e.name name || has_event name es

abbrev has_meter : String → List Meter → Bool
has_meter name [] = false
has_meter name (m ∷ ms) = str_eq m.name name || has_meter name ms

-- The first event of the name.
abbrev pub force_events : String → Bool → List Event → List Event
force_events name v [] = []
force_events name v (e ∷ es) =
    let rest = force_events name v es in if str_eq e.name name then set_event v e ∷ es else e ∷ rest

abbrev pub force_event : String → ForceState → List ℕ → Tree → Outcome
force_event name (to_status s) is t = refused unsupported_value_error t
force_event name set is t =
    accepted (write_at (λ a. record a { events = force_events name true a.events }) is t)
force_event name clear is t =
    accepted (write_at (λ a. record a { events = force_events name false a.events }) is t)

-- What `find_path` gives: a node, an event of a node, or a meter or a parameter of it.
pub data Found : Type 0 where
  the_node : List ℕ → Tree → Found
  the_event : List ℕ → String → Found
  other_variable : Found

module _ (has_parameter : Node → String → Bool) where
  abbrev find_variable : List ℕ → Node → String → Looked Found
  find_variable is a name =
      if has_event name a.events
      then at (the_event is name)
      else (if has_meter name a.meters || has_parameter a name
          then at other_variable
          else raises node_not_found_error)

  abbrev of_node : Option Tree → List ℕ → Looked Found
  of_node none is = raises node_not_found_error
  of_node (some t) is = at (the_node is t)

  abbrev pub find_in : Tree → Option String → Looked (List ℕ × Node) → Looked Found
  find_in t name (raises e) = raises e
  find_in t none (at (is, a)) = of_node (node_at is t) is
  find_in t (some name) (at (is, a)) = find_variable is a name

  -- `find_path`, or the exception for a path that finds nothing: the name of a variable comes after a colon.
  abbrev pub find_path : Tree → CommandPath → Option String → Looked Found
  find_path t p name = find_in t name (look_up_node t p)

  module _ (room : List ℕ → Bool) (generation : Option String) where
    abbrev pub force_found : Bool → Bool → ForceState → Tree → Looked Found → Outcome
    force_found begun recursive state t (raises e) = refused e t
    force_found false recursive state t (at v) = refused flow_state_error t
    force_found true recursive (to_status s) t (at (the_node is target)) =
        force_node room generation recursive s is target t
    force_found true recursive set t (at (the_node is target)) = refused unsupported_value_error t
    force_found true recursive clear t (at (the_node is target)) = refused unsupported_value_error t
    force_found true recursive state t (at (the_event is name)) = force_event name state is t
    force_found true recursive state t (at other_variable) = refused node_type_error t

    -- `_force_path`, in a flow that has begun or not.
    unfoldable pub force_path :
        (begun recursive : Bool) → ForceState → CommandPath → Option String → Tree → Outcome
    unfolding look_up_node force_node
    force_path begun recursive state p name t =
        force_found begun recursive state t (find_path t p name)
