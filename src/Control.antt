-- ===== src/Control.antt =====
-- src/takler/server/scheduler.py: the control commands `requeue`, `suspend`, `resume` and `free-dep` on one
-- target, as `batch_targets` calls them, on the flows of the server, with the methods of
-- src/takler/core/node.py behind them. The text of a target is read by pathlib and is given with its parts.
-- Whether a flow is found is decided by its name; the flows are a dictionary, and a list in its order
-- stands for it. The tokens that a requeue gives back are Limit's; logs and notices are left out.
pub mod Footprint
pub mod Answered
use text.Mathlib.Text.{◌==◌ as str_eq}
use takler.Prelude.{
  ℕ, zero, suc, Bool, true, false, ◌&&◌, not, List, [], ◌∷◌, map, Option, none, some, bind,
  if◌then◌else◌,
}
use takler.Attr.TimeAttr.{set_free}
use takler.Dependencies.{DependencyType, frees_time, frees_trigger}
use takler.Tree.{Node, Tree, node, Forest, nil, cons, requeue}
use takler.Flows.{Flow, name_of}
use takler.Client.{Error, node_not_found_error, flow_state_error, invalid_node_path_error}
use takler.Reports.{Outcome, accepted, refused, write_at, CommandPath, Looked, at, raises}
use takler.Reports.Attributes.{look_up_node}

pub data ControlCommand : Type 0 where
  requeue_command suspend_command resume_command : ControlCommand
  free_dep_command : DependencyType → ControlCommand

-- The commands that call `_require_begun`.
abbrev pub needs_begun : ControlCommand → Bool
needs_begun requeue_command = true
needs_begun suspend_command = false
needs_begun resume_command = false
needs_begun (free_dep_command d) = true

-- The subtree at a path, replaced by what an operation makes of it; `none` if it refuses, or there is none.
unfoldable mutual
  pub replace_at : (Tree → Option Tree) → List ℕ → Tree → Option Tree
  replace_at g [] t = g t
  replace_at g (i ∷ is) (node a f) = bind (replace_child g i is f) (λ f'. some (node a f'))

  pub replace_child : (Tree → Option Tree) → ℕ → List ℕ → Forest → Option Forest
  replace_child g i is nil = none
  replace_child g zero is (cons t f) = bind (replace_at g is t) (λ t'. some (cons t' f))
  replace_child g (suc i) is (cons t f) = bind (replace_child g i is f) (λ f'. some (cons t f'))

abbrev free_trigger_of : Option Bool → Option Bool
free_trigger_of none = none
free_trigger_of (some free) = some true

-- `Node.free_dependencies`, on the node's own fields.
unfoldable pub free_node : DependencyType → Node → Node
free_node d a = record a {
  times = if frees_time d then map set_free a.times else a.times;
  trigger_free = if frees_trigger d then free_trigger_of a.trigger_free else a.trigger_free;
}

-- `Node.suspend` and `Node.resume`
abbrev pub suspend_node : Bool → Node → Node
suspend_node s a = record a { suspended = s }

-- `Node.requeue` of the node that was found: the tree, if it does not raise.
abbrev pub requeued : Tree → Option Tree → Outcome
requeued t none = refused flow_state_error t
requeued t (some t') = accepted t'

-- The method of the node at the path.
unfoldable pub operate : ControlCommand → List ℕ → Tree → Outcome
unfolding replace_at free_node
operate requeue_command is t = requeued t (replace_at (requeue true) is t)
operate suspend_command is t = accepted (write_at (suspend_node true) is t)
operate resume_command is t = accepted (write_at (suspend_node false) is t)
operate (free_dep_command d) is t = accepted (write_at (free_node d) is t)

-- The command on the flow that the path names, for what the path finds there.
abbrev pub on_node : ControlCommand → Flow → Looked (List ℕ × Node) → Outcome
on_node c f (raises e) = refused e f.tree
on_node c f (at (is, a)) =
    if needs_begun c && not f.begun then refused flow_state_error f.tree else operate c is f.tree

abbrev pub with_outcome : Flow → Outcome → Flow × Option Error
with_outcome f (accepted t) = (record f { tree = t }, none)
with_outcome f (refused e t) = (record f { tree = t }, some e)

unfoldable pub on_flow : ControlCommand → CommandPath → Flow → Flow × Option Error
unfolding look_up_node operate
on_flow c p f = with_outcome f (on_node c f (look_up_node f.tree p))

-- The flows after the command on the first of the name, and the exception, if there is one.
unfoldable pub on_flows : ControlCommand → CommandPath → List Flow → List Flow × Option Error
unfolding on_flow
on_flows c p [] = ([], some node_not_found_error)
on_flows c p (f ∷ fs) =
    let rest = on_flows c p fs in
    if str_eq p.first_token (name_of f)
    then (let (f', e) = on_flow c p f in (f' ∷ fs, e))
    else (f ∷ rest.0, rest.1)

-- `run_command_requeue`, `run_command_suspend`, `run_command_resume` and `run_command_free_dep`, on
-- one target.
unfoldable pub run_control : ControlCommand → CommandPath → List Flow → List Flow × Option Error
unfolding on_flows
run_control c p fs =
    if not p.is_absolute
    then (fs, some invalid_node_path_error)
    else if p.is_slash
    then (fs, some invalid_node_path_error)
    else on_flows c p fs
