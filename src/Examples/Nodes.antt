-- ===== src/Examples/Nodes.antt =====
-- A flow with a family that repeats over three days, and an attempt of a task.
use Prim.Native.String.{String}
use takler.Prelude.{
  arith, ◌≡◌, ◌≢◌, refl, ◌⊎◌, Bool, true, false, List, [], ◌∷◌, Option, none, some,
}
use takler.Status.{NodeStatus, complete, queued, active, aborted, most_significant, bunch_status}
use takler.Status.Significant.{bunch_status-most_significant}
use takler.Status.Cache.{Call, compute, set_status, append, delete, calls, new, computed_status}
use takler.Status.Cache.Coherent.{calls-computed_status, status_of}
use takler.Attr.Repeat.{RepeatDate, new_repeat}
use takler.Task.{Attempt, new_attempt, Draw}
use takler.Tree.{
  Node, Tree, node, Forest, nil, cons, Progress, failed, set_node_status, sink_status_change,
  requeue,
}
use takler.Tree as Tree
use takler.Tree.Aggregated.{IsSound}
use takler.Tree.Sound.{status_change-IsSound}
use takler.Tree.Requeue.{IsRequeued, requeue_lem}
use takler.Zombie.{
  AuthMode, enabled, ZombiePolicy, fail, adopt, ChildCommand, Target, answer, proceed, detect,
  guard,
}
use takler.Zombie as Zombie
use takler.Zombie.Guard.{IsCurrent, Handled, guard_lem}

abbrev pub node_of : String → Bool → NodeStatus → Option RepeatDate → Node
node_of name is_task status repeat = record {
  name = name;
  is_task = is_task;
  node_status = status;
  suspended = false;
  default_node_status = queued;
  is_complete_triggered = false;
  times = [];
  events = [];
  meters = [];
  repeat = repeat;
  trigger_free = none;
  attempt = new_attempt;
}

-- The first task runs, and the second is complete.
abbrev family : Tree
family = node (node_of "family" false active (some (new_repeat "day" 10 12 1))) (
    cons (node (node_of "first" true active none) nil)
      (cons (node (node_of "second" true complete none) nil) nil))

abbrev flow : Tree
flow = node (node_of "flow" false active none) (cons family nil)

flow-IsSound : IsSound flow
unfolding Tree.computed_status most_significant
flow-IsSound = (
  (refl, tt),
  refl,
  refl,
  (
    (
      (refl, (omega arith, omega arith, omega arith)),
      refl,
      refl,
      (((refl, tt), refl, refl, tt), (((refl, tt), refl, refl, tt), tt)),
    ),
    tt,
  ),
)

status_change-IsSound_example :
    IsSound (set_node_status complete (0 ∷ 0 ∷ []) flow).0
    × ((set_node_status complete (0 ∷ 0 ∷ []) flow).1 ≢ failed)
    × IsSound (sink_status_change complete (0 ∷ 0 ∷ []) flow).0
    × ((sink_status_change complete (0 ∷ 0 ∷ []) flow).1 ≢ failed)
status_change-IsSound_example = status_change-IsSound complete (0 ∷ 0 ∷ []) flow flow-IsSound

requeue_lem_example : IsRequeued true flow (requeue true flow)
requeue_lem_example = requeue_lem true flow

abbrev edits : List Call
edits =
    append active
    ∷ append queued
    ∷ compute
    ∷ set_status 0 complete
    ∷ compute
    ∷ delete 1
    ∷ append aborted
    ∷ []

calls-computed_status_example :
    (computed_status (calls edits new)).1
    ≡ status_of (calls edits new).own (calls edits new).children
calls-computed_status_example = calls-computed_status edits

bunch_status-most_significant_example :
    bunch_status (complete ∷ active ∷ queued ∷ [])
    ≡ most_significant (complete ∷ active ∷ queued ∷ [])
bunch_status-most_significant_example =
    bunch_status-most_significant (complete ∷ active ∷ queued ∷ [])

abbrev pub draw : Draw
draw = record {
  flow_generation = some (some "g1");
  generation = "g2";
  attempt = "a1";
  password = "secret";
}

abbrev pub started : Attempt
started = record new_attempt {
  try_no = 1;
  attempt_id = some "a0";
  job_password = some "pass";
  task_id = some "17";
  started_at = some "06:00";
}

abbrev target : Target
target = record { node_status = active; attempt = started }

abbrev requeued : Target
requeued = record { node_status = queued; attempt = new_attempt }

-- No blanks are stripped: enough for passwords without blanks.
abbrev pub strip : String → String
strip s = s

guard_lem_example :
    (IsCurrent enabled target Zombie.complete none (some "old")
      × (guard strip enabled adopt target Zombie.complete none (some "old")
          ≡ (target, answer proceed, [])))
    ⊎ ((¬ IsCurrent enabled target Zombie.complete none (some "old"))
        × Handled strip adopt target
            (some "old")
            (guard strip enabled adopt target Zombie.complete none (some "old")))
guard_lem_example = guard_lem strip enabled adopt target Zombie.complete none (some "old")
