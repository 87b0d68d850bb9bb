-- ===== src/Examples/Commands.antt =====
-- Commands on a flow with one family, whose first task runs.
use Prim.Native.String.{String, ◌++◌ as concat}
use text.Mathlib.Text.{◌==◌ as str_eq}
use text.Mathlib.TextEquality.{eq_iff}
use takler.Prelude.{
  Bool, ℕ, ◌≡◌, ◌↔◌, ◌+◌, refl, true, false, List, [], ◌∷◌, length, Option, none, some, ◌⊎◌, inr,
  if◌then◌else◌,
}
use takler.Status.{active, complete, queued, most_significant}
use takler.Tree.{Node, Tree, node, nil, cons}
use takler.Tree as Tree
use takler.Tree.Aggregated.{IsSound}
use takler.Paths.{Pathlib, found, node_path, find_by_text}
use takler.Paths.Names.{IsNamed, find_node-node_path}
use takler.Client.{flow_state_error}
use takler.Batch.{Operation, plain, Outcome, done, raised, execute, run_target}
use takler.Batch.Ordered.{Reports, attempt_all, execute_lem}
use takler.Batch.Effects.{IsTrue, run_target-IsTrue}
use takler.Reports.{Command, complete_command, flow_of, find_task, run_command}
use takler.Reports.Sound.{Answered, run_command-IsSound}
use takler.Reports.Current.{IsOfAttempt, run_command-IsOfAttempt}
use takler.Reports.Attributes.{AttributeCommand, event, run_attribute_command}
use takler.Reports.Attributes.Kept.{IsKept, run_attribute_command-IsKept}
use takler.Force.{to_status, force_path}
use takler.Force.Sound.{force_path-IsSound}
use takler.Zombie.{AuthMode, ZombiePolicy, enabled, fail}
use takler.Submission.{Hooks, finished, Place, run_node}
use takler.Submission.Restored.{IsKept as KeepsAttempt, Leaves, run_node-Leaves}
use takler.Examples.Nodes.{node_of, draw, started, strip}

abbrev first : Node
first = record (node_of "first" true active none) { attempt = started }

abbrev family : Tree
family =
    node (node_of "family" false active none)
      (cons (node first nil) (cons (node (node_of "second" true complete none) nil) nil))

abbrev flow : Tree
flow = node (node_of "flow" false active none) (cons family nil)

flow-IsNamed : IsNamed flow
flow-IsNamed = (refl, refl, tt, (refl, refl, (refl, tt), tt, (refl, refl, tt, tt, tt)), tt)

flow-IsSound : IsSound flow
unfolding Tree.computed_status most_significant
flow-IsSound = (
  (refl, tt),
  refl,
  refl,
  (
    ((refl, tt), refl, refl, (((refl, tt), refl, refl, tt), (((refl, tt), refl, refl, tt), tt))),
    tt,
  ),
)

abbrev first_names : List String
first_names = "flow" ∷ "family" ∷ "first" ∷ []

-- pathlib: each name behind a `/`, and the readings of the path of the first task and of the name of
-- its brother.
abbrev joined : List String → String
joined [] = ""
joined (name ∷ names) = concat "/" (concat name (joined names))

abbrev pathlib : Pathlib
pathlib = record {
  join = joined;
  read = λ s.
      if str_eq s "second" then record { is_absolute = false; parts = "second" ∷ [] } else record {
        is_absolute = true;
        parts = if str_eq s "/flow/family/first" then first_names else [];
      };
}

first_path : node_path (0 ∷ 0 ∷ []) flow ≡ some first_names
unfolding node_path
first_path = refl

second_path : node_path (0 ∷ 1 ∷ []) flow ≡ some ("flow" ∷ "family" ∷ "second" ∷ [])
unfolding node_path
second_path = refl

-- From the first task, its brother by name.
find_node-node_path_example : find_by_text pathlib flow first_names "second" ≡ found (0 ∷ 1 ∷ [])
find_node-node_path_example =
    find_node-node_path pathlib flow (0 ∷ 1 ∷ []) (0 ∷ 0 ∷ []) first_names
      ("flow" ∷ "family" ∷ "second" ∷ []) "second" flow-IsNamed first_path second_path refl
      (inr refl)

-- An operation that writes its target down, and refuses one of them after that.
abbrev log : Operation String String
log = record {
  kind = plain;
  operate = λ t s. elim (str_eq t "/bad") as (λ _. Outcome String) [
    | true ↦ raised flow_state_error t
    | false ↦ done t
  ];
  snapshot = λ s. some s;
  same = str_eq;
  controlled_run = λ t s. none;
}

abbrev targets : List String
targets = "/good" ∷ "/bad" ∷ "nowhere" ∷ "/last" ∷ []

execute_lem_example :
    let r = execute log targets "" in
    Reports log 0 targets "" r.0.results
    × (r.1 ≡ attempt_all log targets "")
    × (r.0.processed ≡ length targets)
    × (r.0.succeeded + r.0.failed ≡ length targets)
    × ((r.0.flag ≡ 0) ↔ (r.0.had_exception ≡ false))
    × ((r.0.flag ≡ 0) ⊎ (r.0.flag ≡ 16))
execute_lem_example = execute_lem log targets "" refl

run_target-IsTrue_example :
    let r = run_target log 1 "/bad" "/good" in
    IsTrue false r.0.effect r.0.flag (some "/good") (some r.2)
run_target-IsTrue_example = run_target-IsTrue log eq_iff 1 "/bad" "/good" refl

-- The first task completes, by its own attempt.
abbrev report : Command
report = record {
  node_path = record {
    is_absolute = true;
    is_slash = false;
    first_token = "flow";
    path = record { is_absolute = true; parts = "flow" ∷ "family" ∷ "first" ∷ [] };
  };
  attempt_id = "a0";
  report = complete_command;
  now = "09:00";
  password = some "pass";
}

-- Every text is an identifier here.
abbrev canonical : String → Option String
canonical s = some s

abbrev detector : Option (AuthMode × ZombiePolicy)
detector = some (enabled, fail)

run_command-IsSound_example : Answered flow (run_command canonical strip detector report flow)
run_command-IsSound_example = run_command-IsSound canonical strip detector report flow flow-IsSound

run_command-IsOfAttempt_example :
    (flow_of (run_command canonical strip detector report flow) ≡ flow)
    ⊎ IsOfAttempt "a0" (find_task flow report.node_path)
run_command-IsOfAttempt_example = run_command-IsOfAttempt canonical strip detector report flow

-- The first task sets an event of its family.
abbrev event_report : AttributeCommand
event_report = record {
  node_path = record {
    is_absolute = true;
    is_slash = false;
    first_token = "flow";
    path = record { is_absolute = true; parts = "flow" ∷ "family" ∷ [] };
  };
  source_task_path = some report.node_path;
  attempt_id = "a0";
  change = event "ready";
  password = some "pass";
}

run_attribute_command-IsKept_example :
    IsKept event_report flow
      (flow_of (run_attribute_command canonical strip detector event_report flow))
run_attribute_command-IsKept_example =
    run_attribute_command-IsKept canonical strip detector event_report flow

-- No node has parameters, and every limit has room.
abbrev no_parameter : Node → String → Bool
no_parameter a name = false

abbrev roomy : List ℕ → Bool
roomy is = true

force_path-IsSound_example :
    Answered flow
      (force_path no_parameter roomy none true true (to_status complete) report.node_path none flow)
force_path-IsSound_example =
    force_path-IsSound no_parameter roomy none true true (to_status complete) report.node_path none
      flow flow-IsSound

-- The body of the task fails on its first try.
abbrev hooks : Hooks Unit
hooks = record {
  is_synchronous = true;
  is_running = λ s. true;
  is_resolved = λ s. true;
  check_in_limit_up = λ s. true;
  before_run = λ s. finished tt s;
  refused_path = λ a. none;
  refused_restore = λ prior a. none;
  do_run = λ s. finished false s;
  after_run = λ s. finished tt s;
}

hooks-IsKept : KeepsAttempt hooks
hooks-IsKept = record {
  by_before = λ s. (refl, refl, refl);
  takes_reset = λ a. refl;
  takes_restore = λ prior a. refl;
  by_do = λ s. (refl, refl, refl);
  by_after = λ s. (refl, refl, refl);
}

abbrev place : Place
place = record { is_begun = true; is_task = true; node_status = queued }

run_node-Leaves_example :
    Leaves draw started
      (run_node hooks (some place) false draw (record { attempt = started; others = tt }))
run_node-Leaves_example =
    run_node-Leaves hooks hooks-IsKept (some place) false draw
      (record { attempt = started; others = tt })
