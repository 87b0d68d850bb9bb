-- ===== src/Examples/Boundaries.antt =====
-- A command that fails at the boundary, and a flow that is loaded and replaced.
use Prim.Native.String.{String}
use takler.Prelude.{ℕ, ◌≡◌, refl, Bool, true, false, [], ◌∷◌, Option, none}
use takler.Prelude.Int.{pos}
use takler.Client.{Error, node_not_found_error}
use takler.Journal.{QueryChanges, new_changes, begin, finish}
use takler.Handlers.{
  Command, requeue, Response, batch_response, Result, returned, raised, failure_of, fail_fast,
  Server, Service, operate, dispatch, handle_command, audit_control, is_control, method_name,
  error_response,
}
use takler.Handlers.Boundary.{IsHandled, entered, revisions, dispatch-IsHandled}
use takler.Status.{queued, complete}
use takler.Tree.{Tree, node, nil, cons}
use takler.Reports.{CommandPath}
use takler.Flows.{new_flow}
use takler.Flows as Flows
use takler.Tree as Tree
use takler.Reports.Attributes.{look_up_node}
use takler.Definitions.{
  Online, Bunch, Builder, a_flow, run_command_load, replace_flow, valid_target, find_target,
  initialize, is_idle,
}
use takler.Definitions.Distinct.{Loads, run_command_load-Loads}
use takler.Definitions.Attached.{ReplaceAnswers, replace_flow-Answers}
use takler.Examples.Nodes.{node_of}

-- A scheduler that finds no node, under a policy to fail fast.
abbrev run_nothing : Command → ℕ → Bool → QueryChanges → Result Response × Bool × QueryChanges
run_nothing c q x changes = (raised (failure_of node_not_found_error), x, changes)

abbrev service : Service Bool ℕ
service = record {
  parse_request = returned 7;
  run = run_nothing;
  flush = λ x changes. x;
  policy = fail_fast;
  has_audit_logger = true;
}

abbrev server : Server Bool
server = record {
  scheduler = false;
  query_changes = new_changes;
  query_revision = 4;
  audit = [];
  fatal_error = false;
}

abbrev utf8_length : String → ℕ
utf8_length p = 4

run_nothing-depth :
    (c : Command) (q : ℕ) (x : Bool) (changes : QueryChanges)
    → (run_nothing c q x changes).2.depth ≡ changes.depth
run_nothing-depth c q x changes = refl

dispatch-IsHandled_example :
    let (r, s') = dispatch service utf8_length 10 requeue false server in
    IsHandled service requeue false
      (operate service requeue (returned 7) (entered service utf8_length requeue server)).0
      (revisions requeue)
      server
      r
      s'
dispatch-IsHandled_example =
    dispatch-IsHandled service run_nothing-depth utf8_length 10 requeue false server

requeue_answer :
    (dispatch service utf8_length 10 requeue false server).0 ≡ returned (batch_response 10 false)
unfolding dispatch handle_command error_response audit_control begin finish is_control method_name
requeue_answer = refl

abbrev day : Tree
day =
    node (node_of "day" false complete none)
      (cons (node (node_of "fetch" true complete none) nil) nil)

abbrev online : Online
online = record { flow = record (new_flow day) { begun = true }; limits = [] }

abbrev candidate : Online
candidate = record {
  flow = new_flow (node (node_of "day" false queued none) nil);
  limits = record { value = 0; node_paths = [] } ∷ [];
}

abbrev bunch : Bunch
bunch = record { flows = online ∷ []; limits = [] }

abbrev empty_bunch : Bunch
empty_bunch = record { flows = []; limits = [] }

abbrev builder : Builder
builder = record { construct = λ bytes. a_flow candidate; bind_references = λ f b. none }

abbrev parse : String → CommandPath
parse target = record {
  is_absolute = true;
  is_slash = false;
  first_token = "day";
  path = record { is_absolute = true; parts = "day" ∷ [] };
}

abbrev check : Bunch → Online → Online → Option Error
check b old new = none

run_command_load-Loads_example :
    Loads empty_bunch (run_command_load builder "json" "day" empty_bunch)
run_command_load-Loads_example = run_command_load-Loads builder "json" "day" empty_bunch tt

replace_flow-Answers_example :
    ReplaceAnswers builder parse check
      (pos 0)
      (pos 60)
      "/day"
      "day"
      bunch
      (replace_flow builder parse check (pos 0) (pos 60) "/day" "day" bunch)
replace_flow-Answers_example =
    replace_flow-Answers builder parse check (pos 0) (pos 60) "/day" "day" bunch

replace_accepted : (replace_flow builder parse check (pos 0) (pos 60) "/day" "day" bunch).1 ≡ none
unfolding replace_flow valid_target find_target initialize is_idle look_up_node Flows.begin
    Tree.unknown_within Tree.requeue
replace_accepted = refl
