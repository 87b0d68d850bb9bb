-- ===== src/Examples/Flows.antt =====
-- Two flows of one task each, the second one begun.
use takler.Prelude.{◌≡◌, refl, true, false, List, [], ◌∷◌, none}
use takler.Prelude.Int.{pos}
use takler.Status.{complete, aborted}
use takler.Tree.{Tree, node, nil, cons, unknown_within, requeue}
use takler.Flows.{Flow, new_flow, begin_flows, run_command_begin}
use takler.Flows.Begun.{Begins, run_command_begin-Begins}
use takler.Examples.Nodes.{node_of}

abbrev day : Tree
day =
    node (node_of "day" false complete none)
      (cons (node (node_of "fetch" true complete none) nil) nil)

abbrev night : Tree
night =
    node (node_of "night" false aborted none)
      (cons (node (node_of "clean" true aborted none) nil) nil)

abbrev two_flows : List Flow
two_flows = new_flow day ∷ record (new_flow night) { begun = true } ∷ []

run_accepted : (run_command_begin pos true "" two_flows).1 ≡ none
unfolding run_command_begin begin_flows unknown_within requeue
run_accepted = refl

run_command_begin-Begins_example :
    Begins false "day" two_flows (run_command_begin pos false "day" two_flows)
run_command_begin-Begins_example = run_command_begin-Begins false "day" pos two_flows refl
