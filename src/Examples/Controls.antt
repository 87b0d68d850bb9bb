-- ===== src/Examples/Controls.antt =====
-- Control commands on a flow that has begun and whose only task is complete.
use takler.Prelude.{◌≡◌, refl, true, false, List, [], ◌∷◌, none}
use takler.Status.{NodeStatus, complete, queued}
use takler.Tree.{Tree, node, nil, cons, root}
use takler.Tree as Tree
use takler.Paths.{children}
use takler.Reports.{CommandPath}
use takler.Flows.{Flow, new_flow}
use takler.Control.{requeue_command, run_control}
use takler.Examples.Nodes.{node_of}

abbrev day : Tree
day =
    node (node_of "day" false complete none)
      (cons (node (node_of "fetch" true complete none) nil) nil)

abbrev flows : List Flow
flows = record (new_flow day) { begun = true } ∷ []

-- The path of the task.
abbrev fetch : CommandPath
fetch = record {
  is_absolute = true;
  is_slash = false;
  first_token = "day";
  path = record { is_absolute = true; parts = "day" ∷ "fetch" ∷ [] };
}

-- The task is queued then, and the flow is complete still.
abbrev statuses_of : List Flow → List (NodeStatus × List NodeStatus)
statuses_of [] = []
statuses_of (f ∷ fs) = ((root f.tree).node_status, Tree.statuses (children f.tree)) ∷ statuses_of fs

requeue_below :
    statuses_of (run_control requeue_command fetch flows).0 ≡ (complete, queued ∷ []) ∷ []
unfolding run_control Tree.requeue Tree.requeue_task
requeue_below = refl
