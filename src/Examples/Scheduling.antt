-- ===== src/Examples/Scheduling.antt =====
-- A trigger, the dependencies of a task, and a pass over a flow of three nodes.
use Prim.Native.String.{String}
use takler.Prelude.{
  ℕ, suc, ◌≡◌, ◌≤◌, ◌==◌, refl, true, false, ◌||◌, not, List, [], ◌∷◌, Option, none, some, is_some,
  arith,
}
use takler.Prelude.Int.{pos}
use takler.Status.{complete, queued}
use takler.Attr.TimeAttr.{TimeOfDay, new_time}
use takler.Limit.{Level, Store, check_in_limit_up, new_limit, resolve_up, check_levels}
use takler.Trigger.{
  Reference, Variable, meter, compare_to, op_and, op_eq, op_gt, node_path, variable_path, integer,
  status, Expression, Ast, Result, ok, err, syntax_error, evaluate_expression,
}
use takler.Trigger.Typing.{
  Signature, number, node_status, IsTrigger, both, comparison, of_path, of_status, of_variable,
  of_integer, meaning,
}
use takler.Trigger.Sound.{evaluate_expression-meaning}
use takler.Dependencies.{Dependent, ready, all, check_task, free_dependencies, resume}
use takler.Dependencies.Ready.{check_task-free_dependencies}
use takler.Scan.{
  Hooks, finished, Items, container, other, nil, cons, fresh, Job, process_flow, resilient, pass,
}
use takler.Scan.Order.{exhaust, count, count_item, exhaust-process_flow, IsKept}
use takler.Scan.Rounds.{total, pass_ends}

-- Every node is complete, and each of its meters stands at 5.
abbrev finder : String → Option Variable
finder x = some (meter (pos 5))

abbrev reference : Reference
reference p = some (record { status = complete; find_variable = finder })

abbrev kinds : Signature
kinds p x = some number

-- /flow/first == complete and /flow/first:step > 3
abbrev first_done : Expression
first_done = record {
  free = false;
  ast =
      op_and (compare_to op_eq (node_path "/flow/first") (status complete))
        (compare_to op_gt (variable_path "/flow/first" "step") (integer (pos 3)));
}

abbrev first_done-IsTrigger : IsTrigger kinds first_done.ast
first_done-IsTrigger =
    both (comparison op_eq node_status (of_path "/flow/first") (of_status complete))
      (comparison op_gt number (of_variable "/flow/first" "step" number refl) (of_integer (pos 3)))

evaluate_expression-meaning_example :
    evaluate_expression reference first_done
    ≡ ok (first_done.free || meaning reference first_done.ast)
evaluate_expression-meaning_example =
    evaluate_expression-meaning kinds reference (λ p x. tt) first_done first_done-IsTrigger

-- A text without a tree cannot be read here.
abbrev no_reader : String → Result Ast
no_reader text = err syntax_error

abbrev noon : TimeOfDay
noon = record { hour = 12; minute = 0 }

-- A task that waits for noon, at noon.
abbrev waiting : Dependent
waiting = record {
  node_status = queued;
  suspended = false;
  times = new_time noon ∷ [];
  complete_trigger_expression = none;
  trigger_expression =
      some (record { expression_str = ""; free = false; ast = some first_done.ast });
}

abbrev no_limits : List Level → String → Option (List ℕ)
no_limits levels path = none

abbrev store : Store
store r = new_limit "slots" 2

-- The same task at another hour, suspended.
abbrev held : Dependent
held = record waiting { suspended = true; times = new_time (record { hour = 3; minute = 30 }) ∷ [] }

limits_free : check_in_limit_up no_limits store "/flow/second" [] ≡ true
unfolding check_in_limit_up resolve_up check_levels
limits_free = refl

check_task-free_dependencies_example :
    check_task no_reader reference noon no_limits store "/flow/second" []
      (resume (free_dependencies all held))
    ≡ ok ready
check_task-free_dependencies_example =
    check_task-free_dependencies no_reader reference noon no_limits store "/flow/second" [] held
      refl (first_done.ast, refl) refl limits_free

-- Each node that is visited is written down; the family 3 is not open.
abbrev hooks : Hooks ℕ (List ℕ)
hooks = record {
  check_dependencies = λ l s. finished (not (l == 3)) (l ∷ s);
  resolve_other = λ l s. finished tt (l ∷ s);
  update_calendar = λ l s. finished tt s;
  is_stopping = λ s. false;
  is_halted = λ s. false;
  begun = λ l s. true;
  is_attached = λ l s. true;
  should_stop = λ s. false;
  fatal_shutdown = λ s. s;
}

abbrev nodes : Items ℕ
nodes =
    cons (container 1 (cons (other 2) nil))
      (cons (container 3 (cons (other 4) nil)) (cons (other 5) nil))

hooks-IsKept : IsKept hooks 0
hooks-IsKept = record {
  kept_by_check = λ l s h. refl;
  kept_by_other = λ l s h. refl;
  kept_by_calendar = λ s h. refl;
}

exhaust-process_flow_example :
    exhaust hooks 0 (suc (count nodes)) (fresh nodes) [] ≡ some (process_flow hooks 0 nodes [])
exhaust-process_flow_example = exhaust-process_flow hooks 0 hooks-IsKept nodes [] refl

abbrev jobs : List (Job ℕ)
jobs =
    record { flow = 0; steps = fresh nodes }
    ∷ record { flow = 6; steps = fresh (cons (other 7) nil) }
    ∷ []

eight : total jobs ≤ 8
unfolding count_item
eight = ground arith

pass_ends_example :
    is_some (pass hooks (λ n. true) resilient (λ n s. s) (λ n s. s) 8 jobs []) ≡ true
pass_ends_example = pass_ends hooks (λ n. true) resilient (λ n s. s) (λ n s. s) jobs 8 [] eight
