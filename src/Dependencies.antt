-- ===== src/Dependencies.antt =====
-- src/takler/core/node.py and task_node.py: whether the scheduler may run a node now. A trigger that
-- has no syntax tree yet is read when it is evaluated, even if it is free: `create_ast`, which the
-- parser and the search for the paths make up, is an argument; the tree that it keeps is the one that
-- reading the text again would give. The node is in a flow, whose calendar gives the flow time. What
-- the answer `completed` does to the node, `set_node_status(complete)`, is Tree's.
pub mod Ready
use Prim.Native.String.{String}
use takler.Prelude.{
  ℕ, Bool, true, false, ◌&&◌, ◌||◌, not, List, [], ◌∷◌, if◌then◌else◌, Option, none, some,
}
use takler.Status.{NodeStatus, complete, active, submitted, unknown, aborted, status_eq}
use takler.Attr.TimeAttr.{TimeOfDay, TimeAttribute, is_free, set_free}
use takler.Limit.{Level, Store, check_in_limit_up, missing_up, resolve_up, names, is_nil}
use takler.Trigger.{Reference, Ast, Result, ok, err, ◌>>=◌, evaluate_expression}

-- `Expression`, whose tree may still have to be made.
pub record TriggerExpression : Type 0 where
  pub expression_str : String
  pub free : Bool
  pub ast : Option Ast

-- The fields of a node that its dependencies stand in.
pub record Dependent : Type 0 where
  pub node_status : NodeStatus
  pub suspended : Bool
  pub times : List TimeAttribute
  pub complete_trigger_expression : Option TriggerExpression
  pub trigger_expression : Option TriggerExpression

-- `check_dependencies` returns `True` in the case `ready`, and `False` in the others; with `completed` it
-- sets the node complete.
pub data Answer : Type 0 where
  blocked completed ready : Answer

abbrev pub some_free : TimeOfDay → List TimeAttribute → Bool
some_free now [] = false
some_free now (t ∷ ts) = is_free now t || some_free now ts

unfoldable pub resolve_time_dependencies : TimeOfDay → List TimeAttribute → Bool
resolve_time_dependencies now [] = true
resolve_time_dependencies now (t ∷ ts) = some_free now (t ∷ ts)

-- The statuses in which `Task.check_dependencies` answers at once.
abbrev pub is_settled : NodeStatus → Bool
is_settled s =
    status_eq s complete || status_eq s active || status_eq s submitted || status_eq s unknown

-- The end of `Task.check_dependencies`, on the answer for the node and on the limits of its ancestry.
abbrev pub after_node : NodeStatus → Bool → Answer → Answer
after_node s allowed ready =
    if status_eq s aborted then blocked else (if allowed then ready else blocked)
after_node s allowed a = a

module _ (find_limits : List Level → String → Option (List ℕ)) where
  abbrev pub limits_allow : Store → String → List Level → Bool
  limits_allow s path levels =
      is_nil (missing_up (resolve_up find_limits (names s) levels))
      && check_in_limit_up find_limits s path levels

module _ (create_ast : String → Result Ast) (reference : Reference) (now : TimeOfDay) where
  -- The tree that is there, or the one that `create_ast` makes now.
  abbrev pub ast_of : TriggerExpression → Result Ast
  ast_of e = elim e.ast [ none ↦ create_ast e.expression_str | some a ↦ ok a ]

  abbrev pub evaluate_read : TriggerExpression → Result Bool
  evaluate_read e =
      ast_of e >>= λ a. evaluate_expression reference (record { free = e.free; ast = a })

  abbrev pub evaluate_trigger : Option TriggerExpression → Result Bool
  evaluate_trigger none = ok true
  evaluate_trigger (some e) = evaluate_read e

  abbrev pub evaluate_complete_trigger : Option TriggerExpression → Result Bool
  evaluate_complete_trigger none = ok false
  evaluate_complete_trigger (some e) = evaluate_read e

  -- `Node.check_dependencies`
  unfoldable pub check_dependencies : Dependent → Result Answer
  check_dependencies n =
      if n.suspended
      then ok blocked
      else (if not (resolve_time_dependencies now n.times)
          then ok blocked
          else (evaluate_complete_trigger n.complete_trigger_expression >>= λ done.
              if done
              then ok completed
              else (evaluate_trigger n.trigger_expression >>= λ met.
                  ok (if met then ready else blocked))))

  module _ (find_limits : List Level → String → Option (List ℕ)) where
    -- `Task.check_dependencies`, for a task at a path with its ancestry.
    unfoldable pub check_task : Store → String → List Level → Dependent → Result Answer
    check_task s path levels n =
        if is_settled n.node_status
        then ok blocked
        else (check_dependencies n >>= λ a.
            ok (after_node n.node_status (limits_allow find_limits s path levels) a))

-- The three dependency types of `free_dependencies`; any other text is refused.
pub data DependencyType : Type 0 where
  all time trigger : DependencyType

abbrev pub frees_time : DependencyType → Bool
frees_time trigger = false
frees_time _ = true

abbrev pub frees_trigger : DependencyType → Bool
frees_trigger time = false
frees_trigger _ = true

abbrev pub free_times : List TimeAttribute → List TimeAttribute
free_times [] = []
free_times (t ∷ ts) = set_free t ∷ free_times ts

abbrev pub free_expression : Option TriggerExpression → Option TriggerExpression
free_expression none = none
free_expression (some e) = some (record e { free = true })

unfoldable pub free_dependencies : DependencyType → Dependent → Dependent
free_dependencies d n = record n {
  times = if frees_time d then free_times n.times else n.times;
  trigger_expression =
      if frees_trigger d then free_expression n.trigger_expression else n.trigger_expression;
}

unfoldable pub suspend : Dependent → Dependent
suspend n = record n { suspended = true }

unfoldable pub resume : Dependent → Dependent
resume n = record n { suspended = false }
