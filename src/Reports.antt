-- ===== src/Reports.antt =====
-- src/takler/server/scheduler.py: the reports `init`, `complete` and `abort` of a job, on the flow that
-- it belongs to, with the operations of src/takler/core/task_node.py behind them. A path of another flow
-- finds no node here. The tokens of the limits are Limit's, and so is their part of a change of status;
-- the logs and the audit records are left out.
pub mod Harmless
pub mod Sound
pub mod Current
pub mod Attributes
use Prim.Native.String.{String}
use text.Mathlib.Text.{◌==◌ as str_eq}
use takler.Prelude.{
  ℕ, zero, suc, Bool, true, false, ◌&&◌, ◌||◌, not, List, [], ◌∷◌, Option, none, some,
  if◌then◌else◌,
}
use takler.Status.{NodeStatus, submitted, active, complete, aborted, status_eq}
use takler.Task.{Attempt, init_attempt, complete_attempt}
use takler.Tree.{
  Node, Tree, node, Forest, nil, cons, root, Progress, absent, failed, swim, only, set_node_status,
  at_path, step_swim,
}
use takler.Paths.{PosixPath, Found, found, missing, index_error, node_at, find_node}
use takler.Client.{
  Error, attempt_mismatch_error, invalid_request_error, invalid_node_path_error,
  node_not_found_error, node_type_error, zombie_error, flow_state_error, foreign_error,
}
use takler.Zombie.{
  AuthMode, ZombiePolicy, ChildCommand, Target, answer, proceed, skip, is_empty, detect, guard,
  or_blank,
}
use takler.Zombie as Zombie

-- What a command leaves: no exception, or one.
pub data Outcome : Type 0 where
  accepted : Tree → Outcome
  refused : Error → Tree → Outcome

abbrev pub flow_of : Outcome → Tree
flow_of (accepted t) = t
flow_of (refused e t) = t

-- A change of the node at a path and of nothing else.
unfoldable mutual
  pub write_at : (Node → Node) → List ℕ → Tree → Tree
  write_at g [] (node a f) = node (g a) f
  write_at g (i ∷ is) (node a f) = node a (write_child g i is f)

  pub write_child : (Node → Node) → ℕ → List ℕ → Forest → Forest
  write_child g i is nil = nil
  write_child g zero is (cons t f) = cons (write_at g is t) f
  write_child g (suc i) is (cons t f) = cons t (write_child g i is f)

abbrev pub with_attempt : (Attempt → Attempt) → Node → Node
with_attempt g a = record a { attempt = g a.attempt }

-- The end of `handle_status_change`: an exception is that of a requeue.
abbrev pub settle : Tree × Progress → Outcome
settle (t, absent) = accepted t
settle (t, failed) = refused flow_state_error t
settle (t, swim) = accepted t
settle (t, only) = accepted t

abbrev pub then_do : (Tree → Outcome) → Outcome → Outcome
then_do g (accepted t) = g t
then_do g (refused e t) = refused e t

-- What `Task.init`, `complete` and `abort` share: the fields written first, the new status with its
-- handling, the fields written then, and the handling once more.
unfoldable pub change_status :
    NodeStatus → (before after : Attempt → Attempt) → List ℕ → Tree → Outcome
unfolding write_at set_node_status at_path step_swim
change_status s before after is t =
    then_do (λ t'. settle (at_path step_swim is (write_at (with_attempt after) is t')))
      (settle (set_node_status s is (write_at (with_attempt before) is t)))

abbrev unchanged : Attempt → Attempt
unchanged a = a

unfoldable pub init_task : (now task_id : String) → List ℕ → Tree → Outcome
unfolding change_status init_attempt
init_task now task_id = change_status active (init_attempt now task_id) unchanged

unfoldable pub complete_task : (now : String) → List ℕ → Tree → Outcome
unfolding change_status complete_attempt
complete_task now = change_status complete (complete_attempt now) unchanged

-- Before the status `abort` writes what `complete` writes, and the reason after it.
unfoldable pub abort_task : (now reason : String) → List ℕ → Tree → Outcome
unfolding change_status complete_attempt
abort_task now reason =
    change_status aborted (complete_attempt now) (λ a. record a { aborted_reason = some reason })

-- The path of a command, with the tests and the split that `Bunch.find_node` applies to its text.
pub record CommandPath : Type 0 where
  pub is_absolute : Bool
  pub is_slash : Bool
  pub first_token : String
  pub path : PosixPath

pub data Report : Type 0 where
  init_command : (task_id : String) → Report
  complete_command : Report
  abort_command : (reason : String) → Report

pub record Command : Type 0 where
  pub node_path : CommandPath
  pub attempt_id : String
  pub report : Report
  -- What comes with the call: the time, and the password that it carries.
  pub now : String
  pub password : Option String

-- A lookup, or the exception that it raises.
pub data Looked (A : Type 0) : Type 0 where
  at : A → Looked A
  raises : Error → Looked A

abbrev pub of_found : Tree → Found → Looked (List ℕ × Node)
of_found t (found is) = elim (node_at is t) [
  | some n ↦ at (is, root n)
  | none ↦ raises node_not_found_error
]
of_found t missing = raises node_not_found_error
of_found t index_error = raises foreign_error

-- `_find_task_or_raise`, with `Bunch.find_node`.
unfoldable pub find_task : Tree → CommandPath → Looked (List ℕ × Node)
unfolding find_node node_at
find_task t p =
    if not p.is_absolute || p.is_slash
    then raises invalid_node_path_error
    else (if not (str_eq p.first_token (root t).name)
        then raises node_not_found_error
        else elim (of_found t (find_node t ((root t).name ∷ []) p.path)) [
          | raises e ↦ raises e
          | at (is, a) ↦ if a.is_task then at (is, a) else raises node_type_error
        ])

abbrev pub in_flight : NodeStatus → Bool
in_flight s = status_eq s submitted || status_eq s active

abbrev pub same_text : Option String → String → Bool
same_text none s = false
same_text (some r) s = str_eq r s

-- `canonical` is `str(UUID(text))`, with `none` for the exception of a text that is no identifier;
-- `strip` is `str.strip`. `detector` is the zombie detector, if there is one.
module _ (canonical : String → Option String) (strip : String → String)
    (detector : Option (AuthMode × ZombiePolicy)) where
  -- `_validate_attempt_id`: the exception, if it raises one.
  unfoldable pub validate_attempt_id : String → Option Error
  validate_attempt_id id =
      if is_empty id
      then some attempt_mismatch_error
      else (if same_text (canonical id) id then none else some invalid_request_error)

  -- The tests of `_guard_attempt` on the task, past the validation. That the bunch finds this very task at
  -- its own path is not tested: the task is the one that a path has found.
  abbrev pub is_current : String → Node → Bool
  is_current id a = same_text a.attempt.attempt_id id && in_flight a.node_status

  abbrev pub target_of : Node → Target
  target_of a = record { node_status = a.node_status; attempt = a.attempt }

  abbrev pub child_command : Report → ChildCommand × Option String
  child_command (init_command task_id) = (Zombie.init, some task_id)
  child_command complete_command = (Zombie.complete, none)
  child_command (abort_command reason) = (Zombie.abort, none)

  abbrev pub detects : Node → String → Option String → Bool
  detects a task_id password = elim detector [
    | none ↦ false
    | some (mode, policy) ↦ elim (detect mode (target_of a) Zombie.init (some task_id) password) [
      | none ↦ false
      | some _ ↦ true
    ]
  ]

  -- The method of the task that the command calls.
  abbrev pub perform : Report → String → List ℕ → Tree → Outcome
  perform (init_command task_id) now = init_task now task_id
  perform complete_command now = complete_task now
  perform (abort_command reason) now = abort_task now reason

  -- `_guard_child_command`: what of the guard the command goes on with.
  abbrev pub guard_child_command : Node → Report → Option String → Target × Zombie.Answer
  guard_child_command a r password = elim detector [
    | none ↦ (target_of a, answer proceed)
    | some (mode, policy) ↦
        let (target, verdict, _) =
          guard strip mode policy (target_of a) (child_command r).0 (child_command r).1 password in
        (target, verdict)
  ]

  -- The command once the guard has answered. Of the task a guard changes the password only.
  abbrev pub after_guard : Report → String → List ℕ → Tree → Target × Zombie.Answer → Outcome
  after_guard r now is t (target, Zombie.zombie_error) = refused zombie_error t
  after_guard r now is t (target, answer skip) = accepted t
  after_guard r now is t (target, answer proceed) =
      perform r now is (
        write_at (with_attempt (λ a. record a { job_password = target.attempt.job_password })) is t)

  abbrev pub is_duplicate : Report → Node → Bool
  is_duplicate (init_command task_id) a = status_eq a.node_status active
  is_duplicate _ a = false

  -- An init of an active task, which is answered and changes nothing.
  abbrev pub on_duplicate : Report → Node → Option String → Tree → Outcome
  on_duplicate (init_command task_id) a password t =
      if not (same_text a.attempt.task_id task_id)
      then refused zombie_error t
      else (if detects a task_id password then refused zombie_error t else accepted t)
  on_duplicate _ a password t = accepted t

  -- The command for a task that the path has found.
  unfoldable pub on_task : Command → Tree → Looked (List ℕ × Node) → Outcome
  unfolding guard detect init_task complete_task abort_task
  on_task c t (raises e) = refused e t
  on_task c t (at (is, a)) =
      if not (is_current c.attempt_id a)
      then refused attempt_mismatch_error t
      else (if is_duplicate c.report a
          then on_duplicate c.report a c.password t
          else after_guard c.report c.now is t (guard_child_command a c.report c.password))

  abbrev pub after_validation : Command → Tree → Option Error → Outcome
  after_validation c t (some e) = refused e t
  after_validation c t none = on_task c t (find_task t c.node_path)

  -- `run_command_init`, `run_command_complete` and `run_command_abort`
  unfoldable pub run_command : Command → Tree → Outcome
  unfolding validate_attempt_id find_task on_task
  run_command c t = after_validation c t (validate_attempt_id c.attempt_id)
