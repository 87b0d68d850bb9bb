-- ===== src/Submission.antt =====
-- The run of a task: `Task.run` of src/takler/core/task_node.py, and `_run_node` of
-- src/takler/server/scheduler.py, which a run command calls. The methods that a subclass of `Task` may
-- override, and the service and the limits that the run asks, are the fields of `Hooks`; the state is
-- the attempt of the task and whatever else they work on. The writes of the paths of the attempt go
-- through the index of the bunch, if it keeps one, which may refuse them with a `KeyError`. Generated
-- parameters are left out.
pub mod Restored
use takler.Prelude.{
  ℕ, Bool, true, false, ◌&&◌, ◌||◌, not, Option, none, some, is_some, if◌then◌else◌,
}
use takler.Status.{NodeStatus, submitted, active, status_eq}
use takler.Task.{Attempt, Draw, increment_try_no, interrupted_attempt}
use takler.Client.{
  Error, flow_state_error, unsupported_value_error, node_not_found_error, node_type_error,
  job_submission_error, foreign_error,
}

pub record State (S : Type 0) : Type 0 where
  pub attempt : Attempt
  pub others : S

pub data Outcome (S A : Type 0) : Type 0 where
  finished : A → State S → Outcome S A
  raised : Error → State S → Outcome S A

infixl 20 ◌>>=◌
abbrev pub ◌>>=◌ : {S A B : Type 0} → Outcome S A → (A → State S → Outcome S B) → Outcome S B
finished a s >>= f = f a s
raised e s >>= f = raised e s

pub record Hooks (S : Type 0) : Type 0 where
  -- `ensure_synchronous_task` returns.
  pub is_synchronous : Bool
  -- `_require_running` returns.
  pub is_running : S → Bool
  pub is_resolved : S → Bool
  pub check_in_limit_up : S → Bool
  pub before_run : State S → Outcome S Unit
  -- The first of the three paths of the attempt whose reset the index refuses.
  pub refused_path : Attempt → Option ℕ
  -- What stands there if the index refuses to have a prior attempt written over another.
  pub refused_restore : (prior : Attempt) → Attempt → Option Attempt
  pub do_run : State S → Outcome S Bool
  pub after_run : State S → Outcome S Unit

-- The exceptions that the two handlers of `run` catch.
abbrev pub is_unsupported : Error → Bool
is_unsupported unsupported_value_error = true
is_unsupported _ = false

abbrev pub is_refusal : Error → Bool
is_refusal flow_state_error = true
is_refusal unsupported_value_error = true
is_refusal _ = false

-- What `_run_node` reads of a node: whether its flow has begun, its class and its status.
pub record Place : Type 0 where
  pub is_begun : Bool
  pub is_task : Bool
  pub node_status : NodeStatus

module _ {S : Type 0} (hooks : Hooks S) where
  -- `restore_prior_attempt`, and the exception raised again.
  abbrev pub restored : {A : Type 0} → Error → Attempt → State S → Outcome S A
  restored e prior s = elim (hooks.refused_restore prior s.attempt) [
    | none ↦ raised e (record s { attempt = prior })
    | some left ↦ raised foreign_error (record s { attempt = left })
  ]

  abbrev pub restoring : {A : Type 0} → (Error → Bool) → Attempt → Outcome S A → Outcome S A
  restoring catches prior (finished a s) = finished a s
  restoring catches prior (raised e s) = if catches e then restored e prior s else raised e s

  -- `require_limit_capacity` returns.
  abbrev pub has_capacity : S → Bool
  has_capacity s = hooks.is_resolved s && hooks.check_in_limit_up s

  abbrev pub prepare : State S → Outcome S Unit
  prepare s = hooks.before_run s >>= λ _ s'.
      if hooks.is_running s'.others && has_capacity s'.others
      then finished tt s'
      else raised flow_state_error s'

  abbrev pub submit : State S → Outcome S Bool
  submit s = hooks.do_run s >>= λ done s'.
      let after = hooks.after_run s' >>= λ _ s''. finished true s'' in
      if done then after else finished false s'

  -- `Task.run`
  unfoldable pub run : Draw → State S → Outcome S Bool
  unfolding increment_try_no interrupted_attempt
  run d s =
      if not hooks.is_synchronous
      then raised unsupported_value_error s
      else (if not (hooks.is_running s.others)
            || is_some s.attempt.submission_unknown_reason
            || not (has_capacity s.others)
          then raised flow_state_error s
          else elim (hooks.refused_path s.attempt) [
            | some k ↦
                raised foreign_error (record s { attempt = interrupted_attempt k d s.attempt })
            | none ↦
                restoring is_refusal s.attempt
                  (prepare (record s { attempt = increment_try_no d s.attempt }))
                >>= λ _ s'. restoring is_unsupported s.attempt (submit s')
          ])

  abbrev pub after_run_node : Outcome S Bool → Outcome S Unit
  after_run_node (finished true s) = finished tt s
  after_run_node (finished false s) = raised job_submission_error s
  after_run_node (raised e s) = raised e s

  -- `_run_node`, of the node that the path finds.
  unfoldable pub run_node : Option Place → (force : Bool) → Draw → State S → Outcome S Unit
  unfolding run
  run_node none force d s = raised node_not_found_error s
  run_node (some p) force d s =
      if not p.is_begun
      then raised flow_state_error s
      else (if not p.is_task
          then raised node_type_error s
          else (if not hooks.is_synchronous
              then raised unsupported_value_error s
              else (if not (hooks.is_running s.others)
                  then raised flow_state_error s
                  else (if not force
                        && (status_eq p.node_status submitted || status_eq p.node_status active)
                      then raised flow_state_error s
                      else after_run_node (run d s)))))
