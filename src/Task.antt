-- ===== src/Task.antt =====
-- src/takler/core/task_node.py: the identity of a task's current attempt. Identifiers, passwords and
-- time stamps are texts that the run-time library produces, so each operation takes those it needs.
pub mod Attempts
use Prim.Native.String.{String}
use takler.Prelude.{
  ℕ, ◌+◌, ◌==◌, leb, Bool, true, false, Option, none, some, is_some, if◌then◌else◌, ◌&&◌, not,
}

pub record Attempt : Type 0 where
  pub try_no : ℕ
  pub definition_generation : Option String
  pub attempt_id : Option String
  pub task_id : Option String
  pub aborted_reason : Option String
  pub submission_unknown_reason : Option String
  pub job_password : Option String
  pub submitted_at : Option String
  pub started_at : Option String
  pub ended_at : Option String
  pub job_path : Option String
  pub jobout_path : Option String
  pub orvix_info_path : Option String

-- `Task.__init__`
abbrev pub new_attempt : Attempt
new_attempt = record {
  try_no = 0;
  definition_generation = none;
  attempt_id = none;
  task_id = none;
  aborted_reason = none;
  submission_unknown_reason = none;
  job_password = none;
  submitted_at = none;
  started_at = none;
  ended_at = none;
  job_path = none;
  jobout_path = none;
  orvix_info_path = none;
}

-- Where the index of the paths of tasks, if the bunch keeps one, takes the three writes (Artifacts).
unfoldable pub clear_current_attempt : Attempt → Attempt
clear_current_attempt a = record a {
  task_id = none;
  aborted_reason = none;
  submission_unknown_reason = none;
  job_password = none;
  attempt_id = none;
  submitted_at = none;
  started_at = none;
  ended_at = none;
  job_path = none;
  jobout_path = none;
  orvix_info_path = none;
}

-- What `uuid4` and `token_urlsafe` give to one call, and the generation of the task's flow, with the
-- one that `ensure_definition_generation` would draw if it has none.
pub record Draw : Type 0 where
  pub flow_generation : Option (Option String)
  pub generation : String
  pub attempt : String
  pub password : String

abbrev or_else : Option String → String → String
or_else none t = t
or_else (some s) t = s

-- The generation that the attempt belongs to: the flow's, or the task's own outside a flow.
abbrev pub generation_of : Draw → Attempt → Option String
generation_of d a = elim d.flow_generation [
  | some g ↦ some (or_else g d.generation)
  | none ↦ some (or_else a.definition_generation d.generation)
]

-- Where the index of the paths takes the three writes.
unfoldable pub increment_try_no : Draw → Attempt → Attempt
increment_try_no d a = record a {
  definition_generation = generation_of d a;
  try_no = a.try_no + 1;
  attempt_id = some d.attempt;
  task_id = none;
  aborted_reason = none;
  submission_unknown_reason = none;
  submitted_at = none;
  started_at = none;
  ended_at = none;
  job_path = none;
  jobout_path = none;
  orvix_info_path = none;
  job_password = some d.password;
}

-- What `increment_try_no` leaves if the index of the paths refuses the write of one of them, the first
-- for `zero`, the second for 1 and else the third.
unfoldable pub interrupted_attempt : ℕ → Draw → Attempt → Attempt
unfolding increment_try_no
interrupted_attempt k d a = record (increment_try_no d a) {
  job_path = if k == 0 then a.job_path else none;
  jobout_path = if leb k 1 then a.jobout_path else none;
  orvix_info_path = a.orvix_info_path;
  job_password = a.job_password;
}

-- The fields that `Task.init` writes, before it sets the status.
unfoldable pub init_attempt : (now task_id : String) → Attempt → Attempt
init_attempt now task_id a = record a {
  submission_unknown_reason = none;
  task_id = some task_id;
  started_at =
      if is_some a.attempt_id && not (is_some a.started_at) then some now else a.started_at;
}

-- The fields that `Task.complete` writes, before it sets the status.
unfoldable pub complete_attempt : (now : String) → Attempt → Attempt
complete_attempt now a = record a {
  submission_unknown_reason = none;
  ended_at = if is_some a.attempt_id then some now else a.ended_at;
}

-- The fields that `Task.abort` writes; the reason is written after the status.
unfoldable pub abort_attempt : (now reason : String) → Attempt → Attempt
abort_attempt now reason a = record a {
  submission_unknown_reason = none;
  ended_at = if is_some a.attempt_id then some now else a.ended_at;
  aborted_reason = some reason;
}
