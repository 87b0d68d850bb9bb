-- ===== src/Checkpoint.antt =====
-- src/takler/server/checkpoint.py: what the manager of checkpoints makes of the outcomes of writes,
-- which may arrive out of order. A time is a text. Storage holds the writing itself, Restore the restores.
pub mod Outcomes
pub mod Storage
pub mod Restore
use Prim.Native.String.{String}
use text.Mathlib.Text.{◌==◌ as str_eq}
use takler.Prelude.{ℕ, Bool, true, false, ◌&&◌, not, ltb, if◌then◌else◌, Option, none, some, bind}
use takler.Service.{ServerState, initial, record_result}

-- The fields of the manager that an outcome concerns, with the state of the service.
pub record CheckpointManager : Type 0 where
  pub last_checkpoint_at : Option String
  pub last_success_sequence : ℕ
  pub last_outcome_sequence : ℕ
  pub checkpoint_failure_reason : Option String
  pub server_state : ServerState

abbrev pub new_manager : CheckpointManager
new_manager = record {
  last_checkpoint_at = none;
  last_success_sequence = 0;
  last_outcome_sequence = 0;
  checkpoint_failure_reason = none;
  server_state = initial;
}

pub record Outcome : Type 0 where
  pub sequence : ℕ
  pub success : Bool
  pub published : Bool
  pub saved_at : String
  pub reason : Option String

-- `reason or "storage I/O error"`
abbrev pub reason_or : Option String → String
reason_or none = "storage I/O error"
reason_or (some r) = if str_eq r "" then "storage I/O error" else r

abbrev pub note_success : Outcome → CheckpointManager → CheckpointManager
note_success o m =
    if o.success && o.published && ltb m.last_success_sequence o.sequence
    then (record m { last_checkpoint_at = some o.saved_at; last_success_sequence = o.sequence })
    else m

abbrev pub take_outcome : Outcome → CheckpointManager → Option CheckpointManager
take_outcome o m = bind (record_result o.success m.server_state) (λ s. some (record m {
  last_outcome_sequence = o.sequence;
  checkpoint_failure_reason = if o.success then none else some (reason_or o.reason);
  server_state = s;
}))

-- `_apply_outcome`: `none` is a refusal of the state's validation.
unfoldable pub apply_outcome : Outcome → CheckpointManager → Option CheckpointManager
apply_outcome o m =
    let m' = note_success o m in
    if ltb o.sequence m'.last_outcome_sequence
    then some m'
    else (if not o.published && o.success then some m' else take_outcome o m')
