-- ===== src/Service.antt =====
-- src/takler/core/bunch.py (`ServerState`, `Bunch.require_running`), with what the scheduler and the
-- checkpoint manager do to the causes of a halt (src/takler/server/scheduler.py and checkpoint.py).
-- Answers, log lines and the skipping of deferred commands are left out.
pub mod CauseLists
pub mod Causes
use Prim.Native.String.{String}
use takler.Prelude.{
  ℕ, Bool, true, false, ◌&&◌, ◌||◌, not, List, [], ◌∷◌, ◌++◌, ltb, if◌then◌else◌, Option, none,
  some, is_some,
}

pub data ServerStatus : Type 0 where
  running halted : ServerStatus

pub data HaltCause : Type 0 where
  manual recovery checkpoint_failure : HaltCause

-- The three literals of `status_reason`.
pub data Reason : Type 0 where
  manual_pause recovery_pending checkpoint_failed : Reason

pub record ServerState : Type 0 where
  pub status : ServerStatus
  pub status_reason : Option Reason
  pub halt_causes : List HaltCause

abbrev pub cause_eq : HaltCause → HaltCause → Bool
cause_eq manual manual = true
cause_eq recovery recovery = true
cause_eq checkpoint_failure checkpoint_failure = true
cause_eq _ _ = false

abbrev pub is_in : HaltCause → List HaltCause → Bool
is_in c [] = false
is_in c (d ∷ ds) = cause_eq d c || is_in c ds

-- The first reason whose cause is there, the most serious first.
unfoldable pub reason_for : List HaltCause → Option Reason
reason_for causes =
    if is_in checkpoint_failure causes
    then some checkpoint_failed
    else (if is_in recovery causes
        then some recovery_pending
        else (if is_in manual causes then some manual_pause else none))

abbrev pub has_repeat : List HaltCause → Bool
has_repeat [] = false
has_repeat (c ∷ cs) = is_in c cs || has_repeat cs

abbrev pub is_nil : List HaltCause → Bool
is_nil [] = true
is_nil (c ∷ cs) = false

abbrev pub reason_eq : Option Reason → Option Reason → Bool
reason_eq none none = true
reason_eq (some manual_pause) (some manual_pause) = true
reason_eq (some recovery_pending) (some recovery_pending) = true
reason_eq (some checkpoint_failed) (some checkpoint_failed) = true
reason_eq _ _ = false

abbrev pub status_consistent : ServerStatus → Option Reason → List HaltCause → Bool
status_consistent running reason causes = is_nil causes && not (is_some reason)
status_consistent halted reason causes = reason_eq reason (reason_for causes)

-- The validator `consistent`.
unfoldable pub consistent : ServerState → Bool
consistent s =
    not (has_repeat s.halt_causes) && status_consistent s.status s.status_reason s.halt_causes

-- The construction of a model, which the validator may refuse.
abbrev pub validated : ServerState → Option ServerState
validated s = if consistent s then some s else none

abbrev pub initial : ServerState
initial = record { status = running; status_reason = none; halt_causes = [] }

unfoldable pub from_causes : List HaltCause → Option ServerState
from_causes [] = validated initial
from_causes (c ∷ cs) =
    validated
      (record { status = halted; status_reason = reason_for (c ∷ cs); halt_causes = c ∷ cs })

-- The causes with one more, at the end, unless it is there.
abbrev pub with_cause : HaltCause → List HaltCause → List HaltCause
with_cause c causes = if is_in c causes then causes else causes ++ c ∷ []

abbrev pub without : (HaltCause → Bool) → List HaltCause → List HaltCause
without drops [] = []
without drops (c ∷ cs) = let rest = without drops cs in if drops c then rest else c ∷ rest

-- `run_command_server_halt`
unfoldable pub halt : ServerState → Option ServerState
halt s =
    if is_in manual s.halt_causes then some s else from_causes (with_cause manual s.halt_causes)

abbrev pub is_released : HaltCause → Bool
is_released c = cause_eq c manual || cause_eq c recovery

-- `causes != halt_causes`, of two lists of causes.
abbrev pub causes_eq : List HaltCause → List HaltCause → Bool
causes_eq [] [] = true
causes_eq (c ∷ cs) (d ∷ ds) = cause_eq c d && causes_eq cs ds
causes_eq _ _ = false

abbrev pub replace_causes : List HaltCause → ServerState → Option ServerState
replace_causes causes s = if causes_eq causes s.halt_causes then some s else from_causes causes

-- `run_command_server_resume`; the answer's flag is 33 when the service stays halted.
unfoldable pub resume : ServerState → Option ServerState
resume s = replace_causes (without is_released s.halt_causes) s

-- The end of `_apply_outcome` of the checkpoint manager: what a result does to the causes.
unfoldable pub record_result : (success : Bool) → ServerState → Option ServerState
record_result true s = replace_causes (without (cause_eq checkpoint_failure) s.halt_causes) s
record_result false s = replace_causes (with_cause checkpoint_failure s.halt_causes) s

-- The state that a restored snapshot leaves.
unfoldable pub restored : ServerState → Option ServerState
restored s = from_causes (with_cause recovery s.halt_causes)

abbrev pub is_running : ServerStatus → Bool
is_running running = true
is_running halted = false

-- `Bunch.require_running`: whether it returns.
unfoldable pub require_running : (service_stopping : Bool) → ServerState → Bool
require_running service_stopping s = is_running s.status && not service_stopping
