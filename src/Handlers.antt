-- ===== src/Handlers.antt =====
-- src/takler/server/handlers.py: the boundary around each command. `dispatch` opens a transaction of the
-- journal of Journal, runs the command, turns an exception into the response of the command's kind, asks
-- for a shutdown where the policy is to fail fast, and writes the audit record of a control command. The
-- parsing of the request, the operation of the scheduler and the flush of the version store are the
-- fields of `Service`. The texts of messages and records, and who called, are left out.
pub mod Errors
pub mod Boundary
use Prim.Native.String.{String}
use text.Mathlib.Text.{◌==◌ as str_eq}
use takler.Prelude.{
  ℕ, ◌+◌, ◌==◌, Bool, true, false, ◌&&◌, ◌||◌, not, List, [], ◌∷◌, Option, none, some,
  if◌then◌else◌,
}
use takler.Access.Gate.{
  PrivilegeLevel, child, operator, public, privilege_by_method, service_method, look_up,
}
use takler.Client.{Error, error_code_for_exception, foreign_error}
use takler.Journal.{QueryChanges, begin, finish}

pub data Command : Type 0 where
  init complete abort event meter requeue suspend resume run force free_dep load replace : Command
  begin_flow ping coroutine server_status server_halt server_resume : Command

-- `METHOD_NAME_BY_COMMAND`
unfoldable pub method_name : Command → String
method_name init = "RunCommandInit"
method_name complete = "RunCommandComplete"
method_name abort = "RunCommandAbort"
method_name event = "RunCommandEvent"
method_name meter = "RunCommandMeter"
method_name requeue = "RunCommandRequeue"
method_name suspend = "RunCommandSuspend"
method_name resume = "RunCommandResume"
method_name run = "RunCommandRun"
method_name force = "RunCommandForce"
method_name free_dep = "RunCommandFreeDep"
method_name load = "RunCommandLoad"
method_name replace = "RunCommandReplace"
method_name begin_flow = "RunCommandBegin"
method_name ping = "RunRequestPing"
method_name coroutine = "QueryCoroutine"
method_name server_status = "RunRequestServerStatus"
method_name server_halt = "RunCommandServerHalt"
method_name server_resume = "RunCommandServerResume"

abbrev is_operator : Option PrivilegeLevel → Bool
is_operator (some operator) = true
is_operator _ = false

abbrev is_read_only : String → Bool
is_read_only name = str_eq name "QueryCoroutine" || str_eq name "RunRequestServerStatus"

-- Whether a method is of `CONTROL_METHOD_NAMES`, by the table of privileges.
unfoldable pub is_control : String → Bool
unfolding privilege_by_method
is_control name =
    is_operator (look_up (service_method name) privilege_by_method) && not (is_read_only name)

abbrev pub mutates : Command → Bool
mutates ping = false
mutates coroutine = false
mutates server_status = false
mutates _ = true

-- `BATCH_COMMANDS`
abbrev pub is_batch : Command → Bool
is_batch requeue = true
is_batch suspend = true
is_batch resume = true
is_batch run = true
is_batch force = true
is_batch free_dep = true
is_batch begin_flow = true
is_batch _ = false

abbrev pub is_query : Command → Bool
is_query ping = true
is_query coroutine = true
is_query _ = false

abbrev pub is_status : Command → Bool
is_status server_status = true
is_status server_halt = true
is_status server_resume = true
is_status _ = false

-- A `ValidationError` of the request, or another exception.
pub data Failure : Type 0 where
  validation_error : Failure
  failure_of : Error → Failure

unfoldable pub code_of : Failure → ℕ
unfolding error_code_for_exception
code_of validation_error = error_code_for_exception foreign_error
code_of (failure_of e) = error_code_for_exception e

-- The responses: of most commands, of a batch, of the service's status, and of the queries.
pub data Response : Type 0 where
  service_response : (flag : ℕ) → Response
  batch_response : (flag : ℕ) → (had_exception : Bool) → Response
  status_response : (flag : ℕ) → Response
  query_response : Response

-- `getattr(response, "flag", SUCCESS)`
abbrev pub flag_of : Response → ℕ
flag_of (service_response flag) = flag
flag_of (batch_response flag had) = flag
flag_of (status_response flag) = flag
flag_of query_response = 0

abbrev pub had_exception : Response → Bool
had_exception (batch_response flag had) = had
had_exception _ = false

pub data Result (A : Type 0) : Type 0 where
  returned : A → Result A
  raised : Failure → Result A

abbrev pub flag_for : Failure → ℕ
flag_for validation_error = 15
flag_for (failure_of e) = error_code_for_exception e

-- The error response of a command, which raises for a query that is asked to.
unfoldable pub error_response : Command → (query_errors : Bool) → Failure → Result Response
unfolding code_of
error_response c query_errors e =
    if is_batch c
    then returned (batch_response (flag_for e) false)
    else if query_errors && is_query c
    then raised (failure_of foreign_error)
    else if is_status c
    then returned (status_response (flag_for e))
    else if is_query c
    then returned query_response
    else returned (service_response (code_of e))

pub data ExceptionPolicy : Type 0 where
  resilient fail_fast : ExceptionPolicy

abbrev pub fails_fast : ExceptionPolicy → Bool
fails_fast resilient = false
fails_fast fail_fast = true

pub record AuditRecord : Type 0 where
  pub command : Command
  pub is_success : Bool
  pub error_code : ℕ

pub record Server (S : Type 0) : Type 0 where
  pub scheduler : S
  pub query_changes : QueryChanges
  pub query_revision : ℕ
  -- The records, the last first.
  pub audit : List AuditRecord
  pub fatal_error : Bool

pub record Service (S R : Type 0) : Type 0 where
  pub parse_request : Result R
  pub run : Command → R → S → QueryChanges → Result Response × S × QueryChanges
  pub flush : S → QueryChanges → S
  pub policy : ExceptionPolicy
  pub has_audit_logger : Bool

module _ {S R : Type 0} (service : Service S R) where
  -- `_audit_control`
  unfoldable pub audit_control : Command → Response → Server S → Server S
  audit_control c r s =
      if service.has_audit_logger && is_control (method_name c)
      then (record s {
        audit =
            record { command = c; is_success = flag_of r == 0; error_code = flag_of r } ∷ s.audit;
      })
      else s

  abbrev pub trigger_if : Bool → Server S → Server S
  trigger_if b s = record s { fatal_error = s.fatal_error || b }

  -- `op` of `dispatch`: the request is parsed inside the boundary.
  abbrev pub operate : Command → Result R → Server S → Result Response × Server S
  operate c (raised e) s = (raised e, s)
  operate c (returned request) s =
      let (r, scheduler, changes) = service.run c request s.scheduler s.query_changes in
      (r, record s { scheduler = scheduler; query_changes = changes })

  -- The exception of a replacement is masked where it is internal.
  abbrev pub masked : Command → Failure → Failure
  masked replace e = if code_of e == 99 then failure_of foreign_error else e
  masked _ e = e

  abbrev pub answer_failure : Command → Result Response → Server S → Result Response × Server S
  answer_failure c (returned r) s = (returned r, audit_control c r s)
  answer_failure c (raised e) s = (raised e, s)

  abbrev pub answer : Command → Bool → Result Response × Server S → Result Response × Server S
  answer c query_errors (returned r, s) =
      (returned r, trigger_if (had_exception r && fails_fast service.policy) (audit_control c r s))
  answer c query_errors (raised e, s) =
      answer_failure c (error_response c query_errors (masked c e))
        (trigger_if (fails_fast service.policy) s)

  -- `_handle_command`
  unfoldable pub handle_command : Command → Bool → Server S → Result Response × Server S
  handle_command c query_errors s = answer c query_errors (operate c service.parse_request s)

  module _ (utf8_length : String → ℕ) where
    abbrev pub enter : Server S → Server S
    enter s = record s {
      query_revision = s.query_revision + 1;
      query_changes = begin s.query_changes;
    }

    -- The end of a transaction that is not open raises.
    abbrev pub leave : Option QueryChanges → Result Response × Server S → Result Response × Server S
    leave none (r, s) = (raised (failure_of foreign_error), s)
    leave (some changes) (r, s) = (
      r,
      record s {
        query_changes = changes;
        scheduler = service.flush s.scheduler changes;
        query_revision = s.query_revision + 1;
      },
    )

    -- `dispatch`, at the time when the transaction ends.
    unfoldable pub dispatch : ℕ → Command → Bool → Server S → Result Response × Server S
    dispatch now c query_errors s =
        if mutates c
        then (let (r, s') = handle_command c query_errors (enter s) in
            leave (finish utf8_length now s'.query_changes) (r, s'))
        else handle_command c query_errors s
