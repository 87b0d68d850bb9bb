-- ===== src/Client.antt =====
-- src/takler/protocol/error_code.py and src/takler/client/exit_code.py: how an error becomes a code of
-- a response, and the code the exit status of the client. Codes are natural numbers.
pub mod Codes
pub mod Retry
use Prim.Native.String.{String}
use takler.Prelude.{ℕ, Bool, true, false, List, [], ◌∷◌, ◌==◌, if◌then◌else◌, Option, none, some}

-- The classes of src/takler/exceptions.py that the tables name, a query failure with its own code, any
-- other class below `TaklerError`, and every other exception.
-- The codes of a `QueryResponseError` that `error_code_for_exception` names, and any other.
pub data QueryCode : Type 0 where
  invalid_request unsupported_version unsupported_capability permission_denied : QueryCode
  stale_identity field_too_large other : QueryCode

pub data Error : Type 0 where
  takler_error node_not_found_error invalid_node_path_error node_type_error : Error
  unsupported_value_error flow_state_error invalid_request_error expression_syntax_error : Error
  job_submission_error zombie_error attempt_mismatch_error server_halted_error : Error
  transport_error client_connection_error server_response_error permission_denied_error : Error
  other_takler_error foreign_error : Error
  query_response_error : QueryCode → Error

abbrev pub success : ℕ
success = 0

abbrev pub generic_takler_error : ℕ
generic_takler_error = 1

abbrev pub internal_server_error : ℕ
internal_server_error = 99

-- `ERROR_CODE_BY_TYPE`
unfoldable pub error_code_by_type : Error → Option ℕ
error_code_by_type takler_error = some generic_takler_error
error_code_by_type node_not_found_error = some 10
error_code_by_type invalid_node_path_error = some 11
error_code_by_type node_type_error = some 12
error_code_by_type unsupported_value_error = some 13
error_code_by_type flow_state_error = some 14
error_code_by_type invalid_request_error = some 15
error_code_by_type expression_syntax_error = some 20
error_code_by_type job_submission_error = some 30
error_code_by_type zombie_error = some 31
error_code_by_type attempt_mismatch_error = some 32
error_code_by_type server_halted_error = some 33
error_code_by_type transport_error = some 40
error_code_by_type client_connection_error = some 41
error_code_by_type server_response_error = some 42
error_code_by_type permission_denied_error = some 43
error_code_by_type other_takler_error = none
error_code_by_type foreign_error = none
error_code_by_type (query_response_error c) = none

-- `ERROR_NAME_BY_CODE`
abbrev pub error_name_by_code : List (ℕ × String)
error_name_by_code =
    (success, "success")
    ∷ (generic_takler_error, "takler_error")
    ∷ (10, "node_not_found")
    ∷ (11, "invalid_node_path")
    ∷ (12, "node_type")
    ∷ (13, "unsupported_value")
    ∷ (14, "flow_state")
    ∷ (15, "invalid_request")
    ∷ (16, "batch_failed")
    ∷ (20, "expression_syntax")
    ∷ (30, "job_submission")
    ∷ (31, "zombie")
    ∷ (32, "attempt_mismatch")
    ∷ (33, "server_halted")
    ∷ (40, "transport")
    ∷ (41, "client_connection")
    ∷ (42, "server_response")
    ∷ (43, "permission_denied")
    ∷ (internal_server_error, "internal_error")
    ∷ []

unfoldable pub get {ℓ} : {A : Type ℓ} → ℕ → List (ℕ × A) → Option A
get c [] = none
get c ((k, a) ∷ rest) = let later = get c rest in if k == c then some a else later

abbrev pub or_default {ℓ} : {A : Type ℓ} → A → Option A → A
or_default a none = a
or_default a (some b) = b

abbrev query_error_code : QueryCode → ℕ
query_error_code other = 42
query_error_code _ = 15

unfoldable pub error_code_for_exception : Error → ℕ
unfolding error_code_by_type
error_code_for_exception (query_response_error c) = query_error_code c
error_code_for_exception foreign_error = internal_server_error
error_code_for_exception e = or_default generic_takler_error (error_code_by_type e)

unfoldable pub error_name_for_code : ℕ → String
unfolding get
error_name_for_code c = or_default "unknown" (get c error_name_by_code)

abbrev pub exit_ok : ℕ
exit_ok = 0

abbrev pub exit_request_error : ℕ
exit_request_error = 1

abbrev pub exit_server_error : ℕ
exit_server_error = 3

abbrev pub exit_unreachable : ℕ
exit_unreachable = 4

-- `EXIT_CODE_BY_ERROR_CODE`
abbrev pub exit_code_by_error_code : List (ℕ × ℕ)
exit_code_by_error_code =
    (0, exit_ok)
    ∷ (1, exit_request_error)
    ∷ (10, exit_request_error)
    ∷ (11, exit_request_error)
    ∷ (12, exit_request_error)
    ∷ (13, exit_request_error)
    ∷ (14, exit_request_error)
    ∷ (16, exit_request_error)
    ∷ (15, exit_request_error)
    ∷ (20, exit_request_error)
    ∷ (30, exit_server_error)
    ∷ (31, exit_server_error)
    ∷ (32, exit_request_error)
    ∷ (33, exit_request_error)
    ∷ (40, exit_unreachable)
    ∷ (41, exit_unreachable)
    ∷ (42, exit_server_error)
    ∷ (43, exit_request_error)
    ∷ (99, exit_server_error)
    ∷ []

unfoldable pub exit_code_for_error_code : ℕ → ℕ
unfolding get
exit_code_for_error_code c = or_default exit_server_error (get c exit_code_by_error_code)

unfoldable pub exit_code_for_exception : Error → ℕ
exit_code_for_exception e = exit_code_for_error_code (error_code_for_exception e)
