-- ===== src/Client/Codes.antt =====
-- About the tables of codes, taken together (src/takler/protocol/error_code.py and
-- src/takler/client/exit_code.py).
use takler.Prelude.{ℕ, ◌≡◌, refl, true, arith, is_some}
use takler.Client.{
  Error, takler_error, node_not_found_error, invalid_node_path_error, node_type_error,
  unsupported_value_error, flow_state_error, invalid_request_error, expression_syntax_error,
  job_submission_error, zombie_error, attempt_mismatch_error, server_halted_error, transport_error,
  client_connection_error, server_response_error, permission_denied_error, other_takler_error,
  foreign_error, query_response_error, invalid_request, unsupported_version, unsupported_capability,
  permission_denied, stale_identity, field_too_large, other, get, error_code_by_type,
  error_name_by_code, error_code_for_exception, exit_code_by_error_code, exit_code_for_error_code,
  exit_code_for_exception, exit_ok,
}

-- No exception ends the client with success, and each has a code that the table of names knows.
pub exit_code_for_exception_lem :
    (e : Error)
    → ¬ (exit_code_for_exception e ≡ exit_ok)
      × (is_some (get (error_code_for_exception e) error_name_by_code) ≡ true)
unfolding exit_code_for_exception error_code_for_exception exit_code_for_error_code
    error_code_by_type get
exit_code_for_exception_lem takler_error = (λ h. ground arith, refl)
exit_code_for_exception_lem node_not_found_error = (λ h. ground arith, refl)
exit_code_for_exception_lem invalid_node_path_error = (λ h. ground arith, refl)
exit_code_for_exception_lem node_type_error = (λ h. ground arith, refl)
exit_code_for_exception_lem unsupported_value_error = (λ h. ground arith, refl)
exit_code_for_exception_lem flow_state_error = (λ h. ground arith, refl)
exit_code_for_exception_lem invalid_request_error = (λ h. ground arith, refl)
exit_code_for_exception_lem expression_syntax_error = (λ h. ground arith, refl)
exit_code_for_exception_lem job_submission_error = (λ h. ground arith, refl)
exit_code_for_exception_lem zombie_error = (λ h. ground arith, refl)
exit_code_for_exception_lem attempt_mismatch_error = (λ h. ground arith, refl)
exit_code_for_exception_lem server_halted_error = (λ h. ground arith, refl)
exit_code_for_exception_lem transport_error = (λ h. ground arith, refl)
exit_code_for_exception_lem client_connection_error = (λ h. ground arith, refl)
exit_code_for_exception_lem server_response_error = (λ h. ground arith, refl)
exit_code_for_exception_lem permission_denied_error = (λ h. ground arith, refl)
exit_code_for_exception_lem other_takler_error = (λ h. ground arith, refl)
exit_code_for_exception_lem foreign_error = (λ h. ground arith, refl)
exit_code_for_exception_lem (query_response_error other) = (λ h. ground arith, refl)
exit_code_for_exception_lem (query_response_error invalid_request) = (λ h. ground arith, refl)
exit_code_for_exception_lem (query_response_error unsupported_version) = (λ h. ground arith, refl)
exit_code_for_exception_lem (query_response_error unsupported_capability) =
    (λ h. ground arith, refl)
exit_code_for_exception_lem (query_response_error permission_denied) = (λ h. ground arith, refl)
exit_code_for_exception_lem (query_response_error stale_identity) = (λ h. ground arith, refl)
exit_code_for_exception_lem (query_response_error field_too_large) = (λ h. ground arith, refl)

keys_agree : (c : ℕ) → is_some (get c exit_code_by_error_code) ≡ is_some (get c error_name_by_code)
unfolding get
keys_agree c = ground arith
