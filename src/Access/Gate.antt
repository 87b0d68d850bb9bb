-- ===== src/Access/Gate.antt =====
-- src/takler/server/auth.py: the privilege of each method, and `AuthGate.authorize`.
pub mod Allowed
use Prim.Native.String.{String}
use Prim.Native.String.{◌++◌ as append}
use text.Mathlib.Text.{◌==◌ as str_eq}
use takler.Prelude.{
  Bool, true, false, List, [], ◌∷◌, ◌++◌, Option, none, some, is_some, if◌then◌else◌,
}
use takler.Zombie.{AuthMode, is_enabled}
use takler.Access.{
  RejectionReason, missing_credential, CredentialStore, Reads, check_files, authorize_operator,
}

pub data PrivilegeLevel : Type 0 where
  child operator public : PrivilegeLevel

abbrev pub service_method : String → String
service_method name = append "/takler_protocol.TaklerServer/" name

abbrev query_method : String → String
query_method name = append "/takler_protocol.TaklerQuery/" name

abbrev with_level :
    PrivilegeLevel → (String → String) → List String → List (String × PrivilegeLevel)
with_level level prefix [] = []
with_level level prefix (n ∷ ns) = (prefix n, level) ∷ with_level level prefix ns

-- `PRIVILEGE_BY_METHOD`
unfoldable pub privilege_by_method : List (String × PrivilegeLevel)
privilege_by_method =
    with_level child service_method (
      "RunCommandInit" ∷ "RunCommandComplete" ∷ "RunCommandAbort" ∷ "RunCommandEvent"
      ∷ "RunCommandMeter" ∷ [])
    ++ with_level operator service_method (
        "RunCommandRequeue" ∷ "RunCommandSuspend" ∷ "RunCommandResume" ∷ "RunCommandRun"
        ∷ "RunCommandForce" ∷ "RunCommandFreeDep" ∷ "RunCommandLoad" ∷ "RunCommandReplace"
        ∷ "RunCommandBegin" ∷ "RunCommandServerHalt" ∷ "RunCommandServerResume"
        ∷ "RunRequestServerStatus" ∷ "QueryCoroutine" ∷ [])
    ++ with_level public service_method ("RunRequestPing" ∷ [])

-- `QUERY_PRIVILEGE_BY_METHOD`
unfoldable pub query_privilege_by_method : List (String × PrivilegeLevel)
query_privilege_by_method = with_level operator query_method (
    "GetCapabilities" ∷ "ReadPage" ∷ "ReadDetail" ∷ "ReadDetailChunk" ∷ "ReadSince"
    ∷ "ReadFullSnapshot" ∷ "ReadFullSnapshotChunk" ∷ "CancelFullSnapshot" ∷ [])

abbrev pub look_up : String → List (String × PrivilegeLevel) → Option PrivilegeLevel
look_up m [] = none
look_up m ((n, level) ∷ rest) =
    let later = look_up m rest in if str_eq m n then some level else later

abbrev pub or_operator : Option PrivilegeLevel → PrivilegeLevel
or_operator none = operator
or_operator (some level) = level

abbrev pub first_of : Option PrivilegeLevel → Option PrivilegeLevel → Option PrivilegeLevel
first_of none o = o
first_of (some level) o = some level

-- `privilege_for_method`, with the table that is given to the gate, or the two of the module.
unfoldable pub privilege_for_method :
    String → Option (List (String × PrivilegeLevel)) → PrivilegeLevel
unfolding privilege_by_method query_privilege_by_method
privilege_for_method m (some table) = or_operator (look_up m table)
privilege_for_method m none =
    or_operator (first_of (look_up m query_privilege_by_method) (look_up m privilege_by_method))

-- `CallCredentials`; a blank value counts as none.
pub record CallCredentials : Type 0 where
  pub job_password : Option String
  pub secret : Option String
  pub user : Option String

pub record AuthOutcome : Type 0 where
  pub credentials : Option CallCredentials
  pub rejection : Option RejectionReason

abbrev pub outcome_of :
    CallCredentials → Option RejectionReason × CredentialStore → AuthOutcome × CredentialStore
outcome_of c (reason, store) = (record { credentials = some c; rejection = reason }, store)

module _ (strip : String → String) where
  -- `AuthGate._reject_reason`
  abbrev pub reject_reason :
      Reads
      → PrivilegeLevel
      → CallCredentials
      → CredentialStore
      → Option RejectionReason × CredentialStore
  reject_reason d child c store =
      (if is_some c.job_password then none else some missing_credential, store)
  reject_reason d _ c store = authorize_operator strip d c.secret c.user store

  abbrev pub authorize_level :
      Reads
      → AuthMode
      → PrivilegeLevel
      → CallCredentials
      → CredentialStore
      → AuthOutcome × CredentialStore
  authorize_level d mode public c store = (record { credentials = none; rejection = none }, store)
  authorize_level d mode level c store =
      outcome_of c (if is_enabled mode then reject_reason d level c store else (none, store))

  -- `AuthGate.authorize`, with the credentials that the metadata carries.
  unfoldable pub authorize :
      Reads
      → AuthMode
      → Option (List (String × PrivilegeLevel))
      → String
      → CallCredentials
      → CredentialStore
      → AuthOutcome × CredentialStore
  authorize d mode table m c store = authorize_level d mode (privilege_for_method m table) c store
