-- ===== src/Access.antt =====
-- src/takler/server/auth.py: the credential files with their cache, the decision on an operator's command
-- and the gate that every call passes. The operating system is an argument: what `os.stat` and
-- `read_text` give, at each of the reads of one decision. A text is given by its lines, and
-- `strip` is `str.strip`. Encoded secrets are equal when the texts are. Logs and audit records are left
-- out, and so is the reading of the metadata.
pub mod Files
pub mod Gate
use Prim.Native.Char.{code}
use Prim.Native.String.{String, [], ◌∷◌, ◌++◌ as append}
use text.Mathlib.Text.{◌==◌ as str_eq}
use takler.Prelude.{
  ℕ, Bool, true, false, ◌&&◌, ◌||◌, not, List, [], ◌∷◌, ◌++◌, map, ◌==◌, Option, none, some,
  is_some, if◌then◌else◌,
}
use takler.Zombie.{AuthMode, is_enabled, is_empty}

-- `Fingerprint`: the time of the last change, and the size.
pub record Fingerprint : Type 0 where
  pub mtime_ns : ℕ
  pub size : ℕ

abbrev pub same_fingerprint : Option Fingerprint → Fingerprint → Bool
same_fingerprint none g = false
same_fingerprint (some f) g = f.mtime_ns == g.mtime_ns && f.size == g.size

-- A path on the disk: `os.stat` fails, the text cannot be read or decoded, or it has these lines.
pub data Disk : Type 0 where
  no_stat : Disk
  no_text : Fingerprint → Disk
  lines : Fingerprint → List String → Disk

pub record CredentialFileContent : Type 0 where
  pub configured : Bool
  pub values : List String
  pub is_error : Bool

-- `_CredentialFile`: whether it has a path, and the cache.
pub record CredentialFile : Type 0 where
  pub configured : Bool
  pub fingerprint : Option Fingerprint
  pub values : List String

-- `CredentialFile.__init__`
abbrev pub new_file : Bool → CredentialFile
new_file configured = record { configured = configured; fingerprint = none; values = [] }

abbrev pub is_in : String → List String → Bool
is_in s [] = false
is_in s (t ∷ ts) = str_eq s t || is_in s ts

-- `values.add`, of a set kept as a list.
abbrev pub add : String → List String → List String
add s ts = if is_in s ts then ts else s ∷ ts

-- `COMMENT_PREFIX`
abbrev is_comment : String → Bool
is_comment [] = false
is_comment (c ∷ s) = code c == b'#'

abbrev pub content_of : CredentialFile → CredentialFileContent
content_of f = record { configured = true; values = f.values; is_error = false }

-- `_failure`
abbrev pub failure : CredentialFile → CredentialFileContent × CredentialFile
failure f = (
  record { configured = true; values = []; is_error = true },
  record f { fingerprint = none; values = [] },
)

pub data RejectionReason : Type 0 where
  missing_credential invalid_credential not_in_whitelist : RejectionReason

pub record CredentialStore : Type 0 where
  pub secret : CredentialFile
  pub whitelist : CredentialFile

-- `verify_secret`: no comparison is left out after a match.
unfoldable pub verify_secret : String → List String → Bool
verify_secret candidate [] = false
verify_secret candidate (s ∷ ss) =
    let rest = verify_secret candidate ss in str_eq candidate s || rest

-- `is_whitelisted`, of the content of the whitelist.
abbrev pub is_whitelisted : String → CredentialFileContent → Bool
is_whitelisted user content = if content.configured then is_in user content.values else true

-- The disk at the four reads of a decision: of both files for their errors, of the secrets for the
-- comparison, and of the whitelist for the user.
pub record Reads : Type 0 where
  pub first_secret : Disk
  pub first_whitelist : Disk
  pub secret : Disk
  pub whitelist : Disk

-- The answer of `authorize_operator` past the presence of both credentials.
unfoldable pub verdict :
    (unreadable configured verified whitelisted : Bool) → Option RejectionReason
verdict unreadable configured verified whitelisted =
    if unreadable
    then some invalid_credential
    else (if not configured
        then some invalid_credential
        else (if not verified
            then some invalid_credential
            else (if not whitelisted then some not_in_whitelist else none)))

module _ (strip : String → String) where
  -- `parse_credential_lines`
  unfoldable pub parse_credential_lines : List String → List String
  parse_credential_lines [] = []
  parse_credential_lines (l ∷ ls) =
      let values = parse_credential_lines ls in
      if is_empty (strip l)
      then values
      else (if is_comment (strip l) then values else add (strip l) values)

  abbrev pub reload :
      Fingerprint → List String → CredentialFile → CredentialFileContent × CredentialFile
  reload g ls f =
      let f' = record f { fingerprint = some g; values = parse_credential_lines ls } in
      (content_of f', f')

  abbrev pub read_disk : Disk → CredentialFile → CredentialFileContent × CredentialFile
  read_disk no_stat f = failure f
  read_disk (no_text g) f =
      if same_fingerprint f.fingerprint g then (content_of f, f) else failure f
  read_disk (lines g ls) f =
      if same_fingerprint f.fingerprint g then (content_of f, f) else reload g ls f

  -- `_CredentialFile.read`
  unfoldable pub read : Disk → CredentialFile → CredentialFileContent × CredentialFile
  unfolding parse_credential_lines
  read d f =
      if f.configured
      then read_disk d f
      else (record { configured = false; values = []; is_error = false }, f)

  -- The checks past the presence of both credentials.
  unfoldable pub check_files :
      Reads → String → String → CredentialStore → Option RejectionReason × CredentialStore
  check_files d secret user store =
      let (secret_content, secret_file) = read d.first_secret store.secret in
      let (whitelist_content, whitelist_file) = read d.first_whitelist store.whitelist in
      let store1 : CredentialStore = record { secret = secret_file; whitelist = whitelist_file } in
      let (secrets, secret_file') = read d.secret secret_file in
      let store2 : CredentialStore = record { secret = secret_file'; whitelist = whitelist_file } in
      let (users, whitelist_file') = read d.whitelist whitelist_file in
      let store3 : CredentialStore = record {
        secret = secret_file';
        whitelist = whitelist_file';
      } in
      let unreadable = secret_content.is_error || whitelist_content.is_error in
      let verified = verify_secret secret secrets.values in
      (
        verdict unreadable secret_content.configured verified (is_whitelisted user users),
        if unreadable || not secret_content.configured
            then store1
            else (if verified then store3 else store2),
      )

  -- `authorize_operator`
  abbrev pub authorize_operator :
      Reads
      → Option String
      → Option String
      → CredentialStore
      → Option RejectionReason × CredentialStore
  authorize_operator d none user store = (some missing_credential, store)
  authorize_operator d (some s) none store = (some missing_credential, store)
  authorize_operator d (some s) (some u) store = check_files d s u store
