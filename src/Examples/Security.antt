-- ===== src/Examples/Security.antt =====
-- A server with two secrets and a list of users, while an operator changes the files.
use Prim.Native.String.{String}
use takler.Prelude.{ℕ, ◌≡◌, ◌↔◌, refl, true, List, [], ◌∷◌, none, some}
use takler.Zombie.{enabled}
use takler.Access.{Fingerprint, no_stat, lines, new_file, CredentialStore, Reads, read}
use takler.Access.Files.{read_all, IsFresh, read_all-IsFresh}
use takler.Access.Gate.{CallCredentials, PrivilegeLevel, authorize}
use takler.Access.Gate.Allowed.{IsLevel, IsAllowed, authorize_iff}
use takler.Examples.Nodes.{strip}

abbrev stamp : ℕ → Fingerprint
stamp n = record { mtime_ns = n; size = 20 }

abbrev secrets : List String
secrets = "# rotated in May" ∷ "old" ∷ "" ∷ "new" ∷ []

-- Each version of the file has its text.
abbrev text : Fingerprint → List String
text g = secrets

-- Read, gone, and there again.
read_all-IsFresh_example :
    IsFresh strip text
      (lines (stamp 2) secrets)
      (read strip
        (lines (stamp 2) secrets)
        (read_all strip text (lines (stamp 1) secrets ∷ no_stat ∷ []) (new_file true))).0
read_all-IsFresh_example =
    read_all-IsFresh strip text (lines (stamp 1) secrets ∷ no_stat ∷ []) (lines (stamp 2) secrets)
      (refl, (tt, tt)) refl

abbrev reads : Reads
reads = record {
  first_secret = lines (stamp 1) secrets;
  first_whitelist = lines (stamp 1) ("alice" ∷ []);
  secret = lines (stamp 1) secrets;
  whitelist = lines (stamp 1) ("alice" ∷ []);
}

abbrev store : CredentialStore
store = record { secret = new_file true; whitelist = new_file true }

abbrev alice : CallCredentials
alice = record { job_password = none; secret = some "new"; user = some "alice" }

authorize_iff_example :
    (level : PrivilegeLevel) × IsLevel "/takler_protocol.TaklerServer/RunCommandForce" none level
    × (((authorize strip reads enabled none "/takler_protocol.TaklerServer/RunCommandForce" alice
            store).0.rejection
          ≡ none)
        ↔ IsAllowed strip reads store enabled level alice)
authorize_iff_example =
    authorize_iff strip reads store enabled none "/takler_protocol.TaklerServer/RunCommandForce"
      alice
