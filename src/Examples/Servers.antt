-- ===== src/Examples/Servers.antt =====
-- A journal of changes, the client's retries and codes, the causes of a halt and a lost checkpoint.
use Prim.Native.String.{String}
use takler.Prelude.{
  ℕ, ◌*◌, ◌≡◌, ◌≤◌, refl, ◌⊎◌, inl, inr, Bool, true, false, List, [], ◌∷◌, none, some, is_some,
  arith, leb, if◌then◌else◌,
}
use takler.Journal.{
  QueryChange, Groups, summary, QueryChanges, new_changes, since, max_retained_changes,
  max_change_window_bytes,
}
use takler.Journal.Runs.{changes_in, bytes_in}
use takler.Journal.Complete.{Use, mark_one, enter, end, read, use_all, Leads, since_lem}
use takler.Journal.Bounded.{IsBounded, journal-IsBounded}
use takler.Client.{
  zombie_error, exit_ok, exit_code_for_exception, error_code_for_exception, error_name_by_code, get,
}
use takler.Client.Codes.{exit_code_for_exception_lem}
use takler.Client.Retry.{second, RetryPolicy, Verdict, retryable, fatal, run_with_retry}
use takler.Client.Retry.Bounds.{IsEnd, run_with_retry-IsEnd}
use takler.Service.{
  HaltCause, manual, recovery, checkpoint_failure, is_in, ServerState, initial, from_causes,
  require_running,
}
use takler.Service
use takler.Checkpoint.{Outcome, new_manager, apply_outcome}
use takler.Checkpoint.Outcomes.{IsCoherent, Applies, apply_outcome-Applies}
use takler.Service.CauseLists.{IsMade}
use takler.Service.Causes.{resumed, on_event, Follows, on_event-Follows}

-- Each path of the run is in ASCII and has four letters.
abbrev utf8_length : String → ℕ
utf8_length p = 4

abbrev is_canonical : String → Bool
is_canonical p = true

abbrev of_status : Groups
of_status summary = true
of_status _ = false

abbrev changed : String → QueryChange
changed p = record { path = p; groups = of_status; invalidate = false }

-- One change by itself, two in a transaction, and a reading two minutes later.
abbrev course : List Use
course =
    mark_one 10 (changed "/f/a")
    ∷ enter
    ∷ mark_one 20 (changed "/f/b")
    ∷ mark_one 30 (changed "/f/c")
    ∷ end 40
    ∷ read 120_000_015 1
    ∷ []

abbrev journal : QueryChanges
journal = use_all utf8_length is_canonical course new_changes

since_lem_example :
    Leads 2 (since 120_000_020 2 journal).0 (since 120_000_020 2 journal).1
    × ((since 120_000_020 2 journal).0.revision ≡ journal.revision)
since_lem_example = since_lem utf8_length is_canonical course 120_000_020 2

journal-IsBounded_example :
    IsBounded journal
    × (changes_in journal.batches ≤ max_retained_changes)
    × (bytes_in journal.batches ≤ max_change_window_bytes)
journal-IsBounded_example = journal-IsBounded utf8_length is_canonical course

exit_code_for_exception_lem_example :
    ¬ (exit_code_for_exception zombie_error ≡ exit_ok)
    × (is_some (get (error_code_for_exception zombie_error) error_name_by_code) ≡ true)
exit_code_for_exception_lem_example = exit_code_for_exception_lem zombie_error

-- The first two attempts find no server, the third is answered.
abbrev attempt : ℕ → ℕ ⊎ Bool
attempt n = if leb n 2 then inr true else inl 7

abbrev verdict_of : Bool → Verdict
verdict_of true = retryable
verdict_of false = fatal

abbrev minute : RetryPolicy
minute = record { retry_window = 60 * second }

run_with_retry-IsEnd_example :
    IsEnd minute attempt
      (λ n. second)
      (λ n. 3)
      verdict_of
      61
      (run_with_retry minute attempt (λ n. second) (λ n. 3) verdict_of 61)
run_with_retry-IsEnd_example =
    run_with_retry-IsEnd minute attempt (λ n. second) (λ n. 3) verdict_of 60 (ground arith)

abbrev halted : ServerState
halted = record {
  status = Service.halted;
  status_reason = some Service.checkpoint_failed;
  halt_causes = manual ∷ checkpoint_failure ∷ [];
}

halted-IsMade : IsMade halted
unfolding from_causes Service.consistent Service.reason_for
halted-IsMade = record { made = refl; distinct = refl }

on_event-Follows_example : Follows resumed halted (on_event resumed halted)
on_event-Follows_example = on_event-Follows resumed halted halted-IsMade

abbrev lost : Outcome
lost = record {
  sequence = 3;
  success = false;
  published = false;
  saved_at = "06:00";
  reason = none;
}

new_manager-IsCoherent : IsCoherent new_manager
unfolding from_causes Service.consistent
new_manager-IsCoherent = record {
  state_made = record { made = refl; distinct = refl };
  reason_known = refl;
  ordered = ground arith;
}

apply_outcome-Applies_example : Applies lost new_manager (apply_outcome lost new_manager)
apply_outcome-Applies_example = apply_outcome-Applies lost new_manager new_manager-IsCoherent
