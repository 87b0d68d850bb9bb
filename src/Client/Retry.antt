-- ===== src/Client/Retry.antt =====
-- src/takler/client/retry.py: the retry loop of a client call. Times are in microseconds since the
-- first attempt. What an attempt does, how long it and the sleeps take, and how a transport classifies
-- its failures are arguments; a sleep lasts at least its delay. Log lines and messages are left out.
pub mod Bounds
use takler.Prelude.{
  ℕ, suc, zero, ◌+◌, ◌-◌, ◌*◌, Bool, true, false, List, leb, min, ◌^◌, if◌then◌else◌, Option, none,
  some, ◌⊎◌, inl, inr,
}
use takler.Client.{Error, transport_error, client_connection_error}

abbrev pub second : ℕ
second = 1_000_000

pub data CommandKind : Type 0 where
  child control query : CommandKind

-- `DEFAULT_RETRY_WINDOW_BY_KIND`
abbrev pub default_retry_window : CommandKind → ℕ
default_retry_window child = 86_400 * second
default_retry_window control = 60 * second
default_retry_window query = 60 * second

abbrev pub max_backoff_seconds : ℕ
max_backoff_seconds = 60 * second

unfoldable pub backoff_seconds : ℕ → ℕ
backoff_seconds attempt =
    if leb 7 attempt
    then max_backoff_seconds
    else min (2 ^ (attempt - 1) * second) max_backoff_seconds

pub record RetryPolicy : Type 0 where
  pub retry_window : ℕ

-- `RetryPolicy.next_delay`; there the difference of window and elapsed time may be negative.
unfoldable pub next_delay : RetryPolicy → (attempt elapsed : ℕ) → Option ℕ
next_delay p attempt elapsed =
    if leb p.retry_window elapsed
    then none
    else some (min (backoff_seconds attempt) (p.retry_window - elapsed))

-- `FailureCategory`, with the exception type that a verdict has when it is not retryable.
pub data Verdict : Type 0 where
  retryable fatal : Verdict
  non_retryable : Error → Verdict

pub data Result {ℓ} (A : Type ℓ) : Type ℓ where
  returned : A → Result A
  raised : Error → Result A

-- How the loop ended: its result, the attempts it made, the delays it asked for, and the time.
pub record Ended {ℓ} (A : Type ℓ) : Type ℓ where
  pub result : Result A
  pub attempts : ℕ
  pub waited : ℕ
  pub elapsed : ℕ

module _ {ℓ ℓ'} {A : Type ℓ} {Failure : Type ℓ'} (policy : RetryPolicy) (attempt : ℕ → A ⊎ Failure)
    (takes : ℕ → ℕ) (oversleeps : ℕ → ℕ) (classify : Failure → Verdict) where
  abbrev pub ends : Result A → (number waited elapsed : ℕ) → Option (Ended A)
  ends r number waited elapsed =
      some (record { result = r; attempts = number; waited = waited; elapsed = elapsed })

  -- The body of the `except` clause: `again` is the rest of the loop after a sleep.
  abbrev pub on_failure :
      Verdict → (number waited elapsed : ℕ) → (ℕ → Option (Ended A)) → Option (Ended A)
  on_failure (non_retryable e) number waited elapsed again = ends (raised e) number waited elapsed
  on_failure fatal number waited elapsed again = ends (raised transport_error) number waited elapsed
  on_failure retryable number waited elapsed again = elim (next_delay policy number elapsed) [
    | none ↦ ends (raised client_connection_error) number waited elapsed
    | some delay ↦ again delay
  ]

  abbrev pub on_outcome :
      A ⊎ Failure → (number waited elapsed : ℕ) → (ℕ → Option (Ended A)) → Option (Ended A)
  on_outcome (inl a) number waited elapsed again = ends (returned a) number waited elapsed
  on_outcome (inr x) number waited elapsed again =
      on_failure (classify x) number waited elapsed again

  -- The loop after a number of attempts, some waiting and some time; `none` when the fuel is used up.
  unfoldable pub run_from : (fuel number waited elapsed : ℕ) → Option (Ended A)
  run_from zero number waited elapsed = none
  run_from (suc fuel) number waited elapsed =
      on_outcome (attempt (number + 1)) (number + 1) waited (elapsed + takes (number + 1)) (λ delay.
        run_from fuel (number + 1) (waited + delay)
          (elapsed + takes (number + 1) + delay + oversleeps (number + 1)))

  unfoldable pub run_with_retry : (fuel : ℕ) → Option (Ended A)
  run_with_retry fuel = run_from fuel 0 0 0
