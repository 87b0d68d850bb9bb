-- ===== src/Client/Retry/Bounds.antt =====
-- About the end of the retry loop, its waits and its result (src/takler/client/retry.py).
use takler.Prelude.{
  ℕ, suc, zero, ◌+◌, ◌-◌, ◌*◌, ◌≤◌, ◌≡◌, refl, sym, leb, ◌^◌, Option, none, some, ◌⊎◌, inl, inr,
  Bool-cases, arith,
}
use takler.Client.{transport_error, client_connection_error}
use takler.Client.Retry.{
  second, max_backoff_seconds, backoff_seconds, RetryPolicy, next_delay, Verdict, retryable, fatal,
  non_retryable, Result, returned, raised, Ended, ends, on_failure, on_outcome, run_from,
  run_with_retry,
}

one_le-pow : (n : ℕ) → 1 ≤ 2 ^ n
one_le-pow zero = ground arith
one_le-pow (suc n) = ground (arith, one_le-pow n)

-- The waits are at least a second and at most a minute.
backoff_seconds_lem :
    (attempt : ℕ)
    → (second ≤ backoff_seconds attempt) × (backoff_seconds attempt ≤ max_backoff_seconds)
unfolding backoff_seconds
backoff_seconds_lem attempt = elim (Bool-cases (leb 7 attempt)) [
  | inl e ↦ rw e (ground arith, ground arith)
  | inr e ↦ rw e (ground (arith, one_le-pow (attempt - 1)), ground arith)
]

-- What `next_delay` may answer: none when the window is over, and else a time that fits in what is left
-- of it, at least a second unless it is all that is left.
abbrev pub IsDelay : RetryPolicy → (number elapsed : ℕ) → Option ℕ → Type 0
IsDelay p number elapsed none = p.retry_window ≤ elapsed
IsDelay p number elapsed (some d) =
    (elapsed + d ≤ p.retry_window)
    × (elapsed + 1 ≤ p.retry_window)
    × ((second ≤ d) ⊎ (elapsed + d ≡ p.retry_window))

next_delay_lem :
    (p : RetryPolicy) (number elapsed : ℕ) → IsDelay p number elapsed (next_delay p number elapsed)
unfolding next_delay
next_delay_lem p number elapsed = elim (Bool-cases (leb p.retry_window elapsed)) [
  | inl over ↦ rw over (ground arith)
  | inr left ↦ rw left (ground arith, ground arith, ground (arith, backoff_seconds_lem number))
]

module _ {A : Type 0} {Failure : Type 0} (policy : RetryPolicy) (attempt : ℕ → A ⊎ Failure)
    (takes : ℕ → ℕ) (oversleeps : ℕ → ℕ) (classify : Failure → Verdict) where
  abbrev pub Called : Verdict → Result A → ℕ → Type 0
  Called retryable (raised client_connection_error) elapsed = policy.retry_window ≤ elapsed
  Called fatal (raised transport_error) elapsed = Unit
  Called (non_retryable e) (raised e') elapsed = e ≡ e'
  Called _ _ elapsed = ⊥

  -- What the last attempt's outcome says of the result: a value is returned, a failure is raised as its
  -- verdict says, and a retryable one only when the window is over.
  abbrev pub Decides : A ⊎ Failure → Result A → ℕ → Type 0
  Decides (inl a) (returned a') elapsed = a ≡ a'
  Decides (inr x) r elapsed = Called (classify x) r elapsed
  Decides _ _ elapsed = ⊥

  abbrev pub IsRetried : A ⊎ Failure → Type 0
  IsRetried (inl a) = ⊥
  IsRetried (inr x) = classify x ≡ retryable

  -- The first attempts, so many of them, failed in a way that is retried.
  abbrev pub Retried : ℕ → Type 0
  Retried zero = Unit
  Retried (suc n) = IsRetried (attempt (suc n)) × Retried n

  -- What the loop returns, with a bound on the attempts.
  abbrev pub IsEnd : ℕ → Option (Ended A) → Type 0
  IsEnd most none = ⊥
  IsEnd most (some e) =
      (e.attempts ≤ most)
      × (e.waited ≤ policy.retry_window)
      × (e.waited ≤ e.elapsed)
      × Retried (e.attempts - 1)
      × Decides (attempt e.attempts) e.result e.elapsed

  before : (n : ℕ) → Retried n → Retried (n + 1 - 1)
  before n h = let e : n + 1 - 1 ≡ n = omega arith in rw e h

  after :
      (n : ℕ) (x : Failure)
      → attempt (n + 1) ≡ inr x
      → classify x ≡ retryable
      → Retried n
      → Retried (n + 1)
  after n x ea ev h =
      let e : n + 1 ≡ suc n = omega arith in
      let r : IsRetried (attempt (suc n)) = rw (sym e) (rw ea ev) in rw e (r, h)

  -- What a failure's branch needs of the rest of the loop, after a sleep.
  abbrev Continues : (most number elapsed : ℕ) → (ℕ → Option (Ended A)) → Type 0
  Continues most number elapsed again =
      (d : ℕ) → IsDelay policy number elapsed (some d) → Retried number → IsEnd most (again d)

  failure-IsEnd :
      (x : Failure) (v : Verdict) (most number waited elapsed : ℕ) (again : ℕ → Option (Ended A))
      → classify x ≡ v
      → attempt (number + 1) ≡ inr x
      → number + 1 ≤ most
      → waited ≤ policy.retry_window
      → waited ≤ elapsed
      → Retried number
      → Continues most (number + 1) elapsed again
      → IsEnd most
          (on_failure policy attempt takes oversleeps classify v (number + 1) waited elapsed again)
  failure-IsEnd x fatal most number waited elapsed again ev ea m w w' h k =
      (m, w, w', before number h, rw (ea, ev) tt)
  failure-IsEnd x (non_retryable t) most number waited elapsed again ev ea m w w' h k =
      (m, w, w', before number h, rw (ea, ev) refl)
  failure-IsEnd x retryable most number waited elapsed again ev ea m w w' h k =
      go (next_delay policy (number + 1) elapsed) (next_delay_lem policy (number + 1) elapsed)
    where
      go :
          (d : Option ℕ)
          → IsDelay policy (number + 1) elapsed d
          → IsEnd most (elim d [
            | none ↦
                ends policy attempt takes oversleeps classify
                  (raised client_connection_error)
                  (number + 1)
                  waited
                  elapsed
            | some delay ↦ again delay
          ])
      go none over = (m, w, w', before number h, rw (ea, ev) over)
      go (some d) inside = k d inside (after number x ea ev h)

  outcome-IsEnd :
      (o : A ⊎ Failure) (most number waited elapsed : ℕ) (again : ℕ → Option (Ended A))
      → attempt (number + 1) ≡ o
      → number + 1 ≤ most
      → waited ≤ policy.retry_window
      → waited ≤ elapsed
      → Retried number
      → Continues most (number + 1) elapsed again
      → IsEnd most
          (on_outcome policy attempt takes oversleeps classify o (number + 1) waited elapsed again)
  outcome-IsEnd (inl a) most number waited elapsed again e m w w' h k =
      (m, w, w', before number h, rw e refl)
  outcome-IsEnd (inr x) most number waited elapsed again e m w w' h k =
      failure-IsEnd x (classify x) most number waited elapsed again refl e m w w' h k

  run_from-IsEnd :
      (fuel number waited elapsed : ℕ)
      → policy.retry_window ≤ elapsed + fuel * second
      → waited ≤ elapsed
      → waited ≤ policy.retry_window
      → Retried number
      → IsEnd
          (number + suc fuel)
          (run_from policy attempt takes oversleeps classify (suc fuel) number waited elapsed)
  unfolding run_from
  run_from-IsEnd zero number waited elapsed l w w' h =
      outcome-IsEnd (attempt (number + 1)) (number + 1) number waited (elapsed + takes (number + 1))
        (λ delay. none) refl (omega arith) w' (omega arith) h
        (λ d (inside, fits, long) r. omega arith)
  run_from-IsEnd (suc fuel) number waited elapsed l w w' h =
      outcome-IsEnd (attempt (number + 1)) (number + suc (suc fuel)) number waited
        (elapsed + takes (number + 1))
        (λ delay.
          run_from policy attempt takes oversleeps classify (suc fuel) (number + 1) (waited + delay)
            (elapsed + takes (number + 1) + delay + oversleeps (number + 1)))
        refl (omega arith) w' (omega arith) h
        (λ d inside r.
          shift
            (run_from policy attempt takes oversleeps classify (suc fuel) (number + 1) (waited + d)
              (elapsed + takes (number + 1) + d + oversleeps (number + 1)))
            (run_from-IsEnd fuel (number + 1) (waited + d)
              (elapsed + takes (number + 1) + d + oversleeps (number + 1))
              (enough fuel (elapsed + takes (number + 1)) d (oversleeps (number + 1)) (omega arith)
                inside)
              (omega arith) (omega (arith, inside.0)) r))
    where
      shift :
          (o : Option (Ended A))
          → IsEnd (number + 1 + suc fuel) o
          → IsEnd (number + suc (suc fuel)) o
      shift o t = let e : number + suc (suc fuel) ≡ number + 1 + suc fuel = omega arith in rw e t

      enough :
          (f at d late : ℕ)
          → policy.retry_window ≤ at + suc f * second
          → IsDelay policy (number + 1) at (some d)
          → policy.retry_window ≤ at + d + late + f * second
      enough f at d late l (fits, left, inl long) = omega arith
      enough f at d late l (fits, left, inr all) = omega arith

  -- Allowed one attempt more than a number of seconds that covers the window, the loop ends: it makes
  -- no more attempts than that, and asks for delays of no more than the window together. All its
  -- attempts but the last failed in a way that is retried, and the last one decides the result: the
  -- value returned, the error of a failure that is not retried, or, once the window is over, the error
  -- of an unreachable server.
  pub run_with_retry-IsEnd :
      (fuel : ℕ)
      → policy.retry_window ≤ fuel * second
      → IsEnd (fuel + 1) (run_with_retry policy attempt takes oversleeps classify (fuel + 1))
  unfolding run_with_retry
  run_with_retry-IsEnd fuel l =
      let e : fuel + 1 ≡ suc fuel = omega arith in
      let z : 0 + suc fuel ≡ suc fuel = omega arith in
      let t = run_from-IsEnd fuel 0 0 0 (omega arith) (omega arith) (omega arith) tt in
      rw e (rw z at t)
