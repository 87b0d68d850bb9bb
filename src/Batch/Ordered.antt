-- ===== src/Batch/Ordered.antt =====
-- About the order and the flags of a batch (src/takler/server/batch.py).
use Prim.Native.String.{String}
use takler.Prelude.{
  ℕ, suc, ◌+◌, ◌≡◌, ◌↔◌, ◌⊎◌, inl, inr, refl, ap, ◌≤◌, Bool, true, false, ◌&&◌, ◌||◌, not, List, [],
  ◌∷◌, length, ◌==◌, if◌then◌else◌, Bool-cases, arith,
}
use takler.Client.{Error, error_code_for_exception, error_code_by_type}
use takler.Batch.{
  valid_target, BatchItemResult, Outcome, done, raised, Operation, argument, run_target,
  run_targets, count_failed, is_empty, is_begin, execute, after_operation, evidence_of, before_of,
}

code_pos : (e : Error) → (error_code_for_exception e == 0) ≡ false
unfolding error_code_for_exception error_code_by_type
code_pos e = ground arith

any_failed : (b : Bool) (n : ℕ) → not b || not (n == 0) ≡ not ((if b then 0 else 1) + n == 0)
any_failed b n = ground arith

flag_lem :
    (n : ℕ) (had : Bool)
    → had ≡ not (n == 0)
    → let flag : ℕ = if n == 0 then 0 else 16 in
      ((flag ≡ 0) ↔ (had ≡ false)) × ((flag ≡ 0) ⊎ (flag ≡ 16))
flag_lem n had h = elim (Bool-cases (n == 0)) [
  | inl e ↦ rw e ((λ _. rw h (rw e refl), λ _. refl), inl refl)
  | inr e ↦ rw e ((λ k. ground arith, λ k. ground arith), inr refl)
]

module _ {S V : Type 0} (op : Operation S V) where
  abbrev pub state_of : Outcome S → S
  state_of (done s) = s
  state_of (raised e s) = s

  abbrev is_done : Outcome S → Bool
  is_done (done s) = true
  is_done (raised e s) = false

  -- One target by itself: the state after it, and its success.
  abbrev pub attempt : String → S → S
  attempt t s = if valid_target op.kind t then state_of (op.operate (argument op.kind t) s) else s

  abbrev pub succeeds : String → S → Bool
  succeeds t s = valid_target op.kind t && is_done (op.operate (argument op.kind t) s)

  abbrev pub attempt_all : List String → S → S
  attempt_all [] s = s
  attempt_all (t ∷ ts) s = attempt_all ts (attempt t s)

  -- The results, from an index on, are of the targets in order; the flag of each is 0 exactly if it
  -- succeeds on the state that those before it have left.
  abbrev pub Reports : ℕ → List String → S → List BatchItemResult → Type 0
  Reports i [] s [] = Unit
  Reports i [] s (r ∷ rs) = ⊥
  Reports i (t ∷ ts) s [] = ⊥
  Reports i (t ∷ ts) s (r ∷ rs) =
      (r.index ≡ i)
      × (r.target ≡ t)
      × ((r.flag == 0) ≡ succeeds t s)
      × Reports (suc i) ts (attempt t s) rs

  after-target :
      (i : ℕ) (t : String) (s : S) (o : Outcome S)
      → let r = after_operation op i t (evidence_of op t s) (before_of op t s) o in
        (r.0.index ≡ i)
        × (r.0.target ≡ t)
        × ((r.0.flag == 0) ≡ is_done o)
        × (r.1 ≡ not (is_done o))
        × (r.2 ≡ state_of o)
  after-target i t s (done s') = (refl, refl, refl, refl, refl)
  after-target i t s (raised e s') = (refl, refl, code_pos e, refl, refl)

  run_target_lem :
      (i : ℕ) (t : String) (s : S)
      → let r = run_target op i t s in
        (r.0.index ≡ i)
        × (r.0.target ≡ t)
        × ((r.0.flag == 0) ≡ succeeds t s)
        × (r.1 ≡ not (succeeds t s))
        × (r.2 ≡ attempt t s)
  unfolding run_target
  run_target_lem i t s = elim (Bool-cases (valid_target op.kind t)) [
    | inl e ↦ rw e (after-target i t s (op.operate (argument op.kind t) s))
    | inr e ↦ rw e (refl, refl, refl, refl, refl)
  ]

  run_targets_lem :
      (i : ℕ) (ts : List String) (s : S)
      → let r = run_targets op i ts s in
        Reports i ts s r.0
        × (r.2 ≡ attempt_all ts s)
        × (length r.0 ≡ length ts)
        × (r.1 ≡ not (count_failed op r.0 == 0))
  unfolding run_targets
  run_targets_lem i [] s = (tt, refl, refl, refl)
  run_targets_lem i (t ∷ ts) s =
      let first = run_target_lem i t s in
      let later = run_targets_lem (suc i) ts (attempt t s) in
      rw first.4 (
        (first.0, first.1, first.2, later.0),
        later.1,
        ap suc later.2,
        rw (first.3, first.2, later.3)
            (any_failed (succeeds t s)
              (count_failed op (run_targets op (suc i) ts (attempt t s)).0)),
      )

  count_failed-le : (rs : List BatchItemResult) → count_failed op rs ≤ length rs
  count_failed-le [] = omega arith
  count_failed-le (r ∷ rs) = elim (Bool-cases (r.flag == 0)) [
    | inl e ↦ rw e (omega (arith, count_failed-le rs))
    | inr e ↦ rw e (omega (arith, count_failed-le rs))
  ]

  -- Every target is tried, in order, whatever became of those before it, and the state is what that
  -- leaves: the results report each at its index, and the flag of the batch is 0 exactly if no
  -- target failed, and 16 otherwise. Only an empty list, of an operation other than begin, is refused.
  pub execute_lem :
      (ts : List String) (s : S)
      → ((is_empty op ts && not (is_begin op.kind)) ≡ false)
      → let r = execute op ts s in
        Reports 0 ts s r.0.results
        × (r.1 ≡ attempt_all ts s)
        × (r.0.processed ≡ length ts)
        × (r.0.succeeded + r.0.failed ≡ length ts)
        × ((r.0.flag ≡ 0) ↔ (r.0.had_exception ≡ false))
        × ((r.0.flag ≡ 0) ⊎ (r.0.flag ≡ 16))
  unfolding execute
  execute_lem ts s h =
      let (reports, state, count, had) = run_targets_lem 0 ts s in
      let results = (run_targets op 0 ts s).0 in
      let flags = flag_lem (count_failed op results) (run_targets op 0 ts s).1 had in
      rw h (reports, state, count, omega (arith, count, count_failed-le results), flags.0, flags.1)
