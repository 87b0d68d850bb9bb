-- ===== src/Submission/Restored.antt =====
-- About the attempt that a run leaves (`Task.run` of src/takler/core/task_node.py, `_run_node` of
-- src/takler/server/scheduler.py).
use takler.Prelude.{
  ◌+◌, ◌≡◌, refl, sym, ◌∙◌, Bool, true, false, ◌&&◌, ◌||◌, not, Option, none, some, is_some,
  if◌then◌else◌, ◌⊎◌, inl, inr, Bool-cases, arith,
}
use mathlib.Core.Bool.{true≢false}
use takler.Status.{submitted, active, status_eq}
use takler.Task.{Attempt, Draw, increment_try_no}
use takler.Client.{Error, flow_state_error, unsupported_value_error, node_type_error}
use takler.Submission.{
  State, Outcome, finished, raised, ◌>>=◌, Hooks, is_unsupported, is_refusal, restoring,
  has_capacity, prepare, submit, run, Place, after_run_node, run_node,
}

-- Two attempts with the same number, identifier and password.
abbrev pub IsSame : Attempt → Attempt → Type 0
IsSame a b =
    (b.try_no ≡ a.try_no) × (b.attempt_id ≡ a.attempt_id) × (b.job_password ≡ a.job_password)

abbrev pub IsNext : Draw → Attempt → Attempt → Type 0
IsNext d a b =
    (b.try_no ≡ a.try_no + 1) × (b.attempt_id ≡ some d.attempt) × (b.job_password ≡ some d.password)

abbrev pub left_by : {S A : Type 0} → Outcome S A → State S
left_by (finished a s) = s
left_by (raised e s) = s

-- A run that ends has started the next attempt; one that raises has started it, or given back the
-- attempt that was there, and the latter for an `UnsupportedValueError`.
abbrev pub Leaves : {S A : Type 0} → Draw → Attempt → Outcome S A → Type 0
Leaves d a (finished x s) = IsNext d a s.attempt
Leaves d a (raised e s) = (s.attempt ≡ a) ⊎ ((is_unsupported e ≡ false) × IsNext d a s.attempt)

-- No method of the task changes the number, the identifier or the password of the attempt, and the index
-- of the paths takes what is written.
pub record IsKept {S : Type 0} (hooks : Hooks S) : Type 0 where
  pub by_before : (s : State S) → IsSame s.attempt (left_by (hooks.before_run s)).attempt
  pub takes_reset : (a : Attempt) → hooks.refused_path a ≡ none
  pub takes_restore : (prior a : Attempt) → hooks.refused_restore prior a ≡ none
  pub by_do : (s : State S) → IsSame s.attempt (left_by (hooks.do_run s)).attempt
  pub by_after : (s : State S) → IsSame s.attempt (left_by (hooks.after_run s)).attempt

-- As `Leaves`, before the handlers.
abbrev Started : {S A : Type 0} → Draw → Attempt → Outcome S A → Type 0
Started d a o = IsNext d a (left_by o).attempt

IsSame-IsNext : (d : Draw) (a b c : Attempt) → IsNext d a b → IsSame b c → IsNext d a c
IsSame-IsNext d a b c (x, y, z) (u, v, w) = (u ∙ x, v ∙ y, w ∙ z)

increment-IsNext : (d : Draw) (a : Attempt) → IsNext d a (increment_try_no d a)
unfolding increment_try_no
increment-IsNext d a = (refl, refl, refl)

bind-Started :
    {S A B : Type 0} (d : Draw) (a : Attempt) (o : Outcome S A) (f : A → State S → Outcome S B)
    → Started d a o
    → ((x : A) (s : State S) → IsNext d a s.attempt → Started d a (f x s))
    → Started d a (o >>= f)
bind-Started d a (finished x s) f h k = k x s h
bind-Started d a (raised e s) f h k = h

restoring-Leaves :
    {S A : Type 0} (hooks : Hooks S) (kept : IsKept hooks) (catches : Error → Bool) (d : Draw)
    (a : Attempt) (o : Outcome S A)
    → ((e : Error) → is_unsupported e ≡ true → catches e ≡ true)
    → Started d a o
    → Leaves d a (restoring hooks catches a o)
restoring-Leaves hooks kept catches d a (finished x s) c h = h
restoring-Leaves hooks kept catches d a (raised e s) c h = elim (Bool-cases (catches e)) [
  | inl k ↦ rw (Leaves, k) (rw (kept.takes_restore a s.attempt) (inl refl))
  | inr k ↦ rw k (
      inr (
        elim (Bool-cases (is_unsupported e)) [
          | inl u ↦ absurd (true≢false (sym (c e u) ∙ k))
          | inr u ↦ u
        ],
        h,
      ))
]

bind-Leaves :
    {S A B : Type 0} (d : Draw) (a : Attempt) (o : Outcome S A) (f : A → State S → Outcome S B)
    → Leaves d a o
    → ((x : A) (s : State S) → IsNext d a s.attempt → Leaves d a (f x s))
    → Leaves d a (o >>= f)
bind-Leaves d a (finished x s) f h k = k x s h
bind-Leaves d a (raised e s) f h k = h

-- A test that refuses before anything is written.
guard-Leaves :
    {S A : Type 0} (d : Draw) (s : State S) (b : Bool) (e : Error) (o : Outcome S A)
    → Leaves d s.attempt o
    → Leaves d s.attempt (if b then raised e s else o)
guard-Leaves d s true e o h = inl refl
guard-Leaves d s false e o h = h

module _ {S : Type 0} (hooks : Hooks S) (kept : IsKept hooks) where
  prepare-Started :
      (d : Draw) (a : Attempt) (s : State S) → IsNext d a s.attempt → Started d a (prepare hooks s)
  prepare-Started d a s h =
      bind-Started d a (hooks.before_run s)
        (λ _ s'.
          if hooks.is_running s'.others && has_capacity hooks s'.others
          then finished tt s'
          else raised flow_state_error s')
        (IsSame-IsNext d a s.attempt (left_by (hooks.before_run s)).attempt h (kept.by_before s))
        (λ _ s' k. elim (Bool-cases (hooks.is_running s'.others && has_capacity hooks s'.others)) [
          | inl e ↦ rw e k
          | inr e ↦ rw e k
        ])

  after-Started :
      (d : Draw) (a : Attempt) (done : Bool) (s : State S)
      → IsNext d a s.attempt
      → Started d a
          (if done then (hooks.after_run s >>= λ _ s'. finished true s') else finished false s)
  after-Started d a true s h =
      bind-Started d a (hooks.after_run s) (λ _ s'. finished true s')
        (IsSame-IsNext d a s.attempt (left_by (hooks.after_run s)).attempt h (kept.by_after s))
        (λ _ s' k. k)
  after-Started d a false s h = h

  submit-Started :
      (d : Draw) (a : Attempt) (s : State S) → IsNext d a s.attempt → Started d a (submit hooks s)
  submit-Started d a s h =
      bind-Started d a (hooks.do_run s)
        (λ done s'.
          if done then (hooks.after_run s' >>= λ _ s''. finished true s'') else finished false s')
        (IsSame-IsNext d a s.attempt (left_by (hooks.do_run s)).attempt h (kept.by_do s))
        (after-Started d a)

  caught-Leaves :
      (d : Draw) (s : State S)
      → Leaves d s.attempt (
          restoring hooks is_refusal s.attempt
            (prepare hooks (record s { attempt = increment_try_no d s.attempt }))
          >>= λ _ s'. restoring hooks is_unsupported s.attempt (submit hooks s'))
  caught-Leaves d s =
      let s1 : State S = record s { attempt = increment_try_no d s.attempt } in
      bind-Leaves d s.attempt (restoring hooks is_refusal s.attempt (prepare hooks s1))
        (λ _ s'. restoring hooks is_unsupported s.attempt (submit hooks s'))
        (restoring-Leaves hooks kept is_refusal d s.attempt (prepare hooks s1) (λ e h. ground arith)
          (prepare-Started d s.attempt s1 (increment-IsNext d s.attempt)))
        (λ _ s' k.
          restoring-Leaves hooks kept is_unsupported d s.attempt (submit hooks s') (λ e h. h)
            (submit-Started d s.attempt s' k))

  run-Leaves : (d : Draw) (s : State S) → Leaves d s.attempt (run hooks d s)
  unfolding run
  run-Leaves d s = guard-Leaves d s (not hooks.is_synchronous) unsupported_value_error _ (
      guard-Leaves d s
        (not (hooks.is_running s.others)
          || is_some s.attempt.submission_unknown_reason
          || not (has_capacity hooks s.others))
        flow_state_error _ (rw (kept.takes_reset s.attempt) (caught-Leaves d s)))

  after_run_node-Leaves :
      (d : Draw) (a : Attempt) (o : Outcome S Bool)
      → Leaves d a o
      → Leaves d a (after_run_node hooks o)
  after_run_node-Leaves d a (finished true s) h = h
  after_run_node-Leaves d a (finished false s) h = inr (refl, h)
  after_run_node-Leaves d a (raised e s) h = h

  -- If the task's methods leave the number, the identifier and the password of an attempt alone,
  -- and the index of the paths refuses no write: after a run command that does not raise, the
  -- attempt is the next one, numbered one higher and with the identifier and the password just
  -- drawn; after one that raises, it is that one or exactly the attempt that was there before, and
  -- the latter if an `UnsupportedValueError` was raised.
  pub run_node-Leaves :
      (p : Option Place) (force : Bool) (d : Draw) (s : State S)
      → Leaves d s.attempt (run_node hooks p force d s)
  unfolding run_node
  run_node-Leaves none force d s = inl refl
  run_node-Leaves (some p) force d s = guard-Leaves d s (not p.is_begun) flow_state_error _ (
      guard-Leaves d s (not p.is_task) node_type_error _ (
        guard-Leaves d s (not hooks.is_synchronous) unsupported_value_error _ (
          guard-Leaves d s (not (hooks.is_running s.others)) flow_state_error _ (
            guard-Leaves d s
              (not force && (status_eq p.node_status submitted || status_eq p.node_status active))
              flow_state_error _
              (after_run_node-Leaves d s.attempt (run hooks d s) (run-Leaves d s))))))
