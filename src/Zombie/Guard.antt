-- ===== src/Zombie/Guard.antt =====
-- About the guard of src/takler/server/zombie.py.
use Prim.Native.String.{String}
use text.Mathlib.TextEquality.{eq_iff}
use takler.Prelude.{
  sym, ◌∙◌, ℕ, ◌≡◌, refl, ◌↔◌, true, false, ◌&&◌, List, [], ◌∷◌, Option, none, some, if◌then◌else◌,
  ◌⊎◌, inl, inr, ◌≢◌, arith, Bool-cases, Option-cases,
}
use takler.Status.{queued, submitted, active, complete as done, status_eq}
use takler.Zombie.{
  is_init, AuthMode, disabled, enabled, ZombiePolicy, fail, fob, adopt, proceed, skip,
  ZombieCondition, ChildCommand, init, Target, Answer, answer, zombie_error, constant_time_equal,
  hits_z1, hits_z2, hits_z3, or_blank, detect, is_carried, dispose, guard, on_condition, is_enabled,
  disposed,
}

abbrev pub SamePassword : Target → Option String → Type 0
SamePassword t password =
    (p : String) × (password ≡ some p) × (t.attempt.job_password ≡ some p) × (p ≢ "")

-- The report is one of the current run: the task is in flight, with authentication the call carries
-- the password of the run, and a job that reports its start to an active task is the one on record.
pub record IsCurrent (mode : AuthMode) (t : Target) (command : ChildCommand)
    (task_id password : Option String) : Type 0 where
  pub in_flight : (t.node_status ≡ submitted) ⊎ (t.node_status ≡ active)
  pub same_password : (mode ≡ disabled) ⊎ SamePassword t password
  pub same_job :
      ((command ≢ init) ⊎ (t.node_status ≢ active))
      ⊎ (or_blank task_id ≡ or_blank t.attempt.task_id)

equal_passwords :
    (l r : Option String)
    → constant_time_equal l r ≡ true
    → (p : String) × (l ≡ some p) × (r ≡ some p) × (p ≢ "")
equal_passwords none r h = cc
equal_passwords (some l) none h = cc
equal_passwords (some l) (some r) h =
    (l, refl, ground (arith, eq_iff l r), λ e. ground (arith, eq_iff l ""))

no_z1 :
    (mode : AuthMode) (t : Target) (password : Option String)
    → (mode ≡ disabled) ⊎ SamePassword t password
    → (is_enabled mode && hits_z1 t password) ≡ false
no_z1 disabled t password h = refl
no_z1 enabled t password (inl h) = ground arith
no_z1 enabled t password (inr (p, e, j, n)) =
    unfold hits_z1 in rw (e, j) (ground (arith, eq_iff p "", eq_iff p p))

no_z2 : (t : Target) → (t.node_status ≡ submitted) ⊎ (t.node_status ≡ active) → hits_z2 t ≡ false
unfolding hits_z2
no_z2 t h = ground arith

no_z3 :
    (t : Target) (command : ChildCommand) (task_id : Option String)
    → ((command ≢ init) ⊎ (t.node_status ≢ active))
      ⊎ (or_blank task_id ≡ or_blank t.attempt.task_id)
    → hits_z3 t command task_id ≡ false
unfolding hits_z3
no_z3 t command task_id h = ground (arith, eq_iff (or_blank task_id) (or_blank t.attempt.task_id))

mode_cases : (mode : AuthMode) → (mode ≡ disabled) ⊎ (mode ≡ enabled)
mode_cases disabled = inl refl
mode_cases enabled = inr refl

other_report :
    (t : Target) (command : ChildCommand)
    → (is_init command && status_eq t.node_status active) ≡ false
    → (command ≢ init) ⊎ (t.node_status ≢ active)
other_report t command h = elim (Bool-cases (is_init command)) [
  | inl e ↦ inr (λ a. ground arith)
  | inr e ↦ inl (λ c. ground arith)
]

-- No condition of a zombie is detected exactly when the report is one of the current run.
pub detect_iff :
    (mode : AuthMode) (t : Target) (command : ChildCommand) (task_id password : Option String)
    → (detect mode t command task_id password ≡ none) ↔ IsCurrent mode t command task_id password
detect_iff mode t command task_id password = (there, back)
  where
    there :
        detect mode t command task_id password ≡ none → IsCurrent mode t command task_id password
    there h = record {
      in_flight = unfold detect in ground arith;
      same_password = elim (mode_cases mode) [
        | inl off ↦ inl off
        | inr on ↦
            inr (equal_passwords password t.attempt.job_password (unfold detect in ground arith))
      ];
      same_job = elim (Bool-cases (is_init command && status_eq t.node_status active)) [
        | inr e ↦ inl (other_report t command e)
        | inl e ↦ inr (
            unfold detect in ground (arith, eq_iff (or_blank task_id) (or_blank t.attempt.task_id)))
      ];
    }

    back : IsCurrent mode t command task_id password → detect mode t command task_id password ≡ none
    back h =
        unfold detect in
        ground (
          arith,
          no_z1 mode t password h.same_password,
          no_z2 t h.in_flight,
          no_z3 t command task_id h.same_job,
        )

-- What is done with a report that does not belong to the run.
abbrev pub Handled :
    (String → String) → ZombiePolicy → Target → Option String → Target × Answer × List ℕ → Type 0
Handled strip fail t password (t', a, audits) = (t' ≡ t) × (a ≡ zombie_error) × (audits ≡ 31 ∷ [])
Handled strip fob t password (t', a, audits) = (t' ≡ t) × (a ≡ answer skip) × (audits ≡ 0 ∷ [])
Handled strip adopt t password (t', a, audits) =
    (t'.node_status ≡ t.node_status)
    × (t'.attempt ≡ (
        if is_carried strip password
        then (record t.attempt { job_password = password })
        else t.attempt))
    × (a ≡ answer proceed)
    × (audits ≡ 0 ∷ [])

dispose-Handled :
    (strip : String → String) (policy : ZombiePolicy) (t : Target) (password : Option String)
    → Handled strip policy t password (disposed strip (dispose strip policy t password))
unfolding dispose
dispose-Handled strip fail t password = (refl, refl, refl)
dispose-Handled strip fob t password = (refl, refl, refl)
dispose-Handled strip adopt t password = (ground arith, ground arith, refl, refl)

Handled-refused :
    (strip : String → String) (policy : ZombiePolicy) (t : Target) (password : Option String)
    (r : Target × Answer × List ℕ)
    → (policy ≡ fail) ⊎ (policy ≡ fob)
    → Handled strip policy t password r
    → (r.0 ≡ t) × (r.1 ≢ answer proceed)
Handled-refused strip fail t password (t', a, l) p (h, e, _) = (h, λ x. cc)
Handled-refused strip fob t password (t', a, l) p (h, e, _) = (h, λ x. cc)
Handled-refused strip adopt t password r p h = absurd (ground arith)

some≢none : (c : ZombieCondition) → some c ≢ none
some≢none c e = cc

module _ (strip : String → String) (mode : AuthMode) (policy : ZombiePolicy) (t : Target)
    (command : ChildCommand) (task_id password : Option String) where
  -- A report of the current run passes: the task is left as it is and nothing is audited. Any other is
  -- handled by the policy, with one audit record: refused with code 31, or answered without being
  -- run, and in both cases the task is left as it is; or run, with the call's password taken over if
  -- it carries one, and nothing else of the task changed.
  pub guard_lem :
      (IsCurrent mode t command task_id password
        × (guard strip mode policy t command task_id password ≡ (t, answer proceed, [])))
      ⊎ ((¬ IsCurrent mode t command task_id password)
          × Handled strip policy t password (guard strip mode policy t command task_id password))
  unfolding guard on_condition
  guard_lem = elim (Option-cases (detect mode t command task_id password)) [
    | inl e ↦ inl ((detect_iff mode t command task_id password).0 e, rw e)
    | inr (c, e) ↦ inr (
      λ h. some≢none c (sym e ∙ (detect_iff mode t command task_id password).1 h),
      rw e (dispose-Handled strip policy t password),
    )
  ]

  -- Where the task is queued or complete, as after a requeue, no report passes as one of the current
  -- run, with or without authentication: unless the policy adopts it, the task is left as it is and
  -- the command is not run.
  cleared_not_current :
      (policy ≡ fail) ⊎ (policy ≡ fob)
      → (t.node_status ≡ queued) ⊎ (t.node_status ≡ done)
      → (guard strip mode policy t command task_id password).0 ≡ t
        × ((guard strip mode policy t command task_id password).1 ≢ answer proceed)
  cleared_not_current p q =
      Handled-refused strip policy t password (guard strip mode policy t command task_id password) p
        (elim guard_lem [ inl (h, _) ↦ absurd (out h.in_flight) | inr (_, h) ↦ h ])
    where
      out : (t.node_status ≡ submitted) ⊎ (t.node_status ≡ active) → ⊥
      out h = ground arith
