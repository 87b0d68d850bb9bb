-- ===== src/Task/Attempts.antt =====
-- About the reports of one attempt and the start of the next (src/takler/core/task_node.py).
use Prim.Native.String.{String}
use takler.Prelude.{◌≡◌, refl, ◌∙◌, List, [], ◌∷◌, some, is_some, Bool-cases, inl, inr}
use takler.Task.{
  Attempt, Draw, clear_current_attempt, increment_try_no, init_attempt, complete_attempt,
  abort_attempt,
}

-- What a job reports of its attempt.
data Report : Type 0 where
  init : (now task_id : String) → Report
  complete : (now : String) → Report
  abort : (now reason : String) → Report

unfoldable report : Report → Attempt → Attempt
report (init now task_id) a = init_attempt now task_id a
report (complete now) a = complete_attempt now a
report (abort now reason) a = abort_attempt now reason a

unfoldable reports : List Report → Attempt → Attempt
reports [] a = a
reports (r ∷ rs) a = reports rs (report r a)

report-increment_try_no :
    (d : Draw) (r : Report) (a : Attempt) → increment_try_no d (report r a) ≡ increment_try_no d a
unfolding report increment_try_no init_attempt complete_attempt abort_attempt
report-increment_try_no d (init now task_id) a = refl
report-increment_try_no d (complete now) a = refl
report-increment_try_no d (abort now reason) a = refl

reports-unread :
    (d : Draw) (rs : List Report) (a : Attempt)
    → increment_try_no d (reports rs a) ≡ increment_try_no d a
unfolding reports
reports-unread d [] a = refl
reports-unread d (r ∷ rs) a = reports-unread d rs (report r a) ∙ report-increment_try_no d r a

-- The next attempt is the same whatever was reported of the last one, and also when that was cleared.
increment_try_no-reports :
    (d : Draw) (rs : List Report) (a : Attempt)
    → (increment_try_no d (reports rs a) ≡ increment_try_no d a)
      × (increment_try_no d (clear_current_attempt (reports rs a)) ≡ increment_try_no d a)
unfolding clear_current_attempt increment_try_no
increment_try_no-reports d rs a = (reports-unread d rs a, reports-unread d rs a)

-- The attempt's own identity, and its start once it is written.
record IsSameAttempt (start : String) (a b : Attempt) : Type 0 where
  try_no : b.try_no ≡ a.try_no
  attempt_id : b.attempt_id ≡ a.attempt_id
  job_password : b.job_password ≡ a.job_password
  definition_generation : b.definition_generation ≡ a.definition_generation
  started_at : b.started_at ≡ some start

report-IsSameAttempt :
    (start : String) (r : Report) (a : Attempt)
    → a.started_at ≡ some start
    → IsSameAttempt start a (report r a)
unfolding report init_attempt complete_attempt abort_attempt
report-IsSameAttempt start (init now task_id) a h = record {
  try_no = refl;
  attempt_id = refl;
  job_password = refl;
  definition_generation = refl;
  started_at =
      rw h (elim (Bool-cases (is_some a.attempt_id)) [ inl e ↦ rw e refl | inr e ↦ rw e refl ]);
}
report-IsSameAttempt start (complete now) a h = record {
  try_no = refl;
  attempt_id = refl;
  job_password = refl;
  definition_generation = refl;
  started_at = h;
}
report-IsSameAttempt start (abort now reason) a h = record {
  try_no = refl;
  attempt_id = refl;
  job_password = refl;
  definition_generation = refl;
  started_at = h;
}

-- Of an attempt that has started, no report changes the number, the identifier, the password, the
-- generation or the time of the start, a second `init` included.
reports-IsSameAttempt :
    (start : String) (rs : List Report) (a : Attempt)
    → a.started_at ≡ some start
    → IsSameAttempt start a (reports rs a)
unfolding reports
reports-IsSameAttempt start [] a h = record {
  try_no = refl;
  attempt_id = refl;
  job_password = refl;
  definition_generation = refl;
  started_at = h;
}
reports-IsSameAttempt start (r ∷ rs) a h =
    let s = report-IsSameAttempt start r a h in
    let t = reports-IsSameAttempt start rs (report r a) s.started_at in
    record {
      try_no = t.try_no ∙ s.try_no;
      attempt_id = t.attempt_id ∙ s.attempt_id;
      job_password = t.job_password ∙ s.job_password;
      definition_generation = t.definition_generation ∙ s.definition_generation;
      started_at = t.started_at;
    }
