-- ===== src/Reports/Sound.antt =====
-- About what a report leaves of the flow's tree (src/takler/server/scheduler.py and
-- src/takler/core/task_node.py).
use Prim.Native.String.{String}
use takler.Prelude.{
  ℕ, ◌≡◌, ◌≢◌, refl, false, List, Option, none, some, is_some, inl, inr, Bool-cases,
}
use takler.Status.{NodeStatus, active, complete, aborted}
use takler.Task.{Attempt, init_attempt, complete_attempt}
use takler.Tree.{
  Node, Tree, node, Progress, absent, failed, swim, only, set_node_status, at_path, step_swim,
  has_unknown,
}
use takler.Tree.Aggregated.{IsSound}
use takler.Tree.Sound.{status_change-IsSound, at_path-Keeps, Keeps, Ends-Keeps, step_swim-Ends}
use takler.Client.{Error}
use takler.Zombie.{AuthMode, ZombiePolicy, Target, answer, proceed, skip}
use takler.Zombie as Zombie
use takler.Reports.Harmless.{IsHarmless, write_at-IsSound}
use takler.Reports.{
  Outcome, accepted, refused, write_at, with_attempt, settle, then_do, change_status, init_task,
  complete_task, abort_task, Report, init_command, complete_command, abort_command, Command, Looked,
  at, raises, perform, after_guard, on_duplicate, on_task, after_validation, is_current,
  is_duplicate, guard_child_command, validate_attempt_id, find_task, run_command, same_text,
  detects,
}

-- A change of the attempt that makes no submission unknown.
abbrev Clears : (Attempt → Attempt) → Type 0
Clears g =
    (a : Attempt)
    → is_some a.submission_unknown_reason ≡ false
    → is_some (g a).submission_unknown_reason ≡ false

with_attempt-unknown :
    (g : Attempt → Attempt) (a : Node)
    → Clears g
    → has_unknown a ≡ false
    → has_unknown (with_attempt g a) ≡ false
with_attempt-unknown g a c h = elim (Bool-cases a.is_task) [
  | inl e ↦ simp e (c a.attempt (simp e at h))
  | inr e ↦ simp e refl
]

attempt-IsHarmless :
    (g : Attempt → Attempt) → Clears g → (a : Node) → IsHarmless a (with_attempt g a)
attempt-IsHarmless g c a = record {
  same_default = refl;
  same_repeat = refl;
  same_kind = refl;
  same_status = refl;
  still_known = with_attempt-unknown g a c;
}

-- An outcome that is no exception and leaves a sound tree.
abbrev pub Settles : Outcome → Type 0
Settles (accepted t) = IsSound t
Settles (refused e t) = ⊥

pub settle-Settles : (r : Tree × Progress) → IsSound r.0 → r.1 ≢ failed → Settles (settle r)
settle-Settles (t, absent) h n = h
settle-Settles (t, failed) h n = absurd (n refl)
settle-Settles (t, swim) h n = h
settle-Settles (t, only) h n = h

then_do-Settles :
    (g : Tree → Outcome) (o : Outcome)
    → Settles o
    → ((t : Tree) → IsSound t → Settles (g t))
    → Settles (then_do g o)
then_do-Settles g (accepted t) h k = k t h
then_do-Settles g (refused e t) h k = absurd h

step_swim-Keeps : (t : Tree) → IsSound t → Keeps step_swim t
step_swim-Keeps (node a f) (d, u, e, s) =
    Ends-Keeps step_swim (node a f) (step_swim-Ends a f (d, u, s))

change_status-Settles :
    (s : NodeStatus) (before after : Attempt → Attempt) (is : List ℕ) (t : Tree)
    → Clears before
    → Clears after
    → IsSound t
    → Settles (change_status s before after is t)
unfolding change_status
change_status-Settles s before after is t c c' h =
    let (h1, _) = write_at-IsSound (with_attempt before) (attempt-IsHarmless before c) is t h in
    let set = status_change-IsSound s is (write_at (with_attempt before) is t) h1 in
    then_do-Settles (λ t'. settle (at_path step_swim is (write_at (with_attempt after) is t')))
      (settle (set_node_status s is (write_at (with_attempt before) is t)))
      (settle-Settles (set_node_status s is (write_at (with_attempt before) is t)) set.0 set.1)
      (λ t' k.
        let (k1, _) = write_at-IsSound (with_attempt after) (attempt-IsHarmless after c') is t' k in
        let kept =
          at_path-Keeps step_swim step_swim-Keeps is (write_at (with_attempt after) is t') k1 in
        settle-Settles (at_path step_swim is (write_at (with_attempt after) is t')) kept.0 kept.1)

-- An answer to a command on a tree: an exception leaves the tree, and any other answer a sound one.
abbrev pub Answered : Tree → Outcome → Type 0
Answered t (accepted t') = IsSound t'
Answered t (refused e t') = t' ≡ t

pub Settles-Answered : (t : Tree) (o : Outcome) → Settles o → Answered t o
Settles-Answered t (accepted t') h = h
Settles-Answered t (refused e t') h = absurd h

module _ (canonical : String → Option String) (strip : String → String)
    (detector : Option (AuthMode × ZombiePolicy)) where
  perform-Settles :
      (r : Report) (now : String) (is : List ℕ) (t : Tree)
      → IsSound t
      → Settles (perform canonical strip detector r now is t)
  unfolding init_task complete_task abort_task init_attempt complete_attempt
  perform-Settles (init_command task_id) now is t h =
      change_status-Settles active (init_attempt now task_id) (λ a. a) is t (λ a e. refl) (λ a e. e)
        h
  perform-Settles complete_command now is t h =
      change_status-Settles complete (complete_attempt now) (λ a. a) is t (λ a e. refl) (λ a e. e) h
  perform-Settles (abort_command reason) now is t h =
      change_status-Settles aborted (complete_attempt now)
        (λ a. record a { aborted_reason = some reason }) is t (λ a e. refl) (λ a e. e) h

  after_guard-Answered :
      (r : Report) (now : String) (is : List ℕ) (t : Tree) (v : Target × Zombie.Answer)
      → IsSound t
      → Answered t (after_guard canonical strip detector r now is t v)
  after_guard-Answered r now is t (target, Zombie.zombie_error) h = refl
  after_guard-Answered r now is t (target, answer skip) h = h
  after_guard-Answered r now is t (target, answer proceed) h =
      let g : Attempt → Attempt = λ a. record a { job_password = target.attempt.job_password } in
      let (h', _) = write_at-IsSound (with_attempt g) (attempt-IsHarmless g (λ a e. e)) is t h in
      Settles-Answered t
        (perform canonical strip detector r now is (write_at (with_attempt g) is t))
        (perform-Settles r now is (write_at (with_attempt g) is t) h')

  on_duplicate-Answered :
      (r : Report) (a : Node) (password : Option String) (t : Tree)
      → IsSound t
      → Answered t (on_duplicate canonical strip detector r a password t)
  on_duplicate-Answered (init_command task_id) a password t h =
      elim (Bool-cases (same_text a.attempt.task_id task_id)) [
        | inl e ↦ rw e (elim (Bool-cases (detects canonical strip detector a task_id password)) [
          | inl d ↦ rw d refl
          | inr d ↦ rw d h
        ])
        | inr e ↦ rw e refl
      ]
  on_duplicate-Answered complete_command a password t h = h
  on_duplicate-Answered (abort_command reason) a password t h = h

  on_task-Answered :
      (c : Command) (t : Tree) (l : Looked (List ℕ × Node))
      → IsSound t
      → Answered t (on_task canonical strip detector c t l)
  unfolding on_task
  on_task-Answered c t (raises e) h = refl
  on_task-Answered c t (at (is, a)) h =
      elim (Bool-cases (is_current canonical strip detector c.attempt_id a)) [
        | inl e ↦ rw e (elim (Bool-cases (is_duplicate canonical strip detector c.report a)) [
          | inl d ↦ rw d (on_duplicate-Answered c.report a c.password t h)
          | inr d ↦ rw d (
              after_guard-Answered c.report c.now is t
                (guard_child_command canonical strip detector a c.report c.password) h)
        ])
        | inr e ↦ rw e refl
      ]

  after_validation-Answered :
      (c : Command) (t : Tree) (o : Option Error)
      → IsSound t
      → Answered t (after_validation canonical strip detector c t o)
  after_validation-Answered c t (some e) h = refl
  after_validation-Answered c t none h = on_task-Answered c t (find_task t c.node_path) h

  -- In a sound flow, in which no repeat is within one step of the last date of the calendar, a
  -- report that is refused leaves the whole flow as it was, and any other one, the requeues of
  -- repeats that it sets off included, leaves a sound flow. The index of the paths of tasks is
  -- taken to refuse no write.
  pub run_command-IsSound :
      (c : Command) (t : Tree) → IsSound t → Answered t (run_command canonical strip detector c t)
  unfolding run_command
  run_command-IsSound c t h =
      after_validation-Answered c t (validate_attempt_id canonical strip detector c.attempt_id) h
