-- ===== src/Reports/Current.antt =====
-- About the reports that change the flow (src/takler/server/scheduler.py).
use Prim.Native.String.{String}
use text.Mathlib.TextEquality.{eq_iff}
use takler.Prelude.{
  ℕ, ◌≡◌, refl, ap, true, List, Option, none, some, ◌⊎◌, inl, inr, Bool-cases, arith,
}
use takler.Status.{NodeStatus, submitted, active}
use takler.Tree.{Node, Tree}
use takler.Client.{Error}
use takler.Zombie.{AuthMode, ZombiePolicy}
use takler.Reports.{
  flow_of, Command, Looked, at, raises, on_task, after_validation, is_current, validate_attempt_id,
  find_task, run_command, same_text, in_flight,
}

-- The command is of the attempt on record of a task in flight, which its path finds.
abbrev pub IsOfAttempt : String → Looked (List ℕ × Node) → Type 0
IsOfAttempt id (raises e) = ⊥
IsOfAttempt id (at (is, a)) =
    (a.attempt.attempt_id ≡ some id) × ((a.node_status ≡ submitted) ⊎ (a.node_status ≡ active))

same_text_eq : (o : Option String) (s : String) → same_text o s ≡ true → o ≡ some s
same_text_eq none s h = ground arith
same_text_eq (some r) s h = ap some ((eq_iff r s).0 h)

in_flight_cases : (s : NodeStatus) → in_flight s ≡ true → (s ≡ submitted) ⊎ (s ≡ active)
in_flight_cases s h = ground arith

module _ (canonical : String → Option String) (strip : String → String)
    (detector : Option (AuthMode × ZombiePolicy)) where
  pub is_current-IsOfAttempt :
      (id : String) (is : List ℕ) (a : Node)
      → is_current canonical strip detector id a ≡ true
      → IsOfAttempt id (at (is, a))
  is_current-IsOfAttempt id is a h = elim (Bool-cases (same_text a.attempt.attempt_id id)) [
    | inl e ↦ (same_text_eq a.attempt.attempt_id id e, in_flight_cases a.node_status (rw e at h))
    | inr e ↦ ground arith
  ]

  on_task-IsOfAttempt :
      (c : Command) (t : Tree) (l : Looked (List ℕ × Node))
      → (flow_of (on_task canonical strip detector c t l) ≡ t) ⊎ IsOfAttempt c.attempt_id l
  unfolding on_task
  on_task-IsOfAttempt c t (raises e) = inl refl
  on_task-IsOfAttempt c t (at (is, a)) =
      elim (Bool-cases (is_current canonical strip detector c.attempt_id a)) [
        | inl e ↦ inr (is_current-IsOfAttempt c.attempt_id is a e)
        | inr e ↦ inl (rw e refl)
      ]

  after_validation-IsOfAttempt :
      (c : Command) (t : Tree) (o : Option Error)
      → (flow_of (after_validation canonical strip detector c t o) ≡ t)
        ⊎ IsOfAttempt c.attempt_id (find_task t c.node_path)
  after_validation-IsOfAttempt c t (some e) = inl refl
  after_validation-IsOfAttempt c t none = on_task-IsOfAttempt c t (find_task t c.node_path)

  -- A report leaves the flow as it was, unless its path finds a task that is submitted or active and its
  -- attempt is the one on record there.
  pub run_command-IsOfAttempt :
      (c : Command) (t : Tree)
      → (flow_of (run_command canonical strip detector c t) ≡ t)
        ⊎ IsOfAttempt c.attempt_id (find_task t c.node_path)
  unfolding run_command
  run_command-IsOfAttempt c t =
      after_validation-IsOfAttempt c t (validate_attempt_id canonical strip detector c.attempt_id)
