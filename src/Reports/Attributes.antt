-- ===== src/Reports/Attributes.antt =====
-- src/takler/server/scheduler.py: the reports `event` and `meter`, which name the task that sends them
-- apart from the node that owns the attribute. Both nodes are of one flow.
pub mod Kept
use Prim.Native.String.{String}
use text.Mathlib.Text.{◌==◌ as str_eq}
use takler.Prelude.{
  ℕ, Bool, true, false, not, List, [], ◌∷◌, map, Option, none, some, if◌then◌else◌,
}
use takler.Prelude.Int.{ℤ}
use takler.Attr.Event.{Event, set_event}
use takler.Attr.Meter
use takler.Attr.Meter.{Meter, set_meter}
use takler.Task.{Attempt}
use takler.Tree.{Node, Tree, node, root}
use takler.Paths.{node_at, find_node}
use takler.Client.{
  Error, invalid_request_error, attempt_mismatch_error, zombie_error, invalid_node_path_error,
  node_not_found_error, foreign_error,
}
use takler.Zombie.{AuthMode, ZombiePolicy, ChildCommand, Target, answer, proceed, skip, guard}
use takler.Zombie as Zombie
use takler.Reports.{
  Outcome, accepted, refused, write_at, with_attempt, CommandPath, Looked, at, raises, of_found,
  is_current, target_of, validate_attempt_id,
}

-- `set_event`: an event that is not found is no error.
abbrev pub set_events : String → List Event → List Event
set_events name [] = []
set_events name (e ∷ es) =
    let rest = set_events name es in if str_eq e.name name then set_event true e ∷ es else e ∷ rest

-- `set_meter`: none is the `ValueError` of a value out of the range.
abbrev pub set_one : ℤ → Meter → List Meter → Option (List Meter)
set_one v m ms = elim (set_meter v m) [ Meter.ok m' ↦ some (m' ∷ ms) | Meter.err e ↦ none ]

abbrev pub behind : Meter → Option (List Meter) → Option (List Meter)
behind m none = none
behind m (some ms) = some (m ∷ ms)

abbrev pub set_meters : String → ℤ → List Meter → Option (List Meter)
set_meters name v [] = some []
set_meters name v (m ∷ ms) =
    let rest = set_meters name v ms in if str_eq m.name name then set_one v m ms else behind m rest

pub data Change : Type 0 where
  event : (event_name : String) → Change
  meter : (meter_name : String) → ℤ → Change

abbrev pub with_meters : Node → Option (List Meter) → Option Node
with_meters a none = none
with_meters a (some ms) = some (record a { meters = ms })

-- The new node, or the `ValueError`.
unfoldable pub change_node : Change → Node → Option Node
unfolding set_meter
change_node (event name) a = some (record a { events = set_events name a.events })
change_node (meter name v) a = with_meters a (set_meters name v a.meters)

pub record AttributeCommand : Type 0 where
  pub node_path : CommandPath
  -- `none` is an empty text.
  pub source_task_path : Option CommandPath
  pub attempt_id : String
  pub change : Change
  pub password : Option String

-- `_find_node_or_raise`
unfoldable pub look_up_node : Tree → CommandPath → Looked (List ℕ × Node)
unfolding find_node node_at
look_up_node t p =
    if not p.is_absolute
    then raises invalid_node_path_error
    else (if p.is_slash
        then raises invalid_node_path_error
        else (if str_eq p.first_token (root t).name
            then of_found t (find_node t ((root t).name ∷ []) p.path)
            else raises node_not_found_error))

-- The node of `source_task_path`, which is to be a task.
abbrev pub task_only : Looked (List ℕ × Node) → Looked (List ℕ × Node)
task_only (raises node_not_found_error) = raises invalid_request_error
task_only (raises e) = raises e
task_only (at (is, a)) = if a.is_task then at (is, a) else raises invalid_request_error

unfoldable pub find_source : Tree → Option CommandPath → Looked (List ℕ × Node)
unfolding look_up_node
find_source t none = raises invalid_request_error
find_source t (some p) = task_only (look_up_node t p)

abbrev pub kind_of : Change → ChildCommand
kind_of (event name) = Zombie.event
kind_of (meter name v) = Zombie.meter

abbrev pub or_same : Node → Option Node → Node
or_same a none = a
or_same a (some b) = b

unfoldable pub apply : Change → Node → Node
unfolding change_node
apply c a = or_same a (change_node c a)

-- The change of the node, at its path in the tree that the guard has left.
abbrev pub put : Change → List ℕ → Tree → Option Node → Outcome
put c is t none = refused foreign_error t
put c is t (some a) = accepted (write_at (apply c) is t)

module _ (canonical : String → Option String) (strip : String → String)
    (detector : Option (AuthMode × ZombiePolicy)) where
  abbrev pub guard_source : Node → Change → Option String → Target × Zombie.Answer
  guard_source a c password =
      let target = target_of canonical strip detector a in
      elim detector [
        | none ↦ (target, answer proceed)
        | some (mode, policy) ↦
            let (left, verdict, _) = guard strip mode policy target (kind_of c) none password in
            (left, verdict)
      ]

  abbrev pub after_guard_source :
      Change → List ℕ × Node → List ℕ → Tree → Target × Zombie.Answer → Outcome
  after_guard_source c (is, a) source t (target, Zombie.zombie_error) = refused zombie_error t
  after_guard_source c (is, a) source t (target, answer skip) = accepted t
  after_guard_source c (is, a) source t (target, answer proceed) =
      put c is
        (write_at (with_attempt (λ b. record b { job_password = target.attempt.job_password }))
          source t)
        (change_node c a)

  -- `_guard_child_target`, and what follows it.
  abbrev pub on_source : AttributeCommand → List ℕ × Node → Tree → Looked (List ℕ × Node) → Outcome
  on_source c place t (raises e) = refused e t
  on_source c place t (at (source, b)) =
      if is_current canonical strip detector c.attempt_id b
      then after_guard_source c.change place source t (guard_source b c.change c.password)
      else refused attempt_mismatch_error t

  abbrev pub on_place : AttributeCommand → Tree → Looked (List ℕ × Node) → Outcome
  on_place c t (raises e) = refused e t
  on_place c t (at place) = on_source c place t (find_source t c.source_task_path)

  abbrev pub on_valid : AttributeCommand → Tree → Option Error → Outcome
  on_valid c t (some e) = refused e t
  on_valid c t none = on_place c t (look_up_node t c.node_path)

  -- `run_command_event` and `run_command_meter`
  unfoldable pub run_attribute_command : AttributeCommand → Tree → Outcome
  run_attribute_command c t =
      on_valid c t (validate_attempt_id canonical strip detector c.attempt_id)
