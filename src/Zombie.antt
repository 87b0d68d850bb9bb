-- ===== src/Zombie.antt =====
-- src/takler/server/zombie.py: whether a report of a job belongs to the task's current run, and what
-- the server does with one that does not. `str.strip` is an argument. The log line is left out; the
-- audit record, which is written where the guard has an audit logger, is reduced to the error code
-- that it carries.
pub mod Guard
use Prim.Native.String.{String}
use text.Mathlib.Text.{◌==◌ as str_eq}
use takler.Prelude.{
  ℕ, Bool, true, false, ◌&&◌, ◌||◌, not, List, [], ◌∷◌, Option, none, some, if◌then◌else◌,
}
use takler.Status.{NodeStatus, submitted, active, status_eq}
use takler.Task.{Attempt}

pub data AuthMode : Type 0 where
  disabled enabled : AuthMode

pub data ZombiePolicy : Type 0 where
  fail fob adopt : ZombiePolicy

pub data ChildAction : Type 0 where
  proceed skip : ChildAction

pub data ZombieCondition : Type 0 where
  z1 z2 z3 : ZombieCondition

-- The short names of the five commands that a job sends.
pub data ChildCommand : Type 0 where
  init complete abort event meter : ChildCommand

-- What of a task the guard reads and writes.
pub record Target : Type 0 where
  pub node_status : NodeStatus
  pub attempt : Attempt

pub data Answer : Type 0 where
  answer : ChildAction → Answer
  zombie_error : Answer

abbrev pub is_empty : String → Bool
is_empty s = str_eq s ""

-- `_constant_time_equal`: no password is not a credential.
abbrev pub constant_time_equal : Option String → Option String → Bool
constant_time_equal none right = false
constant_time_equal (some l) none = false
constant_time_equal (some l) (some r) =
    if is_empty l then false else (if is_empty r then false else str_eq l r)

unfoldable pub hits_z1 : Target → Option String → Bool
hits_z1 t password = not (constant_time_equal password t.attempt.job_password)

unfoldable pub hits_z2 : Target → Bool
hits_z2 t = not (status_eq t.node_status submitted || status_eq t.node_status active)

-- `task_id or ""`
abbrev pub or_blank : Option String → String
or_blank none = ""
or_blank (some s) = s

abbrev pub is_init : ChildCommand → Bool
is_init init = true
is_init _ = false

unfoldable pub hits_z3 : Target → ChildCommand → Option String → Bool
hits_z3 t command task_id =
    if not (is_init command)
    then false
    else (if not (status_eq t.node_status active)
        then false
        else not (str_eq (or_blank task_id) (or_blank t.attempt.task_id)))

abbrev pub is_enabled : AuthMode → Bool
is_enabled enabled = true
is_enabled disabled = false

-- `detect_zombie_condition`, with the password that the call carries.
unfoldable pub detect :
    AuthMode → Target → ChildCommand → Option String → Option String → Option ZombieCondition
unfolding hits_z1 hits_z2 hits_z3
detect mode t command task_id password =
    if is_enabled mode && hits_z1 t password
    then some z1
    else (if hits_z2 t then some z2 else (if hits_z3 t command task_id then some z3 else none))

module _ (strip : String → String) where
  -- A password that is blank is not carried.
  abbrev pub is_carried : Option String → Bool
  is_carried none = false
  is_carried (some p) = not (is_empty p) && not (is_empty (strip p))

  -- `dispose_zombie`: the target as it is left, and what the caller is told.
  unfoldable pub dispose : ZombiePolicy → Target → Option String → Target × Answer
  dispose fail t password = (t, zombie_error)
  dispose fob t password = (t, answer skip)
  dispose adopt t password = (
    if is_carried password
        then (record t { attempt = record t.attempt { job_password = password } })
        else t,
    answer proceed,
  )

  -- The error code of the audit record: that of the exception, or success.
  abbrev pub error_code : Answer → ℕ
  error_code zombie_error = 31
  error_code (answer a) = 0

  abbrev pub disposed : Target × Answer → Target × Answer × List ℕ
  disposed (t, a) = (t, a, error_code a ∷ [])

  -- What the guard does with the condition that was hit, if one was.
  unfoldable pub on_condition :
      ZombiePolicy → Target → Option String → Option ZombieCondition → Target × Answer × List ℕ
  on_condition policy t password none = (t, answer proceed, [])
  on_condition policy t password (some condition) = disposed (dispose policy t password)

  -- `ZombieDetector.guard`, with the audit records that the call writes.
  unfoldable pub guard :
      AuthMode
      → ZombiePolicy
      → Target
      → ChildCommand
      → Option String
      → Option String
      → Target × Answer × List ℕ
  guard mode policy t command task_id password =
      on_condition policy t password (detect mode t command task_id password)
