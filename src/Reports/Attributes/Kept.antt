-- ===== src/Reports/Attributes/Kept.antt =====
-- About what the reports of events and meters leave alone (src/takler/server/scheduler.py).
use Prim.Native.String.{String}
use takler.Prelude.{
  ℕ, zero, suc, ◌≡◌, ◌⊎◌, inl, inr, refl, ap, List, [], ◌∷◌, Option, none, some, Bool-cases, true,
  false, map, if◌then◌else◌,
}
use text.Mathlib.Text.{◌==◌ as str_eq}
use takler.Prelude.Int.{ℤ, pos}
use takler.Attr.Event.{Event, set_event}
use takler.Attr.Meter.{Meter, is_invalid, set_meter}
use takler.Tree.{Node, Tree, node, Forest, nil, cons}
use takler.Client.{Error}
use takler.Zombie.{AuthMode, ZombiePolicy, Target, answer, proceed, skip}
use takler.Zombie as Zombie
use takler.Reports.{
  flow_of, write_at, write_child, with_attempt, Looked, at, raises, is_current, validate_attempt_id,
}
use takler.Reports.Current.{IsOfAttempt, is_current-IsOfAttempt}
use takler.Reports.Attributes.{
  AttributeCommand, Change, event, meter, change_node, apply, or_same, with_meters, put,
  look_up_node, find_source, guard_source, after_guard_source, on_source, on_place, on_valid,
  run_attribute_command, set_meters, set_events, behind,
}

-- An event, a meter and a node without the values that a report may change: those of the events of its
-- name, or those of the meters of its name.
abbrev pub erase_event : String → Event → Event
erase_event name e = if str_eq e.name name then set_event false e else e

abbrev pub erase_meter : String → Meter → Meter
erase_meter name m = if str_eq m.name name then (record m { value = pos 0 }) else m

abbrev pub erase : Change → Node → Node
erase (event name) a = record a { events = map (erase_event name) a.events }
erase (meter name v) a = record a { meters = map (erase_meter name) a.meters }

erase-set_events :
    (name : String) (es : List Event)
    → map (erase_event name) (set_events name es) ≡ map (erase_event name) es
erase-set_events name [] = refl
erase-set_events name (e ∷ es) = elim (Bool-cases (str_eq e.name name)) [
  | inl k ↦ rw k (rw k refl)
  | inr k ↦ rw k (rw k (ap (λ l. e ∷ l) (erase-set_events name es)))
]

-- The list of meters, if the change did not raise, is as before but for the values.
abbrev IsFramed : String → List Meter → Option (List Meter) → Type 0
IsFramed name ms none = Unit
IsFramed name ms (some ms') = map (erase_meter name) ms' ≡ map (erase_meter name) ms

set_one-IsFramed :
    (name : String) (v : ℤ) (m : Meter) (ms : List Meter)
    → str_eq m.name name ≡ true
    → IsFramed name (m ∷ ms) (set_meters name v (m ∷ ms))
unfolding set_meter
set_one-IsFramed name v m ms k = elim (Bool-cases (is_invalid v m)) [
  | inl e ↦ rw (IsFramed, k) (rw e tt)
  | inr e ↦ rw (IsFramed, k) (rw e (rw k refl))
]

behind-IsFramed :
    (name : String) (m : Meter) (ms : List Meter) (o : Option (List Meter))
    → IsFramed name ms o
    → IsFramed name (m ∷ ms) (behind m o)
behind-IsFramed name m ms none h = tt
behind-IsFramed name m ms (some ms') h = ap (λ l. erase_meter name m ∷ l) h

set_meters-IsFramed :
    (name : String) (v : ℤ) (ms : List Meter) → IsFramed name ms (set_meters name v ms)
set_meters-IsFramed name v [] = refl
set_meters-IsFramed name v (m ∷ ms) = elim (Bool-cases (str_eq m.name name)) [
  | inl k ↦ set_one-IsFramed name v m ms k
  | inr k ↦
      rw (IsFramed, k)
        (behind-IsFramed name m ms (set_meters name v ms) (set_meters-IsFramed name v ms))
]

erase-with_meters :
    (name : String) (v : ℤ) (a : Node) (o : Option (List Meter))
    → IsFramed name a.meters o
    → erase (meter name v) (or_same a (with_meters a o)) ≡ erase (meter name v) a
erase-with_meters name v a none h = refl
erase-with_meters name v a (some ms) h = ap (λ l. record a { meters = l }) h

erase-apply : (c : Change) (a : Node) → erase c (apply c a) ≡ erase c a
unfolding apply change_node
erase-apply (event name) a = ap (λ l. record a { events = l }) (erase-set_events name a.events)
erase-apply (meter name v) a =
    erase-with_meters name v a (set_meters name v a.meters) (set_meters-IsFramed name v a.meters)

module _ (g w : Node → Node) (same : (a : Node) → g (w a) ≡ g a) where
  mutual
    unfolding write_at

    write_at-write_at : (is : List ℕ) (t : Tree) → write_at g is (write_at w is t) ≡ write_at g is t
    write_at-write_at [] (node a f) = ap (λ b. node b f) (same a)
    write_at-write_at (i ∷ is) (node a f) = ap (node a) (write_child-write_child i is f)

    write_child-write_child :
        (i : ℕ) (is : List ℕ) (f : Forest)
        → write_child g i is (write_child w i is f) ≡ write_child g i is f
    write_child-write_child i is nil = refl
    write_child-write_child zero is (cons t f) = ap (λ u. cons u f) (write_at-write_at is t)
    write_child-write_child (suc i) is (cons t f) = ap (cons t) (write_child-write_child i is f)

abbrev pub with_password : Option String → Node → Node
with_password password = with_attempt (λ b. record b { job_password = password })

-- What a report that changes the flow has changed: of the task that it names as its source, which is
-- submitted or active in the attempt of the report, the password, and of the node that it names the
-- values that `erase` takes away.
pub record IsReported (c : AttributeCommand) (t u : Tree) : Type 0 where
  pub place : List ℕ × Node
  pub source : List ℕ × Node
  pub password : Option String
  pub found_place : look_up_node t c.node_path ≡ at place
  pub found_source : find_source t c.source_task_path ≡ at source
  pub current : IsOfAttempt c.attempt_id (at source)
  pub same :
      write_at (erase c.change) place.0 u
      ≡ write_at (erase c.change) place.0 (write_at (with_password password) source.0 t)

abbrev pub IsKept : AttributeCommand → Tree → Tree → Type 0
IsKept c t u = (u ≡ t) ⊎ IsReported c t u

module _ (canonical : String → Option String) (strip : String → String)
    (detector : Option (AuthMode × ZombiePolicy)) where
  put-same :
      (c : Change) (is : List ℕ) (t : Tree) (o : Option Node)
      → write_at (erase c) is (flow_of (put c is t o)) ≡ write_at (erase c) is t
  put-same c is t none = refl
  put-same c is t (some a) = write_at-write_at (erase c) (apply c) (erase-apply c) is t

  after_guard-IsKept :
      (c : AttributeCommand) (p q : List ℕ × Node) (t : Tree) (v : Target × Zombie.Answer)
      → look_up_node t c.node_path ≡ at p
      → find_source t c.source_task_path ≡ at q
      → IsOfAttempt c.attempt_id (at q)
      → IsKept c t (flow_of (after_guard_source canonical strip detector c.change p q.0 t v))
  after_guard-IsKept c (is, a) q t (target, Zombie.zombie_error) f g h = inl refl
  after_guard-IsKept c (is, a) q t (target, answer skip) f g h = inl refl
  after_guard-IsKept c (is, a) q t (target, answer proceed) f g h = inr (record {
    place = (is, a);
    source = q;
    password = target.attempt.job_password;
    found_place = f;
    found_source = g;
    current = h;
    same =
        put-same c.change is (write_at (with_password target.attempt.job_password) q.0 t)
          (change_node c.change a);
  })

  on_source-IsKept :
      (c : AttributeCommand) (p : List ℕ × Node) (t : Tree) (l : Looked (List ℕ × Node))
      → look_up_node t c.node_path ≡ at p
      → find_source t c.source_task_path ≡ l
      → IsKept c t (flow_of (on_source canonical strip detector c p t l))
  on_source-IsKept c p t (raises e) f g = inl refl
  on_source-IsKept c p t (at (source, b)) f g =
      elim (Bool-cases (is_current canonical strip detector c.attempt_id b)) [
        | inl e ↦ rw e (
            after_guard-IsKept c p (source, b) t
              (guard_source canonical strip detector b c.change c.password) f g
              (is_current-IsOfAttempt canonical strip detector c.attempt_id source b e))
        | inr e ↦ rw e (inl refl)
      ]

  on_place-IsKept :
      (c : AttributeCommand) (t : Tree) (l : Looked (List ℕ × Node))
      → look_up_node t c.node_path ≡ l
      → IsKept c t (flow_of (on_place canonical strip detector c t l))
  on_place-IsKept c t (raises e) f = inl refl
  on_place-IsKept c t (at p) f = on_source-IsKept c p t (find_source t c.source_task_path) f refl

  on_valid-IsKept :
      (c : AttributeCommand) (t : Tree) (o : Option Error)
      → IsKept c t (flow_of (on_valid canonical strip detector c t o))
  on_valid-IsKept c t (some e) = inl refl
  on_valid-IsKept c t none = on_place-IsKept c t (look_up_node t c.node_path) refl

  -- The report of an event or a meter leaves the flow as it was, or its source is a task that is submitted
  -- or active and whose attempt on record is the report's, and all that changes is the job's password of
  -- this task and, at the node that the report names, the values of the events or of the meters of its
  -- name.
  pub run_attribute_command-IsKept :
      (c : AttributeCommand) (t : Tree)
      → IsKept c t (flow_of (run_attribute_command canonical strip detector c t))
  unfolding run_attribute_command
  run_attribute_command-IsKept c t =
      on_valid-IsKept c t (validate_attempt_id canonical strip detector c.attempt_id)
