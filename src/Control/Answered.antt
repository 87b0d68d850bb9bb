-- ===== src/Control/Answered.antt =====
-- About the control commands on one target (src/takler/server/scheduler.py).
use text.Mathlib.Text.{◌==◌ as str_eq}
use takler.Prelude.{
  ℕ, ◌≡◌, ◌⊎◌, Bool, true, false, ◌&&◌, ◌||◌, not, List, [], ◌∷◌, Option, none, some, bind,
}
use takler.Tree.{Node, Tree}
use takler.Tree.Requeue.{Pairs, AllReset, is_refused}
use takler.Paths.{node_at}
use takler.Attr.TimeAttr.{TimeAttribute}
use takler.Dependencies.{DependencyType, all, time, trigger}
use takler.Flows.{Flow, name_of}
use takler.Client.{Error, node_not_found_error, flow_state_error, invalid_node_path_error}
use takler.Reports.{Outcome, accepted, refused, CommandPath, Looked, at, raises}
use takler.Reports.Attributes.{look_up_node}
use takler.Control.{
  ControlCommand, requeue_command, suspend_command, resume_command, free_dep_command, needs_begun,
}
use takler.Control.Footprint.{AgreeOutside, fields_at}

-- Whether a time is free, or a trigger, and in the latter case that there still is one.
abbrev pub AreFree : List TimeAttribute → List TimeAttribute → Type 0
AreFree ts ts' = Pairs (λ t t'. t' ≡ record t { free = true }) ts ts'

abbrev pub IsFreeTrigger : Option Bool → Option Bool → Type 0
IsFreeTrigger none o = o ≡ none
IsFreeTrigger (some free) o = o ≡ some true

-- The times are free, or the trigger, or both, and nothing else has changed.
abbrev pub IsFreed : DependencyType → Node → Node → Type 0
IsFreed all a b =
    AreFree a.times b.times
    × IsFreeTrigger a.trigger_free b.trigger_free
    × (b ≡ record a { times = b.times; trigger_free = b.trigger_free })
IsFreed time a b = AreFree a.times b.times × (b ≡ record a { times = b.times })
IsFreed trigger a b =
    IsFreeTrigger a.trigger_free b.trigger_free × (b ≡ record a { trigger_free = b.trigger_free })

-- What a command does at the node, from the tree before to the tree after.
abbrev pub Works : ControlCommand → List ℕ → Tree → Tree → Type 0
Works requeue_command is t t' =
    (s s' : Tree) × (node_at is t ≡ some s) × (node_at is t' ≡ some s') × AllReset true false s s'
Works suspend_command is t t' =
    fields_at is t' ≡ bind (fields_at is t) (λ a. some (record a { suspended = true }))
Works resume_command is t t' =
    fields_at is t' ≡ bind (fields_at is t) (λ a. some (record a { suspended = false }))
Works (free_dep_command d) is t t' =
    (a a' : Node) × (fields_at is t ≡ some a) × (fields_at is t' ≡ some a') × IsFreed d a a'

-- The flows before and after a command that does not raise: the first flow of the name has a node at the
-- path, has begun where the command asks for it, and has changed at the node and below it only.
pub data Acts (c : ControlCommand) (p : CommandPath) : List Flow → List Flow → Type 0 where
  here :
      (f : Flow) (fs : List Flow) (t : Tree) (is : List ℕ) (a : Node)
      → str_eq p.first_token (name_of f) ≡ true
      → look_up_node f.tree p ≡ at (is, a)
      → (needs_begun c && not f.begun) ≡ false
      → AgreeOutside is f.tree t
      → Works c is f.tree t
      → Acts c p (f ∷ fs) (record f { tree = t } ∷ fs)
  later :
      (f : Flow) (fs fs' : List Flow)
      → str_eq p.first_token (name_of f) ≡ false
      → Acts c p fs fs'
      → Acts c p (f ∷ fs) (f ∷ fs')

-- Why a command raises, and what.
pub data IsRefused (c : ControlCommand) (p : CommandPath) : List Flow → Error → Type 0 where
  no_flow : IsRefused c p [] node_not_found_error
  not_found :
      (f : Flow) (fs : List Flow) (e : Error)
      → str_eq p.first_token (name_of f) ≡ true
      → look_up_node f.tree p ≡ raises e
      → IsRefused c p (f ∷ fs) e
  not_begun :
      (f : Flow) (fs : List Flow)
      → str_eq p.first_token (name_of f) ≡ true
      → (needs_begun c && not f.begun) ≡ true
      → IsRefused c p (f ∷ fs) flow_state_error
  unknown_submission :
      (f : Flow) (fs : List Flow) (is : List ℕ) (s : Tree)
      → str_eq p.first_token (name_of f) ≡ true
      → c ≡ requeue_command
      → node_at is f.tree ≡ some s
      → is_refused s ≡ true
      → IsRefused c p (f ∷ fs) flow_state_error
  elsewhere :
      (f : Flow) (fs : List Flow) (e : Error)
      → str_eq p.first_token (name_of f) ≡ false
      → IsRefused c p fs e
      → IsRefused c p (f ∷ fs) e

abbrev pub Answers : ControlCommand → CommandPath → List Flow → List Flow × Option Error → Type 0
Answers c p fs (fs', none) = Acts c p fs fs'
Answers c p fs (fs', some e) = (fs' ≡ fs) × IsRefused c p fs e

-- One flow, by what the method of the node leaves.
abbrev OperateAnswers : ControlCommand → List ℕ → Tree → Tree → Outcome → Type 0
OperateAnswers c is t s (accepted t') = AgreeOutside is t t' × Works c is t t'
OperateAnswers c is t s (refused e t') =
    (t' ≡ t) × (e ≡ flow_state_error) × (c ≡ requeue_command) × (is_refused s ≡ true)

positions : List ℕ → Looked (List ℕ × Node) → List ℕ
positions js (at (is, a)) = is
positions js (raises e) = js

-- What a control command on one target comes to: the path is no path of a node, or the command acts or is
-- refused by the flows.
abbrev pub ControlAnswers :
    ControlCommand → CommandPath → List Flow → List Flow × Option Error → Type 0
ControlAnswers c p fs r =
    ((((not p.is_absolute) || p.is_slash) ≡ true) × (r ≡ (fs, some invalid_node_path_error)))
    ⊎ Answers c p fs r
