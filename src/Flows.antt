-- ===== src/Flows.antt =====
-- src/takler/core/flow.py and src/takler/server/scheduler.py: the state of a flow beside its tree, its
-- `begin`, and the command `run_command_begin` on the flows of the server. The flows are a dictionary,
-- so that at most one of them has a given name; a list stands for it, in its order. The n-th reading of
-- the clock is an argument. Generated parameters, notices to query clients and logs are left out.
pub mod Begun
use Prim.Native.String.{String}
use text.Mathlib.Text.{◌==◌ as str_eq}
use takler.Prelude.{
  ℕ, suc, Bool, true, false, ◌&&◌, ◌||◌, not, List, [], ◌∷◌, Option, none, some, if◌then◌else◌,
}
use takler.Prelude.Int.{ℤ}
use takler.Attr.Calendar
use takler.Attr.Calendar.{Calendar, new_calendar}
use takler.Tree.{Tree, root, unknown_within, requeue}
use takler.Client.{Error, node_not_found_error, flow_state_error}
use takler.Zombie.{is_empty}

pub record Flow : Type 0 where
  pub tree : Tree
  pub calendar : Calendar
  pub begun : Bool

-- What a new flow has beside its tree.
abbrev pub new_flow : Tree → Flow
new_flow t = record { tree = t; calendar = new_calendar; begun = false }

abbrev pub name_of : Flow → String
name_of f = (root f.tree).name

-- `Flow.requeue_calendar`, which reads the clock twice.
unfoldable pub requeue_calendar : (time now : ℤ) → Flow → Flow
requeue_calendar time now f = record f { calendar = Calendar.begin now time }

-- The rest of `begin`, for what the requeue of the tree gives.
abbrev pub mark_begun : Flow → Option Tree → Flow × Option Error
mark_begun f none = (f, some flow_state_error)
mark_begun f (some t) = (record f { tree = t; begun = true }, none)

-- `Flow.begin`: the flow as it leaves it, and the exception, if there is one.
unfoldable pub begin : (force : Bool) (time now : ℤ) → Flow → Flow × Option Error
begin force time now f =
    if f.begun && not force
    then (f, some flow_state_error)
    else if unknown_within f.tree
    then (f, some flow_state_error)
    else mark_begun (requeue_calendar time now f) (requeue true f.tree)

-- The flows that a name asks for: all of them, if it is empty.
abbrev pub is_target : String → Flow → Bool
is_target name f = is_empty name || str_eq name (name_of f)

abbrev pub any_flow : (Flow → Bool) → List Flow → Bool
any_flow p [] = false
any_flow p (f ∷ fs) = p f || any_flow p fs

-- The loop over the targets goes on after one that did not raise.
abbrev pub after_begin :
    List Flow → Flow × Option Error → List Flow × Option Error → List Flow × Option Error
after_begin fs (f, some e) rest = (f ∷ fs, some e)
after_begin fs (f, none) (fs', o) = (f ∷ fs', o)

module _ (clock : ℕ → ℤ) where
  unfoldable pub begin_flows : Bool → String → ℕ → List Flow → List Flow × Option Error
  unfolding begin
  begin_flows force name n [] = ([], none)
  begin_flows force name n (f ∷ fs) =
      let skipped = begin_flows force name n fs in
      let rest = begin_flows force name (suc (suc n)) fs in
      if is_target name f
      then after_begin fs (begin force (clock n) (clock (suc n)) f) rest
      else (f ∷ skipped.0, skipped.1)

  -- The body of `run_command_begin`. `batch_targets` calls it once for each flow, with the flow's name;
  -- that no name stands for all flows is of no use to it.
  unfoldable pub run_command_begin : Bool → String → List Flow → List Flow × Option Error
  unfolding begin_flows
  run_command_begin force name fs =
      if not (is_empty name) && not (any_flow (is_target name) fs)
      then (fs, some node_not_found_error)
      else if not force && any_flow (λ f. is_target name f && f.begun) fs
      then (fs, some flow_state_error)
      else if any_flow (λ f. is_target name f && unknown_within f.tree) fs
      then (fs, some flow_state_error)
      else begin_flows force name 0 fs
