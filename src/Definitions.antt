-- ===== src/Definitions.antt =====
-- src/takler/server/scheduler.py and flow_replace.py: the commands `load` and `replace`, which attach a flow
-- from a definition, and the check that a flow is idle. What `build_definition` makes of the bytes of a
-- definition, the binding of its references, and the check of the references that other flows have to the
-- one to be replaced (`_reference_updates`) are arguments, with their exceptions; so is the reading of
-- the target's path. The caches of references and the index of artifacts are left out.
pub mod Idle
pub mod Attached
pub mod Distinct
use Prim.Native.Char.{Char, code}
use Prim.Native.String.{String, [], ◌∷◌, ◌++◌ as append}
use text.Mathlib.Text.{◌==◌ as str_eq, starts_with}
use takler.Prelude.{
  ℕ, ◌==◌, Bool, true, false, ◌&&◌, ◌||◌, not, List, [], ◌∷◌, Option, none, some, if◌then◌else◌,
}
use takler.Prelude.Int.{ℤ}
use takler.Status.{NodeStatus, active, submitted, status_eq}
use takler.Tree.{Node, Tree, node, Forest, nil, cons, root, set_status_only}
use takler.Flows.{Flow, name_of}
use takler.Flows as Flows
use takler.Batch.{split}
use takler.Client.{
  Error, node_not_found_error, node_type_error, invalid_node_path_error, unsupported_value_error,
  invalid_request_error, expression_syntax_error, flow_state_error, foreign_error,
}
use takler.Reports.{CommandPath, Looked, at, raises}
use takler.Reports.Attributes.{look_up_node}

-- A limit of some node, as far as its reservations go.
pub record Held : Type 0 where
  pub value : ℕ
  pub node_paths : List String

-- A flow with the limits of its nodes.
pub record Online : Type 0 where
  pub flow : Flow
  pub limits : List Held

-- The flows of a server, in their order, and the limits of its own.
pub record Bunch : Type 0 where
  pub flows : List Online
  pub limits : List Held

abbrev pub flow_name : Online → String
flow_name f = name_of f.flow

-- Whether a node of the tree is submitted or active.
unfoldable mutual
  pub has_running : Tree → Bool
  has_running (node a f) =
      status_eq a.node_status active || status_eq a.node_status submitted || among_running f

  pub among_running : Forest → Bool
  among_running nil = false
  among_running (cons t f) = has_running t || among_running f

abbrev pub has_paths : List String → Bool
has_paths [] = false
has_paths (p ∷ ps) = true

abbrev pub occupied : List Held → Bool
occupied [] = false
occupied (l ∷ ls) = not (l.value == 0) || has_paths l.node_paths || occupied ls

-- `p == old.node_path or p.startswith(old.node_path + "/")`
unfoldable pub is_of_flow : String → String → Bool
is_of_flow name p = str_eq p (append "/" name) || starts_with p (append (append "/" name) "/")

abbrev pub reserves : String → List String → Bool
reserves name [] = false
reserves name (p ∷ ps) = is_of_flow name p || reserves name ps

abbrev pub any_reserves : String → List Held → Bool
any_reserves name [] = false
any_reserves name (l ∷ ls) = reserves name l.node_paths || any_reserves name ls

abbrev pub flows_reserve : String → List Online → Bool
flows_reserve name [] = false
flows_reserve name (f ∷ fs) = any_reserves name f.limits || flows_reserve name fs

-- `_check_idle`: whether it returns.
unfoldable pub is_idle : Online → Bunch → Bool
unfolding has_running is_of_flow
is_idle old b =
    not (has_running old.flow.tree)
    && not (occupied old.limits)
    && not (any_reserves (flow_name old) b.limits)
    && not (flows_reserve (flow_name old) b.flows)

abbrev has_code : ℕ → String → Bool
has_code c [] = false
has_code c (d ∷ s) = code d == c || has_code c s

abbrev is_dotted : String → Bool
is_dotted part = str_eq part "" || str_eq part "." || str_eq part ".."

abbrev any_dotted : List String → Bool
any_dotted List.[] = false
any_dotted (List.◌∷◌ p ps) = is_dotted p || any_dotted ps

abbrev all_parts : String × List String → List String
all_parts (first, others) = List.◌∷◌ first others

-- The tests of `_target` on the text.
unfoldable pub valid_target : String → Bool
unfolding split
valid_target [] = false
valid_target (c ∷ rest) =
    code c == b'/'
    && not (any_dotted (all_parts (split b'/' rest)))
    && not (has_code b':' rest)
    && not (has_code 0 rest)

-- The codes of a `DefinitionError`: of an unsupported definition, of a trigger's text, of an exception of
-- an extension's code, and the others.
pub data DefinitionError : Type 0 where
  unsupported expression_syntax preparation_failed invalid : DefinitionError

-- What the bytes of a definition construct: a flow that has not begun, or a bunch.
pub data Constructed : Type 0 where
  definition_error : DefinitionError → Constructed
  a_flow : Online → Constructed
  a_bunch : Constructed

pub record Builder : Type 0 where
  pub construct : String → Constructed
  -- The binding of a candidate's own references, against the flows that are there.
  pub bind_references : Online → Bunch → Option DefinitionError

abbrev pub bound : Online → Option DefinitionError → Constructed
bound f none = a_flow f
bound f (some e) = definition_error e

abbrev pub has_flow : String → List Online → Bool
has_flow name List.[] = false
has_flow name (List.◌∷◌ f fs) = str_eq (flow_name f) name || has_flow name fs

abbrev pub append_flow : Online → List Online → List Online
append_flow f List.[] = List.◌∷◌ f List.[]
append_flow f (List.◌∷◌ g gs) = List.◌∷◌ g (append_flow f gs)

abbrev pub load_built : Bunch → Constructed → Bunch × Option Error
load_built bunch (definition_error e) = (bunch, some invalid_request_error)
load_built bunch a_bunch = (bunch, some invalid_request_error)
load_built bunch (a_flow f) =
    if has_flow (flow_name f) bunch.flows
    then (bunch, some flow_state_error)
    else (record bunch { flows = append_flow f bunch.flows }, none)

abbrev pub then_built : Builder → Bunch → Constructed → Constructed
then_built b bunch (a_flow f) = bound f (b.bind_references f bunch)
then_built b bunch c = c

-- `run_command_load`
unfoldable pub run_command_load :
    Builder → (flow_type flow_bytes : String) → Bunch → Bunch × Option Error
run_command_load b flow_type flow_bytes bunch =
    if not (str_eq flow_type "json")
    then (bunch, some unsupported_value_error)
    else load_built bunch (then_built b bunch (b.construct flow_bytes))

-- The exception of a replacement for a definition that fails.
abbrev pub replacement_error : DefinitionError → Error
replacement_error unsupported = unsupported_value_error
replacement_error expression_syntax = expression_syntax_error
replacement_error preparation_failed = foreign_error
replacement_error invalid = invalid_request_error

abbrev pub begun : Online → Flow × Option Error → Constructed
begun f (flow, none) = a_flow (record f { flow = flow })
begun f (flow, some e) = definition_error preparation_failed

-- `initialize` of `replace_flow`: the candidate is a flow of the name, and begins.
unfoldable pub initialize : (time now : ℤ) → String → Constructed → Constructed
initialize time now name (definition_error e) = definition_error e
initialize time now name a_bunch = definition_error invalid
initialize time now name (a_flow f) =
    if str_eq (flow_name f) name
    then begun f (Flows.begin false time now f.flow)
    else definition_error invalid

-- `candidate_state["suspended"] = old.state.suspended`
abbrev pub set_suspended : Bool → Tree → Tree
set_suspended b (node a f) = node (record a { suspended = b }) f

abbrev pub suspended_as : Online → Online → Online
suspended_as old f = record f {
  flow = record f.flow { tree = set_suspended (root old.flow.tree).suspended f.flow.tree };
}

-- `bunch.flows[name] = candidate`, which keeps the place.
abbrev pub put_flow : String → Online → List Online → List Online
put_flow name f List.[] = List.[]
put_flow name f (List.◌∷◌ g gs) =
    let rest = put_flow name f gs in
    if str_eq name (flow_name g) then List.◌∷◌ f gs else List.◌∷◌ g rest

-- The end of `replace_flow`, for what the check of the references raises, and before it for the candidate.
abbrev pub after_check : Bunch → (old new : Online) → Option Error → Bunch × Option Error
after_check bunch old f (some e) = (bunch, some e)
after_check bunch old f none =
    if is_idle old bunch
    then (record bunch { flows = put_flow (flow_name old) (suspended_as old f) bunch.flows }, none)
    else (bunch, some flow_state_error)

abbrev pub commit : Bunch → Online → Constructed → (Online → Option Error) → Bunch × Option Error
commit bunch old (definition_error e) check = (bunch, some (replacement_error e))
commit bunch old a_bunch check = (bunch, some invalid_request_error)
commit bunch old (a_flow f) check = after_check bunch old f (check f)

-- The flow at the path; a node below it is no flow.
abbrev pub flow_at : Online → Looked (List ℕ × Node) → Looked Online
flow_at f (raises e) = raises node_not_found_error
flow_at f (at (List.[], a)) = at f
flow_at f (at (List.◌∷◌ i is, a)) = raises node_type_error

unfoldable pub find_target : CommandPath → List Online → Looked Online
find_target p List.[] = raises node_not_found_error
find_target p (List.◌∷◌ f fs) =
    let later = find_target p fs in
    if str_eq p.first_token (flow_name f) then flow_at f (look_up_node f.flow.tree p) else later

module _ (b : Builder) (parse : String → CommandPath)
    (reference_updates : Bunch → Online → Online → Option Error) where
  abbrev pub replace_found : (time now : ℤ) → String → Bunch → Looked Online → Bunch × Option Error
  replace_found time now flow_bytes bunch (raises e) = (bunch, some e)
  replace_found time now flow_bytes bunch (at old) =
      commit bunch old
        (then_built b bunch (initialize time now (flow_name old) (b.construct flow_bytes)))
        (reference_updates bunch old)

  -- `replace_flow`
  unfoldable pub replace_flow :
      (time now : ℤ) → (target_path flow_bytes : String) → Bunch → Bunch × Option Error
  replace_flow time now target_path flow_bytes bunch =
      if valid_target target_path
      then replace_found time now flow_bytes bunch (find_target (parse target_path) bunch.flows)
      else (bunch, some invalid_node_path_error)
