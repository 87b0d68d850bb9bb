-- ===== src/Parameters.antt =====
-- src/takler/core/parameter.py, and the parameters of nodes, tasks, flows and bunches (src/takler/core/
-- node.py, task_node.py, flow.py, bunch.py): the search for one of a name up the tree, and the dictionary
-- of all that a node can read. A dictionary is a list of keys and values in the order of insertion. The
-- values, of several types, are opaque; what `update_generated_parameters` writes into them is left out.
pub mod Lookup
use Prim.Native.String.{String}
use text.Mathlib.Text.{◌==◌ as str_eq}
use takler.Prelude.{
  Bool, true, false, List, [], ◌∷◌, ◌++◌, Option, none, some, is_some, if◌then◌else◌,
}

module _ {ℓ} (V : Type ℓ) where
  pub record Parameter : Type ℓ where
    pub name : String
    pub value : Option V

  abbrev pub Dict : Type ℓ
  Dict = List (String × Parameter)

  -- The generated parameters of a task, of a flow and of a server. Other containers have none.
  pub data Generated : Type ℓ where
    plain : Generated
    of_task :
        (task takler_name takler_rid takler_attempt_id takler_try_no takler_pass : Parameter)
        → Generated
    of_flow : (date time : Parameter) → Generated
    of_server : (host port home : Parameter) → Generated

  -- What a node has of its own. A repeat generates the parameter of its name.
  pub record Level : Type ℓ where
    pub user_parameters : Dict
    pub repeat : Option Parameter
    pub generated : Generated

module _ {ℓ} {V : Type ℓ} where
  -- `dict.get(name)`
  abbrev pub get : String → Dict V → Option (Parameter V)
  get name [] = none
  get name ((k, p) ∷ d) = if str_eq name k then some p else get name d

  -- `d[key] = p`
  abbrev pub set_key : String → Parameter V → Dict V → Dict V
  set_key key p [] = (key, p) ∷ []
  set_key key p ((k, q) ∷ d) = if str_eq key k then (k, p) ∷ d else (k, q) ∷ set_key key p d

  -- `d.update(e)`
  abbrev pub update : Dict V → Dict V → Dict V
  update d [] = d
  update d ((k, p) ∷ e) = update (set_key k p d) e

  -- The loop that adds the parameters whose names are not there yet.
  abbrev pub merge : Dict V → Dict V → Dict V
  merge d [] = d
  merge d ((k, p) ∷ e) = merge (if is_some (get k d) then d else d ++ (k, p) ∷ []) e

  abbrev pub or_else : Option (Parameter V) → Option (Parameter V) → Option (Parameter V)
  or_else none q = q
  or_else (some p) q = some p

  -- `generated_parameters()` of the objects that hold the generated parameters.
  abbrev pub generated_parameters : Generated V → Dict V
  generated_parameters plain = []
  generated_parameters (of_task task name rid attempt try_no pass) =
      ("TASK", task)
      ∷ ("TAKLER_NAME", name)
      ∷ ("TAKLER_RID", rid)
      ∷ ("TAKLER_ATTEMPT_ID", attempt)
      ∷ ("TAKLER_TRY_NO", try_no)
      ∷ ("TAKLER_PASS", pass)
      ∷ []
  generated_parameters (of_flow date time) = ("DATE", date) ∷ ("TIME", time) ∷ []
  generated_parameters (of_server host port home) =
      ("TAKLER_HOST", host) ∷ ("TAKLER_PORT", port) ∷ ("TAKLER_HOME", home) ∷ []

  -- `find_parameter(name)` of these objects.
  abbrev pub find_own : String → Generated V → Option (Parameter V)
  find_own name plain = none
  find_own name (of_task task takler_name rid attempt try_no pass) =
      if str_eq name "TASK"
      then some task
      else if str_eq name "TAKLER_NAME"
      then some takler_name
      else if str_eq name "TAKLER_RID"
      then some rid
      else if str_eq name "TAKLER_ATTEMPT_ID"
      then some attempt
      else if str_eq name "TAKLER_TRY_NO"
      then some try_no
      else if str_eq name "TAKLER_PASS"
      then some pass
      else none
  find_own name (of_flow date time) =
      if str_eq name "DATE" then some date else if str_eq name "TIME" then some time else none
  find_own name (of_server host port home) =
      get name (generated_parameters (of_server host port home))

  abbrev pub of_repeat : Option (Parameter V) → Dict V
  of_repeat none = []
  of_repeat (some p) = (p.name, p) ∷ []

  abbrev pub is_server : Generated V → Bool
  is_server (of_server host port home) = true
  is_server _ = false

  -- `generated_parameters_only`. A bunch does not add the parameter of its repeat.
  unfoldable pub generated_parameters_only : Level V → Dict V
  generated_parameters_only l =
      if is_server l.generated
      then generated_parameters l.generated
      else update (update [] (of_repeat l.repeat)) (generated_parameters l.generated)

  -- `find_generated_parameter`
  unfoldable pub find_generated_parameter : String → Level V → Option (Parameter V)
  unfolding generated_parameters_only
  find_generated_parameter name l =
      if is_server l.generated
      then find_own name l.generated
      else or_else (find_own name l.generated) (get name (generated_parameters_only l))

  unfoldable pub find_parameter : String → Level V → Option (Parameter V)
  unfolding find_generated_parameter
  find_parameter name l = or_else (get name l.user_parameters) (find_generated_parameter name l)

  unfoldable pub parameters_only : Level V → Dict V
  unfolding generated_parameters_only
  parameters_only l = merge l.user_parameters (generated_parameters_only l)

  -- A search in the bunch, if there is one.
  abbrev pub find_in_bunch : String → Option (Level V) → Option (Parameter V)
  find_in_bunch name none = none
  find_in_bunch name (some b) = find_parameter name b

  -- `find_parent_parameter` of a node, over the node, its ancestors up to the root, and the bunch.
  unfoldable pub find_parent_parameter :
      String → List (Level V) → Option (Level V) → Option (Parameter V)
  unfolding find_parameter
  find_parent_parameter name [] b = find_in_bunch name b
  find_parent_parameter name (l ∷ ls) b =
      or_else (find_parameter name l) (find_parent_parameter name ls b)

  -- `find_parent_parameter` of a flow asks the bunch again.
  unfoldable pub find_flow_parameter : String → Level V → Option (Level V) → Option (Parameter V)
  unfolding find_parent_parameter
  find_flow_parameter name l b =
      or_else (find_parent_parameter name (l ∷ []) b) (find_in_bunch name b)

  abbrev pub add_bunch : Dict V → Option (Level V) → Dict V
  add_bunch d none = d
  add_bunch d (some b) = merge d (parameters_only b)

  -- `parameters`, from what is there of the nodes below.
  unfoldable pub add_levels : Dict V → List (Level V) → Option (Level V) → Dict V
  unfolding parameters_only
  add_levels d [] b = add_bunch d b
  add_levels d (l ∷ ls) b = add_levels (merge d (parameters_only l)) ls b

  unfoldable pub parameters : Level V → List (Level V) → Option (Level V) → Dict V
  unfolding add_levels parameters_only
  parameters l ls b = add_levels (parameters_only l) ls b
