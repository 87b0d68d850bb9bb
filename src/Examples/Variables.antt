-- ===== src/Examples/Variables.antt =====
-- The parameters of a task in a flow of a server, with a name that the flow and the task both have.
use Prim.Native.String.{String}
use takler.Prelude.{ℕ, ◌≡◌, refl, [], ◌∷◌, none, some}
use takler.Parameters.{
  Parameter, of_task, of_flow, of_server, Level, get, find_parent_parameter, find_flow_parameter,
  parameters,
}
use takler.Parameters.Lookup.{find_parent_parameter-parameters}

abbrev parameter : String → ℕ → Parameter ℕ
parameter name v = record { name = name; value = some v }

abbrev task : Level ℕ
task = record {
  user_parameters = ("QUEUE", parameter "QUEUE" 1) ∷ [];
  repeat = some (parameter "TASK" 2);
  generated =
      of_task (parameter "TASK" 3) (parameter "TAKLER_NAME" 4) (parameter "TAKLER_RID" 5)
        (parameter "TAKLER_ATTEMPT_ID" 6) (parameter "TAKLER_TRY_NO" 7) (parameter "TAKLER_PASS" 8);
}

abbrev flow : Level ℕ
flow = record {
  user_parameters = ("QUEUE", parameter "QUEUE" 9) ∷ ("USER", parameter "USER" 10) ∷ [];
  repeat = none;
  generated = of_flow (parameter "DATE" 11) (parameter "TIME" 12);
}

abbrev server : Level ℕ
server = record {
  user_parameters = [];
  repeat = none;
  generated =
      of_server (parameter "TAKLER_HOST" 13) (parameter "TAKLER_PORT" 14)
        (parameter "TAKLER_HOME" 15);
}

task_over_repeat :
    find_parent_parameter "TASK" (task ∷ flow ∷ []) (some server) ≡ some (parameter "TASK" 3)
unfolding find_parent_parameter
task_over_repeat = refl

find_parent_parameter-parameters_example :
    (find_parent_parameter "TAKLER_PORT" (task ∷ flow ∷ []) (some server)
      ≡ get "TAKLER_PORT" (parameters task (flow ∷ []) (some server)))
    × (find_flow_parameter "TAKLER_PORT" task (some server)
        ≡ get "TAKLER_PORT" (parameters task [] (some server)))
find_parent_parameter-parameters_example =
    find_parent_parameter-parameters "TAKLER_PORT" task (flow ∷ []) (some server)
