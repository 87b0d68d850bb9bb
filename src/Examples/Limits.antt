-- ===== src/Examples/Limits.antt =====
-- Tasks that take part in a limit of two tokens, themselves and by their family.
use Prim.Native.String.{String}
use takler.Prelude.{ℕ, ◌≡◌, ◌≤◌, refl, true, List, [], ◌∷◌, Option, none}
use takler.Limit.{
  Limit, InLimit, Level, Store, holds, resolve_up, check_in_limit_up, check_levels,
  increment_in_limit, decrement_in_limit,
}
use takler.Limit
use takler.Limit.Reserve.{decrement-increment}
use takler.Limit.Holders.{
  Action, start, force, finish, performs, fresh, total, IsDistinct, performs_exact,
  performs_capacity,
}

-- No path to another node is found.
abbrev reference : List Level → String → Option (List ℕ)
reference levels path = none

abbrev share : ℕ → InLimit
share n = record { limit_name = "slots"; tokens = n; node_path = none; limit = none }

-- The family owns the limit and takes part in it; the task takes part in it too, and is nearer.
abbrev ancestry : String → List Level
ancestry path =
    (record { limits = []; in_limit_list = share 1 ∷ [] })
    ∷ (record { limits = 0 ∷ []; in_limit_list = share 2 ∷ [] })
    ∷ []

abbrev named : ℕ → String
named r = "slots"

abbrev capacity : ℕ → ℕ
capacity r = 2

abbrev course : List Action
course = start "/f/a" ∷ start "/f/b" ∷ start "/f/c" ∷ finish "/f/a" ∷ start "/f/c" ∷ []

abbrev store : Store
store = fresh reference ancestry named capacity

performs_capacity_example :
    total reference ancestry named 0 (performs reference ancestry course store 0).node_paths
    ≤ (performs reference ancestry course store 0).limit
performs_capacity_example = performs_capacity reference ancestry named capacity course tt 0

performs_exact_example :
    ((performs reference ancestry (force "/f/a" ∷ course) store 0).value
      ≡ total reference ancestry named 0
          (performs reference ancestry (force "/f/a" ∷ course) store 0).node_paths)
    × IsDistinct (performs reference ancestry (force "/f/a" ∷ course) store 0).node_paths
performs_exact_example = performs_exact reference ancestry named capacity (force "/f/a" ∷ course) 0

decrement-increment_example :
    decrement_in_limit reference "/f/a"
      (ancestry "/f/a")
      (increment_in_limit reference "/f/a" (ancestry "/f/a") store)
    ≡ store
decrement-increment_example =
    decrement-increment reference "/f/a" (ancestry "/f/a") store (λ r. refl)

check_passes : check_in_limit_up reference store "/f/a" (ancestry "/f/a") ≡ true
unfolding check_in_limit_up resolve_up Limit.resolve_in_limit check_levels Limit.check_items
    Limit.check_item
check_passes = refl
