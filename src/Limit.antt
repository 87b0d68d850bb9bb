-- ===== src/Limit.antt =====
-- src/takler/core/limit.py: the token counters, and the operations of src/takler/core/node.py that
-- reserve and release tokens for one node along its ancestry. A `Limit` object may be reached from
-- several nodes, so limits stand in a store and are named by a reference, which is their identity.
-- Tokens and capacities are natural numbers: the definition schema takes positive tokens only.
-- Notices to the query index are left out.
mod Loops
pub mod Reserve
pub mod Holders
use Prim.Native.String.{String}
use text.Mathlib.Text.{◌==◌ as str_eq}
use takler.Prelude.{
  ℕ, ◌+◌, ◌-◌, Bool, true, false, ◌&&◌, ◌||◌, List, [], ◌∷◌, ◌++◌, ltb, leb, ◌==◌, if◌then◌else◌,
  Option, none, some, bind, is_some,
}

pub record Limit : Type 0 where
  pub name : String
  pub limit : ℕ
  pub value : ℕ
  pub node_paths : List String

-- `path in node_paths`
abbrev pub holds : String → List String → Bool
holds p [] = false
holds p (q ∷ qs) = str_eq p q || holds p qs

-- `node_paths.remove(path)`, of a set kept as a list.
abbrev pub discard : String → List String → List String
discard p [] = []
discard p (q ∷ qs) = let rest = discard p qs in if str_eq p q then rest else q ∷ rest

-- `Limit.__init__`
abbrev pub new_limit : String → ℕ → Limit
new_limit name limit = record { name = name; limit = limit; value = 0; node_paths = [] }

-- `Limit.__eq__`: two objects are equal by name and capacity.
abbrev pub limit_eq : Limit → Limit → Bool
limit_eq a b = str_eq a.name b.name && a.limit == b.limit

-- `Limit.in_limit`
abbrev pub in_limit : Limit → ℕ → Bool
in_limit l tokens = leb (l.value + tokens) l.limit

unfoldable pub increment : ℕ → String → Limit → Limit
increment tokens path l =
    if holds path l.node_paths
    then l
    else (record l { node_paths = path ∷ l.node_paths; value = l.value + tokens })

-- The value would become negative exactly if it is less than the tokens given back.
unfoldable pub decrement : ℕ → String → Limit → Limit
decrement tokens path l =
    if holds path l.node_paths
    then (if ltb l.value tokens
        then (record l { node_paths = []; value = 0 })
        else (record l { node_paths = discard path l.node_paths; value = l.value - tokens }))
    else l

-- `Limit.reset`
unfoldable pub reset : Limit → Limit
reset l = record l { node_paths = []; value = 0 }

pub record InLimit : Type 0 where
  pub limit_name : String
  pub tokens : ℕ
  pub node_path : Option String
  pub limit : Option ℕ

-- What the operations read of one node: the limits that it owns and those that it takes part in.
pub record Level : Type 0 where
  pub limits : List ℕ
  pub in_limit_list : List InLimit

abbrev pub Store : Type 0
Store = ℕ → Limit

abbrev pub write : ℕ → Limit → Store → Store
write r l s q = if q == r then l else s q

-- `limit is current_limit` for some limit of the set
abbrev pub is_among : ℕ → List ℕ → Bool
is_among r [] = false
is_among r (q ∷ qs) = q == r || is_among r qs

-- `limit_set.add`, which keeps one of two limits that are equal without being the same object.
abbrev pub has_equal : Store → ℕ → List ℕ → Bool
has_equal s r [] = false
has_equal s r (q ∷ qs) = limit_eq (s q) (s r) || has_equal s r qs

abbrev pub add_limit : Store → ℕ → List ℕ → List ℕ
add_limit s r qs = if has_equal s r qs then qs else r ∷ qs

-- The body that the loops of `InLimitManager.increment_in_limit` and `decrement_in_limit` share:
-- a limit of the set is passed over, any other is added to it and changed.
unfoldable pub visit :
    (ℕ → String → Limit → Limit) → String → InLimit → Store × List ℕ → Store × List ℕ
visit op path item (s, limit_set) = elim item.limit [
  | none ↦ (s, limit_set)
  | some r ↦
      if is_among r limit_set
      then (s, limit_set)
      else (write r (op item.tokens path (s r)) s, add_limit s r limit_set)
]

unfoldable pub visit_items :
    (ℕ → String → Limit → Limit) → String → List InLimit → Store × List ℕ → Store × List ℕ
visit_items op path [] st = st
visit_items op path (item ∷ items) st = visit_items op path items (visit op path item st)

-- The names of the limits, which is all of the store that a search for a limit reads.
abbrev pub names : Store → ℕ → String
names s r = (s r).name

-- `Node.find_limit`
abbrev pub find_limit : (ℕ → String) → String → List ℕ → Option ℕ
find_limit named name [] = none
find_limit named name (r ∷ rs) = if str_eq (named r) name then some r else find_limit named name rs

-- `Node.find_limit_up`, along a node and its ancestors.
abbrev pub find_limit_up : (ℕ → String) → String → List Level → Option ℕ
find_limit_up named name [] = none
find_limit_up named name (l ∷ ls) = elim (find_limit named name l.limits) [
  | some r ↦ some r
  | none ↦ find_limit_up named name ls
]

abbrev pub is_nil {ℓ} : {A : Type ℓ} → List A → Bool
is_nil [] = true
is_nil (_ ∷ _) = false

-- The items whose reference is missing, for which `validate_references` has a diagnostic each.
abbrev pub missing : List InLimit → List InLimit
missing [] = []
missing (i ∷ is) = elim i.limit [ none ↦ i ∷ missing is | some r ↦ missing is ]

-- The search for the node that an in-limit's path names is the tree's: it gives that node's limits,
-- as seen from the node whose ancestry is the list.
module _ (reference : List Level → String → Option (List ℕ)) (named : ℕ → String) where
  -- `InLimitManager.resolve_in_limit`
  unfoldable pub resolve_in_limit : List Level → InLimit → InLimit
  resolve_in_limit levels item = elim item.limit [
    | some r ↦ item
    | none ↦ elim item.node_path [
      | none ↦ record item { limit = find_limit_up named item.limit_name levels }
      | some path ↦ elim (reference levels path) [
        | none ↦ item
        | some limits ↦ record item { limit = find_limit named item.limit_name limits }
      ]
    ]
  ]

  abbrev pub resolve_items : List Level → List InLimit → List InLimit
  resolve_items levels [] = []
  resolve_items levels (i ∷ is) = resolve_in_limit levels i ∷ resolve_items levels is

  -- `resolve_in_limit_references`, for a node and each of its ancestors.
  unfoldable pub resolve_up : List Level → List Level
  unfolding resolve_in_limit
  resolve_up [] = []
  resolve_up (l ∷ ls) =
      record l { in_limit_list = resolve_items (l ∷ ls) l.in_limit_list } ∷ resolve_up ls

-- The diagnostics of `Node.unresolved_limits_up`, once the references are resolved.
abbrev pub missing_up : List Level → List InLimit
missing_up [] = []
missing_up (l ∷ ls) = missing l.in_limit_list ++ missing_up ls

-- One round of the loops of `Node.check_in_limit_up`: the references seen so far, or nothing where
-- the check returns `False`.
unfoldable pub check_item : Store → String → InLimit → List ℕ → Option (List ℕ)
check_item s path item seen = elim item.limit [
  | none ↦ none
  | some r ↦
      if is_among r seen
      then some seen
      else (if ltb (s r).limit
            ((s r).value + (if holds path (s r).node_paths then 0 else item.tokens))
          then none
          else some (r ∷ seen))
]

unfoldable pub check_items : Store → String → List InLimit → List ℕ → Option (List ℕ)
check_items s path [] seen = some seen
check_items s path (item ∷ items) seen =
    bind (check_item s path item seen) (check_items s path items)

unfoldable pub check_levels : Store → String → List Level → List ℕ → Option (List ℕ)
unfolding check_items
check_levels s path [] seen = some seen
check_levels s path (l ∷ ls) seen =
    bind (check_items s path l.in_limit_list seen) (check_levels s path ls)

-- `InLimitManager.increment_in_limit` of the node and of its ancestors in turn. With a reference
-- missing the manager changes nothing.
unfoldable pub increment_levels : String → List Level → Store × List ℕ → Store × List ℕ
unfolding visit_items
increment_levels path [] st = st
increment_levels path (l ∷ ls) st =
    increment_levels path ls (
      if is_nil (missing l.in_limit_list)
      then visit_items increment path l.in_limit_list st
      else st)

-- `InLimitManager.decrement_in_limit`, which passes over an in-limit with no reference.
unfoldable pub decrement_levels : String → List Level → Store × List ℕ → Store × List ℕ
unfolding visit_items
decrement_levels path [] st = st
decrement_levels path (l ∷ ls) st =
    decrement_levels path ls (visit_items decrement path l.in_limit_list st)

module _ (reference : List Level → String → Option (List ℕ)) where
  unfoldable pub check_in_limit_up : Store → String → List Level → Bool
  unfolding resolve_up check_levels
  check_in_limit_up s path levels =
      let levels' = resolve_up reference (names s) levels in
      if is_nil (missing_up levels') then is_some (check_levels s path levels' []) else false

  unfoldable pub increment_in_limit : String → List Level → Store → Store
  unfolding resolve_up increment_levels
  increment_in_limit path levels s =
      let levels' = resolve_up reference (names s) levels in
      if is_nil (missing_up levels') then (increment_levels path levels' (s, [])).0 else s

  unfoldable pub decrement_in_limit : String → List Level → Store → Store
  unfolding resolve_up decrement_levels
  decrement_in_limit path levels s =
      (decrement_levels path (resolve_up reference (names s) levels) (s, [])).0
