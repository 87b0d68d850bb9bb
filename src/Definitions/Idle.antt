-- ===== src/Definitions/Idle.antt =====
-- About flows that may be replaced (`_check_idle` of src/takler/server/flow_replace.py).
use Prim.Native.String.{String}
use takler.Prelude.{
  ℕ, zero, suc, ◌≡◌, ◌≢◌, refl, sym, ◌∙◌, Bool, true, false, ◌||◌, not, ◌==◌, List, [], ◌∷◌, some,
  All, arith, bind_assoc, subst,
}
use mathlib.Core.Option.{some-injective}
use takler.Status.{active, submitted, status_eq}
use takler.Tree.{Node, Tree, node, Forest, nil, cons, root}
use takler.Paths.{node_at, child_at}
use takler.Control.Footprint.{fields_at, child_fields}
use takler.Definitions.{
  Held, Online, Bunch, flow_name, has_running, among_running, has_paths, occupied, is_of_flow,
  reserves, any_reserves, flows_reserve, is_idle,
}

abbrev IsAtRest : Node → Type 0
IsAtRest a = (a.node_status ≢ active) × (a.node_status ≢ submitted)

-- Nothing of the limit is taken.
abbrev pub IsFree : Held → Type 0
IsFree l = (l.value ≡ 0) × (l.node_paths ≡ [])

-- No path that the limit holds is of the flow.
abbrev pub HoldsNone : String → Held → Type 0
HoldsNone name l = All (λ p. is_of_flow name p ≡ false) l.node_paths

-- No node of the flow is active or submitted, its limits are free, and no limit of the server or of a flow
-- holds a path of it.
pub record IsIdle (old : Online) (b : Bunch) : Type 0 where
  pub at_rest : (is : List ℕ) (a : Node) → fields_at is old.flow.tree ≡ some a → IsAtRest a
  pub limits_free : All IsFree old.limits
  pub bunch_holds_none : All (HoldsNone (flow_name old)) b.limits
  pub flows_hold_none : All (λ (f : Online). All (HoldsNone (flow_name old)) f.limits) b.flows

status-IsAtRest :
    (a : Node)
    → (status_eq a.node_status active || status_eq a.node_status submitted) ≡ false
    → IsAtRest a
status-IsAtRest a h = ground arith

or_left : (a b : Bool) → (a || b) ≡ false → a ≡ false
or_left a b h = ground arith

or_right : (a b : Bool) → (a || b) ≡ false → b ≡ false
or_right a b h = ground arith

mutual
  unfolding has_running node_at

  tree-IsAtRest :
      (is : List ℕ) (t : Tree)
      → has_running t ≡ false
      → (a : Node) → fields_at is t ≡ some a
      → IsAtRest a
  tree-IsAtRest [] (node b f) h a e =
      subst IsAtRest (some-injective b a e) (status-IsAtRest b (or_left _ (among_running f) h))
  tree-IsAtRest (i ∷ is) (node b f) h a e =
      child-IsAtRest i is f (or_right _ (among_running f) h) a
        (sym (bind_assoc (child_at i f) (node_at is) (λ n. some (root n))) ∙ e)

  child-IsAtRest :
      (i : ℕ) (is : List ℕ) (f : Forest)
      → among_running f ≡ false
      → (a : Node) → child_fields i is f ≡ some a
      → IsAtRest a
  child-IsAtRest i is nil h a e = cc
  child-IsAtRest zero is (cons t f) h a e =
      tree-IsAtRest is t (or_left (has_running t) (among_running f) h) a e
  child-IsAtRest (suc i) is (cons t f) h a e =
      child-IsAtRest i is f (or_right (has_running t) (among_running f) h) a e

no_paths : (ps : List String) → has_paths ps ≡ false → ps ≡ []
no_paths [] h = refl
no_paths (p ∷ ps) h = cc

occupied-All : (ls : List Held) → occupied ls ≡ false → All IsFree ls
occupied-All [] h = tt
occupied-All (l ∷ ls) h = (
  (
    ground arith,
    no_paths l.node_paths
        (or_right (not (l.value == 0)) (has_paths l.node_paths) (or_left _ (occupied ls) h)),
  ),
  occupied-All ls (or_right _ (occupied ls) h),
)

reserves-All :
    (name : String) (ps : List String)
    → reserves name ps ≡ false
    → All (λ p. is_of_flow name p ≡ false) ps
reserves-All name [] h = tt
reserves-All name (p ∷ ps) h =
    (or_left (is_of_flow name p) _ h, reserves-All name ps (or_right (is_of_flow name p) _ h))

any_reserves-All :
    (name : String) (ls : List Held) → any_reserves name ls ≡ false → All (HoldsNone name) ls
any_reserves-All name [] h = tt
any_reserves-All name (l ∷ ls) h = (
  reserves-All name l.node_paths (or_left (reserves name l.node_paths) _ h),
  any_reserves-All name ls (or_right (reserves name l.node_paths) _ h),
)

flows_reserve-All :
    (name : String) (fs : List Online)
    → flows_reserve name fs ≡ false
    → All (λ (f : Online). All (HoldsNone name) f.limits) fs
flows_reserve-All name [] h = tt
flows_reserve-All name (f ∷ fs) h = (
  any_reserves-All name f.limits (or_left (any_reserves name f.limits) _ h),
  flows_reserve-All name fs (or_right (any_reserves name f.limits) _ h),
)

pub is_idle-IsIdle : (old : Online) (b : Bunch) → is_idle old b ≡ true → IsIdle old b
unfolding is_idle
is_idle-IsIdle old b h =
    let name = flow_name old in
    record {
      at_rest = λ is. tree-IsAtRest is old.flow.tree (ground arith);
      limits_free = occupied-All old.limits (ground arith);
      bunch_holds_none = any_reserves-All name b.limits (ground arith);
      flows_hold_none = flows_reserve-All name b.flows (ground arith);
    }
