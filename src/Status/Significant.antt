-- ===== src/Status/Significant.antt =====
-- About the aggregates of src/takler/core/node.py and bunch.py.
use takler.Prelude.{◌≤◌, ◌<◌, ◌≡◌, refl, sym, ◌∙◌, ◌⊎◌, List, [], ◌∷◌, arith}
use takler.Status.{
  NodeStatus, unknown, value, max_status, max_from, most_significant, bunch_status, count,
}

pub most_significant-cons :
    (x : NodeStatus) (xs : List NodeStatus)
    → most_significant (x ∷ xs) ≡ max_status (most_significant xs) x
unfolding most_significant
most_significant-cons unknown xs = ground arith
most_significant-cons _ xs = ground arith

max_status_comm : (a b : NodeStatus) → max_status a b ≡ max_status b a
max_status_comm unknown b = ground arith
max_status_comm _ b = ground arith

max_status_assoc :
    (a b c : NodeStatus) → max_status (max_status a b) c ≡ max_status a (max_status b c)
max_status_assoc unknown b c = ground arith
max_status_assoc _ b c = ground arith

max_from-most_significant :
    (s : NodeStatus) (xs : List NodeStatus) → max_from s xs ≡ max_status s (most_significant xs)
max_from-most_significant s [] = unfold most_significant in ground arith
max_from-most_significant s (x ∷ xs) = cc (
  max_from-most_significant (max_status s x) xs,
  most_significant-cons x xs,
  max_status_assoc s x (most_significant xs),
  max_status_comm x (most_significant xs),
)

-- The status that a bunch takes by `max` from its flows is the one that a container computes by
-- counting its children: two algorithms, one aggregate.
pub bunch_status-most_significant : (xs : List NodeStatus) → bunch_status xs ≡ most_significant xs
unfolding bunch_status
bunch_status-most_significant [] = unfold most_significant in refl
bunch_status-most_significant (x ∷ xs) =
    max_from-most_significant x xs
    ∙ max_status_comm x (most_significant xs)
    ∙ sym (most_significant-cons x xs)

le-most_significant :
    (s : NodeStatus) (xs : List NodeStatus) → 0 < count s xs → value s ≤ value (most_significant xs)
unfolding most_significant
le-most_significant unknown xs h = ground arith
le-most_significant _ xs h = ground arith

counted-most_significant :
    (xs : List NodeStatus) → (0 < count (most_significant xs) xs) ⊎ (most_significant xs ≡ unknown)
unfolding most_significant
counted-most_significant xs = ground arith

-- The aggregate is at least as significant as the status of every child, and it is the status of
-- some child, unless it is unknown.
pub most_significant_greatest :
    (xs : List NodeStatus) (s : NodeStatus)
    → 0 < count s xs
    → (value s ≤ value (most_significant xs))
      × ((0 < count (most_significant xs) xs) ⊎ (most_significant xs ≡ unknown))
most_significant_greatest xs s h = (le-most_significant s xs h, counted-most_significant xs)
