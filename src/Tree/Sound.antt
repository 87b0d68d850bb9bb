-- ===== src/Tree/Sound.antt =====
-- About `set_node_status`, `sink_status_change` and the steps of `swim_status_change` up the tree
-- (src/takler/core/node.py and node_container.py).
use takler.Prelude.{
  ltb, leb, ◌+◌, Bool, ℕ, zero, suc, ◌≡◌, refl, sym, ◌∙◌, ap, true, false, List, [], ◌∷◌, Option,
  none, some, Bool-cases, ◌⊎◌, inl, inr, ◌≢◌, arith, All,
}
use takler.Status.{NodeStatus, complete, status_eq, most_significant}
use takler.Status.Significant.{most_significant-cons}
use takler.Attr.Repeat
use takler.Attr.Repeat.{RepeatDate, max_date}
use takler.Tree.{
  Node, Tree, node, Forest, nil, cons, root, statuses, computed_status, set_status_only, sink_only,
  sink_all, refresh, Progress, absent, failed, swim, only, step_only, step_swim, climb, at_child,
  at_path, set_status, sink_status, set_node_status, sink_status_change, next_pass, is_leaf,
  after_increment,
}
use takler.Tree.Aggregated.{
  IsInCalendar, IsSound, AllSound, IsReady, refresh-IsSound, computed_status-task, requeue-IsSound,
}

-- A step leaves a sound tree and does not fail.
abbrev pub Ends : Tree × Progress → Type 0
Ends (t, p) = IsSound t × ((p ≡ swim) ⊎ (p ≡ only))

step_only-Ends : (a : Node) (f : Forest) → IsReady a f → Ends (step_only (node a f))
unfolding step_only
step_only-Ends a f (d, u, s) = elim (Bool-cases a.is_task) [
  | inl e ↦ simp e ((d, simp e at u, computed_status-task a f e, s), inr refl)
  | inr e ↦ simp e (refresh-IsSound a f (d, u, s), inl refl)
]

step_only-IsSound : (t : Tree) → IsSound t → Ends (step_only t)
step_only-IsSound (node a f) (d, u, e, s) = step_only-Ends a f (d, u, s)

repeat-IsSound :
    (a : Node) (f : Forest) (r : RepeatDate)
    → IsInCalendar (some r)
    → IsSound (node a f)
    → IsSound (node (record a { repeat = some r }) f)
unfolding computed_status
repeat-IsSound a f r c ((d, _), u, e, s) = ((d, c), u, e, s)

-- An increment does not pass the calendar, and a value that it goes on to does not either.
abbrev Steps : Option (RepeatDate × Bool) → Type 0
Steps none = ⊥
Steps (some (r, more)) = IsInCalendar (some r)

increment-Steps : (r : RepeatDate) → IsInCalendar (some r) → Steps (Repeat.increment r)
unfolding Repeat.increment
increment-Steps r (h, k, l) = elim (Bool-cases (ltb max_date (r.value + r.step_day))) [
  | inl e ↦ absurd (ground arith)
  | inr e ↦ rw e (elim (Bool-cases (leb (r.value + r.step_day) r.end_date)) [
    | inl e' ↦ rw e' (h, ground arith, l)
    | inr e' ↦ rw e' (h, k, l)
  ])
]

after_increment-Ends :
    (a : Node) (f : Forest) (o : Option (RepeatDate × Bool))
    → Steps o
    → IsSound (node a f)
    → Ends (after_increment a f o)
after_increment-Ends a f none c h = absurd c
after_increment-Ends a f (some (r, false)) c h = (h, inl refl)
after_increment-Ends a f (some (r, true)) c h =
    let next = record a { repeat = some r } in
    let (t, e, s, q) = requeue-IsSound (node next f) false (repeat-IsSound a f r c h) in
    rw e (step_only-IsSound t s)

next_pass-Ends : (a : Node) (f : Forest) → IsSound (node a f) → Ends (next_pass a f a.repeat)
next_pass-Ends a f h = of_repeat a.repeat h.0.1
  where
    of_repeat : (o : Option RepeatDate) → IsInCalendar o → Ends (next_pass a f o)
    of_repeat none c = (h, inl refl)
    of_repeat (some r) c = after_increment-Ends a f (Repeat.increment r) (increment-Steps r c) h

pub step_swim-Ends : (a : Node) (f : Forest) → IsReady a f → Ends (step_swim (node a f))
unfolding step_swim
step_swim-Ends a f h = elim (Bool-cases (status_eq (computed_status a f) complete)) [
  | inl e ↦ rw e (next_pass-Ends (refresh a f) f (refresh-IsSound a f h))
  | inr e ↦ rw e (refresh-IsSound a f h, inl refl)
]

-- What a change at a path is to do with a sound tree.
abbrev pub Keeps : (Tree → Tree × Progress) → Tree → Type 0
Keeps op t = IsSound (op t).0 × ((op t).1 ≢ failed) × ((op t).1 ≡ absent → (op t).0 ≡ t)

pub Ends-Keeps : (op : Tree → Tree × Progress) (t : Tree) → Ends (op t) → Keeps op t
Ends-Keeps op t (s, inl e) = (s, λ f. cc, λ f. cc)
Ends-Keeps op t (s, inr e) = (s, λ f. cc, λ f. cc)

abbrev KeepsAll : (Forest → Forest × Progress) → Forest → Type 0
KeepsAll op f = AllSound (op f).0 × ((op f).1 ≢ failed) × ((op f).1 ≡ absent → (op f).0 ≡ f)

at_child-KeepsAll :
    (op : Tree → Tree × Progress)
    → ((t : Tree) → IsSound t → Keeps op t)
    → (i : ℕ) (f : Forest) → AllSound f
    → KeepsAll (at_child op i) f
unfolding at_child
at_child-KeepsAll op k i nil h = (tt, λ e. cc, λ e. refl)
at_child-KeepsAll op k zero (cons t f) (h, hs) =
    let (s, n, same) = k t h in ((s, hs), n, λ e. ap (λ t'. cons t' f) (same e))
at_child-KeepsAll op k (suc i) (cons t f) (h, hs) =
    let (s, n, same) = at_child-KeepsAll op k i f hs in ((h, s), n, λ e. ap (cons t) (same e))

climb-Keeps :
    (op : Forest → Forest × Progress) (a : Node) (f : Forest)
    → IsSound (node a f)
    → KeepsAll op f
    → Keeps (λ t. climb (op f).1 (node a (op f).0)) (node a f)
climb-Keeps op a f (d, u, e, s) (s', n, same) = go (op f).1 refl
  where
    go : (p : Progress) → (op f).1 ≡ p → Keeps (λ t. climb p (node a (op f).0)) (node a f)
    go absent q = (rw (same q) (d, u, e, s), λ x. cc, λ x. ap (node a) (same q))
    go failed q = absurd (n q)
    go swim q =
        Ends-Keeps (λ t. step_swim (node a (op f).0)) (node a f)
          (step_swim-Ends a (op f).0 (d, u, s'))
    go only q =
        Ends-Keeps (λ t. step_only (node a (op f).0)) (node a f)
          (step_only-Ends a (op f).0 (d, u, s'))

pub at_path-Keeps :
    (op : Tree → Tree × Progress)
    → ((t : Tree) → IsSound t → Keeps op t)
    → (path : List ℕ) (t : Tree) → IsSound t
    → Keeps (at_path op path) t
unfolding at_path
at_path-Keeps op k [] t h = k t h
at_path-Keeps op k (i ∷ path) (node a f) (d, u, e, s) =
    climb-Keeps (at_child (at_path op path) i) a f (d, u, e, s)
      (at_child-KeepsAll (at_path op path) (at_path-Keeps op k path) i f s)

set_status_only-IsReady :
    (s : NodeStatus) (a : Node) (f : Forest) → IsReady a f → IsReady (set_status_only s a) f
unfolding set_status_only
set_status_only-IsReady s a f ((d, r), u, h) = ((d, r), ground arith, h)

set_status_only-fields :
    (s : NodeStatus) (a : Node)
    → ((set_status_only s a).is_task ≡ a.is_task) × ((set_status_only s a).node_status ≡ s)
unfolding set_status_only
set_status_only-fields s a = (refl, refl)

set_status-Keeps : (s : NodeStatus) (t : Tree) → IsSound t → Keeps (set_status s) t
unfolding set_status
set_status-Keeps s (node a f) (d, u, e, h) = elim (Bool-cases (status_eq a.node_status s)) [
  | inl same ↦ simp same ((d, u, e, h), (λ x. cc), λ x. refl)
  | inr other ↦ simp other (
      Ends-Keeps (λ t. step_swim (node (set_status_only s a) f)) (node a f)
        (step_swim-Ends (set_status_only s a) f (set_status_only-IsReady s a f (d, u, h))))
]

most_significant-same :
    (s : NodeStatus) (xs : List NodeStatus)
    → All (λ x. x ≡ s) xs
    → (most_significant xs ≡ s) ⊎ (xs ≡ [])
most_significant-same s [] h = inr refl
most_significant-same s (x ∷ xs) (e, h) = inl (
    most_significant-cons x xs ∙ elim (most_significant-same s xs h) [
      | inl m ↦ rw (m, e) (ground arith)
      | inr m ↦ rw (m, e) (unfold most_significant in ground arith)
    ])

leaf_of_statuses : (f : Forest) → statuses f ≡ [] → is_leaf f ≡ true
leaf_of_statuses nil e = refl
leaf_of_statuses (cons t f) e = cc

computed_status-same :
    (a : Node) (f : Forest) (s : NodeStatus)
    → a.node_status ≡ s
    → All (λ x. x ≡ s) (statuses f)
    → computed_status a f ≡ s
unfolding computed_status
computed_status-same a f s e h =
    ground (arith, most_significant-same s (statuses f) h, leaf_of_statuses f)

sink_only-task :
    (s : NodeStatus) (a : Node) (f : Forest)
    → a.is_task ≡ true
    → IsReady a f
    → IsSound (sink_only s (node a f))
unfolding sink_only
sink_only-task s a f e (d, u, h) =
    let (d', u', h') = set_status_only-IsReady s a f (d, u, h) in
    let (t, _) = set_status_only-fields s a in
    simp e (d', u', computed_status-task (set_status_only s a) f (t ∙ e), h)

sink_only-container :
    (s : NodeStatus) (a : Node) (f : Forest)
    → a.is_task ≡ false
    → IsReady a f
    → AllSound (sink_all s f)
    → All (λ x. x ≡ s) (statuses (sink_all s f))
    → IsSound (sink_only s (node a f))
unfolding sink_only
sink_only-container s a f e (d, u, h) k q =
    let (d', u', h') = set_status_only-IsReady s a f (d, u, h) in
    let (t, n) = set_status_only-fields s a in
    simp e (d', u', computed_status-same (set_status_only s a) (sink_all s f) s n q ∙ sym n, k)

root-sink_only : (s : NodeStatus) (t : Tree) → (root (sink_only s t)).node_status ≡ s
unfolding sink_only set_status_only
root-sink_only s (node a f) = refl

-- Every descendant takes the status that sinks.
mutual
  unfolding sink_all

  sink_only-IsSound : (t : Tree) (s : NodeStatus) → IsSound t → IsSound (sink_only s t)
  sink_only-IsSound (node a f) s (d, u, e, h) = elim (Bool-cases a.is_task) [
    | inl task ↦ sink_only-task s a f task (d, u, h)
    | inr other ↦
        let (k, q) = sink_all-AllSound f s h in sink_only-container s a f other (d, u, h) k q
  ]

  sink_all-AllSound :
      (f : Forest) (s : NodeStatus)
      → AllSound f
      → AllSound (sink_all s f) × All (λ x. x ≡ s) (statuses (sink_all s f))
  sink_all-AllSound nil s h = (tt, tt)
  sink_all-AllSound (cons t g) s (h, hs) =
      let (k, e) = sink_all-AllSound g s hs in
      ((sink_only-IsSound t s h, k), (root-sink_only s t, e))

sink_status-Keeps : (s : NodeStatus) (t : Tree) → IsSound t → Keeps (sink_status s) t
unfolding sink_status
sink_status-Keeps s (node a f) h = elim (Bool-cases a.is_task) [
  | inl task ↦ simp task (set_status-Keeps s (node a f) h)
  | inr other ↦ simp other (swum (sink_only s (node a f)) (sink_only-IsSound (node a f) s h))
]
  where
    swum : (t : Tree) → IsSound t → Keeps (λ u. step_swim t) (node a f)
    swum (node b g) (d, u, e, k) =
        Ends-Keeps (λ u. step_swim (node b g)) (node a f) (step_swim-Ends b g (d, u, k))

-- In a sound tree (every status the computed one, every node requeued to queued, no submission
-- unknown, no repeat within one step of the last date of the calendar) a status set at any node, or
-- sunk into any subtree, swims up to the root without an exception, repeats and the requeues that
-- they start included, and leaves a sound tree. The index of the paths of tasks is taken to refuse
-- no write.
pub status_change-IsSound :
    (s : NodeStatus) (path : List ℕ) (t : Tree)
    → IsSound t
    → IsSound (set_node_status s path t).0
      × ((set_node_status s path t).1 ≢ failed)
      × IsSound (sink_status_change s path t).0
      × ((sink_status_change s path t).1 ≢ failed)
unfolding set_node_status sink_status_change
status_change-IsSound s path t h =
    let (k, n, _) = at_path-Keeps (set_status s) (set_status-Keeps s) path t h in
    let (k', n', _) = at_path-Keeps (sink_status s) (sink_status-Keeps s) path t h in (k, n, k', n')
