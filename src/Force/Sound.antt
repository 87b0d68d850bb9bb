-- ===== src/Force/Sound.antt =====
-- About what a force leaves of the flow's tree (`_force_path` of src/takler/server/scheduler.py).
use Prim.Native.String.{String}
use takler.Prelude.{
  ℕ, zero, suc, ◌≡◌, refl, ◌∙◌, ap, Bool, true, false, List, [], ◌∷◌, Option, Bool-cases, inl, inr,
}
use takler.Status.{NodeStatus, queued, status_eq}
use takler.Attr.Event.{Event}
use takler.Task.{clear_current_attempt}
use takler.Tree.{
  Node, Tree, node, Forest, nil, cons, root, statuses, set_node_status, sink_status_change,
  computed_status,
}
use takler.Tree.Aggregated.{IsSound, AllSound}
use takler.Tree.Sound.{status_change-IsSound}
use takler.Reports.{Looked, at, raises, CommandPath}
use takler.Reports.Sound.{Settles, settle-Settles, Answered, Settles-Answered}
use takler.Reports.Harmless.{IsHarmless, harmless-IsSound, statuses-computed, write_at-IsSound}
use takler.Force.{
  rewrite_at, rewrite_child, clear_task, clear_all, clear_among, clear_targets, refuses,
  change_status_of, force_node, ForceState, to_status, set, clear, force_events, force_event, Found,
  the_node, the_event, other_variable, find_path, force_found, force_path,
}

-- A change of a subtree that leaves it sound, and the status of its root.
abbrev Holds : (Tree → Tree) → Type 0
Holds g = (t : Tree) → IsSound t → IsSound (g t) × ((root (g t)).node_status ≡ (root t).node_status)

module _ (g : Tree → Tree) (h : Holds g) where
  mutual
    unfolding rewrite_at computed_status

    rewrite_at-IsSound :
        (is : List ℕ) (t : Tree)
        → IsSound t
        → IsSound (rewrite_at g is t)
          × ((root (rewrite_at g is t)).node_status ≡ (root t).node_status)
    rewrite_at-IsSound [] t s = h t s
    rewrite_at-IsSound (i ∷ is) (node a f) (d, u, e, s) =
        let (s', same) = rewrite_child-AllSound i is f s in
        ((d, u, statuses-computed a f (rewrite_child g i is f) same ∙ e, s'), refl)

    rewrite_child-AllSound :
        (i : ℕ) (is : List ℕ) (f : Forest)
        → AllSound f
        → AllSound (rewrite_child g i is f) × (statuses (rewrite_child g i is f) ≡ statuses f)
    rewrite_child-AllSound i is nil s = (tt, refl)
    rewrite_child-AllSound zero is (cons t f) (s, ss) =
        let (s', e) = rewrite_at-IsSound is t s in ((s', ss), ap (λ x. x ∷ statuses f) e)
    rewrite_child-AllSound (suc i) is (cons t f) (s, ss) =
        let (ss', e) = rewrite_child-AllSound i is f ss in
        ((s, ss'), ap (λ l. (root t).node_status ∷ l) e)

clear_task-IsHarmless : (a : Node) → IsHarmless a (clear_task a)
unfolding clear_current_attempt
clear_task-IsHarmless a = record {
  same_default = refl;
  same_repeat = refl;
  same_kind = refl;
  same_status = refl;
  still_known = λ u. elim (Bool-cases a.is_task) [ inl e ↦ simp e refl | inr e ↦ simp e refl ];
}

events-IsHarmless : (a : Node) (es : List Event) → IsHarmless a (record a { events = es })
events-IsHarmless a es = record {
  same_default = refl;
  same_repeat = refl;
  same_kind = refl;
  same_status = refl;
  still_known = λ u. u;
}

mutual
  unfolding clear_all

  clear_all-IsSound :
      (t : Tree)
      → IsSound t
      → IsSound (clear_all t) × ((root (clear_all t)).node_status ≡ (root t).node_status)
  clear_all-IsSound (node a f) (d, u, e, s) =
      let (s', same) = clear_among-AllSound f s in
      (
        harmless-IsSound a (clear_task a) f (clear_among f) (clear_task-IsHarmless a) s' same
            (d, u, e, s),
        refl,
      )

  clear_among-AllSound :
      (f : Forest) → AllSound f → AllSound (clear_among f) × (statuses (clear_among f) ≡ statuses f)
  clear_among-AllSound nil s = (tt, refl)
  clear_among-AllSound (cons t f) (s, ss) =
      let (s', e) = clear_all-IsSound t s in
      let (ss', es) = clear_among-AllSound f ss in ((s', ss'), rw (e, es) refl)

clear_targets-Holds : (recursive : Bool) → Holds (clear_targets recursive)
clear_targets-Holds true t s = clear_all-IsSound t s
clear_targets-Holds false (node a f) (d, u, e, s) =
    (harmless-IsSound a (clear_task a) f f (clear_task-IsHarmless a) s refl (d, u, e, s), refl)

change_status_of-Settles :
    (room : List ℕ → Bool) (generation : Option String) (recursive : Bool) (s : NodeStatus)
    (is : List ℕ) (t : Tree)
    → IsSound t
    → Settles (change_status_of room generation recursive s is t)
change_status_of-Settles room generation true s is t h =
    let (_, _, k, n) = status_change-IsSound s is t h in
    settle-Settles (sink_status_change s is t) k n
change_status_of-Settles room generation false s is t h =
    let (k, n, _, _) = status_change-IsSound s is t h in settle-Settles (set_node_status s is t) k n

module _ (has_parameter : Node → String → Bool) (room : List ℕ → Bool)
    (generation : Option String) where
  force_node-Answered :
      (recursive : Bool) (s : NodeStatus) (is : List ℕ) (target t : Tree)
      → IsSound t
      → Answered t (force_node room generation recursive s is target t)
  unfolding force_node
  force_node-Answered recursive s is target t h =
      elim (Bool-cases (refuses room generation recursive s is target)) [
        | inl e ↦ rw e refl
        | inr e ↦ rw e (elim (Bool-cases (status_eq s queued)) [
          | inl q ↦ rw q (
              settled (rewrite_at (clear_targets recursive) is t) (
                (rewrite_at-IsSound (clear_targets recursive) (clear_targets-Holds recursive) is t
                  h).0))
          | inr q ↦ rw q (settled t h)
        ])
      ]
    where
      settled :
          (u : Tree) → IsSound u → Answered t (change_status_of room generation recursive s is u)
      settled u k =
          Settles-Answered t (change_status_of room generation recursive s is u)
            (change_status_of-Settles room generation recursive s is u k)

  force_event-Answered :
      (name : String) (state : ForceState) (is : List ℕ) (t : Tree)
      → IsSound t
      → Answered t (force_event name state is t)
  force_event-Answered name (to_status s) is t h = refl
  force_event-Answered name set is t h =
      (write_at-IsSound (λ a. record a { events = force_events name true a.events })
        (λ a. events-IsHarmless a (force_events name true a.events)) is t h).0
  force_event-Answered name clear is t h =
      (write_at-IsSound (λ a. record a { events = force_events name false a.events })
        (λ a. events-IsHarmless a (force_events name false a.events)) is t h).0

  force_found-Answered :
      (begun recursive : Bool) (state : ForceState) (t : Tree) (l : Looked Found)
      → IsSound t
      → Answered t (force_found has_parameter room generation begun recursive state t l)
  force_found-Answered begun recursive state t (raises e) h = refl
  force_found-Answered false recursive state t (at v) h = refl
  force_found-Answered true recursive (to_status s) t (at (the_node is target)) h =
      force_node-Answered recursive s is target t h
  force_found-Answered true recursive set t (at (the_node is target)) h = refl
  force_found-Answered true recursive clear t (at (the_node is target)) h = refl
  force_found-Answered true recursive state t (at (the_event is name)) h =
      force_event-Answered name state is t h
  force_found-Answered true recursive state t (at other_variable) h = refl

  -- In a sound flow, in which no repeat is within one step of the last date of the calendar, a
  -- force that is refused, of a node with or without its descendants or of an event, leaves the
  -- whole flow as it was, and any other one leaves a sound flow. The index of the paths of tasks is
  -- taken to refuse no write.
  pub force_path-IsSound :
      (begun recursive : Bool) (state : ForceState) (p : CommandPath) (name : Option String)
      (t : Tree)
      → IsSound t
      → Answered t (force_path has_parameter room generation begun recursive state p name t)
  unfolding force_path
  force_path-IsSound begun recursive state p name t h =
      force_found-Answered begun recursive state t (find_path has_parameter t p name) h
