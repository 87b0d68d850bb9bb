-- ===== src/Tree/Aggregated.antt =====
-- About trees whose statuses are the computed ones, and `requeue` on them (src/takler/core/node.py and
-- node_container.py).
use takler.Prelude.{
  ◌+◌, ◌≤◌, Option, none, subst, ◌≡◌, refl, sym, ◌∙◌, Bool, true, false, some, Bool-cases, ◌⊎◌, inl,
  inr, arith,
}
use takler.Status.{queued, most_significant}
use takler.Status.Significant.{most_significant-cons}
use takler.Attr.Repeat.{RepeatDate, max_date}
use takler.Attr.Repeat
use takler.Task.{clear_current_attempt}
use takler.Tree.{
  reset_repeat_of, Node, Tree, node, Forest, nil, cons, root, statuses, computed_status,
  set_status_only, requeue_node, requeue_task, requeue, requeue_all, unknown_among, refresh,
  has_unknown,
}

-- A repeat that stays within the calendar: neither its value nor a step from its end passes `date.max`.
abbrev pub IsInCalendar : Option RepeatDate → Type 0
IsInCalendar none = Unit
IsInCalendar (some r) =
    (r.start_date ≤ r.end_date) × (r.value ≤ r.end_date) × (r.end_date + r.step_day ≤ max_date)

-- A node that is requeued to queued, with such a repeat if it has one.
abbrev pub IsSteady : Node → Type 0
IsSteady a = (a.default_node_status ≡ queued) × IsInCalendar a.repeat

-- A tree in which every node is requeued to queued, every repeat stays within the calendar, no task's
-- submission is unknown, and every status is the computed one.
abbrev mutual
  pub IsSound : Tree → Type 0
  IsSound (node a f) =
      IsSteady a × (has_unknown a ≡ false) × (computed_status a f ≡ a.node_status) × AllSound f

  pub AllSound : Forest → Type 0
  AllSound nil = Unit
  AllSound (cons t f) = IsSound t × AllSound f

-- A node whose own status may be out of date.
abbrev pub IsReady : Node → Forest → Type 0
IsReady a f = IsSteady a × (has_unknown a ≡ false) × AllSound f

refresh-repeat : (a : Node) (f : Forest) → (refresh a f).repeat ≡ a.repeat
unfolding refresh computed_status set_status_only
refresh-repeat a f = ground arith

pub refresh-IsSound : (a : Node) (f : Forest) → IsReady a f → IsSound (node (refresh a f) f)
unfolding refresh computed_status set_status_only
refresh-IsSound a f ((d, r), u, s) =
    ((ground arith, subst IsInCalendar (sym (refresh-repeat a f)) r), ground arith, ground arith, s)

unknown_among-AllSound : (f : Forest) → AllSound f → unknown_among f ≡ false
unfolding unknown_among
unknown_among-AllSound nil h = refl
unknown_among-AllSound (cons (node a g) f) ((d, u, e, s), h) =
    ground (arith, unknown_among-AllSound g s, unknown_among-AllSound f h)

-- The statuses after a requeue.
abbrev AllQueued : Forest → Type 0
AllQueued nil = Unit
AllQueued (cons t f) = ((root t).node_status ≡ queued) × AllQueued f

most_significant-AllQueued :
    (f : Forest) → AllQueued f → (most_significant (statuses f) ≡ queued) ⊎ (f ≡ nil)
most_significant-AllQueued nil h = inr refl
most_significant-AllQueued (cons t f) (q, h) = elim (most_significant-AllQueued f h) [
  | inl e ↦ inl (most_significant-cons (root t).node_status (statuses f) ∙ rw (e, q))
  | inr e ↦ inl (
      most_significant-cons (root t).node_status (statuses f)
      ∙ rw (e, q) (unfold most_significant in refl))
]

computed_status-AllQueued :
    (a : Node) (f : Forest) → AllQueued f → a.node_status ≡ queued → computed_status a f ≡ queued
unfolding computed_status
computed_status-AllQueued a f h q = ground (arith, most_significant-AllQueued f h)

-- What a requeue does to the fields that the status depends on.
reset_repeat-IsInCalendar :
    (reset : Bool) (o : Option RepeatDate) → IsInCalendar o → IsInCalendar (reset_repeat_of reset o)
unfolding Repeat.reset
reset_repeat-IsInCalendar reset none h = tt
reset_repeat-IsInCalendar true (some r) (h, k, l) = (h, h, l)
reset_repeat-IsInCalendar false (some r) h = h

requeue_node-IsInCalendar :
    (reset : Bool) (a : Node) → IsInCalendar a.repeat → IsInCalendar (requeue_node reset a).repeat
unfolding requeue_node
requeue_node-IsInCalendar reset a h = reset_repeat-IsInCalendar reset a.repeat h

requeue_task-IsInCalendar :
    (reset : Bool) (a : Node) → IsInCalendar a.repeat → IsInCalendar (requeue_task reset a).repeat
unfolding requeue_task
requeue_task-IsInCalendar reset a h =
    requeue_node-IsInCalendar reset
      (record a { attempt = record (clear_current_attempt a.attempt) { try_no = 0 } }) h

requeue_node-fields :
    (reset : Bool) (a : Node)
    → ((requeue_node reset a).node_status ≡ a.default_node_status)
      × ((requeue_node reset a).default_node_status ≡ a.default_node_status)
      × ((requeue_node reset a).is_task ≡ a.is_task)
unfolding requeue_node
requeue_node-fields reset a = (refl, refl, refl)

requeue_task-fields :
    (reset : Bool) (a : Node)
    → ((requeue_task reset a).node_status ≡ a.default_node_status)
      × ((requeue_task reset a).default_node_status ≡ a.default_node_status)
      × ((requeue_task reset a).is_task ≡ a.is_task)
      × (has_unknown (requeue_task reset a) ≡ false)
unfolding requeue_task
requeue_task-fields reset a = (refl, refl, refl, ground arith)

abbrev Requeues : Bool → Tree → Type 0
Requeues reset t =
    (t' : Tree) × (requeue reset t ≡ some t') × IsSound t' × ((root t').node_status ≡ queued)

abbrev RequeuesAll : Bool → Forest → Type 0
RequeuesAll reset f = (f' : Forest) × (requeue_all reset f ≡ some f') × AllSound f' × AllQueued f'

pub computed_status-task :
    (a : Node) (f : Forest) → a.is_task ≡ true → computed_status a f ≡ a.node_status
unfolding computed_status
computed_status-task a f e = rw e

requeue-task :
    (reset : Bool) (a : Node) (f : Forest)
    → IsReady a f
    → a.is_task ≡ true
    → Requeues reset (node a f)
unfolding requeue
requeue-task reset a f ((d, r), u, s) e =
    let (q, d', t, n) = requeue_task-fields reset a in
    (
      node (requeue_task reset a) f,
      ground arith,
      (
        (d' ∙ d, requeue_task-IsInCalendar reset a r),
        n,
        computed_status-task (requeue_task reset a) f (t ∙ e),
        s,
      ),
      q ∙ d,
    )

requeue-container :
    (reset : Bool) (a : Node) (f : Forest)
    → IsReady a f
    → a.is_task ≡ false
    → RequeuesAll reset f
    → Requeues reset (node a f)
unfolding requeue requeue_node
requeue-container reset a f ((d, c), u, s) e (f', r, s', q') =
    let (q, d', t) = requeue_node-fields reset a in
    (
      node (requeue_node reset a) f',
      rw (e, unknown_among-AllSound f s, r) (rw (d' ∙ d)),
      (
        (d' ∙ d, requeue_node-IsInCalendar reset a c),
        rw (t ∙ e),
        computed_status-AllQueued (requeue_node reset a) f' q' (q ∙ d) ∙ sym (q ∙ d),
        s',
      ),
      q ∙ d,
    )

mutual
  unfolding requeue_all requeue

  pub requeue-IsSound : (t : Tree) (reset : Bool) → IsSound t → Requeues reset t
  requeue-IsSound (node a f) reset (d, u, e, s) = elim (Bool-cases a.is_task) [
    | inl task ↦ requeue-task reset a f (d, u, s) task
    | inr other ↦ requeue-container reset a f (d, u, s) other (requeue_all-AllSound f reset s)
  ]

  requeue_all-AllSound : (f : Forest) (reset : Bool) → AllSound f → RequeuesAll reset f
  requeue_all-AllSound nil reset h = (nil, refl, tt, tt)
  requeue_all-AllSound (cons t f) reset (h, hs) =
      let (t', e, s, q) = requeue-IsSound t reset h in
      let (f', es, ss, qs) = requeue_all-AllSound f reset hs in
      (cons t' f', rw (e, es), (s, ss), (q, qs))
