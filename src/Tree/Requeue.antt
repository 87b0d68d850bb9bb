-- ===== src/Tree/Requeue.antt =====
-- About `requeue` of src/takler/core/node.py, node_container.py and task_node.py.
use takler.Prelude.{
  ◌≡◌, refl, sym, ap, ◌∙◌, Bool, true, false, ◌||◌, not, List, [], ◌∷◌, map, Option, none, some,
  is_some, bind, if◌then◌else◌, Bool-cases, ◌⊎◌, inl, inr, arith,
}
use takler.Prelude.Int.{ltb_ℤ}
use takler.Status.{NodeStatus, complete, status_eq}
use takler.Attr.Event.{Event, reset_event}
use takler.Attr.Meter.{Meter, reset_meter}
use takler.Attr.TimeAttr.{TimeAttribute, clear_free}
use takler.Task.{Attempt, new_attempt, clear_current_attempt}
use takler.Tree.{
  Node, Tree, node, Forest, nil, cons, set_status_only, requeue_node, requeue_task, requeue,
  requeue_all, sink_only, sink_all, unknown_among, unknown_within, finish_requeue, clear_trigger,
  reset_meter_of, reset_repeat_of,
}
use takler.Attr.Repeat.{RepeatDate}
use takler.Attr.Repeat

-- The test of `requeue` at one node: a task's own submission, or one among a container's descendants.
abbrev pub is_refused : Tree → Bool
is_refused (node a f) =
    if a.is_task then is_some a.attempt.submission_unknown_reason else unknown_among f

abbrev is_refused_among : Forest → Bool
is_refused_among nil = false
is_refused_among (cons t f) = is_refused t || is_refused_among f

mutual
  unfolding unknown_among

  pub refused_within : (t : Tree) → unknown_within t ≡ false → is_refused t ≡ false
  refused_within (node a f) h = ground arith

  refused_among : (f : Forest) → unknown_among f ≡ false → is_refused_among f ≡ false
  refused_among nil h = refl
  refused_among (cons t f) h = ground (arith, refused_within t, refused_among f)

is_some-bind {ℓ} :
    {A B : Type ℓ} (o : Option A) (g : A → B) → is_some (bind o (λ a. some (g a))) ≡ is_some o
is_some-bind none g = refl
is_some-bind (some a) g = refl

mutual
  unfolding requeue requeue_all

  is_some-requeue : (t : Tree) (reset : Bool) → is_some (requeue reset t) ≡ not (is_refused t)
  is_some-requeue (node a f) reset = ground (arith, is_some-requeue_all f reset, refused_among f)

  is_some-requeue_all :
      (f : Forest) (reset : Bool) → is_some (requeue_all reset f) ≡ not (is_refused_among f)
  is_some-requeue_all nil reset = refl
  is_some-requeue_all (cons t f) reset =
      ground (arith, is_some-requeue t reset, is_some-requeue_all f reset)

-- The elements of two lists, one by one.
abbrev pub Pairs : {A : Type 0} → (A → A → Type 0) → List A → List A → Type 0
Pairs R [] [] = Unit
Pairs R (x ∷ xs) (y ∷ ys) = R x y × Pairs R xs ys
Pairs R _ _ = ⊥

-- The value is the least, where the bounds are in order, and as it was otherwise.
abbrev pub IsLeast : Meter → Meter → Type 0
IsLeast m m' =
    (m' ≡ record m { value = m.min_value }) ⊎ ((ltb_ℤ m.max_value m.min_value ≡ true) × (m' ≡ m))

-- The repeat is at its start, if it is to be, and the same otherwise.
abbrev pub IsRepeated : Bool → Option RepeatDate → Option RepeatDate → Type 0
IsRepeated reset none none = Unit
IsRepeated true (some r) (some r') = r' ≡ record r { value = r.start_date }
IsRepeated false (some r) (some r') = r' ≡ r
IsRepeated _ _ _ = ⊥

-- A trigger is held again.
abbrev pub IsHeld : Option Bool → Option Bool → Type 0
IsHeld none none = Unit
IsHeld (some free) (some free') = free' ≡ false
IsHeld _ _ = ⊥

-- The attempt of a task is a new one, of the same generation; a container's is as it was.
abbrev pub IsNewAttempt : Node → Attempt → Type 0
IsNewAttempt a b =
    ((a.is_task ≡ true)
      × (b ≡ record new_attempt { definition_generation = a.attempt.definition_generation }))
    ⊎ ((a.is_task ≡ false) × (b ≡ a.attempt))

-- What a requeue makes of a node; `under` says that the node, or a container above it that the requeue
-- reaches too, is requeued to complete.
pub record IsReset (reset under : Bool) (a b : Node) : Type 0 where
  pub same_name : b.name ≡ a.name
  pub same_kind : b.is_task ≡ a.is_task
  pub same_default : b.default_node_status ≡ a.default_node_status
  pub same_suspended : b.suspended ≡ a.suspended
  pub status : b.node_status ≡ (if under then complete else a.default_node_status)
  pub untriggered : b.is_complete_triggered ≡ false
  pub times_clear : Pairs (λ t t'. t' ≡ record t { free = false }) a.times b.times
  pub events_initial : Pairs (λ e e'. e' ≡ record e { value = e.initial_value }) a.events b.events
  pub meters_least : Pairs IsLeast a.meters b.meters
  pub repeated : IsRepeated reset a.repeat b.repeat
  pub trigger_held : IsHeld a.trigger_free b.trigger_free
  pub attempt_new : IsNewAttempt a b.attempt

-- A container is requeued with all its descendants, a task alone.
abbrev mutual
  pub AllReset : (reset under : Bool) → Tree → Tree → Type 0
  AllReset reset under (node a f) (node b g) =
      IsReset reset under a b
      × (((a.is_task ≡ true) × (g ≡ f))
          ⊎ ((a.is_task ≡ false)
              × AllResetAmong reset (under || status_eq a.default_node_status complete) f g))

  pub AllResetAmong : (reset under : Bool) → Forest → Forest → Type 0
  AllResetAmong reset under nil nil = Unit
  AllResetAmong reset under (cons t f) (cons u g) =
      AllReset reset under t u × AllResetAmong reset under f g
  AllResetAmong reset under _ _ = ⊥

IsNewAttempt-known :
    (s : NodeStatus) (a b : Node)
    → b.is_task ≡ a.is_task
    → IsNewAttempt a b.attempt
    → IsNewAttempt a (set_status_only s b).attempt
unfolding set_status_only
IsNewAttempt-known s a b k (inl (t, e)) = inl (t, ground arith)
IsNewAttempt-known s a b k (inr (t, e)) = inr (t, ground arith)

set_status_only-IsReset :
    (reset under : Bool) (a b : Node)
    → IsReset reset under a b
    → IsReset reset true a (set_status_only complete b)
unfolding set_status_only
set_status_only-IsReset reset under a b h = record {
  same_name = h.same_name;
  same_kind = h.same_kind;
  same_default = h.same_default;
  same_suspended = h.same_suspended;
  status = refl;
  untriggered = h.untriggered;
  times_clear = h.times_clear;
  events_initial = h.events_initial;
  meters_least = h.meters_least;
  repeated = h.repeated;
  trigger_held = h.trigger_held;
  attempt_new = IsNewAttempt-known complete a b h.same_kind h.attempt_new;
}

mutual
  unfolding sink_only sink_all

  sink_only-AllReset :
      (t u : Tree) (reset under : Bool)
      → AllReset reset under t u
      → AllReset reset true t (sink_only complete u)
  sink_only-AllReset (node a f) (node b g) reset under (h, inl (task, same)) =
      (set_status_only-IsReset reset under a b h, inl (task, rw (h.same_kind ∙ task) same))
  sink_only-AllReset (node a f) (node b g) reset under (h, inr (other, hs)) = (
    set_status_only-IsReset reset under a b h,
    inr (
      other,
      rw (h.same_kind ∙ other)
          (sink_all-AllReset f g reset (under || status_eq a.default_node_status complete) hs),
    ),
  )

  sink_all-AllReset :
      (f g : Forest) (reset under : Bool)
      → AllResetAmong reset under f g
      → AllResetAmong reset true f (sink_all complete g)
  sink_all-AllReset nil nil reset under h = tt
  sink_all-AllReset nil (cons u g) reset under h = absurd h
  sink_all-AllReset (cons t f) nil reset under h = absurd h
  sink_all-AllReset (cons t f) (cons u g) reset under (h, hs) =
      (sink_only-AllReset t u reset under h, sink_all-AllReset f g reset under hs)

map-clear_free :
    (ts : List TimeAttribute)
    → Pairs (λ t t'. t' ≡ record t { free = false }) ts (map clear_free ts)
map-clear_free [] = tt
map-clear_free (t ∷ ts) = (refl, map-clear_free ts)

map-reset_event :
    (es : List Event)
    → Pairs (λ e e'. e' ≡ record e { value = e.initial_value }) es (map reset_event es)
unfolding reset_event
map-reset_event [] = tt
map-reset_event (e ∷ es) = (refl, map-reset_event es)

reset_meter_of-IsLeast : (m : Meter) → IsLeast m (reset_meter_of m)
unfolding reset_meter
reset_meter_of-IsLeast m = ground arith

map-reset_meter_of : (ms : List Meter) → Pairs IsLeast ms (map reset_meter_of ms)
map-reset_meter_of [] = tt
map-reset_meter_of (m ∷ ms) = (reset_meter_of-IsLeast m, map-reset_meter_of ms)

clear_trigger-IsHeld : (o : Option Bool) → IsHeld o (clear_trigger o)
clear_trigger-IsHeld none = tt
clear_trigger-IsHeld (some b) = refl

reset_repeat-IsRepeated :
    (reset : Bool) (o : Option RepeatDate) → IsRepeated reset o (reset_repeat_of reset o)
unfolding Repeat.reset
reset_repeat-IsRepeated reset none = tt
reset_repeat-IsRepeated true (some r) = refl
reset_repeat-IsRepeated false (some r) = refl

-- Of a node like `a`, whose attempt is as it is to be.
requeue_node-IsReset :
    (reset : Bool) (a : Node) (b : Attempt)
    → IsNewAttempt a b
    → IsReset reset false a (requeue_node reset (record a { attempt = b }))
unfolding requeue_node
requeue_node-IsReset reset a b h = record {
  same_name = refl;
  same_kind = refl;
  same_default = refl;
  same_suspended = refl;
  status = refl;
  untriggered = refl;
  times_clear = map-clear_free a.times;
  events_initial = map-reset_event a.events;
  meters_least = map-reset_meter_of a.meters;
  repeated = reset_repeat-IsRepeated reset a.repeat;
  trigger_held = clear_trigger-IsHeld a.trigger_free;
  attempt_new = IsNewAttempt-known a.default_node_status a (record a { attempt = b }) refl h;
}

requeue_task-IsReset :
    (reset : Bool) (a : Node) → a.is_task ≡ true → IsReset reset false a (requeue_task reset a)
unfolding requeue_task
requeue_task-IsReset reset a e =
    requeue_node-IsReset reset a (record (clear_current_attempt a.attempt) { try_no = 0 })
      (inl (e, refl))

status_eq-complete : (s : NodeStatus) → status_eq s complete ≡ true → s ≡ complete
status_eq-complete s h = ground arith

under-IsReset :
    (reset : Bool) (a b : Node)
    → a.default_node_status ≡ complete
    → IsReset reset true a b
    → IsReset reset false a b
under-IsReset reset a b e h = record {
  same_name = h.same_name;
  same_kind = h.same_kind;
  same_default = h.same_default;
  same_suspended = h.same_suspended;
  status = h.status ∙ sym e;
  untriggered = h.untriggered;
  times_clear = h.times_clear;
  events_initial = h.events_initial;
  meters_least = h.meters_least;
  repeated = h.repeated;
  trigger_held = h.trigger_held;
  attempt_new = h.attempt_new;
}

sunk-AllReset :
    (reset : Bool) (a b : Node) (f g : Forest)
    → a.is_task ≡ false
    → b.is_task ≡ false
    → IsReset reset false a (set_status_only complete b)
    → AllResetAmong reset (status_eq a.default_node_status complete) f (sink_all complete g)
    → AllReset reset false (node a f) (sink_only complete (node b g))
unfolding sink_only
sunk-AllReset reset a b f g e k h hs = (h, inr (e, rw k hs))

finish_requeue-AllReset :
    (reset : Bool) (a b : Node) (f g : Forest)
    → a.is_task ≡ false
    → IsReset reset false a b
    → AllResetAmong reset false f g
    → AllReset reset false (node a f) (finish_requeue b g)
finish_requeue-AllReset reset a b f g e h hs =
    elim (Bool-cases (status_eq b.default_node_status complete)) [
      | inr d ↦
          let d' : status_eq a.default_node_status complete ≡ false =
            ap (λ s. status_eq s complete) (sym h.same_default) ∙ d in
          rw d (h, inr (e, rw d' hs))
      | inl d ↦
          let d' : status_eq a.default_node_status complete ≡ true =
            ap (λ s. status_eq s complete) (sym h.same_default) ∙ d in
          rw d (
            sunk-AllReset reset a b f g e (h.same_kind ∙ e)
              (under-IsReset reset a (set_status_only complete b)
                (status_eq-complete a.default_node_status d')
                (set_status_only-IsReset reset false a b h))
              (rw d' (sink_all-AllReset f g reset false hs)))
    ]

abbrev OnSome {ℓ} : {A : Type ℓ} → (A → Type 0) → Option A → Type 0
OnSome P none = Unit
OnSome P (some a) = P a

OnSome-bind {ℓ} :
    {A B : Type ℓ} (P : A → Type 0) (Q : B → Type 0) (o : Option A) (g : A → Option B)
    → OnSome P o
    → ((a : A) → P a → OnSome Q (g a))
    → OnSome Q (bind o g)
OnSome-bind P Q none g h k = tt
OnSome-bind P Q (some a) g h k = k a h

OnSome-if {ℓ} :
    {A : Type ℓ} (P : A → Type 0) (b : Bool) (o : Option A)
    → OnSome P o
    → OnSome P (if b then none else o)
OnSome-if P true o h = tt
OnSome-if P false o h = h

requeue-container :
    (reset : Bool) (a : Node) (f g : Forest)
    → a.is_task ≡ false
    → AllResetAmong reset false f g
    → AllReset reset false (node a f) (finish_requeue (requeue_node reset a) g)
requeue-container reset a f g e h =
    finish_requeue-AllReset reset a (requeue_node reset a) f g e
      (requeue_node-IsReset reset a a.attempt (inr (e, refl))) h

mutual
  unfolding requeue requeue_all

  requeue-AllReset : (t : Tree) (reset : Bool) → OnSome (AllReset reset false t) (requeue reset t)
  requeue-AllReset (node a f) reset = elim (Bool-cases a.is_task) [
    | inl task ↦ simp task (
        OnSome-if (AllReset reset false (node a f)) (is_some a.attempt.submission_unknown_reason)
          (some (node (requeue_task reset a) f))
          (requeue_task-IsReset reset a task, inl (task, refl)))
    | inr other ↦ simp other (
        OnSome-if (AllReset reset false (node a f)) (unknown_among f) _ (
          OnSome-bind (AllResetAmong reset false f) (AllReset reset false (node a f))
            (requeue_all reset f) _ (requeue_all-AllReset f reset)
            (λ f'. requeue-container reset a f f' other)))
  ]

  requeue_all-AllReset :
      (f : Forest) (reset : Bool) → OnSome (AllResetAmong reset false f) (requeue_all reset f)
  requeue_all-AllReset nil reset = tt
  requeue_all-AllReset (cons t f) reset =
      OnSome-bind (AllReset reset false t) (AllResetAmong reset false (cons t f)) (requeue reset t)
        _ (requeue-AllReset t reset)
        λ t' h.
          OnSome-bind (AllResetAmong reset false f) (AllResetAmong reset false (cons t f))
            (requeue_all reset f) _ (requeue_all-AllReset f reset) (λ f' hs. (h, hs))

abbrev pub IsRequeued : Bool → Tree → Option Tree → Type 0
IsRequeued reset t none = is_refused t ≡ true
IsRequeued reset t (some t') = (is_refused t ≡ false) × AllReset reset false t t'

-- A requeue is refused exactly if the task, or a task below the container, has a submission whose
-- outcome is unknown. Otherwise each node that it reaches, the task or the container with all its
-- descendants, has its default status, or complete if it or a container above it there is requeued
-- to complete; its repeat is at its start if repeats are to be reset, and as it was otherwise; its
-- events are at their initial values, its meters with bounds in order at their least, its times and
-- its trigger not free, and its complete trigger not latched; a task is at try 0 with nothing of an
-- attempt but its generation; and the nodes have no more and no fewer of all these, and their other
-- fields, as they were. The index of the paths of tasks is taken to refuse no write.
pub requeue_lem : (reset : Bool) (t : Tree) → IsRequeued reset t (requeue reset t)
requeue_lem reset t = go (requeue reset t) (is_some-requeue t reset) (requeue-AllReset t reset)
  where
    go :
        (o : Option Tree)
        → is_some o ≡ not (is_refused t)
        → OnSome (AllReset reset false t) o
        → IsRequeued reset t o
    go none e h = ground arith
    go (some t') e h = (ground arith, h)
