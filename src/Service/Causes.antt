-- ===== src/Service/Causes.antt =====
-- About the operations on the causes of a halt (src/takler/server/scheduler.py and checkpoint.py).
use takler.Prelude.{
  ◌≡◌, refl, sym, ◌∙◌, ap, Bool, true, false, ◌&&◌, not, List, [], ◌∷◌, Option, none, some,
  Bool-cases, inl, inr, arith,
}
use takler.Service.{
  HaltCause, manual, recovery, checkpoint_failure, ServerState, cause_eq, is_in, has_repeat, is_nil,
  from_causes, with_cause, without, halt, is_released, causes_eq, replace_causes, resume,
  record_result, restored, require_running,
}
use takler.Service.CauseLists.{
  IsMade, Has, from_causes-Has, is_in-with_cause, has_repeat-with_cause, is_in-without,
  has_repeat-without, causes_eq_sound,
}

pub data Event : Type 0 where
  halted_by_hand resumed reload : Event
  checkpointed : Bool → Event

unfoldable pub on_event : Event → ServerState → Option ServerState
on_event halted_by_hand s = halt s
on_event resumed s = resume s
on_event reload s = restored s
on_event (checkpointed success) s = record_result success s

-- What each event makes of one cause.
abbrev pub holds_after : Event → HaltCause → Bool → Bool
holds_after halted_by_hand manual before = true
holds_after resumed manual before = false
holds_after resumed recovery before = false
holds_after reload recovery before = true
holds_after (checkpointed success) checkpoint_failure before = not success
holds_after _ c before = before

abbrev pub Follows : Event → ServerState → Option ServerState → Type 0
Follows e s none = ⊥
Follows e s (some s') =
    IsMade s' × ((c : HaltCause) → is_in c s'.halt_causes ≡ holds_after e c (is_in c s.halt_causes))

-- The causes that an event leaves.
abbrev next_causes : Event → List HaltCause → List HaltCause
next_causes halted_by_hand cs = with_cause manual cs
next_causes resumed cs = without is_released cs
next_causes reload cs = with_cause recovery cs
next_causes (checkpointed true) cs = without (cause_eq checkpoint_failure) cs
next_causes (checkpointed false) cs = with_cause checkpoint_failure cs

is_in-next_causes :
    (e : Event) (c : HaltCause) (cs : List HaltCause)
    → is_in c (next_causes e cs) ≡ holds_after e c (is_in c cs)
is_in-next_causes halted_by_hand manual cs = is_in-with_cause manual manual cs
is_in-next_causes halted_by_hand recovery cs = is_in-with_cause recovery manual cs
is_in-next_causes halted_by_hand checkpoint_failure cs =
    is_in-with_cause checkpoint_failure manual cs
is_in-next_causes resumed manual cs = is_in-without is_released manual cs
is_in-next_causes resumed recovery cs = is_in-without is_released recovery cs
is_in-next_causes resumed checkpoint_failure cs = is_in-without is_released checkpoint_failure cs
is_in-next_causes reload manual cs = is_in-with_cause manual recovery cs
is_in-next_causes reload recovery cs = is_in-with_cause recovery recovery cs
is_in-next_causes reload checkpoint_failure cs = is_in-with_cause checkpoint_failure recovery cs
is_in-next_causes (checkpointed true) c cs = with_success c cs
  where
    with_success :
        (c : HaltCause) (cs : List HaltCause)
        → is_in c (without (cause_eq checkpoint_failure) cs)
          ≡ holds_after (checkpointed true) c (is_in c cs)
    with_success manual cs = is_in-without (cause_eq checkpoint_failure) manual cs
    with_success recovery cs = is_in-without (cause_eq checkpoint_failure) recovery cs
    with_success checkpoint_failure cs =
        is_in-without (cause_eq checkpoint_failure) checkpoint_failure cs
is_in-next_causes (checkpointed false) manual cs = is_in-with_cause manual checkpoint_failure cs
is_in-next_causes (checkpointed false) recovery cs = is_in-with_cause recovery checkpoint_failure cs
is_in-next_causes (checkpointed false) checkpoint_failure cs =
    is_in-with_cause checkpoint_failure checkpoint_failure cs

next_causes-distinct :
    (e : Event) (cs : List HaltCause)
    → has_repeat cs ≡ false
    → has_repeat (next_causes e cs) ≡ false
next_causes-distinct halted_by_hand cs h = has_repeat-with_cause manual cs ∙ h
next_causes-distinct resumed cs h = has_repeat-without is_released cs h
next_causes-distinct reload cs h = has_repeat-with_cause recovery cs ∙ h
next_causes-distinct (checkpointed true) cs h =
    has_repeat-without (cause_eq checkpoint_failure) cs h
next_causes-distinct (checkpointed false) cs h = has_repeat-with_cause checkpoint_failure cs ∙ h

replace_causes-same :
    (cs : List HaltCause) (s : ServerState) → IsMade s → replace_causes cs s ≡ from_causes cs
replace_causes-same cs s m = elim (Bool-cases (causes_eq cs s.halt_causes)) [
  | inl e ↦ let t = causes_eq_sound cs s.halt_causes e in rw e (sym m.made ∙ ap from_causes (sym t))
  | inr e ↦ rw e refl
]

on_event-next_causes :
    (e : Event) (s : ServerState)
    → IsMade s
    → on_event e s ≡ from_causes (next_causes e s.halt_causes)
unfolding on_event halt resume record_result restored
on_event-next_causes halted_by_hand s m = elim (Bool-cases (is_in manual s.halt_causes)) [
  | inl e ↦ rw e (sym m.made)
  | inr e ↦ rw e refl
]
on_event-next_causes resumed s m = replace_causes-same (without is_released s.halt_causes) s m
on_event-next_causes reload s m = refl
on_event-next_causes (checkpointed true) s m =
    replace_causes-same (without (cause_eq checkpoint_failure) s.halt_causes) s m
on_event-next_causes (checkpointed false) s m =
    replace_causes-same (with_cause checkpoint_failure s.halt_causes) s m

-- From a state that its causes make, no event is refused by the validation; it leaves again such a
-- state, sets or clears its own causes, and leaves the other causes as they are.
pub on_event-Follows : (e : Event) (s : ServerState) → IsMade s → Follows e s (on_event e s)
on_event-Follows e s m = rw (on_event-next_causes e s m) (
    go (from_causes (next_causes e s.halt_causes)) (
      from_causes-Has (next_causes e s.halt_causes)
        (next_causes-distinct e s.halt_causes m.distinct)))
  where
    go : (o : Option ServerState) → Has (next_causes e s.halt_causes) o → Follows e s o
    go none f = elim f [ ]
    go (some t) (made, causes, ok, runs) =
        (made, λ c. rw causes (is_in-next_causes e c s.halt_causes))

-- In a state that its causes make, work may run exactly when no cause of a halt holds and the service
-- is not stopping.
require_running_lem :
    (stopping : Bool) (s : ServerState)
    → IsMade s
    → require_running stopping s ≡ (
        not (is_in manual s.halt_causes)
        && not (is_in recovery s.halt_causes)
        && not (is_in checkpoint_failure s.halt_causes)
        && not stopping)
unfolding require_running
require_running_lem stopping s m =
    let h : Has s.halt_causes (some s) = rw m.made at (from_causes-Has s.halt_causes m.distinct) in
    rw (h.3, no_cause s.halt_causes) (ground arith)
  where
    no_cause :
        (cs : List HaltCause)
        → is_nil cs
          ≡ (not (is_in manual cs) && not (is_in recovery cs) && not (is_in checkpoint_failure cs))
    no_cause [] = refl
    no_cause (manual ∷ cs) = refl
    no_cause (recovery ∷ cs) = ground arith
    no_cause (checkpoint_failure ∷ cs) = ground arith
