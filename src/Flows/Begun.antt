-- ===== src/Flows/Begun.antt =====
-- About `run_command_begin` of src/takler/server/scheduler.py and `Flow.begin` of
-- src/takler/core/flow.py.
use Prim.Native.String.{String}
use takler.Prelude.{
  ℕ, suc, ◌≡◌, subst, ◌⊎◌, inl, inr, refl, Bool, true, false, ◌&&◌, not, List, [], ◌∷◌, Option,
  none, some, if◌then◌else◌, arith, All, Bool-cases,
}
use takler.Prelude.Int.{ℤ, pos}
use takler.Attr.Calendar
use takler.Tree.{Tree, unknown_within, requeue}
use takler.Tree.Requeue.{is_refused, refused_within, AllReset, IsRequeued, requeue_lem}
use takler.Client.{Error, node_not_found_error, flow_state_error}
use takler.Zombie.{is_empty}
use takler.Flows.{
  Flow, requeue_calendar, mark_begun, begin, is_target, any_flow, after_begin, begin_flows,
  run_command_begin,
}

-- A flow that may begin: it has not begun, unless that is forced, and no submission is unknown.
abbrev pub MayBegin : Bool → Flow → Type 0
MayBegin force f = ((force ≡ true) ⊎ (f.begun ≡ false)) × (unknown_within f.tree ≡ false)

-- A flow, and the same after it began: the calendar is at its start, and the nodes that a requeue
-- reaches are reset.
abbrev pub HasBegun : Flow → Flow → Type 0
HasBegun f g =
    (g.begun ≡ true)
    × AllReset true false f.tree g.tree
    × (g.calendar.duration ≡ some (pos 0))
    × (g.calendar.flow_time ≡ g.calendar.initial_time)

mark_begun-HasBegun :
    (time now : ℤ) (f : Flow) (o : Option Tree)
    → is_refused f.tree ≡ false
    → IsRequeued true f.tree o
    → HasBegun f (mark_begun (requeue_calendar time now f) o).0
      × ((mark_begun (requeue_calendar time now f) o).1 ≡ none)
unfolding requeue_calendar Calendar.begin
mark_begun-HasBegun time now f none h k = ground arith
mark_begun-HasBegun time now f (some t) h (k, r) = ((refl, r, refl, refl), refl)

begin-HasBegun :
    (force : Bool) (time now : ℤ) (f : Flow)
    → MayBegin force f
    → HasBegun f (begin force time now f).0 × ((begin force time now f).1 ≡ none)
unfolding begin
begin-HasBegun force time now f (b, u) =
    let clear : (f.begun && not force) ≡ false = ground arith in
    rw clear (
      rw u (
        mark_begun-HasBegun time now f (requeue true f.tree) (refused_within f.tree u)
          (requeue_lem true f.tree)))

module _ (force : Bool) (name : String) where
  -- Of each flow: a target may begin.
  abbrev pub AllMayBegin : List Flow → Type 0
  AllMayBegin [] = Unit
  AllMayBegin (f ∷ fs) = (if is_target name f then MayBegin force f else Unit) × AllMayBegin fs

  -- Of each flow: a target has begun, and any other flow is left as it was.
  abbrev pub BeginsTargets : List Flow → List Flow → Type 0
  BeginsTargets [] [] = Unit
  BeginsTargets (f ∷ fs) (g ∷ gs) =
      (if is_target name f then HasBegun f g else (g ≡ f)) × BeginsTargets fs gs
  BeginsTargets _ _ = ⊥

  -- Some target has begun already, without force, or has an unknown submission.
  abbrev pub IsBlocked : List Flow → Type 0
  IsBlocked [] = ⊥
  IsBlocked (f ∷ fs) =
      ((is_target name f ≡ true)
        × (((force ≡ false) × (f.begun ≡ true)) ⊎ (unknown_within f.tree ≡ true)))
      ⊎ IsBlocked fs

  -- No flow has the name.
  abbrev pub IsMissing : List Flow → Type 0
  IsMissing fs = (is_empty name ≡ false) × All (λ f. is_target name f ≡ false) fs

  abbrev pub Begins : List Flow → List Flow × Option Error → Type 0
  Begins fs (gs, none) = AllMayBegin fs × BeginsTargets fs gs
  Begins fs (gs, some node_not_found_error) = (gs ≡ fs) × IsMissing fs
  Begins fs (gs, some flow_state_error) = (gs ≡ fs) × IsBlocked fs
  Begins fs (gs, some _) = ⊥

  any_flow-IsMissing :
      (fs : List Flow)
      → any_flow (is_target name) fs ≡ false
      → All (λ f. is_target name f ≡ false) fs
  any_flow-IsMissing [] h = tt
  any_flow-IsMissing (f ∷ fs) h = (ground arith, any_flow-IsMissing fs (ground arith))

  begun-IsBlocked :
      (fs : List Flow)
      → force ≡ false
      → any_flow (λ f. is_target name f && f.begun) fs ≡ true
      → IsBlocked fs
  begun-IsBlocked [] e h = cc
  begun-IsBlocked (f ∷ fs) e h = elim (Bool-cases (is_target name f && f.begun)) [
    | inl t ↦ inl (ground arith, inl (e, ground arith))
    | inr t ↦ inr (begun-IsBlocked fs e (ground arith))
  ]

  unknown-IsBlocked :
      (fs : List Flow)
      → any_flow (λ f. is_target name f && unknown_within f.tree) fs ≡ true
      → IsBlocked fs
  unknown-IsBlocked [] h = cc
  unknown-IsBlocked (f ∷ fs) h = elim (Bool-cases (is_target name f && unknown_within f.tree)) [
    | inl t ↦ inl (ground arith, inr (ground arith))
    | inr t ↦ inr (unknown-IsBlocked fs (ground arith))
  ]

  clear-MayBegin :
      (f : Flow)
      → (force ≡ true) ⊎ ((is_target name f && f.begun) ≡ false)
      → (is_target name f && unknown_within f.tree) ≡ false
      → if is_target name f then MayBegin force f else Unit
  clear-MayBegin f b u = elim (Bool-cases (is_target name f)) [
    | inl t ↦ rw t (elim b [ inl e ↦ inl e | inr e ↦ inr (ground arith) ], ground arith)
    | inr t ↦ rw t tt
  ]

  clear-AllMayBegin :
      (fs : List Flow)
      → (force ≡ true) ⊎ (any_flow (λ f. is_target name f && f.begun) fs ≡ false)
      → any_flow (λ f. is_target name f && unknown_within f.tree) fs ≡ false
      → AllMayBegin fs
  clear-AllMayBegin [] b u = tt
  clear-AllMayBegin (f ∷ fs) b u = (
    clear-MayBegin f (elim b [ inl e ↦ inl e | inr e ↦ inr (ground arith) ]) (ground arith),
    clear-AllMayBegin fs (elim b [ inl e ↦ inl e | inr e ↦ inr (ground arith) ]) (ground arith),
  )

  abbrev BeginsAll : List Flow → List Flow × Option Error → Type 0
  BeginsAll fs r = BeginsTargets fs r.0 × (r.1 ≡ none)

  after_begin-BeginsAll :
      (f : Flow) (fs : List Flow) (r : Flow × Option Error) (rest : List Flow × Option Error)
      → is_target name f ≡ true
      → HasBegun f r.0 × (r.1 ≡ none)
      → BeginsAll fs rest
      → BeginsAll (f ∷ fs) (after_begin fs r rest)
  after_begin-BeginsAll f fs (g, some e) rest t (b, h) k = cc
  after_begin-BeginsAll f fs (g, none) (gs, o) t (b, h) (k, e) = ((rw t b, k), e)

  permitted-Begins :
      (fs : List Flow) (r : List Flow × Option Error)
      → AllMayBegin fs
      → BeginsAll fs r
      → Begins fs r
  permitted-Begins fs (gs, some e) h (b, k) = cc
  permitted-Begins fs (gs, none) h (b, k) = (h, b)

  module _ (clock : ℕ → ℤ) where
    begin_flows-BeginsAll :
        (fs : List Flow) (n : ℕ) → AllMayBegin fs → BeginsAll fs (begin_flows clock force name n fs)
    unfolding begin_flows
    begin_flows-BeginsAll [] n h = (tt, refl)
    begin_flows-BeginsAll (f ∷ fs) n (h, hs) = elim (Bool-cases (is_target name f)) [
      | inl t ↦ rw t (
          after_begin-BeginsAll f fs (begin force (clock n) (clock (suc n)) f)
            (begin_flows clock force name (suc (suc n)) fs) t
            (begin-HasBegun force (clock n) (clock (suc n)) f
              (subst (λ b. if b then MayBegin force f else Unit) t h))
            (begin_flows-BeginsAll fs (suc (suc n)) hs))
      | inr t ↦ let (b, e) = begin_flows-BeginsAll fs n hs in rw t ((rw t refl, b), e)
    ]

    -- Past the search for the flow.
    found-Begins :
        (fs : List Flow)
        → Begins fs (
            if not force && any_flow (λ f. is_target name f && f.begun) fs
            then (fs, some flow_state_error)
            else if any_flow (λ f. is_target name f && unknown_within f.tree) fs
            then (fs, some flow_state_error)
            else begin_flows clock force name 0 fs)
    found-Begins fs =
        elim (Bool-cases (not force && any_flow (λ f. is_target name f && f.begun) fs)) [
          | inl begun ↦ rw begun (refl, begun-IsBlocked fs (ground arith) (ground arith))
          | inr fresh ↦
              elim (Bool-cases (any_flow (λ f. is_target name f && unknown_within f.tree) fs)) [
                | inl unknown ↦ rw fresh (rw unknown (refl, unknown-IsBlocked fs unknown))
                | inr known ↦
                    let h : AllMayBegin fs = clear-AllMayBegin fs (ground arith) known in
                    rw fresh (
                      rw known (
                        permitted-Begins fs (begin_flows clock force name 0 fs) h
                          (begin_flows-BeginsAll fs 0 h)))
              ]
        ]

    -- The begin of one flow by its name, which is what a begin command does for each of its
    -- targets, is refused with NodeNotFoundError only if no flow has the name, and with
    -- FlowStateError only if the flow has begun, without force, or has a task whose submission is
    -- unknown, and then all flows are as they were. Otherwise the flow was not so, and it has
    -- begun, with its calendar at its start and every node reset that a requeue reaches; the other
    -- flows are as they were. The index of the paths of tasks is taken to refuse no write.
    pub run_command_begin-Begins :
        (fs : List Flow) → is_empty name ≡ false → Begins fs (run_command_begin clock force name fs)
    unfolding run_command_begin
    run_command_begin-Begins fs named =
        elim (Bool-cases (not (is_empty name) && not (any_flow (is_target name) fs))) [
          | inl missing ↦ rw missing (refl, (ground arith, any_flow-IsMissing fs (ground arith)))
          | inr found ↦ rw found (found-Begins fs)
        ]
