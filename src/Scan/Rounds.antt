-- ===== src/Scan/Rounds.antt =====
-- About the turns that the flows of a pass take (`main_loop` of src/takler/server/scheduler.py).
use takler.Prelude.{
  ℕ, zero, suc, ◌+◌, ◌-◌, ◌≤◌, ◌≡◌, refl, Bool, true, false, ◌||◌, not, List, [], ◌∷◌, ◌++◌,
  if◌then◌else◌, Option, some, is_some, arith, Bool-cases, inl, inr,
}
use takler.Scan.{
  Outcome, finished, raised, Items, container, other, nil, cons, Hooks, Work, fresh, midway, Step,
  yielded, returned, failed, Job, is_stopped, is_dropped, advance, after_check, after_other,
  after_flow, after_calendar, next, slice, flow_scan_slice_nodes, ExceptionPolicy, resilient,
  fail_fast, Turn, ends, continues, sleeps, turn, pass, after_slice,
}
use takler.Scan.Order.{count, count_item, count_stack}

-- The calls of `next` that a generator takes at most.
abbrev pub remaining : {L : Type 0} → Work L → ℕ
remaining (fresh kids) = suc (count kids)
remaining (midway stack) = suc (count_stack stack)

remaining_pos : {L : Type 0} (w : Work L) → 1 ≤ remaining w
remaining_pos (fresh kids) = omega arith
remaining_pos (midway stack) = omega arith

-- The nodes of the flows that have work left, and one more for each.
abbrev pub total : {L : Type 0} → List (Job L) → ℕ
total [] = 0
total (j ∷ js) = remaining j.steps + total js

total-append :
    {L : Type 0} (js : List (Job L)) (j : Job L)
    → total (js ++ (j ∷ [])) ≡ total js + remaining j.steps
total-append [] j = omega arith
total-append (i ∷ js) j = omega (arith, total-append js j)

-- A step that yields leaves at most so many calls.
abbrev Leaves : {L S : Type 0} → ℕ → Step L S → Type 0
Leaves n (yielded w s) = remaining w ≤ n
Leaves n (returned s) = Unit
Leaves n (failed s) = Unit

Leaves-le : {L S : Type 0} (m n : ℕ) (t : Step L S) → m ≤ n → Leaves m t → Leaves n t
Leaves-le m n (yielded w s) h k = omega arith
Leaves-le m n (returned s) h k = tt
Leaves-le m n (failed s) h k = tt

-- What the turn of a flow leaves takes at most so many calls.
abbrev TurnLeaves : {L S : Type 0} → ℕ → Turn L S → Type 0
TurnLeaves n (ends s) = Unit
TurnLeaves n (continues work s) = total work ≤ n
TurnLeaves n (sleeps work s) = total work ≤ n

module _ {L S : Type 0} (hooks : Hooks L S) where
  check-Leaves :
      (kids : Items L) (rest : List (Items L)) (o : Outcome Bool S)
      → Leaves (suc (count kids + count_stack rest)) (after_check hooks kids rest o)
  check-Leaves kids rest (finished true s) = omega arith
  check-Leaves kids rest (finished false s) = omega arith
  check-Leaves kids rest (raised s) = tt

  other-Leaves :
      (rest : List (Items L)) (o : Outcome Unit S)
      → Leaves (suc (count_stack rest)) (after_other hooks rest o)
  other-Leaves rest (finished _ s) = omega arith
  other-Leaves rest (raised s) = tt

  advance-Leaves :
      (flow : L) (stack : List (Items L)) (s : S)
      → Leaves (count_stack stack) (advance hooks flow stack s)
  unfolding advance count_item
  advance-Leaves flow [] s = tt
  advance-Leaves flow (nil ∷ rest) s = elim (Bool-cases (is_dropped hooks flow s)) [
    | inl e ↦ rw e tt
    | inr e ↦ rw e (
        Leaves-le (count_stack rest) (0 + count_stack rest) (advance hooks flow rest s)
          (omega arith) (advance-Leaves flow rest s))
  ]
  advance-Leaves flow (cons (container l kids) more ∷ rest) s =
      elim (Bool-cases (is_dropped hooks flow s)) [
        | inl e ↦ rw e tt
        | inr e ↦ rw e (
            Leaves-le (suc (count kids + (count more + count_stack rest)))
              (suc (count kids) + count more + count_stack rest)
              (after_check hooks kids (more ∷ rest) (hooks.check_dependencies l s)) (omega arith)
              (check-Leaves kids (more ∷ rest) (hooks.check_dependencies l s)))
      ]
  advance-Leaves flow (cons (other l) more ∷ rest) s = elim (Bool-cases (is_dropped hooks flow s)) [
    | inl e ↦ rw e tt
    | inr e ↦ rw e (
        Leaves-le (suc (count more + count_stack rest)) (1 + count more + count_stack rest)
          (after_other hooks (more ∷ rest) (hooks.resolve_other l s)) (omega arith)
          (other-Leaves (more ∷ rest) (hooks.resolve_other l s)))
  ]

  flow-Leaves :
      (flow : L) (kids : Items L) (o : Outcome Bool S)
      → Leaves (count kids) (after_flow hooks flow kids o)
  flow-Leaves flow kids (finished true s) =
      Leaves-le (count kids + 0) (count kids) (advance hooks flow (kids ∷ []) s) (omega arith)
        (advance-Leaves flow (kids ∷ []) s)
  flow-Leaves flow kids (finished false s) = tt
  flow-Leaves flow kids (raised s) = tt

  calendar-Leaves :
      (flow : L) (kids : Items L) (o : Outcome Unit S)
      → Leaves (count kids) (after_calendar hooks flow kids o)
  calendar-Leaves flow kids (finished _ s) = elim (Bool-cases (is_stopped hooks s)) [
    | inl e ↦ rw e tt
    | inr e ↦ rw e (flow-Leaves flow kids (hooks.check_dependencies flow s))
  ]
  calendar-Leaves flow kids (raised s) = tt

  next-Leaves :
      (flow : L) (w : Work L) (s : S) (n : ℕ) → remaining w ≤ suc n → Leaves n (next hooks flow w s)
  unfolding next
  next-Leaves flow (fresh kids) s n h =
      elim (Bool-cases (is_stopped hooks s || not (hooks.begun flow s))) [
        | inl e ↦ rw e tt
        | inr e ↦ rw e (
            Leaves-le (count kids) n (after_calendar hooks flow kids (hooks.update_calendar flow s))
              (omega arith) (calendar-Leaves flow kids (hooks.update_calendar flow s)))
      ]
  next-Leaves flow (midway stack) s n h =
      Leaves-le (count_stack stack) n (advance hooks flow stack s) (omega arith)
        (advance-Leaves flow stack s)

  module _ (is_late : ℕ → Bool) (flow : L) where
    abbrev after_next : ℕ → Step L S → Step L S
    after_next n t = elim t [
      | yielded w' s' ↦ if is_late n then yielded w' s' else slice hooks is_late flow n w' s'
      | returned s' ↦ returned s'
      | failed s' ↦ failed s'
    ]

    after_next-Leaves :
        (n m : ℕ)
        → ((w : Work L) (s : S) → remaining w ≤ m → Leaves m (slice hooks is_late flow n w s))
        → (t : Step L S) → Leaves m t
        → Leaves m (after_next n t)
    after_next-Leaves n m rest (yielded w s) h = elim (Bool-cases (is_late n)) [
      | inl e ↦ rw e h
      | inr e ↦ rw e (rest w s h)
    ]
    after_next-Leaves n m rest (returned s) h = tt
    after_next-Leaves n m rest (failed s) h = tt

    slice-Leaves :
        (n m : ℕ) (w : Work L) (s : S) → remaining w ≤ m → Leaves m (slice hooks is_late flow n w s)
    unfolding slice
    slice-Leaves zero m w s h = h
    slice-Leaves (suc n) m w s h =
        after_next-Leaves n m (slice-Leaves n m) (next hooks flow w s)
          (next-Leaves flow w s m (omega arith))

    -- A slice of one step or more makes progress.
    slice-Leaves-suc :
        (n : ℕ) (w : Work L) (s : S) (m : ℕ)
        → remaining w ≤ suc m
        → Leaves m (slice hooks is_late flow (suc n) w s)
    unfolding slice
    slice-Leaves-suc n w s m h =
        after_next-Leaves n m (slice-Leaves n m) (next hooks flow w s) (next-Leaves flow w s m h)

  module _ (is_late : ℕ → Bool) (policy : ExceptionPolicy) (others waiting : ℕ → S → S) where
    after_slice-Leaves :
        (flow : L) (work : List (Job L)) (n m : ℕ) (t : Step L S)
        → Leaves m t
        → m + total work ≤ n
        → TurnLeaves n (after_slice hooks is_late policy others waiting flow work t)
    after_slice-Leaves flow work n m (yielded w s) k h =
        omega (arith, total-append work (record { flow = flow; steps = w }))
    after_slice-Leaves flow work n m (returned s) k h = omega arith
    after_slice-Leaves flow work n m (failed s) k h =
        elim policy
          as (λ p. TurnLeaves n (elim p as (λ _. Turn L S) [
            | fail_fast ↦ ends (hooks.fatal_shutdown s)
            | resilient ↦ continues work s
          ])) [ fail_fast ↦ tt | resilient ↦ omega arith ]

    turn-Leaves :
        (flow : L) (w : Work L) (work : List (Job L)) (s : S) (n m : ℕ)
        → remaining w ≤ suc m
        → m + total work ≤ n
        → TurnLeaves n
            (turn hooks is_late policy others waiting (record { flow = flow; steps = w }) work s)
    unfolding turn
    turn-Leaves flow w work s n m h k =
        elim (Bool-cases (hooks.is_halted s || not (hooks.begun flow s))) [
          | inl e ↦ rw e (omega arith)
          | inr e ↦ rw e (
              after_slice-Leaves flow work n m (slice hooks is_late flow flow_scan_slice_nodes w s)
                (slice-Leaves-suc is_late flow 15 w s m h) k)
        ]

    abbrev after_turn : ℕ → Turn L S → Option S
    after_turn n t = elim t [
      | ends s ↦ some s
      | continues work s ↦ pass hooks is_late policy others waiting n work s
      | sleeps work s ↦ pass hooks is_late policy others waiting n work (others n s)
    ]

    after_turn-is_some :
        (n : ℕ)
        → ((work : List (Job L)) (s : S)
            → total work ≤ n
            → is_some (pass hooks is_late policy others waiting n work s) ≡ true)
        → (t : Turn L S) → TurnLeaves n t
        → is_some (after_turn n t) ≡ true
    after_turn-is_some n rest (ends s) h = refl
    after_turn-is_some n rest (continues work s) h = rest work s h
    after_turn-is_some n rest (sleeps work s) h = rest work (others n s) h

    pass-is_some :
        (n : ℕ) (work : List (Job L)) (s : S)
        → total work ≤ n
        → is_some (pass hooks is_late policy others waiting n work s) ≡ true
    unfolding pass
    pass-is_some n [] s h = refl
    pass-is_some zero (j ∷ work) s h = absurd (omega (arith, remaining_pos j.steps))
    pass-is_some (suc n) (j ∷ work) s h =
        let bound : remaining j.steps ≤ suc (remaining j.steps - 1) = omega arith in
        let rest : remaining j.steps - 1 + total work ≤ n = omega (arith, remaining_pos j.steps) in
        elim (Bool-cases (hooks.should_stop s)) [
          | inl e ↦ rw (pass, e) refl
          | inr e ↦ elim (Bool-cases (hooks.is_attached j.flow s)) [
            | inl a ↦
                rw (pass, e)
                  (rw a (
                    after_turn-is_some n (pass-is_some n)
                      (turn hooks is_late policy others waiting j work (waiting n s))
                      (turn-Leaves j.flow j.steps work (waiting n s) n (remaining j.steps - 1) bound
                        rest)))
            | inr a ↦ rw (pass, e) (rw a (pass-is_some n work s (omega (arith, rest))))
          ]
        ]

    -- The pass over the flows ends, whatever other tasks do between its turns: as many turns are enough as
    -- the flows have nodes, the flows themselves counted.
    pub pass_ends :
        (work : List (Job L)) (n : ℕ) (s : S)
        → total work ≤ n
        → is_some (pass hooks is_late policy others waiting n work s) ≡ true
    pass_ends work n s h = pass-is_some n work s h
