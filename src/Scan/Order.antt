-- ===== src/Scan/Order.antt =====
-- About the order in which `_flow_work` visits the nodes (src/takler/server/scheduler.py).
use takler.Prelude.{
  ℕ, zero, suc, ◌+◌, ◌≤◌, ◌≡◌, refl, sym, ◌∙◌, ap, ◌⊎◌, true, false, ◌||◌, not, List, [], ◌∷◌,
  Option, none, some, arith, Bool-cases, inl, inr,
}
use takler.Scan.{
  Outcome, finished, raised, ◌>>=◌, Item, Items, container, other, nil, cons, Hooks, Work, fresh,
  midway, yielded, returned, failed, resolve_item, resolve_items, process_flow, is_stopped,
  is_dropped, advance, after_flow, next,
}

-- The nodes below a flow, and those that a stack of iterators has left.
unfoldable mutual
  pub count_item : {L : Type 0} → Item L → ℕ
  count_item (container l kids) = suc (count kids)
  count_item (other l) = 1

  pub count : {L : Type 0} → Items L → ℕ
  count nil = 0
  count (cons i is) = count_item i + count is

abbrev pub count_stack : {L : Type 0} → List (Items L) → ℕ
count_stack [] = 0
count_stack (f ∷ fs) = count f + count_stack fs

-- The state after a call.
abbrev pub left_by : {A S : Type 0} → Outcome A S → S
left_by (finished _ s) = s
left_by (raised s) = s

bind_assoc :
    {A B C S : Type 0} (o : Outcome A S) (f : A → S → Outcome B S) (g : B → S → Outcome C S)
    → (o >>= f >>= g) ≡ (o >>= λ a s. f a s >>= g)
bind_assoc (finished a s) f g = refl
bind_assoc (raised s) f g = refl

Outcome-cases :
    {A S : Type 0} (o : Outcome A S)
    → ((a : A) × (s : S) × (o ≡ finished a s)) ⊎ ((s : S) × (o ≡ raised s))
Outcome-cases (finished a s) = inl (a, s, refl)
Outcome-cases (raised s) = inr (s, refl)

module _ {L S : Type 0} (hooks : Hooks L S) (flow : L) where
  -- A generator that is run to its end, with that many calls of `next`.
  unfoldable pub exhaust : ℕ → Work L → S → Option (Outcome Unit S)
  unfolding next
  exhaust zero w s = none
  exhaust (suc n) w s = elim (next hooks flow w s) [
    | yielded w' s' ↦ exhaust n w' s'
    | returned s' ↦ some (finished tt s')
    | failed s' ↦ some (raised s')
  ]

  abbrev resolve_stack : List (Items L) → S → Outcome Unit S
  resolve_stack [] s = finished tt s
  resolve_stack (f ∷ fs) s = resolve_items hooks f s >>= λ _ s'. resolve_stack fs s'

  -- Nothing that the flow's own methods do stops the service, or ends or detaches the flow.
  pub record IsKept : Type 0 where
    pub kept_by_check :
        (l : L) (s : S)
        → is_dropped hooks flow s ≡ false
        → is_dropped hooks flow (left_by (hooks.check_dependencies l s)) ≡ false
    pub kept_by_other :
        (l : L) (s : S)
        → is_dropped hooks flow s ≡ false
        → is_dropped hooks flow (left_by (hooks.resolve_other l s)) ≡ false
    pub kept_by_calendar :
        (s : S)
        → is_dropped hooks flow s ≡ false
        → is_dropped hooks flow (left_by (hooks.update_calendar flow s)) ≡ false

  module _ (kept : IsKept) where
    exhaust-midway :
        (n : ℕ) (stack : List (Items L)) (s : S)
        → is_dropped hooks flow s ≡ false
        → count_stack stack ≤ n
        → exhaust (suc n) (midway stack) s ≡ some (resolve_stack stack s)
    unfolding exhaust next advance resolve_item count_item
    exhaust-midway n [] s h b = refl
    exhaust-midway n (nil ∷ rest) s h b = rw (exhaust, h) (exhaust-midway n rest s h (omega arith))
    exhaust-midway zero (cons (container l kids) more ∷ rest) s h b = absurd (omega arith)
    exhaust-midway (suc n) (cons (container l kids) more ∷ rest) s h b =
        elim (Outcome-cases (hooks.check_dependencies l s)) [
          | inl (true, s', e) ↦
              rw (exhaust, h)
                (rw e (
                  rw
                    (exhaust-midway n (kids ∷ more ∷ rest) s' (rw e at (kept.kept_by_check l s h))
                      (omega arith))
                    (ap some (
                      sym (
                        bind_assoc (resolve_items hooks kids s') (λ _. resolve_items hooks more)
                          (λ _. resolve_stack rest))))))
          | inl (false, s', e) ↦
              rw (exhaust, h)
                (rw e (
                  exhaust-midway n (more ∷ rest) s' (rw e at (kept.kept_by_check l s h))
                    (omega arith)))
          | inr (s', e) ↦ rw (exhaust, h) (rw e refl)
        ]
    exhaust-midway zero (cons (other l) more ∷ rest) s h b = absurd (omega arith)
    exhaust-midway (suc n) (cons (other l) more ∷ rest) s h b =
        elim (Outcome-cases (hooks.resolve_other l s)) [
          | inl (_, s', e) ↦
              rw (exhaust, h)
                (rw e (
                  exhaust-midway n (more ∷ rest) s' (rw e at (kept.kept_by_other l s h))
                    (omega arith)))
          | inr (s', e) ↦ rw (exhaust, h) (rw e refl)
        ]

    resolve_stack-single :
        (f : Items L) (s : S) → resolve_stack (f ∷ []) s ≡ resolve_items hooks f s
    resolve_stack-single f s = elim (Outcome-cases (resolve_items hooks f s)) [
      | inl (_, s', e) ↦ rw e refl
      | inr (s', e) ↦ rw e refl
    ]

    stopped_of : (s : S) → is_dropped hooks flow s ≡ false → is_stopped hooks s ≡ false
    stopped_of s h = ground arith

    -- The generator from the flow's own check on.
    exhaust-begun :
        (kids : Items L) (s : S)
        → is_dropped hooks flow s ≡ false
        → elim (after_flow hooks flow kids (hooks.check_dependencies flow s))
            as (λ _. Option (Outcome Unit S)) [
              | yielded w' s' ↦ exhaust (count kids) w' s'
              | returned s' ↦ some (finished tt s')
              | failed s' ↦ some (raised s')
            ]
          ≡ some (resolve_item hooks (container flow kids) s)
    unfolding exhaust next resolve_item
    exhaust-begun kids s h = elim (Outcome-cases (hooks.check_dependencies flow s)) [
      | inl (true, s', e) ↦ rw e (
          exhaust-midway (count kids) (kids ∷ []) s' (rw e at (kept.kept_by_check flow s h))
            (omega arith)
          ∙ ap some (resolve_stack-single kids s'))
      | inl (false, s', e) ↦ rw e refl
      | inr (s', e) ↦ rw e refl
    ]

    -- Run to its end, the generator of a flow of the bunch leaves what the recursive `resolve_dependencies`
    -- leaves, exceptions included, if the methods of the nodes neither stop the service nor detach the
    -- flow. One call of `next` for each node below the flow, and one more, are enough.
    pub exhaust-process_flow :
        (kids : Items L) (s : S)
        → hooks.is_attached flow s ≡ true
        → exhaust (suc (count kids)) (fresh kids) s ≡ some (process_flow hooks flow kids s)
    unfolding exhaust next process_flow
    exhaust-process_flow kids s a =
        elim (Bool-cases (is_stopped hooks s || not (hooks.begun flow s))) [
          | inl e ↦ rw (exhaust, e) refl
          | inr e ↦
              let h : is_dropped hooks flow s ≡ false = ground arith in
              elim (Outcome-cases (hooks.update_calendar flow s)) [
                | inl (_, s', e') ↦
                    let h' = rw e' at (kept.kept_by_calendar s h) in
                    rw (exhaust, e) (rw e' (rw (stopped_of s' h') (exhaust-begun kids s' h')))
                | inr (s', e') ↦ rw (exhaust, e) (rw e' refl)
              ]
        ]
