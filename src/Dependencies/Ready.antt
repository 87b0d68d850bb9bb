-- ===== src/Dependencies/Ready.antt =====
-- About the answers of `check_dependencies` (src/takler/core/node.py and task_node.py).
use Prim.Native.String.{String}
use takler.Prelude.{
  ℕ, ◌≡◌, ◌↔◌, refl, Bool, true, false, List, [], ◌∷◌, ◌⊎◌, inl, inr, Bool-cases, if◌then◌else◌,
  Option, none, some, arith,
}
use takler.Status.{NodeStatus, queued}
use takler.Attr.TimeAttr.{TimeOfDay, TimeAttribute, is_free}
use takler.Limit.{Level, Store, check_in_limit_up}
use takler.Trigger.{Reference, Ast, Result, ok, ◌>>=◌, evaluate_expression}
use takler.Dependencies.{
  TriggerExpression, Dependent, ast_of, some_free, Answer, blocked, completed, ready,
  resolve_time_dependencies, evaluate_trigger, evaluate_complete_trigger, check_dependencies,
  is_settled, limits_allow, after_node, check_task, all, free_times, free_expression,
  free_dependencies, resume,
}

-- The attribute is satisfied for good, or its hour and minute are now.
abbrev pub IsDue : TimeOfDay → TimeAttribute → Type 0
IsDue now t = (t.free ≡ true) ⊎ ((now.hour ≡ t.time.hour) × (now.minute ≡ t.time.minute))

-- Some of the attributes is due.
pub data IsAnyDue (now : TimeOfDay) : List TimeAttribute → Type 0 where
  this : (t : TimeAttribute) (ts : List TimeAttribute) → IsDue now t → IsAnyDue now (t ∷ ts)
  other : (t : TimeAttribute) (ts : List TimeAttribute) → IsAnyDue now ts → IsAnyDue now (t ∷ ts)

module _ (now : TimeOfDay) where
  is_free-IsDue : (t : TimeAttribute) → is_free now t ≡ true → IsDue now t
  unfolding is_free
  is_free-IsDue t h = elim (Bool-cases t.free) [
    | inl e ↦ inl e
    | inr e ↦ inr (ground arith, ground arith)
  ]

  IsDue-is_free : (t : TimeAttribute) → IsDue now t → is_free now t ≡ true
  unfolding is_free
  IsDue-is_free t (inl e) = rw e refl
  IsDue-is_free t (inr (h, m)) = ground arith

  some_free-IsAnyDue : (ts : List TimeAttribute) → some_free now ts ≡ true → IsAnyDue now ts
  some_free-IsAnyDue [] h = cc
  some_free-IsAnyDue (t ∷ ts) h = elim (Bool-cases (is_free now t)) [
    | inl e ↦ this t ts (is_free-IsDue t e)
    | inr e ↦ other t ts (some_free-IsAnyDue ts (simp e at h))
  ]

  IsAnyDue-some_free : (ts : List TimeAttribute) → IsAnyDue now ts → some_free now ts ≡ true
  IsAnyDue-some_free [] d = elim d [ ]
  IsAnyDue-some_free (t ∷ ts) (this _ _ d) = rw (IsDue-is_free t d) refl
  IsAnyDue-some_free (t ∷ ts) (other _ _ d) =
      rw (IsAnyDue-some_free ts d)
        (elim (Bool-cases (is_free now t)) [ inl e ↦ rw e refl | inr e ↦ rw e refl ])

  -- The node has no times, or one of them is due.
  abbrev pub IsOnTime : List TimeAttribute → Type 0
  IsOnTime ts = (ts ≡ []) ⊎ IsAnyDue now ts

  resolve-IsOnTime :
      (ts : List TimeAttribute) → resolve_time_dependencies now ts ≡ true → IsOnTime ts
  unfolding resolve_time_dependencies
  resolve-IsOnTime [] h = inl refl
  resolve-IsOnTime (t ∷ ts) h = inr (some_free-IsAnyDue (t ∷ ts) h)

  IsOnTime-resolve :
      (ts : List TimeAttribute) → IsOnTime ts → resolve_time_dependencies now ts ≡ true
  unfolding resolve_time_dependencies
  IsOnTime-resolve [] h = refl
  IsOnTime-resolve (t ∷ ts) (inl e) = cc
  IsOnTime-resolve (t ∷ ts) (inr d) = IsAnyDue-some_free (t ∷ ts) d

module _ (create_ast : String → Result Ast) (reference : Reference) (now : TimeOfDay) where
  -- What the node's own attributes wait for.
  abbrev pub IsMet : Dependent → Type 0
  IsMet n =
      (n.suspended ≡ false)
      × IsOnTime now n.times
      × (evaluate_complete_trigger create_ast reference now n.complete_trigger_expression
          ≡ ok false)
      × (evaluate_trigger create_ast reference now n.trigger_expression ≡ ok true)

  met_of :
      (done met : Result Bool)
      → (done >>= λ d. if d then ok completed else (met >>= λ m. ok (if m then ready else blocked)))
        ≡ ok ready
      → (done ≡ ok false) × (met ≡ ok true)
  met_of done met h = ground arith

  parts_of :
      (n : Dependent)
      → check_dependencies create_ast reference now n ≡ ok ready
      → (n.suspended ≡ false)
        × (resolve_time_dependencies now n.times ≡ true)
        × (evaluate_complete_trigger create_ast reference now n.complete_trigger_expression
            ≡ ok false)
        × (evaluate_trigger create_ast reference now n.trigger_expression ≡ ok true)
  unfolding check_dependencies
  parts_of n h = ground arith

  check_dependencies-IsMet :
      (n : Dependent) → check_dependencies create_ast reference now n ≡ ok ready → IsMet n
  check_dependencies-IsMet n h =
      let (s, k, d, t) = parts_of n h in (s, resolve-IsOnTime now n.times k, d, t)

  IsMet-check_dependencies :
      (n : Dependent) → IsMet n → check_dependencies create_ast reference now n ≡ ok ready
  unfolding check_dependencies
  IsMet-check_dependencies n (h, k, d, t) =
      rw h (rw (IsOnTime-resolve now n.times k) (rw d (rw t refl)))

after_iff :
    (st : NodeStatus) (b : Bool) (r : Result Answer)
    → (if is_settled st then ok blocked else (r >>= λ a. ok (after_node st b a))) ≡ ok ready
    → (st ≡ queued) × (b ≡ true) × (r ≡ ok ready)
after_iff st b r h = ground arith

module _ (find_limits : List Level → String → Option (List ℕ)) (s : Store) (path : String)
    (levels : List Level) where
  limits_allow-check :
      limits_allow find_limits s path levels ≡ true
      → check_in_limit_up find_limits s path levels ≡ true
  limits_allow-check h = ground arith

  check-limits_allow :
      check_in_limit_up find_limits s path levels ≡ true
      → limits_allow find_limits s path levels ≡ true
  unfolding check_in_limit_up
  check-limits_allow h = ground arith

module _ (create_ast : String → Result Ast) (reference : Reference) (now : TimeOfDay)
    (find_limits : List Level → String → Option (List ℕ)) (s : Store) (path : String)
    (levels : List Level) where
  pub check_task_iff :
      (n : Dependent)
      → (check_task create_ast reference now find_limits s path levels n ≡ ok ready) ↔ (
          (n.node_status ≡ queued)
          × (check_in_limit_up find_limits s path levels ≡ true)
          × IsMet create_ast reference now n)
  unfolding check_task check_dependencies
  check_task_iff n = (
    λ h.
        let k =
          after_iff n.node_status (limits_allow find_limits s path levels)
            (check_dependencies create_ast reference now n) h in
        (
          k.0,
          limits_allow-check find_limits s path levels k.1,
          check_dependencies-IsMet create_ast reference now n k.2,
        ),
    λ (q, l, m). rw q (
        rw (check-limits_allow find_limits s path levels l)
          (rw (IsMet-check_dependencies create_ast reference now n m) refl)),
  )

  free_times-IsOnTime : (ts : List TimeAttribute) → IsOnTime now (free_times ts)
  free_times-IsOnTime [] = inl refl
  free_times-IsOnTime (t ∷ ts) = inr (this (record t { free = true }) (free_times ts) (inl refl))

  -- The trigger has a tree, or its text can be read.
  abbrev pub IsReadable : Option TriggerExpression → Type 0
  IsReadable none = Unit
  IsReadable (some e) = (a : Ast) × (ast_of create_ast reference now e ≡ ok a)

  free_expression-met :
      (e : Option TriggerExpression)
      → IsReadable e
      → evaluate_trigger create_ast reference now (free_expression e) ≡ ok true
  unfolding evaluate_expression
  free_expression-met none h = refl
  free_expression-met (some e) (a, h) = rw h refl

  -- Freed of all its dependencies and resumed, a queued task that its complete trigger does not
  -- complete and for which the limits have room may run, whatever its times and its trigger, if the
  -- trigger has a syntax tree or one can be made of its text.
  pub check_task-free_dependencies :
      (n : Dependent)
      → n.node_status ≡ queued
      → IsReadable n.trigger_expression
      → evaluate_complete_trigger create_ast reference now n.complete_trigger_expression ≡ ok false
      → check_in_limit_up find_limits s path levels ≡ true
      → check_task create_ast reference now find_limits s path levels
          (resume (free_dependencies all n))
        ≡ ok ready
  unfolding resume free_dependencies
  check_task-free_dependencies n q r d l =
      (check_task_iff (resume (free_dependencies all n))).1
        (q, l, (refl, free_times-IsOnTime n.times, d, free_expression-met n.trigger_expression r))
