-- ===== src/Scan.antt =====
-- src/takler/server/scheduler.py and src/takler/core/node_container.py: one pass of the main loop over
-- the flows. `_flow_work` is a generator that visits the nodes of a flow one at a time; the loop
-- takes slices of it in turn. What a node's own methods do to the state is a field of `Hooks`, and the
-- children of a node stay as they are during a pass. The query index and the logs are left out, and so
-- is a flow of a class of its own, whose methods may be others.
pub mod Order
pub mod Rounds
use takler.Prelude.{
  ℕ, zero, suc, ◌+◌, Bool, true, false, ◌&&◌, ◌||◌, not, List, [], ◌∷◌, ◌++◌, if◌then◌else◌, Option,
  none, some,
}

-- What a call leaves behind: its value and the state, or an exception and the state.
pub data Outcome (A S : Type 0) : Type 0 where
  finished : A → S → Outcome A S
  raised : S → Outcome A S

infixl 20 ◌>>=◌
abbrev pub ◌>>=◌ : {A B S : Type 0} → Outcome A S → (A → S → Outcome B S) → Outcome B S
finished a s >>= f = f a s
raised s >>= f = raised s

-- A node whose class keeps `NodeContainer.resolve_dependencies`, or another one: a task.
mutual
  pub data Item (L : Type 0) : Type 0 where
    container : L → Items L → Item L
    other : L → Item L

  pub data Items (L : Type 0) : Type 0 where
    nil : Items L
    cons : Item L → Items L → Items L

-- The methods of the nodes and of the flow, and what the scheduler reads.
pub record Hooks (L S : Type 0) : Type 0 where
  pub check_dependencies : L → S → Outcome Bool S
  pub resolve_other : L → S → Outcome Unit S
  pub update_calendar : L → S → Outcome Unit S
  -- `_service_stopping`
  pub is_stopping : S → Bool
  pub is_halted : S → Bool
  pub begun : L → S → Bool
  -- `flows.get(name) is flow`
  pub is_attached : L → S → Bool
  pub should_stop : S → Bool
  -- `_trigger_fatal_shutdown`
  pub fatal_shutdown : S → S

-- What remains of a generator.
pub data Work (L : Type 0) : Type 0 where
  fresh : Items L → Work L
  midway : List (Items L) → Work L

-- How a call of `next` ends.
pub data Step (L S : Type 0) : Type 0 where
  yielded : Work L → S → Step L S
  returned : S → Step L S
  failed : S → Step L S

-- A flow of the pass, with its generator.
pub record Job (L : Type 0) : Type 0 where
  pub flow : L
  pub steps : Work L

module _ {L S : Type 0} (hooks : Hooks L S) where
  abbrev pub is_stopped : S → Bool
  is_stopped s = hooks.is_stopping s || hooks.is_halted s

  -- `NodeContainer.resolve_dependencies`, and that of each child in turn. Its value is not read.
  unfoldable mutual
    pub resolve_item : Item L → S → Outcome Unit S
    resolve_item (container l kids) s = hooks.check_dependencies l s >>= λ met s'.
        let below = resolve_items kids s' in if met then below else finished tt s'
    resolve_item (other l) s = hooks.resolve_other l s

    pub resolve_items : Items L → S → Outcome Unit S
    resolve_items nil s = finished tt s
    resolve_items (cons i is) s = resolve_item i s >>= λ _ s'. resolve_items is s'

  -- `_process_flow`
  unfoldable pub process_flow : L → Items L → S → Outcome Unit S
  unfolding resolve_item
  process_flow flow kids s =
      if is_stopped s || not (hooks.begun flow s)
      then finished tt s
      else (hooks.update_calendar flow s >>= λ _ s'.
          if is_stopped s' then finished tt s' else resolve_item (container flow kids) s')

  -- The test at the head of each round of the loop in `_flow_work`.
  abbrev pub is_dropped : L → S → Bool
  is_dropped flow s = is_stopped s || not (hooks.begun flow s) || not (hooks.is_attached flow s)

  abbrev pub after_check : Items L → List (Items L) → Outcome Bool S → Step L S
  after_check kids rest (finished met s) = yielded (midway (if met then kids ∷ rest else rest)) s
  after_check kids rest (raised s) = failed s

  abbrev pub after_other : List (Items L) → Outcome Unit S → Step L S
  after_other rest (finished _ s) = yielded (midway rest) s
  after_other rest (raised s) = failed s

  -- The loop of `_flow_work`, up to its next `yield`, for a stack of iterators.
  unfoldable pub advance : L → List (Items L) → S → Step L S
  advance flow [] s = returned s
  advance flow (nil ∷ rest) s =
      let popped = advance flow rest s in if is_dropped flow s then returned s else popped
  advance flow (cons (container l kids) more ∷ rest) s =
      if is_dropped flow s
      then returned s
      else after_check kids (more ∷ rest) (hooks.check_dependencies l s)
  advance flow (cons (other l) more ∷ rest) s =
      if is_dropped flow s then returned s else after_other (more ∷ rest) (hooks.resolve_other l s)

  abbrev pub after_flow : L → Items L → Outcome Bool S → Step L S
  after_flow flow kids (finished met s) = if met then advance flow (kids ∷ []) s else returned s
  after_flow flow kids (raised s) = failed s

  abbrev pub after_calendar : L → Items L → Outcome Unit S → Step L S
  after_calendar flow kids (finished _ s) =
      if is_stopped s then returned s else after_flow flow kids (hooks.check_dependencies flow s)
  after_calendar flow kids (raised s) = failed s

  -- `next(steps)`
  unfoldable pub next : L → Work L → S → Step L S
  next flow (fresh kids) s =
      if is_stopped s || not (hooks.begun flow s)
      then returned s
      else after_calendar flow kids (hooks.update_calendar flow s)
  next flow (midway stack) s = advance flow stack s

  -- A slice: at most so many steps, and fewer where the clock says so.
  unfoldable pub slice : (ℕ → Bool) → L → ℕ → Work L → S → Step L S
  slice is_late flow zero w s = yielded w s
  slice is_late flow (suc n) w s = elim (next flow w s) [
    | yielded w' s' ↦ if is_late n then yielded w' s' else slice is_late flow n w' s'
    | returned s' ↦ returned s'
    | failed s' ↦ failed s'
  ]

abbrev pub flow_scan_slice_nodes : ℕ
flow_scan_slice_nodes = 16

-- `ExceptionPolicy`
pub data ExceptionPolicy : Type 0 where
  resilient fail_fast : ExceptionPolicy

-- How a turn of one flow ends: the loop ends, goes on at once, or lets other tasks run first.
pub data Turn (L S : Type 0) : Type 0 where
  ends : S → Turn L S
  continues : List (Job L) → S → Turn L S
  sleeps : List (Job L) → S → Turn L S

-- Other tasks of the event loop run between two slices, and while the loop waits for the lock: `others`
-- and `waiting` are what they do to the state, by the turns left. `none` is a loop that goes on
-- longer than the fuel.
module _ {L S : Type 0} (hooks : Hooks L S) (is_late : ℕ → Bool) (policy : ExceptionPolicy)
    (others waiting : ℕ → S → S) where
  -- Where the slice of a flow leaves the work, with the exception boundary around it.
  abbrev pub after_slice : L → List (Job L) → Step L S → Turn L S
  after_slice flow work (yielded w s) = sleeps (work ++ (record { flow = flow; steps = w } ∷ [])) s
  after_slice flow work (returned s) = sleeps work s
  after_slice flow work (failed s) = elim policy [
    | fail_fast ↦ ends (hooks.fatal_shutdown s)
    | resilient ↦ continues work s
  ]

  -- The turn of a flow, once the lock is taken.
  unfoldable pub turn : Job L → List (Job L) → S → Turn L S
  unfolding slice
  turn j work s =
      if hooks.is_halted s || not (hooks.begun j.flow s)
      then continues work s
      else after_slice j.flow work (slice hooks is_late j.flow flow_scan_slice_nodes j.steps s)

  -- The loop `while work and not self.should_stop` of `main_loop`.
  unfoldable pub pass : ℕ → List (Job L) → S → Option S
  unfolding turn
  pass fuel [] s = some s
  pass zero (j ∷ work) s = if hooks.should_stop s then some s else none
  pass (suc n) (j ∷ work) s =
      if hooks.should_stop s
      then some s
      else (if not (hooks.is_attached j.flow s)
          then pass n work s
          else elim (turn j work (waiting n s)) [
            | ends s' ↦ some s'
            | continues work' s' ↦ pass n work' s'
            | sleeps work' s' ↦ pass n work' (others n s')
          ])
