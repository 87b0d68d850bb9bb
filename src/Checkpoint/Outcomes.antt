-- ===== src/Checkpoint/Outcomes.antt =====
-- About `_apply_outcome` of src/takler/server/checkpoint.py.
use takler.Prelude.{
  ◌≡◌, ◌≤◌, refl, true, ◌&&◌, not, ltb, if◌then◌else◌, Option, none, some, is_some, bind, ◌⊎◌, inl,
  inr, Bool-cases, arith,
}
use takler.Service.{ServerState, checkpoint_failure, is_in, record_result}
use takler.Service.CauseLists.{IsMade}
use takler.Service.Causes.{checkpointed, on_event, Follows, on_event-Follows}
use takler.Checkpoint.{CheckpointManager, Outcome, reason_or, take_outcome, apply_outcome}

-- The service is halted for a failed checkpoint exactly while the manager has a reason for it, and no
-- success is newer than the last outcome.
pub record IsCoherent (m : CheckpointManager) : Type 0 where
  pub state_made : IsMade m.server_state
  pub reason_known :
      is_some m.checkpoint_failure_reason ≡ is_in checkpoint_failure m.server_state.halt_causes
  pub ordered : m.last_success_sequence ≤ m.last_outcome_sequence

-- What an outcome may do to a manager.
abbrev pub Applies : Outcome → CheckpointManager → Option CheckpointManager → Type 0
Applies o m none = ⊥
Applies o m (some m') =
    IsCoherent m'
    × (m.last_outcome_sequence ≤ m'.last_outcome_sequence)
    × ((m'.server_state ≡ m.server_state)
        ⊎ ((m'.last_outcome_sequence ≡ o.sequence)
            × (is_in checkpoint_failure m'.server_state.halt_causes ≡ not o.success)))

taken :
    (o : Outcome) (m m' : CheckpointManager) (r : Option ServerState)
    → m.last_outcome_sequence ≤ o.sequence
    → m'.last_success_sequence ≤ o.sequence
    → Follows (checkpointed o.success) m.server_state r
    → Applies o m (
        bind r (λ s. some (record m' {
          last_outcome_sequence = o.sequence;
          checkpoint_failure_reason = if o.success then none else some (reason_or o.reason);
          server_state = s;
        })))
taken o m m' none l k h = h
taken o m m' (some s) l k (made, causes) = (
  record {
    state_made = made;
    reason_known = elim (Bool-cases o.success) [
      | inl e ↦ ground (arith, causes checkpoint_failure)
      | inr e ↦ ground (arith, causes checkpoint_failure)
    ];
    ordered = k;
  },
  l,
  inr (refl, causes checkpoint_failure),
)

-- The rest of the call, after a success was noted or not.
kept :
    (o : Outcome) (m m' : CheckpointManager)
    → m'.last_outcome_sequence ≡ m.last_outcome_sequence
    → m'.server_state ≡ m.server_state
    → m'.checkpoint_failure_reason ≡ m.checkpoint_failure_reason
    → m'.last_success_sequence ≤ m.last_outcome_sequence
    → IsCoherent m
    → Applies o m (some m')
kept o m m' e s r l h = (
  record {
    state_made = rw s h.state_made;
    reason_known = rw (s, r) h.reason_known;
    ordered = omega arith;
  },
  omega arith,
  inl s,
)

rest :
    (o : Outcome) (m m' : CheckpointManager)
    → m'.last_outcome_sequence ≡ m.last_outcome_sequence
    → m'.server_state ≡ m.server_state
    → m'.checkpoint_failure_reason ≡ m.checkpoint_failure_reason
    → (m'.last_success_sequence ≤ m.last_outcome_sequence)
      ⊎ ((m'.last_success_sequence ≡ o.sequence) × (o.published ≡ true))
    → IsCoherent m
    → Applies o m (
        if ltb o.sequence m'.last_outcome_sequence
        then some m'
        else (if not o.published && o.success then some m' else take_outcome o m'))
rest o m m' e s r l h = elim (Bool-cases (ltb o.sequence m'.last_outcome_sequence)) [
  | inl late ↦ rw late (kept o m m' e s r (ground arith) h)
  | inr now ↦ rw now (elim (Bool-cases (not o.published && o.success)) [
    | inl old ↦ rw old (kept o m m' e s r (ground arith) h)
    | inr new ↦ rw new (
        rw s (
          taken o m m' (record_result o.success m.server_state) (ground arith) (ground arith) (
            unfold on_event in
            on_event-Follows (checkpointed o.success) m.server_state h.state_made)))
  ])
]

-- An outcome is never refused, whatever the order. It leaves the manager and the causes in step; the
-- last outcome never goes back; and the state of the service stays as it was unless the outcome is
-- now the last, and then the service is halted for a failed checkpoint exactly if the write failed.
pub apply_outcome-Applies :
    (o : Outcome) (m : CheckpointManager) → IsCoherent m → Applies o m (apply_outcome o m)
unfolding apply_outcome
apply_outcome-Applies o m h =
    elim (Bool-cases (o.success && o.published && ltb m.last_success_sequence o.sequence)) [
      | inl noted ↦ rw noted (
          rest o m
            (record m { last_checkpoint_at = some o.saved_at; last_success_sequence = o.sequence })
            refl refl refl (inr (refl, ground arith)) h)
      | inr unnoted ↦ rw unnoted (rest o m m refl refl refl (inl h.ordered) h)
    ]
