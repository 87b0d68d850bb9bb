-- ===== src/Handlers/Boundary.antt =====
-- About `dispatch` of src/takler/server/handlers.py.
use Prim.Native.String.{String}
use takler.Prelude.{
  ℕ, ◌+◌, ◌≡◌, refl, ◌==◌, Bool, true, false, ◌&&◌, ◌||◌, List, ◌∷◌, if◌then◌else◌, Bool-cases, inl,
  inr, arith,
}
use takler.Journal.{QueryChanges, begin, finish}
use takler.Handlers.{
  Command, mutates, Response, flag_of, had_exception, Result, returned, raised, error_response,
  fails_fast, AuditRecord, Server, Service, audit_control, handle_command, dispatch, enter, leave,
  operate, answer, answer_failure, masked, trigger_if,
}
use takler.Handlers.Errors.{
  is_control_command, is_control-method_name, recorded, ErrorIs, error_response-ErrorIs,
  finish-depth,
}

-- Whether the operation, or a target of its batch, raised.
abbrev pub went_wrong : Result Response → Bool
went_wrong (returned r) = had_exception r
went_wrong (raised e) = true

-- What is returned where the operation ended so.
abbrev pub IsAnswer : Command → Bool → Result Response → Result Response → Type 0
IsAnswer c query_errors (returned x) r = r ≡ returned x
IsAnswer c query_errors (raised e) r = ErrorIs c query_errors r

-- The records after the response, which is on record exactly once if the command is a control command.
abbrev pub Audited : Bool → Command → Result Response → List AuditRecord → List AuditRecord → Type 0
Audited logs c (returned r) before after = after ≡ recorded logs c r before
Audited logs c (raised e) before after = after ≡ before

abbrev pub revisions : Command → ℕ
revisions c = if mutates c then 2 else 0

module _ {S R : Type 0} (service : Service S R) where
  -- How a command ends, for what its operation gives.
  pub record IsHandled (c : Command) (query_errors : Bool) (o : Result Response) (revisions : ℕ)
      (s : Server S) (r : Result Response) (s' : Server S) : Type 0 where
    pub is_answer : IsAnswer c query_errors o r
    pub is_audited : Audited service.has_audit_logger c r s.audit s'.audit
    pub is_fatal : s'.fatal_error ≡ (s.fatal_error || (went_wrong o && fails_fast service.policy))
    pub is_closed : s'.query_changes.depth ≡ s.query_changes.depth
    pub revises : s'.query_revision ≡ s.query_revision + revisions

  audit_control_lem :
      (c : Command) (r : Response) (s : Server S)
      → audit_control service c r s
        ≡ record s { audit = recorded service.has_audit_logger c r s.audit }
  unfolding audit_control
  audit_control_lem c r s = rw (is_control-method_name c) (
      logged (service.has_audit_logger && is_control_command c)
        (record { command = c; is_success = flag_of r == 0; error_code = flag_of r }))
    where
      logged :
          (b : Bool) (x : AuditRecord)
          → (if b then (record s { audit = x ∷ s.audit }) else s)
            ≡ record s { audit = if b then x ∷ s.audit else s.audit }
      logged true x = refl
      logged false x = refl

  answer-IsHandled :
      (c : Command) (query_errors : Bool) (o : Result Response) (s s' : Server S)
      → s'.audit ≡ s.audit
      → s'.fatal_error ≡ s.fatal_error
      → s'.query_changes.depth ≡ s.query_changes.depth
      → s'.query_revision ≡ s.query_revision
      → let (r, t) = answer service c query_errors (o, s') in IsHandled c query_errors o 0 s r t
  answer-IsHandled c query_errors (returned x) s s' a f d v =
      rw (audit_control_lem c x s') (record {
        is_answer = refl;
        is_audited = rw a refl;
        is_fatal = rw f refl;
        is_closed = d;
        revises = omega arith;
      })
  answer-IsHandled c query_errors (raised e) s s' a f d v =
      failure (error_response c query_errors (masked service c e))
        (error_response-ErrorIs c query_errors (masked service c e))
    where
      t : Server S
      t = trigger_if service (fails_fast service.policy) s'

      failure :
          (r : Result Response)
          → ErrorIs c query_errors r
          → IsHandled c query_errors
              (raised e)
              0
              s
              (answer_failure service c r t).0
              (answer_failure service c r t).1
      failure (returned x) k = rw (audit_control_lem c x t) (record {
        is_answer = k;
        is_audited = rw a refl;
        is_fatal = rw f refl;
        is_closed = d;
        revises = omega arith;
      })
      failure (raised x) k = record {
        is_answer = k;
        is_audited = a;
        is_fatal = rw f refl;
        is_closed = d;
        revises = omega arith;
      }

  -- The server as the command's operation finds it.
  abbrev pub entered : (String → ℕ) → Command → Server S → Server S
  entered utf8_length c s = if mutates c then enter service utf8_length s else s

  module _
      (keeps : (c : Command) (q : R) (x : S) (changes : QueryChanges)
        → (service.run c q x changes).2.depth ≡ changes.depth) where
    handle_command-IsHandled :
        (c : Command) (query_errors : Bool) (s : Server S)
        → let (r, s') = handle_command service c query_errors s in
          IsHandled c query_errors (operate service c service.parse_request s).0 0 s r s'
    unfolding handle_command
    handle_command-IsHandled c query_errors s = parsed service.parse_request
      where
        parsed :
            (p : Result R)
            → let (o, t) = operate service c p s in
              let (r, s') = answer service c query_errors (o, t) in
              IsHandled c query_errors o 0 s r s'
        parsed (raised e) = answer-IsHandled c query_errors (raised e) s s refl refl refl refl
        parsed (returned q) =
            answer-IsHandled c query_errors (service.run c q s.scheduler s.query_changes).0 s
              (operate service c (returned q) s).1 refl refl (keeps c q s.scheduler s.query_changes)
              refl

    module _ (utf8_length : String → ℕ) where
      left-IsHandled :
          (now : ℕ) (c : Command) (query_errors : Bool) (o : Result Response) (s : Server S)
          (r : Result Response) (t : Server S)
          → IsHandled c query_errors o 0 (enter service utf8_length s) r t
          → let (r', s') =
              leave service utf8_length (finish utf8_length now t.query_changes) (r, t) in
            IsHandled c query_errors o 2 s r' s'
      unfolding begin
      left-IsHandled now c query_errors o s r t h =
          let (q, e, d) =
            finish-depth utf8_length now s.query_changes.depth t.query_changes h.is_closed in
          rw e (record {
            is_answer = h.is_answer;
            is_audited = h.is_audited;
            is_fatal = h.is_fatal;
            is_closed = d;
            revises = (let v = h.revises in omega arith);
          })

      -- Each command, where the scheduler's operation closes the transactions that it opens, is answered
      -- by what its operation returns, or by an error response if that raises: of a flag that is not 0,
      -- but for the two queries, of which only one that asks for it raises. A control command, of the
      -- eleven that change flows or service, adds exactly one audit record, with the flag of the
      -- response, where there is an audit log; no other command does. A shutdown is asked for exactly
      -- if the policy is to fail fast and the operation or a target of its batch raised. The
      -- journal's transaction is closed, and a command that mutates moves the revision on by two.
      pub dispatch-IsHandled :
          (now : ℕ) (c : Command) (query_errors : Bool) (s : Server S)
          → let (r, s') = dispatch service utf8_length now c query_errors s in
            IsHandled c query_errors
              (operate service c service.parse_request (entered utf8_length c s)).0
              (revisions c)
              s
              r
              s'
      unfolding dispatch
      dispatch-IsHandled now c query_errors s = elim (Bool-cases (mutates c)) [
        | inr e ↦ rw e (handle_command-IsHandled c query_errors s)
        | inl e ↦ rw e (
            let t = enter service utf8_length s in
            left-IsHandled now c query_errors (operate service c service.parse_request t).0 s
              (handle_command service c query_errors t).0
              (handle_command service c query_errors t).1
              (handle_command-IsHandled c query_errors t))
      ]
