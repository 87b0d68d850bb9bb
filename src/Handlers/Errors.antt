-- ===== src/Handlers/Errors.antt =====
-- About the error responses, the audited commands and the transactions of the boundary around each command
-- (src/takler/server/handlers.py and query_changes.py).
use Prim.Native.String.{String}
use takler.Prelude.{
  ℕ, ◌+◌, ◌-◌, ◌≡◌, ◌≢◌, ◌⊎◌, inl, inr, refl, ◌∙◌, ◌==◌, Bool, true, false, ◌&&◌, List, [], ◌∷◌,
  some, if◌then◌else◌, Bool-cases, arith, length,
}
use takler.Client.{Error, error_code_for_exception, error_code_by_type, foreign_error}
use takler.Journal.{
  QueryChanges, ChangeBatch, is_over, drop_oldest, append_batch, finish, close, commit, expire,
  expire_from,
}
use takler.Handlers.{
  Command, init, requeue, suspend, resume, run, force, free_dep, load, replace, begin_flow,
  server_halt, server_resume, method_name, is_control, is_batch, is_query, is_status, Failure,
  validation_error, failure_of, code_of, Response, flag_of, Result, returned, raised,
  error_response, flag_for, AuditRecord,
}

-- The commands that an operator changes the flows or the service by.
abbrev pub is_control_command : Command → Bool
is_control_command requeue = true
is_control_command suspend = true
is_control_command resume = true
is_control_command run = true
is_control_command force = true
is_control_command free_dep = true
is_control_command load = true
is_control_command replace = true
is_control_command begin_flow = true
is_control_command server_halt = true
is_control_command server_resume = true
is_control_command _ = false

-- The table of privileges gives these.
pub is_control-method_name : (c : Command) → is_control (method_name c) ≡ is_control_command c
unfolding is_control method_name
is_control-method_name init = refl
is_control-method_name c = refl

code_pos : (e : Error) → error_code_for_exception e ≢ 0
unfolding error_code_for_exception error_code_by_type
code_pos e h = ground arith

-- What is recorded of a response.
abbrev pub recorded : Bool → Command → Response → List AuditRecord → List AuditRecord
recorded logs c r audit =
    if logs && is_control_command c
    then record { command = c; is_success = flag_of r == 0; error_code = flag_of r } ∷ audit
    else audit

-- A transaction that is open ends one deep less.
expire_from-depth :
    (now : ℕ) (bs : List ChangeBatch) (q : QueryChanges) → (expire_from now bs q).depth ≡ q.depth
unfolding expire_from
expire_from-depth now [] q = refl
expire_from-depth now (b ∷ rest) q = elim (Bool-cases (is_over now q b)) [
  | inl e ↦ rw e (expire_from-depth now rest (drop_oldest q b rest))
  | inr e ↦ rw e refl
]

module _ (utf8_length : String → ℕ) where
  commit-depth : (now : ℕ) (q : QueryChanges) → (commit utf8_length now q).depth ≡ q.depth
  unfolding commit expire
  commit-depth now q = elim (Bool-cases (length q.pending == 0)) [
    | inl e ↦ rw e refl
    | inr e ↦ rw e (expire_from-depth now _ (append_batch utf8_length now q))
  ]

  close-depth : (now : ℕ) (q : QueryChanges) → (close utf8_length now q).depth ≡ q.depth
  close-depth now q = elim (Bool-cases (q.depth == 0)) [
    | inl e ↦ simp e (commit-depth now q)
    | inr e ↦ simp e refl
  ]

  pub finish-depth :
      (now d : ℕ) (q : QueryChanges)
      → q.depth ≡ d + 1
      → (q' : QueryChanges) × (finish utf8_length now q ≡ some q') × (q'.depth ≡ d)
  unfolding finish
  finish-depth now d q e =
      let open_one : (q.depth == 0) ≡ false = ground arith in
      let q' : QueryChanges = record q { depth = q.depth - 1 } in
      (close utf8_length now q', simp open_one refl, close-depth now q' ∙ omega arith)

-- What an error response is.
abbrev pub ErrorIs : Command → Bool → Result Response → Type 0
ErrorIs c query_errors (returned r) = (is_query c ≡ true) ⊎ (flag_of r ≢ 0)
ErrorIs c query_errors (raised e) = (query_errors ≡ true) × (is_query c ≡ true)

flag_for-pos : (e : Failure) → flag_for e ≢ 0
flag_for-pos validation_error h = ground arith
flag_for-pos (failure_of e) h = code_pos e h

code_of-pos : (e : Failure) → code_of e ≢ 0
unfolding code_of
code_of-pos validation_error h = code_pos foreign_error h
code_of-pos (failure_of e) h = code_pos e h

pub error_response-ErrorIs :
    (c : Command) (query_errors : Bool) (e : Failure)
    → ErrorIs c query_errors (error_response c query_errors e)
unfolding error_response
error_response-ErrorIs c query_errors e = elim (Bool-cases (is_batch c)) [
  | inl b ↦ rw b (inr (flag_for-pos e))
  | inr b ↦ rw b (elim (Bool-cases (query_errors && is_query c)) [
    | inl q ↦ rw q (ground arith, ground arith)
    | inr q ↦ rw q (elim (Bool-cases (is_status c)) [
      | inl s ↦ rw s (inr (flag_for-pos e))
      | inr s ↦ rw s (elim (Bool-cases (is_query c)) [
        | inl k ↦ rw k (inl k)
        | inr k ↦ rw k (inr (code_of-pos e))
      ])
    ])
  ])
]
