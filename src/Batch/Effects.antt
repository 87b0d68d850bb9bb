-- ===== src/Batch/Effects.antt =====
-- About the effects that a batch reports (src/takler/server/batch.py).
use Prim.Native.String.{String}
use takler.Prelude.{
  ℕ, ◌≡◌, ◌≢◌, ◌↔◌, ◌⊎◌, inl, inr, refl, ap, sym, ==_iff, Bool, true, false, ◌==◌, if◌then◌else◌,
  Option, none, some, Bool-cases, arith,
}
use mathlib.Core.Option.{some-injective}
use takler.Client.{Error, error_code_for_exception, error_code_by_type}
use takler.Batch.{
  Effect, unaffected, applied, partial, unknown, valid_target, Outcome, done, raised, Operation,
  argument, run_target, after_operation, evidence_of, is_run, effect_by_snapshot, unchanged,
}

-- What an effect says of the snapshots around the operation, and of the flag beside it.
abbrev pub IsTrue : {V : Type 0} → (is_run : Bool) → Effect → ℕ → Option V → Option V → Type 0
IsTrue r unaffected flag before after = before ≡ after
IsTrue r applied flag before after = (flag ≡ 0) × ((r ≡ true) ⊎ (before ≡ none) ⊎ (before ≢ after))
IsTrue r partial flag before after = (flag ≢ 0) × (before ≢ after)
IsTrue r unknown flag before after = (flag ≡ 99) ⊎ (before ≡ none) ⊎ (after ≡ none)

code_pos : (e : Error) → error_code_for_exception e ≢ 0
unfolding error_code_for_exception error_code_by_type
code_pos e h = ground arith

module _ {S V : Type 0} (op : Operation S V)
    (same_iff : (a b : V) → (op.same a b ≡ true) ↔ (a ≡ b)) where
  differ : (a b : V) → op.same b a ≡ false → some a ≢ some b
  differ a b h k = let same = (same_iff b a).1 (some-injective b a (sym k)) in ground arith

  equal : (a b : V) → op.same b a ≡ true → some a ≡ some b
  equal a b h = ap some (sym ((same_iff b a).0 h))

  done-IsTrue :
      (r : Bool) (before after : Option V)
      → IsTrue r
          (if r then applied else (if unchanged op before after then unaffected else applied))
          0
          before
          after
  done-IsTrue true before after = (refl, inl refl)
  done-IsTrue false none after = (refl, inr (inl refl))
  done-IsTrue false (some a) none = (refl, inr (inr (λ k. ground arith)))
  done-IsTrue false (some a) (some b) = elim (Bool-cases (op.same b a)) [
    | inl e ↦ rw e (equal a b e)
    | inr e ↦ rw e (refl, inr (inr (differ a b e)))
  ]

  snapshot-IsTrue :
      (r : Bool) (flag : ℕ) (before after : Option V)
      → flag ≢ 0
      → IsTrue r (effect_by_snapshot op before after) flag before after
  snapshot-IsTrue r flag none after h = inr (inl refl)
  snapshot-IsTrue r flag (some a) none h = inr (inr refl)
  snapshot-IsTrue r flag (some a) (some b) h = elim (Bool-cases (op.same b a)) [
    | inl e ↦ rw e (equal a b e)
    | inr e ↦ rw e (h, differ a b e)
  ]

  raised-IsTrue :
      (r : Bool) (flag : ℕ) (before after : Option V)
      → flag ≢ 0
      → IsTrue r
          (if flag == 99 then unknown else effect_by_snapshot op before after)
          flag
          before
          after
  raised-IsTrue r flag before after h = elim (Bool-cases (flag == 99)) [
    | inl e ↦ rw e (inl ((==_iff flag 99).0 e))
    | inr e ↦ rw e (snapshot-IsTrue r flag before after h)
  ]

  after_operation-IsTrue :
      (i : ℕ) (t : String) (before : Option V) (o : Outcome S)
      → let r = after_operation op i t none before o in
        IsTrue (is_run op.kind) r.0.effect r.0.flag before (op.snapshot r.2)
  after_operation-IsTrue i t before (done s) = done-IsTrue (is_run op.kind) before (op.snapshot s)
  after_operation-IsTrue i t before (raised e s) =
      raised-IsTrue (is_run op.kind) (error_code_for_exception e) before (op.snapshot s)
        (code_pos e)

  -- Where no evidence of `controlled_run` is asked for or given, the effect reported for a target is
  -- true of the snapshots taken before and after it: unaffected, they are the same; partial, the
  -- target failed and they differ; applied, it succeeded, and they differ unless the command is run or
  -- there is no snapshot; unknown, the error is internal or a snapshot is missing.
  pub run_target-IsTrue :
      (i : ℕ) (t : String) (s : S)
      → evidence_of op t s ≡ none
      → let r = run_target op i t s in
        IsTrue (is_run op.kind) r.0.effect r.0.flag (op.snapshot s) (op.snapshot r.2)
  unfolding run_target
  run_target-IsTrue i t s h = elim (Bool-cases (valid_target op.kind t)) [
    | inl e ↦
        rw e (rw h (after_operation-IsTrue i t (op.snapshot s) (op.operate (argument op.kind t) s)))
    | inr e ↦ rw e refl
  ]
