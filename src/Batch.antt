-- ===== src/Batch.antt =====
-- src/takler/server/batch.py: how a control command runs on each of its targets. The command's own
-- operation on one target, the snapshot of the flows and the evidence of `controlled_run` are the
-- fields of `Operation`; an exception from the snapshot or from the evidence is `none` there. The text
-- of the response's message is given by the three counts that it prints.
pub mod Ordered
pub mod Effects
use Prim.Native.Char.{Char, code}
use Prim.Native.String.{String, [], ◌∷◌, ◌++◌ as append}
use text.Mathlib.Text.{◌==◌ as str_eq}
use takler.Prelude.{
  ℕ, suc, ◌+◌, ◌-◌, Bool, true, false, ◌&&◌, ◌||◌, not, List, [], ◌∷◌, ◌++◌, map, length, ◌==◌,
  if◌then◌else◌, Option, none, some, is_some,
}
use takler.Client.{Error, error_code_for_exception, error_name_for_code, invalid_node_path_error}

-- `str.split`, by one character: the first part, and the others.
unfoldable pub split : ℕ → String → String × List String
split sep [] = ("", [])
split sep (c ∷ s) =
    let (first, others) = split sep s in
    if code c == sep then ("", first ∷ others) else (c ∷ first, others)

abbrev is_dotted : String → Bool
is_dotted part = str_eq part "" || str_eq part "." || str_eq part ".."

abbrev any_dotted : List String → Bool
any_dotted [] = false
any_dotted (p ∷ ps) = is_dotted p || any_dotted ps

-- What `batch_targets` asks of the operation that it wraps.
pub data Kind : Type 0 where
  begin run force : Kind
  plain : Kind

abbrev is_begin : Kind → Bool
is_begin begin = true
is_begin _ = false

abbrev is_run : Kind → Bool
is_run run = true
is_run _ = false

abbrev is_force : Kind → Bool
is_force force = true
is_force _ = false

-- The tests on what follows the first `/`, and on the attributes after the colons.
abbrev valid_attribute : Kind → List String → Bool
valid_attribute k [] = true
valid_attribute k (a ∷ []) = not (str_eq a "") && is_force k
valid_attribute k (a ∷ b ∷ rest) = false

abbrev valid_parts : Kind → String × List String → Bool
valid_parts k (first, others) =
    not (any_dotted (first ∷ others)) && (not (is_begin k) || is_nil others)
  where
    is_nil : List String → Bool
    is_nil [] = true
    is_nil (_ ∷ _) = false

abbrev valid_path : Kind → String → Bool
valid_path k [] = false
valid_path k (c ∷ rest) = code c == b'/' && valid_parts k (split b'/' rest)

unfoldable pub valid_target : Kind → String → Bool
unfolding split
valid_target k target =
    let (path, attribute) = split b':' target in valid_path k path && valid_attribute k attribute

abbrev tail : String → String
tail [] = []
tail (_ ∷ s) = s

-- The operation takes the name of a begin's flow without the `/`.
abbrev pub argument : Kind → String → String
argument begin target = tail target
argument _ target = target

-- `"none"` is `unaffected`.
pub data Effect : Type 0 where
  unaffected applied partial unknown : Effect

pub record BatchItemResult : Type 0 where
  pub index : ℕ
  pub target : String
  pub flag : ℕ
  pub message : String
  pub effect : Effect

pub record BatchResponse : Type 0 where
  pub flag : ℕ
  pub processed : ℕ
  pub succeeded : ℕ
  pub failed : ℕ
  pub results : List BatchItemResult
  pub had_exception : Bool

-- The operation may raise after it has changed the state.
pub data Outcome (S : Type 0) : Type 0 where
  done : S → Outcome S
  raised : Error → S → Outcome S

pub record Operation (S V : Type 0) : Type 0 where
  pub kind : Kind
  pub operate : String → S → Outcome S
  pub snapshot : S → Option V
  pub same : V → V → Bool
  -- The evidence is asked for before the operation, and its effect is read after it.
  pub controlled_run : String → S → Option (S → Effect)

module _ {S V : Type 0} (op : Operation S V) where
  abbrev pub evidence_of : String → S → Option (S → Effect)
  evidence_of target s = if is_run op.kind then op.controlled_run target s else none

  abbrev pub before_of : String → S → Option V
  before_of target s = if is_some (evidence_of target s) then none else op.snapshot s

  abbrev unchanged : Option V → Option V → Bool
  unchanged (some a) (some b) = op.same b a
  unchanged _ _ = false

  abbrev effect_done : Option V → S → Effect
  effect_done before s =
      if is_run op.kind
      then applied
      else (if unchanged before (op.snapshot s) then unaffected else applied)

  abbrev effect_by_snapshot : Option V → Option V → Effect
  effect_by_snapshot (some a) (some b) = if op.same b a then unaffected else partial
  effect_by_snapshot _ _ = unknown

  abbrev effect_raised : ℕ → Option (S → Effect) → Option V → S → Effect
  effect_raised flag evidence before s = if flag == 99 then unknown else (elim evidence [
    | some effect ↦ effect s
    | none ↦ effect_by_snapshot before (op.snapshot s)
  ])

  abbrev item_of : ℕ → String → ℕ → String → Effect → BatchItemResult
  item_of i target flag message effect = record {
    index = i;
    target = target;
    flag = flag;
    message = message;
    effect = effect;
  }

  abbrev after_operation :
      ℕ → String → Option (S → Effect) → Option V → Outcome S → BatchItemResult × Bool × S
  after_operation i target evidence before (done s) =
      (item_of i target 0 "success" (effect_done before s), false, s)
  after_operation i target evidence before (raised e s) =
      let flag = error_code_for_exception e in
      (
        item_of i target flag (error_name_for_code flag) (effect_raised flag evidence before s),
        true,
        s,
      )

  -- The body of the loop over the targets, and whether it had an exception.
  unfoldable pub run_target : ℕ → String → S → BatchItemResult × Bool × S
  unfolding valid_target error_code_for_exception error_name_for_code
  run_target i target s =
      if valid_target op.kind target
      then after_operation i target (evidence_of target s) (before_of target s)
          (op.operate (argument op.kind target) s)
      else (
        item_of i target (error_code_for_exception invalid_node_path_error)
            (error_name_for_code (error_code_for_exception invalid_node_path_error)) unaffected,
        true,
        s,
      )

  unfoldable pub run_targets : ℕ → List String → S → List BatchItemResult × Bool × S
  unfolding run_target
  run_targets i [] s = ([], false, s)
  run_targets i (t ∷ ts) s =
      let (item, had, s') = run_target i t s in
      let (items, had_later, s'') = run_targets (suc i) ts s' in
      (item ∷ items, had || had_later, s'')

  abbrev pub count_failed : List BatchItemResult → ℕ
  count_failed [] = 0
  count_failed (r ∷ rs) = (if r.flag == 0 then 0 else 1) + count_failed rs

  abbrev response_of : List BatchItemResult → Bool → BatchResponse
  response_of results had =
      let failed = count_failed results in
      record {
        flag = if failed == 0 then 0 else 16;
        processed = length results;
        succeeded = length results - failed;
        failed = failed;
        results = results;
        had_exception = had;
      }

  -- The answer to an empty list of targets.
  abbrev pub no_targets : BatchResponse
  no_targets = record {
    flag = 15;
    processed = 0;
    succeeded = 0;
    failed = 0;
    results = [];
    had_exception = false;
  }

  abbrev pub is_empty : List String → Bool
  is_empty [] = true
  is_empty (_ ∷ _) = false

  -- `execute`, for the targets of the command.
  unfoldable pub execute : List String → S → BatchResponse × S
  unfolding run_targets
  execute targets s =
      let (results, had, s') = run_targets 0 targets s in
      if is_empty targets && not (is_begin op.kind)
      then (no_targets, s)
      else (response_of results had, s')

abbrev all_flows : List String → List String
all_flows [] = []
all_flows (f ∷ fs) = append "/" f ∷ all_flows fs

-- The targets of a begin: the flow that it names, or all flows.
abbrev pub begin_targets : String → List String → List String
begin_targets flow_name flows =
    if str_eq flow_name "" then all_flows flows else append "/" flow_name ∷ []
