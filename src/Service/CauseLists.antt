-- ===== src/Service/CauseLists.antt =====
-- About lists of causes and the states made of them (src/takler/core/bunch.py).
use takler.Prelude.{
  ◌≡◌, refl, sym, ap, Bool, true, false, ◌&&◌, ◌||◌, not, List, [], ◌∷◌, ◌++◌, Option, none, some,
  Bool-cases, inl, inr, arith,
}
use takler.Service.{
  HaltCause, manual, recovery, checkpoint_failure, ServerState, cause_eq, is_in, reason_for,
  has_repeat, is_running, is_nil, reason_eq, consistent, from_causes, with_cause, without,
  causes_eq,
}

reason_eq_refl :
    (causes : List HaltCause) → reason_eq (reason_for causes) (reason_for causes) ≡ true
unfolding reason_for
reason_eq_refl causes = ground arith

-- A state as its causes make it.
pub record IsMade (s : ServerState) : Type 0 where
  pub made : from_causes s.halt_causes ≡ some s
  pub distinct : has_repeat s.halt_causes ≡ false

abbrev pub Has : List HaltCause → Option ServerState → Type 0
Has causes none = ⊥
Has causes (some s) =
    IsMade s
    × (s.halt_causes ≡ causes)
    × (consistent s ≡ true)
    × (is_running s.status ≡ is_nil causes)

-- A list of causes without repeats makes a state that passes its own validation.
pub from_causes-Has :
    (causes : List HaltCause) → has_repeat causes ≡ false → Has causes (from_causes causes)
unfolding from_causes consistent
from_causes-Has [] h = (record { made = refl; distinct = refl }, refl, refl, refl)
from_causes-Has (c ∷ cs) h =
    let r = reason_eq_refl (c ∷ cs) in
    rw (h, r) (record { made = rw (h, r) refl; distinct = h }, refl, rw (h, r) refl, refl)

cause_eq_sound : (c d : HaltCause) → cause_eq c d ≡ true → c ≡ d
cause_eq_sound manual manual h = refl
cause_eq_sound recovery recovery h = refl
cause_eq_sound checkpoint_failure checkpoint_failure h = refl
cause_eq_sound manual recovery h = ground arith
cause_eq_sound manual checkpoint_failure h = ground arith
cause_eq_sound recovery manual h = ground arith
cause_eq_sound recovery checkpoint_failure h = ground arith
cause_eq_sound checkpoint_failure manual h = ground arith
cause_eq_sound checkpoint_failure recovery h = ground arith

cause_eq-sym : (c d : HaltCause) → cause_eq c d ≡ cause_eq d c
cause_eq-sym manual manual = refl
cause_eq-sym manual recovery = refl
cause_eq-sym manual checkpoint_failure = refl
cause_eq-sym recovery manual = refl
cause_eq-sym recovery recovery = refl
cause_eq-sym recovery checkpoint_failure = refl
cause_eq-sym checkpoint_failure manual = refl
cause_eq-sym checkpoint_failure recovery = refl
cause_eq-sym checkpoint_failure checkpoint_failure = refl

is_in-append :
    (d c : HaltCause) (cs : List HaltCause) → is_in d (cs ++ c ∷ []) ≡ (cause_eq c d || is_in d cs)
is_in-append d c [] = ground arith
is_in-append d c (e ∷ cs) = let t = is_in-append d c cs in ground arith

pub is_in-with_cause :
    (d c : HaltCause) (cs : List HaltCause)
    → is_in d (with_cause c cs) ≡ (cause_eq c d || is_in d cs)
is_in-with_cause d c cs = elim (Bool-cases (is_in c cs)) [
  | inr e ↦ rw e (is_in-append d c cs)
  | inl e ↦ rw e (elim (Bool-cases (cause_eq c d)) [
    | inl same ↦ let t = cause_eq_sound c d same in rw same (rw (sym t) e)
    | inr differs ↦ rw differs refl
  ])
]

has_repeat-append :
    (c : HaltCause) (cs : List HaltCause)
    → is_in c cs ≡ false
    → has_repeat (cs ++ c ∷ []) ≡ has_repeat cs
has_repeat-append c [] h = ground arith
has_repeat-append c (d ∷ cs) h =
    let t = is_in-append d c cs in
    let u = has_repeat-append c cs (ground arith) in let v = cause_eq-sym c d in ground arith

pub has_repeat-with_cause :
    (c : HaltCause) (cs : List HaltCause) → has_repeat (with_cause c cs) ≡ has_repeat cs
has_repeat-with_cause c cs = elim (Bool-cases (is_in c cs)) [
  | inl e ↦ rw e refl
  | inr e ↦ rw e (has_repeat-append c cs e)
]

pub is_in-without :
    (drops : HaltCause → Bool) (d : HaltCause) (cs : List HaltCause)
    → is_in d (without drops cs) ≡ (not (drops d) && is_in d cs)
is_in-without drops d [] = ground arith
is_in-without drops d (c ∷ cs) = elim (Bool-cases (cause_eq c d)) [
  | inl same ↦
      let t = is_in-without drops d cs in
      let u = cause_eq_sound c d same in let v : drops c ≡ drops d = ap drops u in ground arith
  | inr differs ↦ let t = is_in-without drops d cs in ground arith
]

pub has_repeat-without :
    (drops : HaltCause → Bool) (cs : List HaltCause)
    → has_repeat cs ≡ false
    → has_repeat (without drops cs) ≡ false
has_repeat-without drops [] h = refl
has_repeat-without drops (c ∷ cs) h =
    let t = is_in-without drops c cs in
    let u = has_repeat-without drops cs (ground arith) in ground arith

pub causes_eq_sound : (cs ds : List HaltCause) → causes_eq cs ds ≡ true → cs ≡ ds
causes_eq_sound [] [] h = refl
causes_eq_sound [] (d ∷ ds) h = ground arith
causes_eq_sound (c ∷ cs) [] h = ground arith
causes_eq_sound (c ∷ cs) (d ∷ ds) h =
    let t = cause_eq_sound c d (ground arith) in
    let u = causes_eq_sound cs ds (ground arith) in rw (t, u) refl
