-- ===== src/Definitions/Distinct.antt =====
-- About the names of the flows that are loaded (`run_command_load` of src/takler/server/scheduler.py).
use Prim.Native.String.{String}
use text.Mathlib.Text.{◌==◌ as str_eq}
use text.Mathlib.TextEquality.{eq_iff}
use takler.Prelude.{
  ◌≡◌, refl, sym, ap, false, List, [], ◌∷◌, ◌++◌, Option, none, some, Bool-cases, inl, inr, arith,
}
use takler.Client.{Error}
use takler.Definitions.{
  Online, Bunch, flow_name, Constructed, definition_error, a_flow, a_bunch, Builder, has_flow,
  append_flow, load_built, then_built, run_command_load,
}

-- No two flows have one name.
abbrev pub IsDistinct : List Online → Type 0
IsDistinct [] = Unit
IsDistinct (f ∷ fs) = (has_flow (flow_name f) fs ≡ false) × IsDistinct fs

str_eq-sym : (s t : String) → str_eq s t ≡ false → str_eq t s ≡ false
str_eq-sym s t h = elim (Bool-cases (str_eq t s)) [
  | inr e ↦ e
  | inl e ↦ absurd (let k = (eq_iff s t).1 (sym ((eq_iff t s).0 e)) in cc)
]

append_flow-eq : (f : Online) (fs : List Online) → append_flow f fs ≡ fs ++ f ∷ []
append_flow-eq f [] = refl
append_flow-eq f (g ∷ fs) = ap (λ gs. g ∷ gs) (append_flow-eq f fs)

has_flow-append :
    (name : String) (f : Online) (fs : List Online)
    → has_flow name fs ≡ false
    → str_eq (flow_name f) name ≡ false
    → has_flow name (append_flow f fs) ≡ false
has_flow-append name f [] h e = ground arith
has_flow-append name f (g ∷ fs) h e = ground (arith, has_flow-append name f fs (ground arith) e)

append-IsDistinct :
    (f : Online) (fs : List Online)
    → has_flow (flow_name f) fs ≡ false
    → IsDistinct fs
    → IsDistinct (append_flow f fs)
append-IsDistinct f [] h d = (refl, tt)
append-IsDistinct f (g ∷ fs) h (fresh, d) = (
  has_flow-append (flow_name g) f fs fresh (str_eq-sym (flow_name g) (flow_name f) (ground arith)),
  append-IsDistinct f fs (ground arith) d,
)

-- What a load answers: the flows as they were with an exception, or one more, behind the others.
abbrev pub Loads : Bunch → Bunch × Option Error → Type 0
Loads bunch (bunch', some e) = bunch' ≡ bunch
Loads bunch (bunch', none) =
    (f : Online) × (bunch'.flows ≡ bunch.flows ++ f ∷ [])
    × (bunch'.limits ≡ bunch.limits)
    × IsDistinct bunch'.flows

load_built-Loads :
    (bunch : Bunch) (c : Constructed) → IsDistinct bunch.flows → Loads bunch (load_built bunch c)
load_built-Loads bunch (definition_error e) d = refl
load_built-Loads bunch a_bunch d = refl
load_built-Loads bunch (a_flow f) d = elim (Bool-cases (has_flow (flow_name f) bunch.flows)) [
  | inl e ↦ rw e refl
  | inr e ↦ rw e (f, append_flow-eq f bunch.flows, refl, append-IsDistinct f bunch.flows e d)
]

-- Where no two flows have one name, a load either raises and leaves the flows as they were, or adds one
-- flow behind the others, and still no two have one name.
pub run_command_load-Loads :
    (b : Builder) (flow_type flow_bytes : String) (bunch : Bunch)
    → IsDistinct bunch.flows
    → Loads bunch (run_command_load b flow_type flow_bytes bunch)
unfolding run_command_load
run_command_load-Loads b flow_type flow_bytes bunch d =
    elim (Bool-cases (str_eq flow_type "json")) [
      | inr e ↦ rw e refl
      | inl e ↦ rw e (load_built-Loads bunch (then_built b bunch (b.construct flow_bytes)) d)
    ]
