-- ===== src/Definitions/Attached.antt =====
-- About the commands load and replace (src/takler/server/scheduler.py and flow_replace.py).
use Prim.Native.String.{String}
use text.Mathlib.Text.{◌==◌ as str_eq}
use text.Mathlib.TextEquality.{eq_iff}
use takler.Prelude.{
  ℕ, ◌≡◌, refl, sym, subst, Bool, true, false, not, ◌&&◌, List, [], ◌∷◌, Option, none, some,
  Bool-cases, inl, inr,
}
use takler.Prelude.Int.{ℤ}
use takler.Tree.{Node, Tree, node, root, requeue, unknown_within}
use takler.Flows.{Flow, begin, mark_begun, requeue_calendar}
use takler.Client.{Error, flow_state_error, invalid_node_path_error, invalid_request_error}
use takler.Paths.{children}
use takler.Reports.{CommandPath, Looked, at, raises}
use takler.Reports.Attributes.{look_up_node}
use takler.Definitions.{
  Online, Bunch, flow_name, is_idle, valid_target, DefinitionError, Constructed, definition_error,
  a_flow, a_bunch, Builder, bound, after_check, then_built, begun, initialize, set_suspended,
  suspended_as, put_flow, commit, flow_at, find_target, replace_found, replace_flow,
  replacement_error,
}
use takler.Definitions.Idle.{IsIdle, is_idle-IsIdle}

-- The new flow stands where the first flow of the name stood, and the others are as they were.
pub data Replaces (p : CommandPath) (old new : Online) : List Online → List Online → Type 0 where
  here :
      (fs : List Online)
      → str_eq p.first_token (flow_name old) ≡ true
      → Replaces p old new (old ∷ fs) (new ∷ fs)
  later :
      (f : Online) (fs fs' : List Online)
      → str_eq p.first_token (flow_name f) ≡ false
      → Replaces p old new fs fs'
      → Replaces p old new (f ∷ fs) (f ∷ fs')

flow_at-eq : (f old : Online) (l : Looked (List ℕ × Node)) → flow_at f l ≡ at old → f ≡ old
flow_at-eq f old (raises e) h = cc
flow_at-eq f old (at ([], a)) h = cc
flow_at-eq f old (at (i ∷ is, a)) h = cc

-- The name of the flow that is found is the first token of the path.
find_target-name :
    (p : CommandPath) (old : Online) (fs : List Online)
    → find_target p fs ≡ at old
    → str_eq p.first_token (flow_name old) ≡ true
unfolding find_target
find_target-name p old [] h = cc
find_target-name p old (f ∷ fs) h = elim (Bool-cases (str_eq p.first_token (flow_name f))) [
  | inl e ↦
      subst (λ (g : Online). str_eq p.first_token (flow_name g) ≡ true)
        (flow_at-eq f old (look_up_node f.flow.tree p) (simp e at h)) e
  | inr e ↦ find_target-name p old fs (simp e at h)
]

find_target-Replaces :
    (p : CommandPath) (old new : Online) (fs : List Online)
    → find_target p fs ≡ at old
    → Replaces p old new fs (put_flow (flow_name old) new fs)
unfolding find_target
find_target-Replaces p old new [] h = cc
find_target-Replaces p old new (f ∷ fs) h =
    let named = find_target-name p old (f ∷ fs) h in
    let same = (eq_iff p.first_token (flow_name old)).0 named in
    elim (Bool-cases (str_eq p.first_token (flow_name f))) [
      | inl e ↦ rw (subst (λ s. str_eq s (flow_name f) ≡ true) same e) (
          subst (λ (g : Online). Replaces p old new (g ∷ fs) (new ∷ fs))
            (sym (flow_at-eq f old (look_up_node f.flow.tree p) (simp e at h))) (here fs named))
      | inr e ↦ rw (subst (λ s. str_eq s (flow_name f) ≡ false) same e) (
          later f fs (put_flow (flow_name old) new fs) e
            (find_target-Replaces p old new fs (simp e at h)))
    ]

-- Why a replacement raises.
pub data IsRefused (b : Builder) (parse : String → CommandPath)
    (check : Bunch → Online → Online → Option Error) (time now : ℤ)
    (target_path flow_bytes : String) (bunch : Bunch) : Error → Type 0 where
  bad_path :
      valid_target target_path ≡ false
      → IsRefused b parse check time now target_path flow_bytes bunch invalid_node_path_error
  no_target :
      (e : Error)
      → find_target (parse target_path) bunch.flows ≡ raises e
      → IsRefused b parse check time now target_path flow_bytes bunch e
  bad_definition :
      (old : Online) (e : DefinitionError)
      → find_target (parse target_path) bunch.flows ≡ at old
      → then_built b bunch (initialize time now (flow_name old) (b.construct flow_bytes))
        ≡ definition_error e
      → IsRefused b parse check time now target_path flow_bytes bunch (replacement_error e)
  no_flow :
      (old : Online)
      → find_target (parse target_path) bunch.flows ≡ at old
      → then_built b bunch (initialize time now (flow_name old) (b.construct flow_bytes)) ≡ a_bunch
      → IsRefused b parse check time now target_path flow_bytes bunch invalid_request_error
  bad_reference :
      (old new : Online) (e : Error)
      → find_target (parse target_path) bunch.flows ≡ at old
      → then_built b bunch (initialize time now (flow_name old) (b.construct flow_bytes))
        ≡ a_flow new
      → check bunch old new ≡ some e
      → IsRefused b parse check time now target_path flow_bytes bunch e
  not_idle :
      (old : Online)
      → find_target (parse target_path) bunch.flows ≡ at old
      → is_idle old bunch ≡ false
      → IsRefused b parse check time now target_path flow_bytes bunch flow_state_error

-- The flow that the definition gives, begun at the two times, with its references bound.
pub record IsCandidate (b : Builder) (time now : ℤ) (flow_bytes : String) (bunch : Bunch)
    (name : String) (f : Online) : Type 0 where
  pub definition : Online
  pub constructed : b.construct flow_bytes ≡ a_flow definition
  pub same_name : str_eq (flow_name definition) name ≡ true
  pub begins : begin false time now definition.flow ≡ (f.flow, none)
  pub same_limits : f.limits ≡ definition.limits
  pub binds : b.bind_references f bunch ≡ none

-- What a replacement that does not raise has done.
pub record IsReplaced (b : Builder) (time now : ℤ) (flow_bytes : String) (p : CommandPath)
    (bunch bunch' : Bunch) (old candidate new : Online) : Type 0 where
  pub is_candidate : IsCandidate b time now flow_bytes bunch (flow_name old) candidate
  pub replaces : Replaces p old new bunch.flows bunch'.flows
  pub idle : IsIdle old bunch
  pub has_begun : new.flow.begun ≡ true
  pub same_calendar : new.flow.calendar ≡ candidate.flow.calendar
  pub suspended :
      new.flow.tree
      ≡ node
          (record (root candidate.flow.tree) { suspended = (root old.flow.tree).suspended })
          (children candidate.flow.tree)
  pub own_limits : new.limits ≡ candidate.limits
  pub same_limits : bunch'.limits ≡ bunch.limits

abbrev HasBegun : Flow × Option Error → Type 0
HasBegun (f, none) = f.begun ≡ true
HasBegun (f, some e) = Unit

mark_begun-HasBegun : (f : Flow) (o : Option Tree) → HasBegun (mark_begun f o)
mark_begun-HasBegun f none = tt
mark_begun-HasBegun f (some t) = refl

begin-HasBegun : (time now : ℤ) (f : Flow) → HasBegun (begin false time now f)
unfolding begin
begin-HasBegun time now f = elim (Bool-cases (f.begun && not false)) [
  | inl e ↦ rw e tt
  | inr e ↦ rw e (elim (Bool-cases (unknown_within f.tree)) [
    | inl u ↦ rw u tt
    | inr u ↦ rw u (mark_begun-HasBegun (requeue_calendar time now f) (requeue true f.tree))
  ])
]

module _ (b : Builder) (time now : ℤ) (flow_bytes : String) (bunch : Bunch) (name : String) where
  -- What has begun is the flow of the definition.
  abbrev IsBegun : Constructed → Type 0
  IsBegun (definition_error e) = Unit
  IsBegun a_bunch = Unit
  IsBegun (a_flow f) =
      (d : Online) × (b.construct flow_bytes ≡ a_flow d)
      × (str_eq (flow_name d) name ≡ true)
      × (begin false time now d.flow ≡ (f.flow, none))
      × (f.limits ≡ d.limits)

  abbrev IsBuilt : Constructed → Type 0
  IsBuilt (definition_error e) = Unit
  IsBuilt a_bunch = Unit
  IsBuilt (a_flow f) = IsCandidate b time now flow_bytes bunch name f

  begun-IsBegun :
      (f : Online) (r : Flow × Option Error)
      → b.construct flow_bytes ≡ a_flow f
      → str_eq (flow_name f) name ≡ true
      → begin false time now f.flow ≡ r
      → IsBegun (begun f r)
  begun-IsBegun f (g, none) c n h = (f, c, n, h, refl)
  begun-IsBegun f (g, some e) c n h = tt

  initialize-IsBegun :
      (c : Constructed) → b.construct flow_bytes ≡ c → IsBegun (initialize time now name c)
  unfolding initialize
  initialize-IsBegun (definition_error e) k = tt
  initialize-IsBegun a_bunch k = tt
  initialize-IsBegun (a_flow f) k = elim (Bool-cases (str_eq (flow_name f) name)) [
    | inl e ↦ rw e (begun-IsBegun f (begin false time now f.flow) k e refl)
    | inr e ↦ rw e tt
  ]

  bound-IsBuilt :
      (f : Online) (o : Option DefinitionError)
      → IsBegun (a_flow f)
      → b.bind_references f bunch ≡ o
      → IsBuilt (bound f o)
  bound-IsBuilt f (some e) h k = tt
  bound-IsBuilt f none (d, c, n, g, l) k = record {
    definition = d;
    constructed = c;
    same_name = n;
    begins = g;
    same_limits = l;
    binds = k;
  }

  then_built-IsBuilt : (c : Constructed) → IsBegun c → IsBuilt (then_built b bunch c)
  then_built-IsBuilt (definition_error e) h = tt
  then_built-IsBuilt a_bunch h = tt
  then_built-IsBuilt (a_flow f) h = bound-IsBuilt f (b.bind_references f bunch) h refl

  IsCandidate-begun :
      (f : Online) → IsCandidate b time now flow_bytes bunch name f → f.flow.begun ≡ true
  IsCandidate-begun f h = subst HasBegun h.begins (begin-HasBegun time now h.definition.flow)

set_suspended_lem :
    (b : Bool) (t : Tree)
    → set_suspended b t ≡ node (record (root t) { suspended = b }) (children t)
set_suspended_lem b (node a g) = refl

module _ (b : Builder) (parse : String → CommandPath)
    (check : Bunch → Online → Online → Option Error) (time now : ℤ)
    (target_path flow_bytes : String) (bunch : Bunch) where
  abbrev pub ReplaceAnswers : Bunch × Option Error → Type 0
  ReplaceAnswers (bunch', some e) =
      (bunch' ≡ bunch) × IsRefused b parse check time now target_path flow_bytes bunch e
  ReplaceAnswers (bunch', none) =
      (old candidate new : Online) × IsReplaced b time now flow_bytes (parse target_path) bunch
        bunch' old candidate new

  checked :
      (old f : Online) (o : Option Error)
      → check bunch old f ≡ o
      → find_target (parse target_path) bunch.flows ≡ at old
      → then_built b bunch (initialize time now (flow_name old) (b.construct flow_bytes)) ≡ a_flow f
      → IsCandidate b time now flow_bytes bunch (flow_name old) f
      → ReplaceAnswers (after_check bunch old f o)
  checked old f (some e) k found built h = (refl, bad_reference old f e found built k)
  checked old f none k found built h = elim (Bool-cases (is_idle old bunch)) [
    | inr busy ↦ rw busy (refl, not_idle old found busy)
    | inl idle ↦
        let new = suspended_as old f in
        rw idle (
          old,
          f,
          new,
          record {
            is_candidate = h;
            replaces = find_target-Replaces (parse target_path) old new bunch.flows found;
            idle = is_idle-IsIdle old bunch idle;
            has_begun = IsCandidate-begun b time now flow_bytes bunch (flow_name old) f h;
            same_calendar = refl;
            suspended = set_suspended_lem (root old.flow.tree).suspended f.flow.tree;
            own_limits = refl;
            same_limits = refl;
          },
        )
  ]

  commit-Answers :
      (old : Online) (c : Constructed)
      → find_target (parse target_path) bunch.flows ≡ at old
      → then_built b bunch (initialize time now (flow_name old) (b.construct flow_bytes)) ≡ c
      → ReplaceAnswers (commit bunch old c (check bunch old))
  commit-Answers old (definition_error x) found e = (refl, bad_definition old x found e)
  commit-Answers old a_bunch found e = (refl, no_flow old found e)
  commit-Answers old (a_flow f) found e = checked old f (check bunch old f) refl found e (
      subst (IsBuilt b time now flow_bytes bunch (flow_name old)) e (
        then_built-IsBuilt b time now flow_bytes bunch (flow_name old)
          (initialize time now (flow_name old) (b.construct flow_bytes))
          (initialize-IsBegun b time now flow_bytes bunch (flow_name old) (b.construct flow_bytes)
            refl)))

  replace_found-Answers :
      (l : Looked Online)
      → find_target (parse target_path) bunch.flows ≡ l
      → ReplaceAnswers (replace_found b parse check time now flow_bytes bunch l)
  replace_found-Answers (raises e) found = (refl, no_target e found)
  replace_found-Answers (at old) found =
      commit-Answers old
        (then_built b bunch (initialize time now (flow_name old) (b.construct flow_bytes))) found
        refl

  -- A replacement that raises leaves the flows as they were: the path is not one of a target, finds no flow,
  -- the definition cannot be built to a flow of the name that begins, the check of the references that
  -- others have raises for it, or the flow is not idle. One that does not raise has put the flow that the
  -- definition gives, begun, its references bound and suspended as the old flow was, in the place of
  -- the first flow that the path names, and left the others and all limits; no node of the old flow was
  -- active or submitted, its limits were free, and no limit held a path of it.
  pub replace_flow-Answers :
      ReplaceAnswers (replace_flow b parse check time now target_path flow_bytes bunch)
  unfolding replace_flow
  replace_flow-Answers = elim (Bool-cases (valid_target target_path)) [
    | inr e ↦ rw e (refl, bad_path e)
    | inl e ↦ rw e (replace_found-Answers (find_target (parse target_path) bunch.flows) refl)
  ]
