-- ===== src/Trigger/Typing.antt =====
-- About the kinds of the parts of an expression (src/takler/core/expression_ast.py), given those of the
-- variables that a tree has, and about what an expression means when no exception is in question.
use Prim.Native.String.{String}
use Prim.Native.String.{◌++◌ as str_append}
use takler.Prelude.{Bool, false, ◌&&◌, ◌||◌, not, Option, none, some, ◌≡◌}
use takler.Prelude.Int.{ℤ, ltb_ℤ, ◌+ℤ◌}
use takler.Status.{status_gt}
use takler.Status
use takler.Trigger.{
  Value, missing, Reference, Comparison, op_eq, op_gt, op_ge, op_lt, op_le, Ast, compare_to, op_and,
  op_or, math_add, node_path, variable_path, integer, status, Result, ok, err, text_lt, value_eq,
  status_of, variable_of,
}

pub data Kind : Type 0 where
  number word node_status : Kind

-- The kinds of the variables, by the path of the node and the name.
abbrev pub Signature : Type 0
Signature = String → String → Option Kind

module _ (kinds : Signature) where
  pub data HasKind : Ast → Kind → Type 0 where
    of_integer : (n : ℤ) → HasKind (integer n) number
    of_status : (s : Status.NodeStatus) → HasKind (status s) node_status
    of_path : (p : String) → HasKind (node_path p) node_status
    of_variable : (p x : String) (k : Kind) → kinds p x ≡ some k → HasKind (variable_path p x) k
    sum : {l r : Ast} → HasKind l number → HasKind r number → HasKind (math_add l r) number
    join : {l r : Ast} → HasKind l word → HasKind r word → HasKind (math_add l r) word

  pub data IsTrigger : Ast → Type 0 where
    comparison :
        (c : Comparison) {l r : Ast} (k : Kind)
        → HasKind l k
        → HasKind r k
        → IsTrigger (compare_to c l r)
    equality :
        {l r : Ast} (j k : Kind) → HasKind l j → HasKind r k → IsTrigger (compare_to op_eq l r)
    both : {l r : Ast} → IsTrigger l → IsTrigger r → IsTrigger (op_and l r)
    either : {l r : Ast} → IsTrigger l → IsTrigger r → IsTrigger (op_or l r)

abbrev pub IsOf : Kind → Value → Type 0
IsOf number (Value.number n) = Unit
IsOf word (Value.word s) = Unit
IsOf node_status (Value.node_status s) = Unit
IsOf _ _ = ⊥

abbrev pub Gives : Option Kind → Result Value → Type 0
Gives none r = Unit
Gives (some k) (ok v) = IsOf k v
Gives (some k) (err e) = ⊥

-- The tree has the variables of the signature, with values of their kinds.
abbrev pub Fits : Signature → Reference → Type 0
Fits kinds reference = (p x : String) → Gives (kinds p x) (variable_of x (reference p))

-- The meaning of an expression, with no exceptions and no order of evaluation.
abbrev pub plain : Result Value → Value
plain (ok v) = v
plain (err e) = missing

abbrev pub add_plainly : Value → Value → Value
add_plainly (Value.number a) (Value.number b) = Value.number (a +ℤ b)
add_plainly (Value.word s) (Value.word t) = Value.word (str_append s t)
add_plainly _ _ = missing

abbrev pub less : Value → Value → Bool
less (Value.number a) (Value.number b) = ltb_ℤ a b
less (Value.word s) (Value.word t) = text_lt s t
less (Value.node_status s) (Value.node_status t) = status_gt t s
less _ _ = false

abbrev pub related : Comparison → Value → Value → Bool
related op_eq a b = value_eq a b
related op_lt a b = less a b
related op_gt a b = less b a
related op_le a b = not (less b a)
related op_ge a b = not (less a b)

module _ (reference : Reference) where
  abbrev pub meant : Ast → Value
  meant (math_add l r) = add_plainly (meant l) (meant r)
  meant (node_path p) = Value.node_status (status_of (reference p))
  meant (variable_path p x) = plain (variable_of x (reference p))
  meant (integer n) = Value.number n
  meant (status s) = Value.node_status s
  meant _ = missing

  abbrev pub meaning : Ast → Bool
  meaning (compare_to c l r) = related c (meant l) (meant r)
  meaning (op_and l r) = meaning l && meaning r
  meaning (op_or l r) = meaning l || meaning r
  meaning _ = false
