-- ===== src/Trigger.antt =====
-- src/takler/core/expression_ast.py and expression.py: the trigger expressions and their evaluation. The
-- parser is a library's; what a path finds is an argument. Parameters with a floating-point value are
-- left out, and a Boolean one is its number, as in comparisons and sums of the source.
pub mod Typing
pub mod Sound
use Prim.Native.Char.{code}
use Prim.Native.String.{String}
use Prim.Native.String.{◌++◌ as str_append}
use text.Mathlib.Text.{◌==◌ as str_eq}
use takler.Prelude.{
  ℕ, Bool, true, false, ◌&&◌, not, List, [], ◌∷◌, ltb, ◌==◌, if◌then◌else◌, Option, none, some,
}
use takler.Prelude.Int.{ℤ, pos, ltb_ℤ, ◌+ℤ◌}
use takler.Status
use takler.Status.{NodeStatus, status_eq, status_gt}

-- What the `value` of an expression returns; `missing` is `None`.
pub data Value : Type 0 where
  missing : Value
  number : ℤ → Value
  word : String → Value
  node_status : NodeStatus → Value

pub data Variable : Type 0 where
  event : Bool → Variable
  meter : ℤ → Variable
  parameter : Value → Variable

-- A node that a path finds, as an expression reads it.
pub record Found : Type 0 where
  pub status : NodeStatus
  pub find_variable : String → Option Variable

-- `AstNodePath.get_reference_node`, for the node that the expression belongs to.
abbrev pub Reference : Type 0
Reference = String → Option Found

pub data Comparison : Type 0 where
  op_eq op_gt op_ge op_lt op_le : Comparison

pub data Ast : Type 0 where
  compare_to : Comparison → Ast → Ast → Ast
  op_and op_or math_add : Ast → Ast → Ast
  node_path : String → Ast
  variable_path : String → String → Ast
  integer : ℤ → Ast
  status : NodeStatus → Ast

-- `TypeError`, `NotImplementedError` and `AttributeError`, the last for a variable of no node.
pub data Error : Type 0 where
  type_error not_implemented attribute_error syntax_error : Error

pub data Result {ℓ} (A : Type ℓ) : Type ℓ where
  ok : A → Result A
  err : Error → Result A

infixl 5 ◌>>=◌
abbrev pub ◌>>=◌ {ℓ κ} : {A : Type ℓ} {B : Type κ} → Result A → (A → Result B) → Result B
ok a >>= f = f a
err e >>= f = err e

-- The order of two texts, by code points.
abbrev pub text_lt : String → String → Bool
text_lt s String.[] = false
text_lt String.[] (String.◌∷◌ d t) = true
text_lt (String.◌∷◌ c s) (String.◌∷◌ d t) =
    let rest = text_lt s t in
    if ltb (code c) (code d) then true else (if code c == code d then rest else false)

abbrev pub eq_ℤ : ℤ → ℤ → Bool
eq_ℤ a b = not (ltb_ℤ a b) && not (ltb_ℤ b a)

abbrev pub value_eq : Value → Value → Bool
value_eq missing missing = true
value_eq (number a) (number b) = eq_ℤ a b
value_eq (word s) (word t) = str_eq s t
value_eq (node_status s) (node_status t) = status_eq s t
value_eq _ _ = false

-- `<` of two values, which only values of one kind have.
abbrev pub value_lt : Value → Value → Result Bool
value_lt (number a) (number b) = ok (ltb_ℤ a b)
value_lt (word s) (word t) = ok (text_lt s t)
value_lt (node_status s) (node_status t) = ok (status_gt t s)
value_lt _ _ = err type_error

-- In each of the orders above `a <= b` is the opposite of `b < a`.
unfoldable pub compare_values : Comparison → Value → Value → Result Bool
compare_values op_eq a b = ok (value_eq a b)
compare_values op_lt a b = value_lt a b
compare_values op_gt a b = value_lt b a
compare_values op_le a b = value_lt b a >>= λ r. ok (not r)
compare_values op_ge a b = value_lt a b >>= λ r. ok (not r)

abbrev pub add_values : Value → Value → Result Value
add_values (number a) (number b) = ok (number (a +ℤ b))
add_values (word s) (word t) = ok (word (str_append s t))
add_values _ _ = err type_error

abbrev pub number_of : Bool → Value
number_of true = number (pos 1)
number_of false = number (pos 0)

abbrev pub variable_value : Option Variable → Value
variable_value none = missing
variable_value (some (event b)) = number_of b
variable_value (some (meter v)) = number v
variable_value (some (parameter v)) = v

abbrev pub status_of : Option Found → NodeStatus
status_of none = NodeStatus.unknown
status_of (some n) = n.status

abbrev pub variable_of : String → Option Found → Result Value
variable_of x none = err attribute_error
variable_of x (some n) = ok (variable_value (n.find_variable x))

module _ (reference : Reference) where
  unfoldable pub value : Ast → Result Value
  value (math_add l r) = value l >>= λ a. value r >>= λ b. add_values a b
  value (node_path p) = ok (node_status (status_of (reference p)))
  value (variable_path p x) = variable_of x (reference p)
  value (integer n) = ok (number n)
  value (status s) = ok (node_status s)
  value (compare_to c l r) = err not_implemented
  value (op_and l r) = err not_implemented
  value (op_or l r) = err not_implemented

  -- `and` and `or` look at the right side only where the left side leaves it open.
  unfoldable pub evaluate : Ast → Result Bool
  unfolding value
  evaluate (compare_to c l r) = value l >>= λ a. value r >>= λ b. compare_values c a b
  evaluate (op_and l r) =
      let right = evaluate r in evaluate l >>= λ a. if a then right else ok false
  evaluate (op_or l r) = let right = evaluate r in evaluate l >>= λ a. if a then ok true else right
  evaluate (math_add l r) = err not_implemented
  evaluate (node_path p) = err not_implemented
  evaluate (variable_path p x) = err not_implemented
  evaluate (integer n) = err not_implemented
  evaluate (status s) = err not_implemented

-- `Expression`, with the syntax tree that `create_ast` made.
pub record Expression : Type 0 where
  pub free : Bool
  pub ast : Ast

abbrev pub set_free : Expression → Expression
set_free e = record e { free = true }

-- `clear_free`, and `reset`, which calls it.
abbrev pub clear_free : Expression → Expression
clear_free e = record e { free = false }

-- `Expression.evaluate`
unfoldable pub evaluate_expression : Reference → Expression → Result Bool
evaluate_expression reference e = if e.free then ok true else evaluate reference e.ast
