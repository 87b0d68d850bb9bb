-- ===== src/Trigger/Sound.antt =====
-- About the evaluation of well-typed triggers (src/takler/core/expression_ast.py and expression.py).
use takler.Prelude.{
  Bool, true, false, ◌&&◌, ◌||◌, some, ◌≡◌, refl, Bool-cases, inl, inr, arith, if◌then◌else◌,
}
use takler.Trigger.{
  Value, Reference, Comparison, op_eq, op_gt, op_ge, op_lt, op_le, Ast, Result, ok, err, value_lt,
  variable_of, compare_values, add_values, value, evaluate, Expression, evaluate_expression,
}
use takler.Trigger.Typing.{
  Kind, number, word, node_status, Signature, HasKind, of_integer, of_status, of_path, of_variable,
  sum, join, IsTrigger, comparison, equality, both, either, IsOf, Gives, Fits, plain, add_plainly,
  less, related, meant, meaning,
}

Gives-plain :
    (k : Kind) (r : Result Value) → Gives (some k) r → (r ≡ ok (plain r)) × IsOf k (plain r)
Gives-plain k (ok v) h = (refl, h)
Gives-plain k (err e) h = absurd h

and_lem : (a b : Bool) → (if a then ok b else ok false) ≡ ok (a && b)
and_lem true b = refl
and_lem false b = refl

or_lem : (a b : Bool) → (if a then ok true else ok b) ≡ ok (a || b)
or_lem true b = refl
or_lem false b = refl

value_lt-less : (k : Kind) (a b : Value) → IsOf k a → IsOf k b → value_lt a b ≡ ok (less a b)
value_lt-less number (Value.number a) (Value.number b) ha hb = refl
value_lt-less word (Value.word a) (Value.word b) ha hb = refl
value_lt-less node_status (Value.node_status a) (Value.node_status b) ha hb = refl
value_lt-less _ a b ha hb = ground arith

compare_values-related :
    (c : Comparison) (k : Kind) (a b : Value)
    → IsOf k a
    → IsOf k b
    → compare_values c a b ≡ ok (related c a b)
unfolding compare_values
compare_values-related op_eq k a b ha hb = refl
compare_values-related op_lt k a b ha hb = value_lt-less k a b ha hb
compare_values-related op_gt k a b ha hb = value_lt-less k b a hb ha
compare_values-related op_le k a b ha hb = rw (value_lt-less k b a hb ha)
compare_values-related op_ge k a b ha hb = rw (value_lt-less k a b ha hb)

add_values_number :
    (a b : Value)
    → IsOf number a
    → IsOf number b
    → (add_values a b ≡ ok (add_plainly a b)) × IsOf number (add_plainly a b)
add_values_number (Value.number a) (Value.number b) ha hb = (refl, tt)
add_values_number a b ha hb = ground arith

add_values_word :
    (a b : Value)
    → IsOf word a
    → IsOf word b
    → (add_values a b ≡ ok (add_plainly a b)) × IsOf word (add_plainly a b)
add_values_word (Value.word a) (Value.word b) ha hb = (refl, tt)
add_values_word a b ha hb = ground arith

module _ (kinds : Signature) (reference : Reference) (fits : Fits kinds reference) where
  value-HasKind :
      {e : Ast} {k : Kind}
      → HasKind kinds e k
      → (value reference e ≡ ok (meant reference e)) × IsOf k (meant reference e)
  unfolding value
  value-HasKind (of_integer n) = (refl, tt)
  value-HasKind (of_status s) = (refl, tt)
  value-HasKind (of_path p) = (refl, tt)
  value-HasKind (of_variable p x k h) =
      Gives-plain k (variable_of x (reference p)) (rw h at (fits p x))
  value-HasKind (sum {l} {r} hl hr) =
      let (el, kl) = value-HasKind hl in
      let (er, kr) = value-HasKind hr in
      let (e, k) = add_values_number (meant reference l) (meant reference r) kl kr in
      (rw el (rw er e), k)
  value-HasKind (join {l} {r} hl hr) =
      let (el, kl) = value-HasKind hl in
      let (er, kr) = value-HasKind hr in
      let (e, k) = add_values_word (meant reference l) (meant reference r) kl kr in
      (rw el (rw er e), k)

  evaluate-meaning : {e : Ast} → IsTrigger kinds e → evaluate reference e ≡ ok (meaning reference e)
  unfolding evaluate
  evaluate-meaning (comparison c {l} {r} k hl hr) =
      let (el, kl) = value-HasKind hl in
      let (er, kr) = value-HasKind hr in
      rw el (rw er (compare_values-related c k (meant reference l) (meant reference r) kl kr))
  evaluate-meaning (equality {l} {r} j k hl hr) =
      let (el, kl) = value-HasKind hl in
      let (er, kr) = value-HasKind hr in rw el (rw er (unfold compare_values in refl))
  evaluate-meaning (both {l} {r} hl hr) =
      rw (evaluate-meaning hl)
        (rw (evaluate-meaning hr) (and_lem (meaning reference l) (meaning reference r)))
  evaluate-meaning (either {l} {r} hl hr) =
      rw (evaluate-meaning hl)
        (rw (evaluate-meaning hr) (or_lem (meaning reference l) (meaning reference r)))

  -- In a tree whose variables have the kinds that they are given, a well-typed trigger raises nothing:
  -- it is true when it was set free, and otherwise what it means, the comparisons, sums, conjunctions
  -- and disjunctions taken with no exceptions and in no order.
  pub evaluate_expression-meaning :
      (e : Expression)
      → IsTrigger kinds e.ast
      → evaluate_expression reference e ≡ ok (e.free || meaning reference e.ast)
  unfolding evaluate_expression
  evaluate_expression-meaning e h = elim (Bool-cases e.free) [
    | inl free ↦ simp free refl
    | inr held ↦ simp held (evaluate-meaning h)
  ]
