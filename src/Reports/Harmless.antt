-- ===== src/Reports/Harmless.antt =====
-- About the changes of a node on which the soundness of its tree does not depend (src/takler/core/node.py
-- and task_node.py).
use takler.Prelude.{ℕ, zero, suc, ◌≡◌, refl, subst, sym, ◌∙◌, ap, false, List, [], ◌∷◌, arith}
use takler.Tree.{Node, Tree, node, Forest, nil, cons, root, statuses, computed_status, has_unknown}
use takler.Tree.Aggregated.{IsInCalendar, IsSound, AllSound}
use takler.Reports.{write_at, write_child}

pub statuses-computed :
    (a : Node) (f g : Forest) → statuses g ≡ statuses f → computed_status a g ≡ computed_status a f
unfolding computed_status
statuses-computed a nil nil e = refl
statuses-computed a nil (cons t g) e = absurd (ground arith)
statuses-computed a (cons t f) nil e = absurd (ground arith)
statuses-computed a (cons t f) (cons u g) e = rw e refl

-- A change of a node that its soundness does not depend on.
pub record IsHarmless (a b : Node) : Type 0 where
  pub same_default : b.default_node_status ≡ a.default_node_status
  pub same_repeat : b.repeat ≡ a.repeat
  pub same_kind : b.is_task ≡ a.is_task
  pub same_status : b.node_status ≡ a.node_status
  pub still_known : has_unknown a ≡ false → has_unknown b ≡ false

harmless-computed :
    (a b : Node) (f : Forest) → IsHarmless a b → computed_status b f ≡ computed_status a f
unfolding computed_status
harmless-computed a b f h = rw (h.same_kind, h.same_status) refl

pub harmless-IsSound :
    (a b : Node) (f g : Forest)
    → IsHarmless a b
    → AllSound g
    → statuses g ≡ statuses f
    → IsSound (node a f)
    → IsSound (node b g)
harmless-IsSound a b f g h s same ((d, r), u, e, k) = (
  (h.same_default ∙ d, subst IsInCalendar (sym h.same_repeat) r),
  h.still_known u,
  statuses-computed b f g same ∙ harmless-computed a b f h ∙ e ∙ sym h.same_status,
  s,
)

module _ (w : Node → Node) (h : (a : Node) → IsHarmless a (w a)) where
  mutual
    unfolding write_at

    pub write_at-IsSound :
        (is : List ℕ) (t : Tree)
        → IsSound t
        → IsSound (write_at w is t) × ((root (write_at w is t)).node_status ≡ (root t).node_status)
    write_at-IsSound [] (node a f) (d, u, e, s) =
        (harmless-IsSound a (w a) f f (h a) s refl (d, u, e, s), (h a).same_status)
    write_at-IsSound (i ∷ is) (node a f) (d, u, e, s) =
        let (s', same) = write_child-AllSound i is f s in
        ((d, u, statuses-computed a f (write_child w i is f) same ∙ e, s'), refl)

    write_child-AllSound :
        (i : ℕ) (is : List ℕ) (f : Forest)
        → AllSound f
        → AllSound (write_child w i is f) × (statuses (write_child w i is f) ≡ statuses f)
    write_child-AllSound i is nil s = (tt, refl)
    write_child-AllSound zero is (cons t f) (s, ss) =
        let (s', e) = write_at-IsSound is t s in ((s', ss), ap (λ x. x ∷ statuses f) e)
    write_child-AllSound (suc i) is (cons t f) (s, ss) =
        let (ss', e) = write_child-AllSound i is f ss in
        ((s, ss'), ap (λ l. (root t).node_status ∷ l) e)
