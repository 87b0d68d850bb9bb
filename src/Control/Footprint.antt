-- ===== src/Control/Footprint.antt =====
-- About what a control command changes (src/takler/server/scheduler.py and src/takler/core/node.py).
use takler.Prelude.{
  ℕ, zero, suc, ◌≡◌, refl, sym, ◌∙◌, ap, Bool, true, false, ◌&&◌, ◌==◌, List, [], ◌∷◌, Option, none,
  some, bind, arith, bind_assoc, is_some,
}
use takler.Tree.{Node, Tree, node, Forest, nil, cons, root}
use takler.Paths.{node_at, child_at}
use takler.Reports.{write_at, write_child}
use takler.Control.{replace_at, replace_child}

-- The fields of the node at the positions.
abbrev pub fields_at : List ℕ → Tree → Option Node
fields_at is t = bind (node_at is t) (λ n. some (root n))

-- Whether the positions lead to the node at the first, or below it.
abbrev pub leads_into : List ℕ → List ℕ → Bool
leads_into [] js = true
leads_into (i ∷ is) [] = false
leads_into (i ∷ is) (j ∷ js) = (i == j) && leads_into is js

-- The two trees differ at most in the subtree at the positions.
abbrev pub AgreeOutside : List ℕ → Tree → Tree → Type 0
AgreeOutside is t t' = (js : List ℕ) → leads_into is js ≡ false → fields_at js t' ≡ fields_at js t

bind-some : {A : Type 0} (o : Option A) → bind o some ≡ o
bind-some none = refl
bind-some (some a) = refl

abbrev pub child_fields : ℕ → List ℕ → Forest → Option Node
child_fields j js f = bind (child_at j f) (fields_at js)

abbrev pub OnSome : {A : Type 0} → (A → Type 0) → Option A → Type 0
OnSome P none = Unit
OnSome P (some a) = P a

on_bind :
    {A B : Type 0} (P : A → Type 0) (Q : B → Type 0) (o : Option A) (g : A → B)
    → ((a : A) → P a → Q (g a))
    → OnSome P o
    → OnSome Q (bind o (λ a. some (g a)))
on_bind P Q none g k h = tt
on_bind P Q (some a) g k h = k a h

on_all : {A : Type 0} (P : A → Type 0) (o : Option A) → ((a : A) → P a) → OnSome P o
on_all P none h = tt
on_all P (some a) h = h a

abbrev AgreeChild : ℕ → List ℕ → Forest → Forest → Type 0
AgreeChild i is f f' =
    (j : ℕ) (js : List ℕ)
    → ((i == j) && leads_into is js) ≡ false
    → child_fields j js f' ≡ child_fields j js f

below-AgreeOutside :
    (i : ℕ) (is : List ℕ) (a : Node) (f f' : Forest)
    → AgreeChild i is f f'
    → AgreeOutside (i ∷ is) (node a f) (node a f')
unfolding node_at
below-AgreeOutside i is a f f' h [] e = refl
below-AgreeOutside i is a f f' h (j ∷ js) e =
    bind_assoc (child_at j f') (node_at js) (λ n. some (root n))
    ∙ h j js e
    ∙ sym (bind_assoc (child_at j f) (node_at js) (λ n. some (root n)))

here-AgreeChild :
    (is : List ℕ) (t t' : Tree) (f : Forest)
    → AgreeOutside is t t'
    → AgreeChild zero is (cons t f) (cons t' f)
here-AgreeChild is t t' f h zero js e = h js (ground arith)
here-AgreeChild is t t' f h (suc j) js e = refl

later-AgreeChild :
    (i : ℕ) (is : List ℕ) (t : Tree) (f f' : Forest)
    → AgreeChild i is f f'
    → AgreeChild (suc i) is (cons t f) (cons t f')
later-AgreeChild i is t f f' h zero js e = refl
later-AgreeChild i is t f f' h (suc j) js e = h j js (ground arith)

module _ (g : Tree → Option Tree) where
  mutual
    unfolding replace_at

    pub replace_at-AgreeOutside :
        (is : List ℕ) (t : Tree) → OnSome (AgreeOutside is t) (replace_at g is t)
    replace_at-AgreeOutside [] t = on_all (AgreeOutside [] t) (g t) (λ t' js e. cc)
    replace_at-AgreeOutside (i ∷ is) (node a f) =
        on_bind (AgreeChild i is f) (AgreeOutside (i ∷ is) (node a f)) (replace_child g i is f)
          (node a) (λ f'. below-AgreeOutside i is a f f') (replace_child-AgreeChild i is f)

    replace_child-AgreeChild :
        (i : ℕ) (is : List ℕ) (f : Forest) → OnSome (AgreeChild i is f) (replace_child g i is f)
    replace_child-AgreeChild i is nil = tt
    replace_child-AgreeChild zero is (cons t f) =
        on_bind (AgreeOutside is t) (AgreeChild zero is (cons t f)) (replace_at g is t)
          (λ t'. cons t' f) (λ t'. here-AgreeChild is t t' f) (replace_at-AgreeOutside is t)
    replace_child-AgreeChild (suc i) is (cons t f) =
        on_bind (AgreeChild i is f) (AgreeChild (suc i) is (cons t f)) (replace_child g i is f)
          (cons t) (λ f'. later-AgreeChild i is t f f') (replace_child-AgreeChild i is f)

module _ (w : Node → Node) where
  mutual
    unfolding write_at

    pub write_at-AgreeOutside : (is : List ℕ) (t : Tree) → AgreeOutside is t (write_at w is t)
    write_at-AgreeOutside [] t = λ js e. cc
    write_at-AgreeOutside (i ∷ is) (node a f) =
        below-AgreeOutside i is a f (write_child w i is f) (write_child-AgreeChild i is f)

    write_child-AgreeChild :
        (i : ℕ) (is : List ℕ) (f : Forest) → AgreeChild i is f (write_child w i is f)
    write_child-AgreeChild i is nil = λ j js e. refl
    write_child-AgreeChild zero is (cons t f) =
        here-AgreeChild is t (write_at w is t) f (write_at-AgreeOutside is t)
    write_child-AgreeChild (suc i) is (cons t f) =
        later-AgreeChild i is t f (write_child w i is f) (write_child-AgreeChild i is f)

module _ (g : Tree → Option Tree) where
  mutual
    unfolding replace_at node_at

    -- The subtree at the positions is the one that the operation makes of the one there.
    pub node_at-replace_at :
        (is : List ℕ) (t : Tree) → bind (replace_at g is t) (node_at is) ≡ bind (node_at is t) g
    node_at-replace_at [] t = bind-some (g t)
    node_at-replace_at (i ∷ is) (node a f) =
        bind_assoc (replace_child g i is f) (λ f'. some (node a f')) (node_at (i ∷ is))
        ∙ child_at-replace_child i is f

    child_at-replace_child :
        (i : ℕ) (is : List ℕ) (f : Forest)
        → bind (replace_child g i is f) (λ f'. bind (child_at i f') (node_at is))
          ≡ bind (bind (child_at i f) (node_at is)) g
    child_at-replace_child i is nil = refl
    child_at-replace_child zero is (cons t f) =
        bind_assoc (replace_at g is t) (λ t'. some (cons t' f))
          (λ f'. bind (child_at zero f') (node_at is))
        ∙ node_at-replace_at is t
    child_at-replace_child (suc i) is (cons t f) =
        bind_assoc (replace_child g i is f) (λ f'. some (cons t f'))
          (λ f'. bind (child_at (suc i) f') (node_at is))
        ∙ child_at-replace_child i is f

is_some-bind-some :
    {A B : Type 0} (o : Option A) (k : A → B) → is_some (bind o (λ a. some (k a))) ≡ is_some o
is_some-bind-some none k = refl
is_some-bind-some (some a) k = refl

module _ (g : Tree → Option Tree) where
  mutual
    unfolding replace_at node_at

    pub is_some-replace_at :
        (is : List ℕ) (t : Tree) → is_some (replace_at g is t) ≡ is_some (bind (node_at is t) g)
    is_some-replace_at [] t = refl
    is_some-replace_at (i ∷ is) (node a f) =
        is_some-bind-some (replace_child g i is f) (node a) ∙ is_some-replace_child i is f

    is_some-replace_child :
        (i : ℕ) (is : List ℕ) (f : Forest)
        → is_some (replace_child g i is f) ≡ is_some (bind (bind (child_at i f) (node_at is)) g)
    is_some-replace_child i is nil = refl
    is_some-replace_child zero is (cons t f) =
        is_some-bind-some (replace_at g is t) (λ t'. cons t' f) ∙ is_some-replace_at is t
    is_some-replace_child (suc i) is (cons t f) =
        is_some-bind-some (replace_child g i is f) (cons t) ∙ is_some-replace_child i is f

module _ (w : Node → Node) where
  mutual
    unfolding write_at node_at

    pub fields_at-write_at :
        (is : List ℕ) (t : Tree)
        → fields_at is (write_at w is t) ≡ bind (fields_at is t) (λ a. some (w a))
    fields_at-write_at [] (node a f) = refl
    fields_at-write_at (i ∷ is) (node a f) =
        bind_assoc (child_at i (write_child w i is f)) (node_at is) (λ n. some (root n))
        ∙ child_fields-write_child i is f
        ∙ ap (λ o. bind o (λ b. some (w b)))
            (sym (bind_assoc (child_at i f) (node_at is) (λ n. some (root n))))

    child_fields-write_child :
        (i : ℕ) (is : List ℕ) (f : Forest)
        → child_fields i is (write_child w i is f) ≡ bind (child_fields i is f) (λ a. some (w a))
    child_fields-write_child i is nil = refl
    child_fields-write_child zero is (cons t f) = fields_at-write_at is t
    child_fields-write_child (suc i) is (cons t f) = child_fields-write_child i is f
