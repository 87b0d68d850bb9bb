-- ===== src/Paths/Names.antt =====
-- About `node_path` and `find_node` (src/takler/core/node.py).
use Prim.Native.String.{String}
use text.Mathlib.Text.{◌==◌ as str_eq}
use text.Mathlib.TextPositions.{eq_refl}
use takler.Prelude.{
  ℕ, zero, suc, ◌≡◌, ◌⊎◌, inl, inr, true, refl, sym, ◌∙◌, ap, false, List, [], ◌∷◌, ◌++◌, Option,
  none, some, bind,
}
use mathlib.Core.Option.{some-injective, none-ne-some}
use takler.Tree.{Tree, node, Forest, nil, cons, root}
use takler.Paths.{
  PosixPath, found, children, child_at, node_at, names_below, node_path, find_child_index, step,
  walk, find_node, full_parts, Pathlib, node_path_text, find_by_text,
}

-- No sibling in the list has the name.
abbrev pub Unused : String → Forest → Type 0
Unused name nil = Unit
Unused name (cons t f) = (str_eq name (root t).name ≡ false) × Unused name f

-- Siblings have different names, and no node below the root is called `.` or `..`.
abbrev mutual
  pub IsNamed : Tree → Type 0
  IsNamed (node a f) = AllNamed f

  pub AllNamed : Forest → Type 0
  AllNamed nil = Unit
  AllNamed (cons t f) =
      (str_eq (root t).name "." ≡ false)
      × (str_eq (root t).name ".." ≡ false)
      × Unused (root t).name f
      × IsNamed t
      × AllNamed f

bind-some :
    {A B : Type 0} (o : Option A) (f : A → Option B) (b : B)
    → bind o f ≡ some b
    → (a : A) × (o ≡ some a) × (f a ≡ some b)
bind-some none f b h = absurd (none-ne-some b h)
bind-some (some a) f b h = (a, refl, h)

child-Unused :
    (name : String) (i : ℕ) (f : Forest) (c : Tree)
    → Unused name f
    → child_at i f ≡ some c
    → str_eq name (root c).name ≡ false
child-Unused name i nil c u h = absurd (none-ne-some c h)
child-Unused name zero (cons t f) c u h = rw (sym (some-injective t c h)) u.0
child-Unused name (suc i) (cons t f) c u h = child-Unused name i f c u.1 h

-- What the names say of a child.
abbrev IsFound : Forest → ℕ → Tree → Type 0
IsFound f i c =
    (find_child_index (root c).name f ≡ some i)
    × (str_eq (root c).name "." ≡ false)
    × (str_eq (root c).name ".." ≡ false)
    × IsNamed c

child-IsFound : (i : ℕ) (f : Forest) (c : Tree) → AllNamed f → child_at i f ≡ some c → IsFound f i c
unfolding find_child_index
child-IsFound i nil c n h = absurd (none-ne-some c h)
child-IsFound zero (cons t f) c (d, dd, u, n, ns) h =
    rw (sym (some-injective t c h)) (rw (eq_refl (root t).name) refl, d, dd, n)
child-IsFound (suc i) (cons t f) c (d, dd, u, n, ns) h =
    let (at, dot, dots, m) = child-IsFound i f c ns h in
    (rw (child-Unused (root t).name i f c u h) (rw at refl), dot, dots, m)

node_at-append :
    (is : List ℕ) (i : ℕ) (t c d : Tree)
    → node_at is t ≡ some c
    → child_at i (children c) ≡ some d
    → node_at (is ++ (i ∷ [])) t ≡ some d
unfolding node_at
node_at-append [] i t c d h k = rw (some-injective t c h) (rw k refl)
node_at-append (j ∷ is) i t c d h k =
    let (b, e, e') = bind-some (child_at j (children t)) (node_at is) c h in
    rw e (node_at-append is i b c d e' k)

append_nil : (xs : List ℕ) → xs ++ [] ≡ xs
append_nil [] = refl
append_nil (x ∷ xs) = ap (λ l. x ∷ l) (append_nil xs)

append_assoc : (xs : List ℕ) (i : ℕ) (ys : List ℕ) → (xs ++ (i ∷ [])) ++ ys ≡ xs ++ (i ∷ ys)
append_assoc [] i ys = refl
append_assoc (x ∷ xs) i ys = ap (λ l. x ∷ l) (append_assoc xs i ys)

AllNamed-children : (t : Tree) → IsNamed t → AllNamed (children t)
AllNamed-children (node a f) n = n

step_found :
    (cur : List ℕ) (i : ℕ) (t c d : Tree)
    → IsNamed c
    → node_at cur t ≡ some c
    → child_at i (children c) ≡ some d
    → step t (root d).name cur ≡ some (cur ++ (i ∷ []))
unfolding step
step_found cur i t c d n h k =
    let (at, dot, dots, _) = child-IsFound i (children c) d (AllNamed-children c n) k in
    rw dot (rw dots (rw h (rw at refl)))

walk_found :
    (is : List ℕ) (cur : List ℕ) (t c : Tree) (ns : List String)
    → IsNamed c
    → node_at cur t ≡ some c
    → names_below is c ≡ some ns
    → walk t ns cur ≡ some (cur ++ is)
unfolding walk
walk_found [] cur t c ns n h k = rw (sym (some-injective [] ns k)) (ap some (sym (append_nil cur)))
walk_found (i ∷ is) cur t c ns n h k =
    let (d, e, e') =
      bind-some (child_at i (children c))
        (λ d. bind (names_below is d) (λ ns. some ((root d).name ∷ ns))) ns k in
    let (below, b, b') = bind-some (names_below is d) (λ ns. some ((root d).name ∷ ns)) ns e' in
    let (_, _, _, m) = child-IsFound i (children c) d (AllNamed-children c n) e in
    rw (sym (some-injective ((root d).name ∷ below) ns b')) (
      rw (walk, step_found cur i t c d n h e)
        (walk_found is (cur ++ (i ∷ [])) t d below m (node_at-append cur i t c d h e) b
          ∙ ap some (append_assoc cur i is)))

find_node-full_parts :
    (t : Tree) (is : List ℕ) (own : List String) (path : PosixPath)
    → IsNamed t
    → node_path is t ≡ some (full_parts own path)
    → find_node t own path ≡ found is
unfolding find_node node_path node_at
find_node-full_parts t is own path n h =
    let (ns, e, e') =
      bind-some (names_below is t) (λ ns. some ((root t).name ∷ ns)) (full_parts own path) h in
    rw (sym (some-injective ((root t).name ∷ ns) (full_parts own path) e'))
      (rw (eq_refl (root t).name) (rw (walk_found is [] t t ns n refl e) refl))

-- pathlib reads the text of the path back as the names: none is empty or `.`, and none has a `/`.
abbrev pub IsReadBack : Pathlib → List String → Type 0
IsReadBack lib names =
    lib.read (node_path_text lib names) ≡ record { is_absolute = true; parts = names }

-- The text is that of the path of the names, or it leads to them from the parent of the asking node.
abbrev pub LeadsTo : Pathlib → (own names : List String) → String → Type 0
LeadsTo lib own names a_path =
    ((a_path ≡ node_path_text lib names) × IsReadBack lib names)
    ⊎ (full_parts own (lib.read a_path) ≡ names)

LeadsTo-full_parts :
    (lib : Pathlib) (own names : List String) (a_path : String)
    → LeadsTo lib own names a_path
    → full_parts own (lib.read a_path) ≡ names
LeadsTo-full_parts lib own names a_path (inl (e, r)) = rw e (rw r refl)
LeadsTo-full_parts lib own names a_path (inr h) = h

-- Where siblings have different names, no node below the root is called `.` or `..`, and pathlib reads the
-- path of the asking node back as its names, a node of the tree finds each node of it by the path of
-- that node, if pathlib reads it back too, and by each text that leads there from its own parent.
pub find_node-node_path :
    (lib : Pathlib) (t : Tree) (is js : List ℕ) (own names : List String) (a_path : String)
    → IsNamed t
    → node_path js t ≡ some own
    → node_path is t ≡ some names
    → IsReadBack lib own
    → LeadsTo lib own names a_path
    → find_by_text lib t own a_path ≡ found is
unfolding find_by_text
find_node-node_path lib t is js own names a_path n _ h r l = rw r (
    find_node-full_parts t is own (lib.read a_path) n
      (h ∙ ap some (sym (LeadsTo-full_parts lib own names a_path l))))
