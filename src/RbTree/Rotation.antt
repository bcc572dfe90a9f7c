-- ===== src/RbTree/Rotation.antt =====
-- 1_rbtree/rbtree.c: the left rotation on the tree that the nodes form.
use mathlib.Core.Option.{some-injective}
use personal_c_cpp_back_end.Base.{
  ℕ, ◌≡◌, ◌≢◌, refl, sym, ap, ◌∙◌, inl, inr, true, false, some, Returns, Returns-bind, Returns-mono,
  subst, ◌==◌, arith, Bool-cases,
}
use personal_c_cpp_back_end.RbTree.{Ptr, Node, Tree}
use personal_c_cpp_back_end.RbTree.Shape.{Shape, leaf, fork, IsTree}
use personal_c_cpp_back_end.RbTree.Frame.{Keeps, KeepsAll, IsTree-kept, update_other}
use personal_c_cpp_back_end.RbTree.Rotate.{replace_child, left_rotate}

-- Only the node at `p` and the root may differ.
abbrev pub OnlyAt : Ptr → Tree → Tree → Type 0
OnlyAt p t t' = (t'.nil ≡ t.nil) × ((q : Ptr) → q ≢ p → t'.node q ≡ t.node q)

replace_child-OnlyAt :
    (t : Tree) (p x y : Ptr) (np : Node)
    → t.node p ≡ some np
    → Returns (replace_child t p x y) (OnlyAt p t)
unfolding replace_child
replace_child-OnlyAt t p x y np e = elim (Bool-cases (p == t.nil)) [
  | inl root ↦ rw root (refl, λ q ne. refl)
  | inr inner ↦ elim (Bool-cases (x == np.left)) [
    | inl left ↦ rw (inner, e, left) (refl, λ q ne. update_other t.node p _ q ne)
    | inr right ↦ rw (inner, e, right) (refl, λ q ne. update_other t.node p _ q ne)
  ]
]

-- What a left rotation at `x`, over its right child `y` with the inner child `z`, does to the nodes.
abbrev pub Rotated : Tree → Tree → (p x y z : Ptr) → (nx ny : Node) → Type 0
Rotated t t' p x y z nx ny =
    (t'.nil ≡ t.nil)
    × (t'.node x ≡ some (record nx { parent = y; right = z }))
    × (t'.node y ≡ some (record ny { parent = p; left = x }))
    × ((q : Ptr) → q ≢ p → q ≢ x → q ≢ y → Keeps t t' q)

left_rotate-Rotated :
    (t : Tree) (x : Ptr) (nx ny nz np : Node)
    → t.node x ≡ some nx
    → t.node nx.right ≡ some ny
    → t.node ny.left ≡ some nz
    → t.node nx.parent ≡ some np
    → nx.right ≢ t.nil
    → x ≢ nx.right
    → x ≢ nx.parent
    → nx.right ≢ nx.parent
    → ny.left ≢ x
    → ny.left ≢ nx.right
    → (ny.left ≢ t.nil → ny.left ≢ nx.parent)
    → Returns (left_rotate t x) λ t'. Rotated t t' nx.parent x nx.right ny.left nx ny
unfolding left_rotate
left_rotate-Rotated t x nx ny nz np ex ey ez ep real xy xp yp zx zy zp =
    let test : (t.nil == nx.right) ≡ false = ground (arith, real) in
    rw (ex, test, ey)
      (Returns-bind _ (replace_child t nx.parent x nx.right) _
        (replace_child-OnlyAt t nx.parent x nx.right np ep)
        λ t1 (nil1, same1).
          let ey1 = same1 nx.right yp ∙ ey in
          let ex1 = same1 x xp ∙ ex in
          let yy : (nx.right == nx.right) ≡ true = ground arith in
          let xx : (x == x) ≡ true = ground arith in
          let yx : (nx.right == x) ≡ false = ground (arith, xy) in
          let xy' : (x == nx.right) ≡ false = ground (arith, xy) in
          let zx' : (ny.left == x) ≡ false = ground (arith, zx) in
          let zy' : (ny.left == nx.right) ≡ false = ground (arith, zy) in
          let xz : (x == ny.left) ≡ false = ground (arith, zx) in
          let yz : (nx.right == ny.left) ≡ false = ground (arith, zy) in
          let zz : (ny.left == ny.left) ≡ true = ground arith in
          rw (ey1, yy, ex1, xy', ex1, xx)
            (elim (Bool-cases (ny.left == t1.nil)) [
              | inl no_child ↦ rw no_child (
                nil1,
                rw xx refl,
                rw (yx, yy) refl,
                λ q qp qx qy n e.
                    let a : (q == x) ≡ false = ground (arith, qx) in
                    let b : (q == nx.right) ≡ false = ground (arith, qy) in
                    (n, rw (a, b) (same1 q qp ∙ e), refl, refl, refl),
              )
              | inr child ↦
                  let ez1 = same1 ny.left (zp λ e. ground (arith, e ∙ sym nil1)) ∙ ez in
                  rw (child, zx', zy', ez1)
                    (
                      nil1,
                      rw (xz, xx) refl,
                      rw (yz, yx, yy) refl,
                      λ q qp qx qy n e.
                          let a : (q == x) ≡ false = ground (arith, qx) in
                          let b : (q == nx.right) ≡ false = ground (arith, qy) in
                          elim (Bool-cases (q == ny.left)) [
                            | inl at_z ↦
                                let is : q ≡ ny.left = ground arith in
                                let same : nz ≡ n =
                                  some-injective nz n (sym ez ∙ ap t.node (sym is) ∙ e) in
                                (
                                  record nz { parent = x },
                                  rw at_z refl,
                                  ap (λ m. m.left) same,
                                  ap (λ m. m.right) same,
                                  ap (λ m. m.key) same,
                                )
                            | inr off ↦ (n, rw (off, a, b) (same1 q qp ∙ e), refl, refl, refl)
                          ],
                    )
            ]))

-- No node of the shape is `p`, `x` or `y`.
abbrev pub Avoids : (p x y : Ptr) → Shape → Type 0
Avoids p x y leaf = Unit
Avoids p x y (fork l q k r) = (q ≢ p) × (q ≢ x) × (q ≢ y) × Avoids p x y l × Avoids p x y r

Rotated-KeepsAll :
    (t t' : Tree) (p x y z : Ptr) (nx ny : Node) (s : Shape)
    → Rotated t t' p x y z nx ny
    → Avoids p x y s
    → KeepsAll t t' s
Rotated-KeepsAll t t' p x y z nx ny leaf h out = tt
Rotated-KeepsAll t t' p x y z nx ny (fork l q k r) h out = (
  h.3 q out.0 out.1 out.2,
  Rotated-KeepsAll t t' p x y z nx ny l h out.3,
  Rotated-KeepsAll t t' p x y z nx ny r h out.4,
)

-- The nodes that a left rotation at `x` touches: the parent `p`, `x`, its right child `y` and the root
-- `z` of the tree between them are nodes, of which only `p` and `z` may be the same, the sentinel.
pub record CanRotate (t : Tree) (x : Ptr) (nx ny : Node) : Type 0 where
  pub at_x : t.node x ≡ some nx
  pub at_y : t.node nx.right ≡ some ny
  pub inner : (n : Node) × (t.node ny.left ≡ some n)
  pub outer : (n : Node) × (t.node nx.parent ≡ some n)
  pub apart : x ≢ nx.right
  pub x_parent : x ≢ nx.parent
  pub y_parent : nx.right ≢ nx.parent
  pub x_inner : ny.left ≢ x
  pub y_inner : ny.left ≢ nx.right
  pub parent_inner : ny.left ≢ t.nil → ny.left ≢ nx.parent

-- A left rotation at `x` turns the tree of `a`, `x` and the tree of `b`, `y` and `c` into the tree of
-- the tree of `a`, `x` and `b`, then `y` and `c`: the nodes keep their keys and their order.
pub left_rotate-IsTree :
    (t : Tree) (x : Ptr) (kx ky : ℕ) (nx ny : Node) (a b c : Shape)
    → CanRotate t x nx ny
    → IsTree t x (fork a x kx (fork b nx.right ky c))
    → Avoids nx.parent x nx.right a
    → Avoids nx.parent x nx.right b
    → Avoids nx.parent x nx.right c
    → Returns (left_rotate t x) λ t'. IsTree t' nx.right (fork (fork a x kx b) nx.right ky c)
left_rotate-IsTree t x kx ky nx ny a b c can h out_a out_b out_c =
    let (same_x, real_x, (n, node, key_x, tree_a, right)) = h in
    let (same_y, real_y, (m, node', key_y, tree_b, tree_c)) = right in
    let is_x : n ≡ nx = some-injective n nx (sym node ∙ can.at_x) in
    let is_y : m ≡ ny = some-injective m ny (sym node' ∙ can.at_y) in
    Returns-mono _ (left_rotate t x)
      (left_rotate-Rotated t x nx ny can.inner.0 can.outer.0 can.at_x can.at_y can.inner.1
        can.outer.1 real_y can.apart can.x_parent can.y_parent can.x_inner can.y_inner
        can.parent_inner)
      λ t' r.
        let keep : (s : Shape) → Avoids nx.parent x nx.right s → KeepsAll t t' s =
          λ s out. Rotated-KeepsAll t t' nx.parent x nx.right ny.left nx ny s r out in
        (
          refl,
          λ e. real_y (e ∙ r.0),
          (
            record ny { parent = nx.parent; left = x },
            r.2,
            ap (λ v. v.key) (sym is_y) ∙ key_y,
            (
              refl,
              λ e. real_x (e ∙ r.0),
              (
                record nx { parent = nx.right; right = ny.left },
                r.1,
                ap (λ v. v.key) (sym is_x) ∙ key_x,
                IsTree-kept t t' nx.left a r.0 (keep a out_a)
                    (subst (λ v. IsTree t v.left a) is_x tree_a),
                IsTree-kept t t' ny.left b r.0 (keep b out_b)
                    (subst (λ v. IsTree t v.left b) is_y tree_b),
              ),
            ),
            IsTree-kept t t' ny.right c r.0 (keep c out_c)
                (subst (λ v. IsTree t v.right c) is_y tree_c),
          ),
        )
