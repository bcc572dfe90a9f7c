-- ===== src/RbTree/Frame.antt =====
-- 1_rbtree/rbtree.c: what a write to one node leaves of the tree below an address.
use personal_c_cpp_back_end.Base.{◌≡◌, ◌≢◌, refl, sym, ◌∙◌, false, some, ◌==◌, arith}
use personal_c_cpp_back_end.RbTree.{Ptr, Node, Tree, update}
use personal_c_cpp_back_end.RbTree.Shape.{Shape, leaf, fork, IsTree}

-- The node at `q` has the same children and key in both trees.
abbrev pub Keeps : Tree → Tree → Ptr → Type 0
Keeps t t' q =
    (n : Node)
    → t.node q ≡ some n
    → (n' : Node) × (t'.node q ≡ some n')
      × (n'.left ≡ n.left)
      × (n'.right ≡ n.right)
      × (n'.key ≡ n.key)

abbrev pub KeepsAll : Tree → Tree → Shape → Type 0
KeepsAll t t' leaf = Unit
KeepsAll t t' (fork l q k r) = Keeps t t' q × KeepsAll t t' l × KeepsAll t t' r

pub IsTree-kept :
    (t t' : Tree) (p : Ptr) (s : Shape)
    → t'.nil ≡ t.nil
    → KeepsAll t t' s
    → IsTree t p s
    → IsTree t' p s
IsTree-kept t t' p leaf nil keep h = h ∙ sym nil
IsTree-kept t t' p (fork l q k r) nil keep h =
    let (same, given, (n, node, keyed, left, right)) = h in
    let (n', node', e_left, e_right, e_key) = keep.0 n node in
    (
      same,
      λ e. given (e ∙ nil),
      (
        n',
        node',
        e_key ∙ keyed,
        IsTree-kept t t' n'.left l nil keep.1 (rw e_left left),
        IsTree-kept t t' n'.right r nil keep.2 (rw e_right right),
      ),
    )

pub update_other {ℓ} :
    {A : Type ℓ} (f : Ptr → A) (p : Ptr) (v : A) (q : Ptr) → q ≢ p → update f p v q ≡ f q
update_other f p v q ne = let test : (q == p) ≡ false = ground (arith, ne) in rw test refl
