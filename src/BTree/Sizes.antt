-- ===== src/BTree/Sizes.antt =====
-- 2_btree/btree.c: the sizes that btree_init_tree sets, and nodes with arrays of those sizes.
use personal_c_cpp_back_end.Base.{
  ℕ, ◌+◌, ◌-◌, ◌%◌, ◌≤◌, ◌<◌, ◌≡◌, ◌≢◌, refl, true, false, some, List, ◌∷◌, Returns, ltb, ◌==◌,
  length, length-replicate, arith,
}
use personal_c_cpp_back_end.BTree.{Ptr, null, Node, Tree, put, create_node, btree_init_tree}

-- A node whose arrays have the lengths that _create_node gives them.
pub record HasArrays (t : Tree) (n : Node) : Type 0 where
  pub keys_length : length n.keys ≡ t.max_num
  pub children_length : length n.children ≡ t.order

pub put_self : (t : Tree) (a : Ptr) (v : Node) → (put t a v).node a ≡ some v
put_self t a v = let same : (a == a) ≡ true = ground arith in rw same refl

pub put_other : (t : Tree) (a : Ptr) (v : Node) (b : Ptr) → b ≢ a → (put t a v).node b ≡ t.node b
put_other t a v b ne = let other : (b == a) ≡ false = ground (arith, ne) in rw other refl

-- The sizes for every order that is accepted, where `none` is the refusal.
pub btree_init_tree-sizes :
    (t : Tree) (order : ℕ) (p : Ptr) (ps : List Ptr)
    → t.supply ≡ p ∷ ps
    → 2 ≤ order
    → Returns (btree_init_tree t order) λ made.
      (t' : Tree) × (made ≡ some t')
      × (t'.order % 2 ≡ 0)
      × (t'.mid_idx ≡ t'.min_num)
      × (t'.mid_idx < t'.max_num)
      × (t'.max_num < t'.order)
      × (t'.max_num ≡ t'.min_num + t'.min_num + 1 - order % 2)
      × ((n : Node) × (t'.node t'.root ≡ some n)
          × (n.key_num ≡ 0)
          × (n.is_leaf ≡ true)
          × HasArrays t' n)
unfolding btree_init_tree create_node
btree_init_tree-sizes t order p ps es le =
    let test : ltb order 2 ≡ false = ground arith in
    rw (test, es)
      (
        _,
        refl,
        omega arith,
        refl,
        omega arith,
        omega arith,
        omega arith,
        (
          _,
          put_self t p _,
          refl,
          refl,
          record {
            keys_length = length-replicate (order - 1) 0;
            children_length = length-replicate (order % 2 + order) null;
          },
        ),
      )
