-- ===== src/BTree/Tests.antt =====
-- 2_btree/btree.c: insertions and deletions, and the theorems at the trees that they make.
use personal_c_cpp_back_end.Base.{
  ℕ, ◌≡◌, refl, ◌+◌, length, Bool, true, false, none, some, List, [], ◌∷◌, ◌++◌, Run, ok, fault,
  ◌>>=◌, zero, suc, Returns, arith, get_or,
}
use personal_c_cpp_back_end.BTree.{Ptr, Node, Tree, put, btree_init_tree, split_child}
use personal_c_cpp_back_end.BTree.Insert.{btree_insert, insert_notfull}
use personal_c_cpp_back_end.BTree.Delete.{btree_delete, delete_key, merge_children}
use personal_c_cpp_back_end.BTree.Leaf.{IsSorted, Inserted, insert_notfull_leaf}
use personal_c_cpp_back_end.BTree.Sizes.{HasArrays}
use personal_c_cpp_back_end.BTree.Split.{IsSplit, split_child-IsSplit}
use personal_c_cpp_back_end.BTree.Merge.{IsMerged, merge_children-IsMerged}
use personal_c_cpp_back_end.BTree.Faults.{delete_in_root-fault}

-- No node, and plenty of memory.
abbrev no_tree : Tree
no_tree = record {
  root = 0;
  max_num = 0;
  min_num = 0;
  mid_idx = 0;
  order = 0;
  node = λ p. none;
  supply = 100 ∷ 200 ∷ 300 ∷ 400 ∷ 500 ∷ 600 ∷ 700 ∷ 800 ∷ [];
}

abbrev insert_all : List ℕ → Tree → Run Tree
insert_all [] t = ok t
insert_all (k ∷ ks) t = btree_insert 9 t k >>= λ t'. insert_all ks t'

abbrev started : ℕ → Run Tree
started order = btree_init_tree no_tree order >>= λ made. elim made [ none ↦ fault | some t ↦ ok t ]

-- The keys of a subtree in order, down to a depth; `below` lists a child.
abbrev inorder_from : (Ptr → List ℕ) → Node → (rounds i : ℕ) → List ℕ
inorder_from below n zero i = below (get_or n.children i 0)
inorder_from below n (suc rounds) i =
    below (get_or n.children i 0) ++ (get_or n.keys i 0 ∷ inorder_from below n rounds (i + 1))

abbrev inorder : ℕ → Tree → Ptr → List ℕ
inorder zero t p = []
inorder (suc fuel) t p = elim (t.node p) [
  | none ↦ []
  | some n ↦ inorder_from (inorder fuel t) n n.key_num 0
]

abbrev listing : Run Tree → Run (List ℕ)
listing m = m >>= λ t. ok (inorder 4 t t.root)

ascending :
    listing (started 4 >>= insert_all (1 ∷ 2 ∷ 3 ∷ 4 ∷ 5 ∷ 6 ∷ 7 ∷ 8 ∷ []))
    ≡ ok (1 ∷ 2 ∷ 3 ∷ 4 ∷ 5 ∷ 6 ∷ 7 ∷ 8 ∷ [])
unfolding btree_init_tree btree_insert
ascending = refl

-- With an odd order the split makes a key 0 out of nothing.
odd_order :
    listing (started 5 >>= insert_all (1 ∷ 2 ∷ 3 ∷ 4 ∷ 5 ∷ [])) ≡ ok (1 ∷ 2 ∷ 3 ∷ 4 ∷ 0 ∷ 5 ∷ [])
unfolding btree_init_tree btree_insert
odd_order = refl

-- A key below all others is compared with keys[-1].
descending : listing (started 4 >>= insert_all (5 ∷ 6 ∷ 7 ∷ 8 ∷ 1 ∷ [])) ≡ fault
unfolding btree_init_tree btree_insert
descending = refl

deleted :
    listing (started 4 >>= insert_all (1 ∷ 2 ∷ 3 ∷ 4 ∷ 5 ∷ 6 ∷ []) >>= λ t. btree_delete 9 t 4)
    ≡ ok (1 ∷ 2 ∷ 3 ∷ 5 ∷ 6 ∷ [])
unfolding btree_init_tree btree_insert btree_delete
deleted = refl

-- Deletions down to the last key: the root is freed and used again.
emptied :
    (started 4
      >>= insert_all (1 ∷ 2 ∷ 3 ∷ 4 ∷ [])
      >>= (λ t. btree_delete 9 t 4)
      >>= (λ t. btree_delete 9 t 2)
      >>= (λ t. btree_delete 9 t 3)
      >>= λ t. btree_delete 9 t 1)
    ≡ fault
unfolding btree_init_tree btree_insert btree_delete
emptied = refl

abbrev a_node : Bool → List ℕ → List Ptr → ℕ → Node
a_node is_leaf keys children key_num = record {
  keys = keys;
  children = children;
  key_num = key_num;
  is_leaf = is_leaf;
}

-- A tree of order 4 with the given nodes: the root, a left and a right child.
abbrev small_tree : Node → Node → Node → Tree
small_tree top left right =
    let bare = record no_tree { root = 10; max_num = 3; min_num = 1; mid_idx = 1; order = 4 } in
    put (put (put bare 30 right) 20 left) 10 top

abbrev leaf_of : (a b c n : ℕ) → Node
leaf_of a b c n = a_node true (a ∷ b ∷ c ∷ []) (0 ∷ 0 ∷ 0 ∷ 0 ∷ []) n

abbrev top_of : ℕ → Node
top_of k = a_node false (k ∷ 0 ∷ 0 ∷ []) (20 ∷ 30 ∷ 0 ∷ 0 ∷ []) 1

abbrev full_left : Tree
full_left = small_tree (top_of 8) (leaf_of 2 4 6 3) (leaf_of 9 0 0 1)

abbrev two_keys : Tree
two_keys = small_tree (top_of 8) (leaf_of 2 6 0 2) (leaf_of 9 0 0 1)

abbrev no_keys : Tree
no_keys = small_tree (top_of 8) (leaf_of 2 6 0 0) (leaf_of 9 0 0 0)

insert_notfull_leaf_example : Returns (insert_notfull 1 two_keys 20 5) λ t'.
    (keys : List ℕ) × (t' ≡ put two_keys 20 (record (leaf_of 2 6 0 2) { keys = keys; key_num = 3 }))
    × Inserted 5 (2 ∷ 6 ∷ 0 ∷ []) keys 2
    × IsSorted keys 3
insert_notfull_leaf_example =
    insert_notfull_leaf 0 two_keys 20 (leaf_of 2 6 0 2) 5 refl refl (omega arith)
      λ m h. let e : m ≡ 0 = omega (arith, h) in rw e (omega arith)

arrays :
    {t : Tree} {n : Node} → length n.keys ≡ t.max_num → length n.children ≡ t.order → HasArrays t n
arrays a b = record { keys_length = a; children_length = b }

split_child-IsSplit_example :
    Returns
      (split_child full_left 10 0)
      λ t'. IsSplit full_left t' 10 20 100 (top_of 8) (leaf_of 2 4 6 3) 0 1
split_child-IsSplit_example =
    split_child-IsSplit full_left _ 10 20 100 (top_of 8) (leaf_of 2 4 6 3) 0 refl refl refl
      (omega arith) (omega arith) (omega arith) (arrays refl refl) (arrays refl refl) (omega arith)
      (omega arith) (omega arith) (omega arith) refl

merge_children-IsMerged_example :
    Returns
      (merge_children no_keys 10 0)
      λ t'. IsMerged no_keys t' 10 20 30 (top_of 8) (leaf_of 2 6 0 0) (leaf_of 9 0 0 0) 0
merge_children-IsMerged_example =
    merge_children-IsMerged no_keys 10 20 30 (top_of 8) (leaf_of 2 6 0 0) (leaf_of 9 0 0 0) 0 refl
      refl refl refl refl (omega arith) (omega arith) (omega arith) (arrays refl refl)
      (arrays refl refl) (arrays refl refl) (omega arith) (omega arith) (omega arith) (omega arith)

delete_in_root-fault_example : delete_key 2 no_keys 10 8 ≡ fault
delete_in_root-fault_example =
    delete_in_root-fault 1 no_keys 10 20 30 (top_of 8) (leaf_of 2 6 0 0) (leaf_of 9 0 0 0) refl refl
      refl refl refl (omega arith) (arrays refl refl) (omega arith) (omega arith) refl refl
      (omega arith) (omega arith) (omega arith) (omega arith) (omega arith) (arrays refl refl)
      (arrays refl refl) (omega arith)
