-- ===== src/BTree/Faults.antt =====
-- 2_btree/btree.c: calls that leave the arrays or use a node that was freed.
use personal_c_cpp_back_end.Base.{
  ℕ, zero, suc, ◌+◌, ◌≤◌, ◌<◌, ◌≡◌, ◌≢◌, refl, true, false, some, List, ok, fault, length, arith,
  ltb, leb, ◌==◌, Returns-eq-ok, ◌>>=◌, read,
}
use personal_c_cpp_back_end.BTree.{Ptr, null, Node, Tree, get}
use personal_c_cpp_back_end.BTree.Arrays.{at, read-ok}
use personal_c_cpp_back_end.BTree.Insert.{find_child, insert_notfull}
use personal_c_cpp_back_end.BTree.Delete.{merge_children, delete_key}
use personal_c_cpp_back_end.BTree.Sizes.{HasArrays}
use personal_c_cpp_back_end.BTree.Merge.{merge_children-IsMerged}

find_child-zero :
    (i key : ℕ) (keys : List ℕ)
    → i ≤ length keys
    → ((m : ℕ) → m < i → key < at keys m)
    → find_child i key keys ≡ ok 0
unfolding find_child
find_child-zero zero key keys room above = refl
find_child-zero (suc i) key keys room above =
    let test : ltb key (at keys i) ≡ true = ground (arith, above i (omega arith)) in
    rw (read-ok keys i (omega arith), test)
      (find_child-zero i key keys (omega arith) λ m h. above m (omega arith))

-- A key below all keys of an inner node, whose first child is not full, is compared with keys[-1].
pub insert_below-fault :
    (fuel : ℕ) (t : Tree) (p : Ptr) (n cn : Node) (key : ℕ)
    → t.node p ≡ some n
    → n.is_leaf ≡ false
    → n.key_num ≤ length n.keys
    → ((m : ℕ) → m < n.key_num → key < at n.keys m)
    → 0 < length n.children
    → t.node (at n.children 0) ≡ some cn
    → cn.key_num ≢ t.max_num
    → insert_notfull (suc fuel) t p key ≡ fault
unfolding insert_notfull
insert_below-fault fuel t p n cn key e leaf room above child ec free =
    let test : (cn.key_num == t.max_num) ≡ false = ground (arith, free) in
    rw
      (
        e,
        leaf,
        find_child-zero n.key_num key n.keys room above,
        read-ok n.children 0 child,
        ec,
        test,
        e,
      )
      refl

module _ (fuel : ℕ) (t : Tree) (p left right : Ptr) (pn ln rn : Node) (ep : t.node p ≡ some pn)
    (el : t.node left ≡ some ln) (er : t.node right ≡ some rn) (at_left : at pn.children 0 ≡ left)
    (at_right : at pn.children 1 ≡ right) (np : p ≢ null) (hp : HasArrays t pn)
    (order : t.max_num < t.order) (some_keys : 0 < t.max_num) (one : pn.key_num ≡ 1)
    (leaf : pn.is_leaf ≡ false) (few_l : ln.key_num < t.min_num)
    (few_r : rn.key_num < t.min_num) where
  delete_in_root-merges : delete_key (suc fuel) t p (at pn.keys 0) ≡ (
      merge_children t p 0
      >>= (λ t1. get t1 p >>= λ n1. read n1.children 0 >>= λ c. ok (t1, c, at pn.keys 0))
      >>= λ (t1, c, k). delete_key fuel t1 c k)
  unfolding delete_key
  delete_in_root-merges =
      let there : (p == null) ≡ false = ground (arith, np) in
      let same : (at pn.keys 0 == at pn.keys 0) ≡ true = ground arith in
      let stop : ltb (at pn.keys 0) (at pn.keys 0) ≡ false = ground arith in
      let test_l : leb t.min_num ln.key_num ≡ false = ground arith in
      let test_r : leb t.min_num rn.key_num ≡ false = ground arith in
      let first = read-ok pn.keys 0 (omega (arith, hp.keys_length)) in
      rw
        (
          there,
          ep,
          one,
          first,
          stop,
          first,
          same,
          leaf,
          read-ok pn.children 1 (omega (arith, hp.children_length)),
          at_right,
          er,
          test_r,
          read-ok pn.children 0 (omega (arith, hp.children_length)),
          at_left,
          el,
          test_l,
        )
        refl

  -- The only key of a root is deleted while both children have less than min_num keys: they are merged,
  -- the root is freed, and its children are read to go on.
  pub delete_in_root-fault :
      left ≢ right
      → left ≢ p
      → right ≢ p
      → HasArrays t ln
      → HasArrays t rn
      → t.min_num + t.min_num ≤ t.max_num
      → delete_key (suc fuel) t p (at pn.keys 0) ≡ fault
  delete_in_root-fault lr lp rp hl hr twice =
      let (t1, e, m) = Returns-eq-ok _ (merge_children t p 0) (
        merge_children-IsMerged t p left right pn ln rn 0 ep el er at_left at_right lr lp rp hp hl
          hr (omega arith) (omega arith) order (omega arith)) in
      rw (delete_in_root-merges, e, (m.freed one).0) refl
