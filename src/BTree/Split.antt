-- ===== src/BTree/Split.antt =====
-- 2_btree/btree.c: what _split_child makes of a full child.
use personal_c_cpp_back_end.Base.{
  ℕ, zero, suc, ◌+◌, ◌-◌, ◌≤◌, ◌<◌, ◌≡◌, ◌≢◌, refl, sym, ap, ◌∙◌, true, some, List, ◌∷◌, Returns,
  Returns-mono, Returns-bind, leb, length, set, length-set, get_or-set_self, get_or-set_ne,
  replicate, length-replicate, arith,
}
use personal_c_cpp_back_end.BTree.{
  Ptr, null, Node, Tree, put, update, new_node, open_gap, copy_up, split_child,
}
use personal_c_cpp_back_end.BTree.Arrays.{
  at, read-ok, write-ok, Copied, copy_up-Copied, Opened, open_gap-Opened,
}
use personal_c_cpp_back_end.BTree.Sizes.{HasArrays, put_self, put_other}

at-replicate : (n i : ℕ) → at (replicate n 0) i ≡ 0
at-replicate zero i = refl
at-replicate (suc n) zero = refl
at-replicate (suc n) (suc i) = at-replicate n i

-- `ys` is `xs` with `v` put in at the index `n`, where `i` entries of `xs` are in use.
pub record PutIn (v : ℕ) (xs ys : List ℕ) (n i : ℕ) : Type 0 where
  pub same_length : length ys ≡ length xs
  pub placed : at ys n ≡ v
  pub below : (m : ℕ) → m < n → at ys m ≡ at xs m
  pub moved : (m : ℕ) → n ≤ m → m < i → at ys (m + 1) ≡ at xs m

Opened-PutIn :
    (v : ℕ) (xs ys : List ℕ) (n i : ℕ)
    → n < length xs
    → Opened xs ys n i
    → PutIn v xs (set ys n v) n i
Opened-PutIn v xs ys n i room o = record {
  same_length = length-set ys n v ∙ o.same_length;
  placed = get_or-set_self ys n v 0 (omega (arith, o.same_length));
  below = λ m h. get_or-set_ne ys n m v 0 (omega arith) ∙ o.below m h;
  moved = λ m h k. get_or-set_ne ys n (m + 1) v 0 (omega (arith, h)) ∙ o.moved m h k;
}

-- What the split leaves: the child keeps its first min_num keys, the new sibling has the leaf flag of
-- the child, `rest` keys from behind the middle one with their children, and zeros behind them, and the
-- parent has the middle key and the sibling put in.
pub record IsSplit (t t' : Tree) (parent child sibling : Ptr) (pn cn : Node) (n rest : ℕ)
    : Type 0 where
  pub child_node : t'.node child ≡ some (record cn { key_num = t.min_num })
  pub sibling_node : Node
  pub sibling_eq : t'.node sibling ≡ some sibling_node
  pub sibling_num : sibling_node.key_num ≡ t.min_num
  pub sibling_leaf : sibling_node.is_leaf ≡ cn.is_leaf
  pub sibling_arrays : HasArrays t sibling_node
  pub upper_keys : (m : ℕ) → m < rest → at sibling_node.keys m ≡ at cn.keys (t.mid_idx + 1 + m)
  pub zero_keys : (m : ℕ) → rest ≤ m → at sibling_node.keys m ≡ 0
  pub upper_children :
      (m : ℕ) → m ≤ rest → at sibling_node.children m ≡ at cn.children (t.mid_idx + 1 + m)
  pub parent_node : Node
  pub parent_eq : t'.node parent ≡ some parent_node
  pub parent_num : parent_node.key_num ≡ pn.key_num + 1
  pub parent_keys : PutIn (at cn.keys t.mid_idx) pn.keys parent_node.keys n pn.key_num
  pub parent_children : PutIn sibling pn.children parent_node.children (n + 1) (pn.key_num + 1)
  pub others : (p : Ptr) → p ≢ parent → p ≢ child → p ≢ sibling → t'.node p ≡ t.node p

-- The nodes of the tree after the split.
assembled :
    (t : Tree) (ps : List Ptr) (parent child sibling : Ptr) (pn cn : Node) (n rest : ℕ)
    (keys children half half_children : List ℕ)
    → parent ≢ child
    → sibling ≢ parent
    → sibling ≢ child
    → PutIn (at cn.keys t.mid_idx) pn.keys keys n pn.key_num
    → PutIn sibling pn.children children (n + 1) (pn.key_num + 1)
    → Copied cn.keys (replicate t.max_num 0) half rest (t.mid_idx + 1) 0
    → Copied cn.children (replicate t.order null) half_children (suc rest) (t.mid_idx + 1) 0
    → let t1 = put (record t { supply = ps }) sibling (new_node t cn.is_leaf) in
      let t2 = put t1 child (record cn { key_num = t.min_num }) in
      let sn = record (new_node t cn.is_leaf) {
        keys = half;
        children = half_children;
        key_num = t.min_num;
      } in
      IsSplit t
        (put
          (put t2 sibling sn)
          parent
          (record pn { keys = keys; children = children; key_num = pn.key_num + 1 }))
        parent
        child
        sibling
        pn
        cn
        n
        rest
assembled t ps parent child sibling pn cn n rest keys children half half_children pc sp sc ks cs hk
      hc =
    let t0 = record t { supply = ps } in
    let t1 = put t0 sibling (new_node t cn.is_leaf) in
    let left = record cn { key_num = t.min_num } in
    let t2 = put t1 child left in
    let sn : Node = record (new_node t cn.is_leaf) {
      keys = half;
      children = half_children;
      key_num = t.min_num;
    } in
    let t3 = put t2 sibling sn in
    let top = record pn { keys = keys; children = children; key_num = pn.key_num + 1 } in
    record {
      child_node =
          put_other t3 parent top child (λ e. pc (sym e))
          ∙ put_other t2 sibling sn child (λ e. sc (sym e))
          ∙ put_self t1 child left;
      sibling_node = sn;
      sibling_eq = put_other t3 parent top sibling sp ∙ put_self t2 sibling sn;
      sibling_num = refl;
      sibling_leaf = refl;
      sibling_arrays = record {
        keys_length = hk.same_length ∙ length-replicate t.max_num 0;
        children_length = hc.same_length ∙ length-replicate t.order null;
      };
      upper_keys = λ m h. ap (at half) (omega arith) ∙ hk.copied m h;
      zero_keys = λ m h. hk.above m (omega (arith, h)) ∙ at-replicate t.max_num m;
      upper_children = λ m h. ap (at half_children) (omega arith) ∙ hc.copied m (omega (arith, h));
      parent_node = top;
      parent_eq = put_self t3 parent top;
      parent_num = refl;
      parent_keys = ks;
      parent_children = cs;
      others = λ p np nc ns.
          put_other t3 parent top p np
          ∙ put_other t2 sibling sn p ns
          ∙ put_other t1 child left p nc
          ∙ put_other t0 sibling (new_node t cn.is_leaf) p ns;
    }

-- The split of a full child with its siblings' place in the arrays of a parent that has room, with a
-- new node that differs from both.
pub split_child-IsSplit :
    (t : Tree) (ps : List Ptr) (parent child sibling : Ptr) (pn cn : Node) (n : ℕ)
    → t.node parent ≡ some pn
    → t.node child ≡ some cn
    → t.supply ≡ sibling ∷ ps
    → parent ≢ child
    → sibling ≢ parent
    → sibling ≢ child
    → HasArrays t pn
    → HasArrays t cn
    → t.mid_idx < t.max_num
    → t.max_num < t.order
    → n ≤ pn.key_num
    → pn.key_num < t.max_num
    → at pn.children n ≡ child
    → Returns
        (split_child t parent n)
        λ t'. IsSplit t t' parent child sibling pn cn n (t.max_num - (t.mid_idx + 1))
unfolding split_child
split_child-IsSplit t ps parent child sibling pn cn n ep ec es pc sp sc hp hc mid order le room
      at_n =
    let test : leb n t.max_num ≡ true = ground arith in
    let made : update t.node sibling (some (new_node t cn.is_leaf)) sibling
        ≡ some (new_node t cn.is_leaf) =
      put_self t sibling (new_node t cn.is_leaf) in
    let rest = t.max_num - (t.mid_idx + 1) in
    let middle = read-ok cn.keys t.mid_idx (omega (arith, mid, hc.keys_length)) in
    rw
      (
        test,
        ep,
        read-ok pn.children n (omega (arith, le, room, order, hp.children_length)),
        at_n,
        ec,
        es,
        made,
      )
      (Returns-bind _ (open_gap pn.key_num n pn.keys pn.children) _
        (open_gap-Opened pn.key_num n pn.keys pn.children le (omega (arith, room, hp.keys_length))
          (omega (arith, room, order, hp.children_length)))
        λ (ks, cs, gap) (eg, ok_, oc).
          rw
            (
              middle,
              eg,
              write-ok ks n (at cn.keys t.mid_idx)
                  (omega (arith, ok_.same_length, hp.keys_length, le, room)),
              write-ok cs (n + 1) sibling
                  (omega (arith, oc.same_length, hp.children_length, le, room, order)),
            )
            (Returns-bind _
              (copy_up rest (t.mid_idx + 1) 0 cn.keys cn.children (replicate t.max_num 0)
                (replicate t.order null))
              _
              (copy_up-Copied rest (t.mid_idx + 1) 0 cn.keys cn.children (replicate t.max_num 0)
                (replicate t.order null) (omega (arith, mid, hc.keys_length))
                (omega (arith, mid, order, hc.children_length))
                (omega (arith, length-replicate {A = ℕ} t.max_num 0))
                (omega (arith, mid, order, length-replicate t.order null)))
              λ (half, half_children) (hk, hcs).
                assembled (record t { supply = sibling ∷ ps }) ps parent child sibling pn cn n rest
                  _ _ half half_children pc sp sc
                  (Opened-PutIn (at cn.keys t.mid_idx) pn.keys ks n pn.key_num
                    (omega (arith, hp.keys_length, le, room)) ok_)
                  (Opened-PutIn sibling pn.children cs (n + 1) (pn.key_num + 1)
                    (omega (arith, hp.children_length, le, room, order)) oc)
                  hk hcs))

-- When max_num is twice min_num, the last key that the sibling counts was never written.
pub odd_order-zero_key :
    (t : Tree) (ps : List Ptr) (parent child sibling : Ptr) (pn cn : Node) (n : ℕ)
    → t.node parent ≡ some pn
    → t.node child ≡ some cn
    → t.supply ≡ sibling ∷ ps
    → parent ≢ child
    → sibling ≢ parent
    → sibling ≢ child
    → HasArrays t pn
    → HasArrays t cn
    → t.mid_idx ≡ t.min_num
    → t.max_num ≡ t.min_num + t.min_num
    → t.max_num < t.order
    → n ≤ pn.key_num
    → pn.key_num < t.max_num
    → at pn.children n ≡ child
    → Returns (split_child t parent n) λ t'.
      (sn : Node) × (t'.node sibling ≡ some sn)
      × (sn.key_num ≡ t.min_num)
      × (at sn.keys (sn.key_num - 1) ≡ 0)
odd_order-zero_key t ps parent child sibling pn cn n ep ec es pc sp sc hp hc mid twice order le room
      at_n =
    Returns-mono _ (split_child t parent n)
      (split_child-IsSplit t ps parent child sibling pn cn n ep ec es pc sp sc hp hc (omega arith)
        order le room at_n)
      λ t' s.
        (s.sibling_node, s.sibling_eq, s.sibling_num, s.zero_keys _ (omega (arith, s.sibling_num)))
