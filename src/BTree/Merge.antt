-- ===== src/BTree/Merge.antt =====
-- 2_btree/btree.c: what _merge_children leaves, also when the parent was a root with one key.
use personal_c_cpp_back_end.Base.{
  ℕ, suc, ◌+◌, ◌-◌, ◌≤◌, ◌<◌, ◌≡◌, ◌≢◌, refl, ap, ◌∙◌, true, false, some, none, List, Returns,
  Returns-bind, ◌==◌, if◌then◌else◌, length, set, length-set, get_or-set_self, get_or-set_ne, arith,
  ℕ_discrete,
}
use personal_c_cpp_back_end.BTree.{Ptr, null, Node, Tree, put, copy_up}
use personal_c_cpp_back_end.BTree.Arrays.{at, read-ok, write-ok, Copied, copy_up-Copied}
use personal_c_cpp_back_end.BTree.Delete.{close_gap, destroy_node, merge_children}
use personal_c_cpp_back_end.BTree.Sizes.{HasArrays, put_self, put_other}
use personal_c_cpp_back_end.BTree.Gaps.{Closed, close_gap-Closed}

-- What the merge leaves: the left child has its own keys and children, the key from the parent, and
-- those of the right child, which is freed; the parent has one key and the right child less, or is freed
-- too when that was its only key, and then the left child is the root.
pub record IsMerged (t t' : Tree) (p left right : Ptr) (pn ln rn : Node) (n : ℕ) : Type 0 where
  pub left_node : Node
  pub left_eq : t'.node left ≡ some left_node
  pub left_num : left_node.key_num ≡ ln.key_num + 1 + rn.key_num
  pub left_leaf : left_node.is_leaf ≡ ln.is_leaf
  pub own_keys : (m : ℕ) → m < ln.key_num → at left_node.keys m ≡ at ln.keys m
  pub middle_key : at left_node.keys ln.key_num ≡ at pn.keys n
  pub right_keys : (m : ℕ) → m < rn.key_num → at left_node.keys (ln.key_num + 1 + m) ≡ at rn.keys m
  pub own_children : (m : ℕ) → m ≤ ln.key_num → at left_node.children m ≡ at ln.children m
  pub right_children :
      (m : ℕ) → m ≤ rn.key_num → at left_node.children (ln.key_num + 1 + m) ≡ at rn.children m
  pub right_freed : t'.node right ≡ none
  pub parent_node : Node
  pub parent_num : parent_node.key_num ≡ pn.key_num - 1
  pub parent_keys : Closed pn.keys parent_node.keys (pn.key_num - 1 - n) n
  pub kept_children : (m : ℕ) → m ≤ n → at parent_node.children m ≡ at pn.children m
  pub moved_children :
      (m : ℕ) → n < m → m < pn.key_num → at parent_node.children m ≡ at pn.children (m + 1)
  pub kept : pn.key_num ≢ 1 → (t'.node p ≡ some parent_node) × (t'.root ≡ t.root)
  pub freed : pn.key_num ≡ 1 → (t'.node p ≡ none) × (t'.root ≡ left)

destroy_self : (t : Tree) (a : Ptr) → (destroy_node t a).node a ≡ none
unfolding destroy_node
destroy_self t a = let same : (a == a) ≡ true = ground arith in rw same refl

destroy_other : (t : Tree) (a b : Ptr) → b ≢ a → (destroy_node t a).node b ≡ t.node b
unfolding destroy_node
destroy_other t a b ne = let other : (b == a) ≡ false = ground (arith, ne) in rw other refl

destroy-root : (t : Tree) (a : Ptr) → (destroy_node t a).root ≡ t.root
unfolding destroy_node
destroy-root t a = refl

module _ (t : Tree) (p left right : Ptr) (pn ln rn : Node) (n : ℕ) (ep : t.node p ≡ some pn)
    (el : t.node left ≡ some ln) (er : t.node right ≡ some rn) (at_left : at pn.children n ≡ left)
    (at_right : at pn.children (n + 1) ≡ right) (lr : left ≢ right) (lp : left ≢ p)
    (rp : right ≢ p) where
  -- The nodes after the merge, for arrays that are as the loops leave them.
  merged :
      (keys children pkeys cs : List ℕ)
      → n < pn.key_num
      → pn.key_num < length pn.children
      → ln.key_num < length ln.keys
      → Copied rn.keys (set ln.keys ln.key_num (at pn.keys n)) keys rn.key_num 0 (ln.key_num + 1)
      → Copied rn.children ln.children children (suc rn.key_num) 0 (ln.key_num + 1)
      → Closed pn.keys pkeys (pn.key_num - 1 - n) n
      → Closed pn.children cs (pn.key_num - 1 - n) (n + 1)
      → (last : ℕ) → last ≡ n + (pn.key_num - 1 - n) + 1
      → (t' : Tree)
      → let merged_node = record ln {
        keys = keys;
        children = children;
        key_num = ln.key_num + 1 + rn.key_num;
      } in
        let parent = record pn {
          keys = pkeys;
          children = set cs last null;
          key_num = pn.key_num - 1;
        } in
        t'.node left ≡ some merged_node
        → t'.node right ≡ none
        → (pn.key_num ≢ 1 → (t'.node p ≡ some parent) × (t'.root ≡ t.root))
        → (pn.key_num ≡ 1 → (t'.node p ≡ none) × (t'.root ≡ left))
        → IsMerged t t' p left right pn ln rn n
  merged keys children pkeys cs small room own hk hc pk pc last el' t' left_eq right_eq kept freed =
      record {
        left_node = _;
        left_eq = left_eq;
        left_num = refl;
        left_leaf = refl;
        own_keys = λ m h.
            hk.below m (omega (arith, h))
            ∙ get_or-set_ne ln.keys ln.key_num m (at pn.keys n) 0 (omega (arith, h));
        middle_key =
            hk.below ln.key_num (omega arith)
            ∙ get_or-set_self ln.keys ln.key_num (at pn.keys n) 0 own;
        right_keys = λ m h. hk.copied m h ∙ ap (at rn.keys) (omega arith);
        own_children = λ m h. hc.below m (omega (arith, h));
        right_children = λ m h. hc.copied m (omega (arith, h)) ∙ ap (at rn.children) (omega arith);
        right_freed = right_eq;
        parent_node = record pn {
          keys = pkeys;
          children = set cs last null;
          key_num = pn.key_num - 1;
        };
        parent_num = refl;
        parent_keys = pk;
        kept_children = λ m h.
            get_or-set_ne cs last m null 0 (omega (arith, h, el')) ∙ pc.below m (omega (arith, h));
        moved_children = λ m h k.
            get_or-set_ne cs last m null 0 (omega (arith, k, el', small))
            ∙ pc.moved m (omega (arith, h)) (omega (arith, k, small));
        kept = kept;
        freed = freed;
      }

  -- The end of the merge: the parent is put back, and freed when it has no key.
  ended :
      (keys children pkeys cs : List ℕ)
      → n < pn.key_num
      → pn.key_num < length pn.children
      → ln.key_num < length ln.keys
      → Copied rn.keys (set ln.keys ln.key_num (at pn.keys n)) keys rn.key_num 0 (ln.key_num + 1)
      → Copied rn.children ln.children children (suc rn.key_num) 0 (ln.key_num + 1)
      → Closed pn.keys pkeys (pn.key_num - 1 - n) n
      → Closed pn.children cs (pn.key_num - 1 - n) (n + 1)
      → let merged_node = record ln {
        keys = keys;
        children = children;
        key_num = ln.key_num + 1 + rn.key_num;
      } in
        let last = n + (pn.key_num - 1 - n) + 1 in
        let t2 =
          put
            (destroy_node (put t left merged_node) right)
            p
            (record pn { keys = pkeys; children = set cs last null; key_num = pn.key_num - 1 }) in
        IsMerged t
          (if pn.key_num - 1 == 0 then destroy_node (record t2 { root = left }) p else t2)
          p
          left
          right
          pn
          ln
          rn
          n
  ended keys children pkeys cs small room own hk hc pk pc =
      let merged_node = record ln {
        keys = keys;
        children = children;
        key_num = ln.key_num + 1 + rn.key_num;
      } in
      let top = record pn {
        keys = pkeys;
        children = set cs (n + (pn.key_num - 1 - n) + 1) null;
        key_num = pn.key_num - 1;
      } in
      let t0 = put t left merged_node in
      let t1 = destroy_node t0 right in
      let t2 = put t1 p top in
      let t3 = record t2 { root = left } in
      let left_eq =
        put_other t1 p top left lp ∙ destroy_other t0 right left lr ∙ put_self t left merged_node in
      let right_eq = put_other t1 p top right rp ∙ destroy_self t0 right in
      elim (ℕ_discrete pn.key_num 1) [
        | yes one ↦
            let test : (pn.key_num - 1 == 0) ≡ true = ground (arith, one) in
            rw test (
              merged keys children pkeys cs small room own hk hc pk pc _ refl (destroy_node t3 p)
                (destroy_other t3 p left lp ∙ left_eq) (destroy_other t3 p right rp ∙ right_eq)
                (λ more. absurd (more one)) (λ _. (destroy_self t3 p, destroy-root t3 p)))
        | no more ↦
            let test : (pn.key_num - 1 == 0) ≡ false = ground (arith, more, small) in
            rw test (
              merged keys children pkeys cs small room own hk hc pk pc _ refl t2 left_eq right_eq
                (λ _. (put_self t1 p top, destroy-root t0 right)) (λ one. absurd (more one)))
      ]

  pub merge_children-IsMerged :
      HasArrays t pn
      → HasArrays t ln
      → HasArrays t rn
      → n < pn.key_num
      → pn.key_num ≤ t.max_num
      → t.max_num < t.order
      → ln.key_num + 1 + rn.key_num ≤ t.max_num
      → Returns (merge_children t p n) λ t'. IsMerged t t' p left right pn ln rn n
  unfolding merge_children destroy_node
  merge_children-IsMerged hp hl hr small full order fits =
      let rounds = pn.key_num - 1 - n in
      let keys0 = set ln.keys ln.key_num (at pn.keys n) in
      rw
        (
          ep,
          read-ok pn.children n (omega (arith, hp.children_length)),
          read-ok pn.children (n + 1) (omega (arith, hp.children_length)),
          at_left,
          at_right,
          el,
          read-ok pn.keys n (omega (arith, hp.keys_length)),
          write-ok ln.keys ln.key_num (at pn.keys n) (omega (arith, hl.keys_length)),
          er,
        )
        (Returns-bind _
          (copy_up rn.key_num 0 (ln.key_num + 1) rn.keys rn.children keys0 ln.children) _
          (copy_up-Copied rn.key_num 0 (ln.key_num + 1) rn.keys rn.children keys0 ln.children
            (omega (arith, hr.keys_length)) (omega (arith, hr.children_length))
            (omega (arith, hl.keys_length, length-set ln.keys ln.key_num (at pn.keys n)))
            (omega (arith, hl.children_length)))
          λ (keys, children) (hk, hc).
            Returns-bind _ (close_gap rounds n pn.keys pn.children) _
              (close_gap-Closed rounds n pn.keys pn.children (omega (arith, hp.keys_length))
                (omega (arith, hp.children_length)))
              λ (pkeys, pchildren) (pk, cs, pc, e). rw e (
                ended keys children pkeys cs small (omega (arith, hp.children_length))
                  (omega (arith, hl.keys_length)) hk hc pk pc))
