-- ===== src/BTree/Delete.antt =====
-- 2_btree/btree.c: _merge_children, the two ways to borrow, and _delete_key.
use personal_c_cpp_back_end.Base.{
  ℕ, zero, suc, ◌+◌, ◌-◌, Bool, false, not, Option, none, some, List, Run, ok, fault, out_of_fuel,
  ◌>>=◌, read, write, ltb, leb, ◌==◌, if◌then◌else◌,
}
use personal_c_cpp_back_end.BTree.{Ptr, null, Tree, get, put, update, copy_up}

-- _destroy_node of a node that is not NULL
unfoldable pub destroy_node : Tree → Ptr → Tree
destroy_node t p = record t { node = update t.node p none }

-- keys[i] = keys[i + 1] for `rounds` indices from `i` on.
unfoldable pub close_keys : (rounds i : ℕ) → List ℕ → Run (List ℕ)
close_keys zero i keys = ok keys
close_keys (suc rounds) i keys = do
  k ← read keys (i + 1)
  keys' ← write keys i k
  close_keys rounds (i + 1) keys'

-- The loop behind the merge: keys[i] = keys[i + 1]; children[i + 1] = children[i + 2]; and at its end
-- children[i + 1] = NULL.
unfoldable pub close_gap : (rounds i : ℕ) → List ℕ → List Ptr → Run (List ℕ × List Ptr)
close_gap zero i keys children = do children' ← write children (i + 1) null; ok (keys, children')
close_gap (suc rounds) i keys children = do
  k ← read keys (i + 1)
  keys' ← write keys i k
  c ← read children (i + 2)
  children' ← write children (i + 1) c
  close_gap rounds (i + 1) keys' children'

-- _merge_children, on three different nodes.
unfoldable pub merge_children : Tree → Ptr → ℕ → Run Tree
unfolding close_gap copy_up destroy_node
merge_children t parent n = do
  pn ← get t parent
  left ← read pn.children n
  right ← read pn.children (n + 1)
  ln ← get t left
  k ← read pn.keys n
  keys ← write ln.keys ln.key_num k
  rn ← get t right
  (keys', children') ← copy_up rn.key_num 0 (ln.key_num + 1) rn.keys rn.children keys ln.children
  let merged = record ln {
    keys = keys';
    children = children';
    key_num = ln.key_num + 1 + rn.key_num;
  }
  let t1 = destroy_node (put t left merged) right
  (pkeys, pchildren) ← close_gap (pn.key_num - 1 - n) n pn.keys pn.children
  let t2 =
      put t1 parent (record pn { keys = pkeys; children = pchildren; key_num = pn.key_num - 1 })
  ok (if pn.key_num - 1 == 0 then destroy_node (record t2 { root = left }) parent else t2)

-- The right sibling's keys and children one place down.
unfoldable pub shift_down : (rounds i : ℕ) → List ℕ → List Ptr → Run (List ℕ × List Ptr)
shift_down zero i keys children = do
  c ← read children (i + 1)
  children' ← write children i c
  children'' ← write children' (i + 1) null
  ok (keys, children'')
shift_down (suc rounds) i keys children = do
  k ← read keys (i + 1)
  keys' ← write keys i k
  c ← read children (i + 1)
  children' ← write children i c
  shift_down rounds (i + 1) keys' children'

-- 2.1.1: a key from the right sibling
unfoldable pub borrow_right : Tree → Ptr → ℕ → (child right : Ptr) → Run Tree
unfolding shift_down
borrow_right t p i child right = do
  n ← get t p
  cn ← get t child
  rn ← get t right
  k ← read n.keys i
  keys ← write cn.keys cn.key_num k
  c ← read rn.children 0
  children ← write cn.children (cn.key_num + 1) c
  r ← read rn.keys 0
  nkeys ← write n.keys i r
  (rkeys, rchildren) ← shift_down (rn.key_num - 1) 0 rn.keys rn.children
  let t1 = put t p (record n { keys = nkeys })
  let t2 = put t1 child (record cn { keys = keys; children = children; key_num = cn.key_num + 1 })
  ok (put t2 right (record rn { keys = rkeys; children = rchildren; key_num = rn.key_num - 1 }))

-- for(i = ...; i > 0; i--) { keys[i] = keys[i - 1]; children[i + 1] = children[i]; }, and at its end
-- children[i + 1] = children[i].
unfoldable pub shift_up : (i : ℕ) → List ℕ → List Ptr → Run (List ℕ × List Ptr)
shift_up zero keys children = do
  c ← read children 0
  children' ← write children 1 c
  ok (keys, children')
shift_up (suc i) keys children = do
  k ← read keys i
  keys' ← write keys (i + 1) k
  c ← read children (i + 1)
  children' ← write children (i + 2) c
  shift_up i keys' children'

-- 2.1.2: a key from the left sibling; `i` is the index of the child.
unfoldable pub borrow_left : Tree → Ptr → ℕ → (child left : Ptr) → Run Tree
unfolding shift_up
borrow_left t p i child left = do
  n ← get t p
  cn ← get t child
  ln ← get t left
  (keys, children) ← shift_up cn.key_num cn.keys cn.children
  k ← read n.keys (i - 1)
  keys' ← write keys 0 k
  c ← read ln.children ln.key_num
  children' ← write children 0 c
  lchildren ← write ln.children ln.key_num null
  r ← read ln.keys (ln.key_num - 1)
  nkeys ← write n.keys (i - 1) r
  let t1 = put t p (record n { keys = nkeys })
  let t2 = put t1 child (record cn { keys = keys'; children = children'; key_num = cn.key_num + 1 })
  ok (put t2 left (record ln { children = lchildren; key_num = ln.key_num - 1 }))

-- while(targetIdx < keyNum && keys[targetIdx] < key) targetIdx++;
unfoldable pub find_target : (rounds i : ℕ) → (key : ℕ) → List ℕ → Run ℕ
find_target zero i key keys = ok i
find_target (suc rounds) i key keys = do
  k ← read keys i
  let rest = find_target rounds (i + 1) key keys
  if ltb k key then rest else ok i

-- A sibling that is there, and has a key to spare.
unfoldable pub can_lend : Tree → Ptr → Run Bool
can_lend t p = if p == null then ok false else get t p >>= λ n. ok (ltb t.min_num n.key_num)

-- 2.1: the child with the index `i` gets a key, or is merged; the node to go on with.
unfoldable pub fill_child : Tree → Ptr → ℕ → Ptr → Run (Tree × Ptr)
unfolding can_lend borrow_right borrow_left merge_children
fill_child t p i child = do
  n ← get t p
  left ← if leb 1 i then read n.children (i - 1) else ok null
  right ← if leb (i + 1) n.key_num then read n.children (i + 1) else ok null
  lend_right ← can_lend t right
  lend_left ← if lend_right then ok false else can_lend t left
  if lend_right
      then (borrow_right t p i child right >>= λ t1. ok (t1, child))
      else if lend_left
      then (borrow_left t p i child left >>= λ t1. ok (t1, child))
      else if not (right == null)
      then (merge_children t p i >>= λ t1. ok (t1, child))
      else if not (left == null)
      then (merge_children t p (i - 1) >>= λ t1. ok (t1, left))
      else fault

-- 2: the key is not in the node; the node to search next, or `none` if there is no child.
unfoldable pub descend : Tree → Ptr → ℕ → Run (Tree × Option Ptr)
unfolding fill_child
descend t p i = do
  n ← get t p
  child ← read n.children i
  let go = do
    cn ← get t child
    (t1, c) ← if leb cn.key_num t.min_num then fill_child t p i child else ok (t, child)
    ok (t1, some c)
  if child == null then ok (t, none) else go

-- 1.1: for(i = targetIdx; i < keyNum - 1; i++) keys[i] = keys[i + 1]; keyNum--;
unfoldable pub delete_in_leaf : Tree → Ptr → ℕ → Run Tree
unfolding close_keys
delete_in_leaf t p i = do
  n ← get t p
  keys ← close_keys (n.key_num - 1 - i) i n.keys
  ok (put t p (record n { keys = keys; key_num = n.key_num - 1 }))

-- 1.2: the tree, the child to go on with, and the key to delete there.
unfoldable pub replace_key : Tree → Ptr → ℕ → (key : ℕ) → Run (Tree × Ptr × ℕ)
unfolding merge_children
replace_key t p i key = do
  n ← get t p
  right ← read n.children (i + 1)
  rn ← get t right
  let from_right = do
    k ← read rn.keys 0
    keys ← write n.keys i k
    ok (put t p (record n { keys = keys }), right, k)
  let from_left = do
    left ← read n.children i
    ln ← get t left
    let taken = do
      k ← read ln.keys 0
      keys ← write n.keys i k
      last ← if n.key_num == 0 then fault else read ln.keys (n.key_num - 1)
      ok (put t p (record n { keys = keys }), left, last)
    let merged = do
      t1 ← merge_children t p i
      n1 ← get t1 p
      c ← read n1.children i
      ok (t1, c, key)
    if leb t.min_num ln.key_num then taken else merged
  if leb t.min_num rn.key_num then from_right else from_left

unfoldable pub delete_key : ℕ → Tree → Ptr → (key : ℕ) → Run Tree
unfolding find_target delete_in_leaf replace_key descend
delete_key zero t p key = out_of_fuel
delete_key (suc fuel) t p key =
    let search = do
      n ← get t p
      i ← find_target n.key_num 0 key n.keys
      hit ← if ltb i n.key_num then (read n.keys i >>= λ k. ok (key == k)) else ok false
      let inner = (replace_key t p i key >>= λ (t1, c, k). delete_key fuel t1 c k)
      let below =
          (descend t p i >>= λ (t1, next). elim next [
            | none ↦ ok t1
            | some c ↦ delete_key fuel t1 c key
          ])
      if n.key_num == 0
          then ok t
          else if hit
          then (if n.is_leaf then delete_in_leaf t p i else inner)
          else below
    in if p == null then ok t else search

unfoldable pub btree_delete : ℕ → Tree → (key : ℕ) → Run Tree
unfolding delete_key
btree_delete fuel t key = delete_key fuel t t.root key
