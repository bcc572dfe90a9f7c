-- ===== src/BTree/Insert.antt =====
-- 2_btree/btree.c: _insert_notfull and btree_insert.
use personal_c_cpp_back_end.Base.{
  ℕ, zero, suc, ◌+◌, ◌-◌, false, List, Run, ok, fault, out_of_fuel, ◌>>=◌, read, write, ltb, ◌==◌,
  if◌then◌else◌,
}
use personal_c_cpp_back_end.BTree.{Ptr, Tree, get, put, create_node, split_child}

-- while(i >= 0 && key < keys[i]) { keys[i + 1] = keys[i]; i--; }, then keys[i + 1] = key;
unfoldable pub insert_key : (i : ℕ) → (key : ℕ) → List ℕ → Run (List ℕ)
insert_key zero key keys = write keys 0 key
insert_key (suc i) key keys = do
  k ← read keys i
  let shifted = (write keys (i + 1) k >>= λ keys'. insert_key i key keys')
  if ltb key k then shifted else write keys (i + 1) key

-- while(i >= 0 && key < keys[i]) i--;
unfoldable pub find_child : (i : ℕ) → (key : ℕ) → List ℕ → Run ℕ
find_child zero key keys = ok 0
find_child (suc i) key keys = do
  k ← read keys i
  let rest = find_child i key keys
  if ltb key k then rest else ok (suc i)

-- node->keys[i] for an index that may be -1.
unfoldable pub read_before : List ℕ → ℕ → Run ℕ
read_before keys zero = fault
read_before keys (suc i) = read keys i

-- Where _insert_notfull goes on from an inner node: the tree, and the index of the child.
unfoldable pub choose_child : Tree → Ptr → ℕ → Run (Tree × Ptr)
unfolding find_child read_before split_child
choose_child t p key = do
  n ← get t p
  i ← find_child n.key_num key n.keys
  child ← read n.children i
  cn ← get t child
  let full = cn.key_num == t.max_num
  t1 ← if full then split_child t p i else ok t
  let at = if full then i + 1 else i
  n1 ← get t1 p
  k ← read_before n1.keys at
  c ← if ltb k key then read n1.children at else read n1.children (at - 1)
  ok (t1, c)

unfoldable pub insert_notfull : ℕ → Tree → Ptr → ℕ → Run Tree
unfolding insert_key choose_child
insert_notfull zero t p key = out_of_fuel
insert_notfull (suc fuel) t p key = do
  n ← get t p
  let in_leaf =
      (insert_key n.key_num key n.keys >>= λ keys.
      ok (put t p (record n { keys = keys; key_num = n.key_num + 1 })))
  let below = (choose_child t p key >>= λ (t1, c). insert_notfull fuel t1 c key)
  if n.is_leaf then in_leaf else below

-- The full root becomes the child of a new one, and is split.
unfoldable pub grow_root : Tree → Run Tree
unfolding create_node split_child
grow_root t = do
  (t1, p) ← create_node t false
  n ← get t1 p
  children ← write n.children 0 t.root
  split_child (put (record t1 { root = p }) p (record n { children = children })) p 0

unfoldable pub btree_insert : ℕ → Tree → ℕ → Run Tree
unfolding grow_root insert_notfull
btree_insert fuel t key = do
  n ← get t t.root
  let grown = do
    t1 ← grow_root t
    n1 ← get t1 t1.root
    k ← read n1.keys 0
    c ← if ltb key k then read n1.children 0 else read n1.children 1
    insert_notfull fuel t1 c key
  let here = insert_notfull fuel t t.root key
  if n.key_num == t.max_num then grown else here
