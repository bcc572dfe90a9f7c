-- ===== src/BTree.antt =====
-- 2_btree/btree.c: a B-tree of nodes at addresses, each with an array of keys and one of children. Keys
-- are ints that are only compared, so they are numbers in the same order, and NULL is 0. An index into
-- an array that the code counts down to -1 is kept one higher, so -1 is 0 here.
pub mod Insert
pub mod Delete
pub mod Arrays
pub mod Leaf
pub mod Sizes
pub mod Gaps
pub mod Split
pub mod Merge
pub mod Faults
pub mod Tests
use personal_c_cpp_back_end.Base.{
  ℕ, zero, suc, ◌+◌, ◌-◌, ◌/◌, ◌%◌, Bool, true, false, not, Option, none, some, List, [], ◌∷◌, Run,
  ok, fault, out_of_fuel, ◌>>=◌, ◌>>◌, deref, require, read, write, ltb, leb, ◌==◌, if◌then◌else◌,
  replicate,
}

abbrev pub Ptr : Type 0
Ptr = ℕ

abbrev pub null : Ptr
null = 0

-- struct btree_node
pub record Node : Type 0 where
  pub keys : List ℕ
  pub children : List Ptr
  pub key_num : ℕ
  pub is_leaf : Bool

-- struct btree, with the nodes in memory, where `none` is memory without a node, and the addresses
-- that malloc is going to return. When they are used up malloc fails.
pub record Tree : Type 0 where
  pub root : Ptr
  pub max_num : ℕ
  pub min_num : ℕ
  pub mid_idx : ℕ
  pub order : ℕ
  pub node : Ptr → Option Node
  pub supply : List Ptr

abbrev pub get : Tree → Ptr → Run Node
get t p = deref (t.node p)

abbrev pub update {ℓ} : {A : Type ℓ} → (Ptr → A) → Ptr → A → Ptr → A
update f p v q = if q == p then v else f q

abbrev pub put : Tree → Ptr → Node → Tree
put t p n = record t { node = update t.node p (some n) }

-- _create_node
abbrev pub new_node : Tree → Bool → Node
new_node t is_leaf = record {
  keys = replicate t.max_num 0;
  children = replicate t.order null;
  key_num = 0;
  is_leaf = is_leaf;
}

unfoldable pub create_node : Tree → Bool → Run (Tree × Ptr)
create_node t is_leaf = elim t.supply [
  | [] ↦ fault
  | p ∷ ps ↦ ok (put (record t { supply = ps }) p (new_node t is_leaf), p)
]

-- btree_init_tree; `none` is the return value -1.
unfoldable pub btree_init_tree : Tree → ℕ → Run (Option Tree)
unfolding create_node
btree_init_tree t order =
    let even = order % 2 + order in
    let sized = record t {
      order = even;
      mid_idx = even / 2 - 1;
      min_num = even / 2 - 1;
      max_num = order - 1;
    } in
    if ltb order 2
    then ok none
    else create_node sized true >>= λ (t', p). ok (some (record t' { root = p }))

-- while(i >= n) { keys[i + 1] = keys[i]; children[i + 2] = children[i + 1]; i--; }
unfoldable pub open_gap : (i : ℕ) → (n : ℕ) → List ℕ → List Ptr → Run (List ℕ × List Ptr × ℕ)
open_gap zero n keys children = ok (keys, children, 0)
open_gap (suc i) n keys children =
    let shifted = do
      k ← read keys i
      keys' ← write keys (i + 1) k
      c ← read children (i + 1)
      children' ← write children (i + 2) c
      open_gap i n keys' children'
    in if leb n i then shifted else ok (keys, children, suc i)

-- The loop that copies keys and children from the index `i` on to the index `j` on.
unfoldable pub copy_up :
    (rounds i j : ℕ)
    → (from_keys : List ℕ) → (from_children : List Ptr) → List ℕ
    → List Ptr
    → Run (List ℕ × List Ptr)
copy_up zero i j from_keys from_children keys children = do
  c ← read from_children i
  children' ← write children j c
  ok (keys, children')
copy_up (suc rounds) i j from_keys from_children keys children = do
  k ← read from_keys i
  keys' ← write keys j k
  c ← read from_children i
  children' ← write children j c
  copy_up rounds (i + 1) (j + 1) from_keys from_children keys' children'

-- _split_child, on a parent and a child that are different nodes.
unfoldable pub split_child : Tree → Ptr → ℕ → Run Tree
unfolding create_node open_gap copy_up
split_child t parent n = do
  require (leb n t.max_num)
  pn ← get t parent
  child ← read pn.children n
  cn ← get t child
  (t1, sibling) ← create_node t cn.is_leaf
  sn ← get t1 sibling
  (keys, children, at) ← open_gap pn.key_num n pn.keys pn.children
  mid ← read cn.keys t.mid_idx
  keys' ← write keys at mid
  children' ← write children (at + 1) sibling
  (half, half_children) ←
      copy_up (t.max_num - (t.mid_idx + 1)) (t.mid_idx + 1) 0 cn.keys cn.children sn.keys
        sn.children
  let t2 = put t1 child (record cn { key_num = t.min_num })
  let t3 = put t2 sibling (record sn { keys = half; children = half_children; key_num = t.min_num })
  ok (put t3 parent (record pn { keys = keys'; children = children'; key_num = pn.key_num + 1 }))
