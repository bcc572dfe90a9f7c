-- ===== src/RbTree.antt =====
-- 1_rbtree/rbtree.c: the red-black tree of nodes at addresses, with its sentinel `nil`, which is a node
-- that is written like any other. Keys are ints that are only compared, so they are numbers in the
-- same order. What swapData exchanges lies outside the nodes. No caller uses what a rotation returns.
pub mod Rotate
pub mod Insert
pub mod Delete
pub mod Shape
pub mod Frame
pub mod Rotation
pub mod Search
pub mod Zipper
pub mod Balance
pub mod Repair
pub mod Rounds
pub mod Adjust
pub mod Place
pub mod Attach
pub mod Insertion
pub mod Round
pub mod Lift
pub mod Turn
pub mod TurnLeft
pub mod TurnRight
pub mod Lookup
pub mod ValidTests
pub mod Tests
use personal_c_cpp_back_end.Base.{
  ℕ, zero, suc, Bool, true, false, not, Option, none, some, Run, ok, fault, out_of_fuel, ◌>>=◌,
  deref, ltb, ◌==◌, if◌then◌else◌,
}

abbrev pub Ptr : Type 0
Ptr = ℕ

-- RBT_COLOR
pub data Color : Type 0 where
  red : Color
  black : Color

abbrev pub is_red : Color → Bool
is_red red = true
is_red black = false

-- struct _RBT_NODE
pub record Node : Type 0 where
  pub parent : Ptr
  pub left : Ptr
  pub right : Ptr
  pub color : Color
  pub key : ℕ

-- RBT_TREE, with the nodes in memory. `none` is memory without a node.
pub record Tree : Type 0 where
  pub root : Ptr
  pub nil : Ptr
  pub node : Ptr → Option Node

abbrev pub get : Tree → Ptr → Run Node
get t p = deref (t.node p)

abbrev pub update {ℓ} : {A : Type ℓ} → (Ptr → A) → Ptr → A → Ptr → A
update f p v q = if q == p then v else f q

-- A write to a field of the node at `p`.
abbrev pub put : Tree → Ptr → (Node → Node) → Run Tree
put t p f = get t p >>= λ n. ok (record t { node = update t.node p (some (f n)) })

abbrev pub set_parent : Tree → Ptr → Ptr → Run Tree
set_parent t p q = put t p (λ n. record n { parent = q })

abbrev pub set_left : Tree → Ptr → Ptr → Run Tree
set_left t p q = put t p (λ n. record n { left = q })

abbrev pub set_right : Tree → Ptr → Ptr → Run Tree
set_right t p q = put t p (λ n. record n { right = q })

abbrev pub set_color : Tree → Ptr → Color → Run Tree
set_color t p c = put t p (λ n. record n { color = c })

abbrev pub set_root : Tree → Ptr → Tree
set_root t p = record t { root = p }

abbrev pub color_of : Tree → Ptr → Run Color
color_of t p = get t p >>= λ n. ok n.color

abbrev pub parent_of : Tree → Ptr → Run Ptr
parent_of t p = get t p >>= λ n. ok n.parent

-- The while loop of RBT_search.
unfoldable pub search_from : ℕ → Tree → Ptr → (key : ℕ) → Run Ptr
search_from zero t p key = out_of_fuel
search_from (suc fuel) t p key =
    let look =
      (get t p >>= λ n.
      let left = search_from fuel t n.left key in
      let right = search_from fuel t n.right key in
      if ltb key n.key then left else if ltb n.key key then right else ok p) in
    if p == t.nil then ok t.nil else look

unfoldable pub rbt_search : ℕ → Tree → (key : ℕ) → Run Ptr
unfolding search_from
rbt_search fuel t key = search_from fuel t t.root key

-- RBT_initTree: `fresh` is what malloc returns; the tree that it fills.
unfoldable pub rbt_init_tree : Tree → Option Ptr → Option Tree
rbt_init_tree t none = none
rbt_init_tree t (some fresh) = some (record {
  root = fresh;
  nil = fresh;
  node =
      update t.node fresh
        (some (record { parent = fresh; left = fresh; right = fresh; color = black; key = 0 }));
})
