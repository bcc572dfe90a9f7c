-- ===== src/RbTree/Insert.antt =====
-- 1_rbtree/rbtree.c: RBT_insertNode and the repair behind it.
use personal_c_cpp_back_end.Base.{
  ℕ, zero, suc, Option, none, some, Run, ok, out_of_fuel, ◌>>=◌, ltb, ◌==◌, if◌then◌else◌,
}
use personal_c_cpp_back_end.RbTree.{
  Ptr, red, black, is_red, Tree, get, set_parent, set_left, set_right, set_color, set_root,
  color_of, parent_of,
}
use personal_c_cpp_back_end.RbTree.Rotate.{left_rotate, right_rotate}

-- The uncle is red: uncle and parent become black, the grandparent red and the next node.
unfoldable pub recolor : Tree → (uncle parent grand : Ptr) → Run (Tree × Ptr)
recolor t uncle parent grand = do
  t1 ← set_color t parent black
  t2 ← set_color t1 uncle black
  t3 ← set_color t2 grand red
  ok (t3, grand)

-- node->parent->color = black; node->parent->parent->color = red; and the rotation at the grandparent.
unfoldable pub lift : (Tree → Ptr → Run Tree) → Tree → Ptr → Run (Tree × Ptr)
lift rotate t node = do
  p ← parent_of t node
  t1 ← set_color t p black
  g ← parent_of t1 p
  t2 ← set_color t1 g red
  t3 ← rotate t2 g
  ok (t3, node)

-- A round for a parent that is a left child.
unfoldable pub insert_round_left : Tree → (node parent grand : Ptr) → Run (Tree × Ptr)
unfolding recolor lift left_rotate right_rotate
insert_round_left t node parent grand = do
  ng ← get t grand
  np ← get t parent
  c ← color_of t ng.right
  let inner = (left_rotate t parent >>= λ t1. lift right_rotate t1 parent)
  let outer = if node == np.right then inner else lift right_rotate t node
  if is_red c then recolor t ng.right parent grand else outer

-- A round for a parent that is not.
unfoldable pub insert_round_right : Tree → (node parent grand : Ptr) → Run (Tree × Ptr)
unfolding recolor lift left_rotate right_rotate
insert_round_right t node parent grand = do
  ng ← get t grand
  np ← get t parent
  c ← color_of t ng.left
  let inner = (right_rotate t parent >>= λ t1. lift left_rotate t1 parent)
  let outer = if node == np.left then inner else lift left_rotate t node
  if is_red c then recolor t ng.left parent grand else outer

-- _adjustAfterInsert
unfoldable pub adjust_after_insert : ℕ → Tree → Ptr → Run Tree
unfolding insert_round_left insert_round_right
adjust_after_insert zero t node = out_of_fuel
adjust_after_insert (suc fuel) t node = do
  p ← parent_of t node
  c ← color_of t p
  let round = do
    g ← parent_of t p
    ng ← get t g
    if p == ng.left then insert_round_left t node p g else insert_round_right t node p g
  let again = (round >>= λ (t', node'). adjust_after_insert fuel t' node')
  if is_red c then again else set_color t t.root black

-- The loop that looks for the place: a node with the key, or the last node of the way down.
unfoldable pub find_place : ℕ → Tree → (node prev : Ptr) → (key : ℕ) → Run (Option Ptr × Ptr)
find_place zero t node prev key = out_of_fuel
find_place (suc fuel) t node prev key =
    let look =
      (get t node >>= λ n.
      let left = find_place fuel t n.left node key in
      let right = find_place fuel t n.right node key in
      if ltb key n.key then left else if ltb n.key key then right else ok (some node, node)) in
    if node == t.nil then ok (none, prev) else look

-- From the insertion of the node below `prev` on.
unfoldable pub attach : ℕ → Tree → (target prev : Ptr) → Run Tree
unfolding adjust_after_insert
attach fuel t target prev = do
  t1 ← set_parent t target prev
  let t2 = if prev == t1.nil then set_root t1 target else t1
  n ← get t2 target
  np ← get t2 prev
  t3 ← if ltb n.key np.key then set_left t2 prev target else set_right t2 prev target
  t4 ← set_left t3 target t3.nil
  t5 ← set_right t4 target t4.nil
  t6 ← set_color t5 target red
  adjust_after_insert fuel t6 target

-- RBT_insertNode: the tree, and the node that is returned.
unfoldable pub rbt_insert_node : ℕ → Tree → Ptr → Run (Tree × Ptr)
unfolding find_place attach
rbt_insert_node fuel t target = do
  n ← get t target
  (found, prev) ← find_place fuel t t.root t.root n.key
  elim found [ some p ↦ ok (t, p) | none ↦ attach fuel t target prev >>= λ t'. ok (t', target) ]
