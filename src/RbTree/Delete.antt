-- ===== src/RbTree/Delete.antt =====
-- 1_rbtree/rbtree.c: RBT_deleteNode and the repair behind it.
use personal_c_cpp_back_end.Base.{
  ℕ, zero, suc, ◌&&◌, ◌||◌, not, Option, none, some, Run, ok, out_of_fuel, ◌>>=◌, ◌==◌,
  if◌then◌else◌,
}
use personal_c_cpp_back_end.RbTree.{
  Ptr, red, black, is_red, Tree, get, put, set_parent, set_left, set_right, set_color, set_root,
  color_of, rbt_search,
}
use personal_c_cpp_back_end.RbTree.Rotate.{left_rotate, right_rotate}

-- What a round of _adjustAfterDelete leaves: `none` for a break, or the next node.
abbrev pub Round : Type 0
Round = Run (Tree × Option Ptr)

abbrev pub over : Run Tree → Round
over m = m >>= λ t. ok (t, none)

-- 情况2: the brother becomes red, and a red parent black, which ends the loop.
unfoldable pub push_up : Tree → (bro parent : Ptr) → Round
push_up t bro parent = do
  t1 ← set_color t bro red
  c ← color_of t1 parent
  if is_red c then over (set_color t1 parent black) else ok (t1, some parent)

-- 情况1: the brother is red; `inner` is its child on the side of the node.
unfoldable pub red_brother : (Tree → Ptr → Run Tree) → Tree → (bro inner parent : Ptr) → Run Tree
red_brother rotate t bro inner parent = do
  t1 ← set_color t bro black
  t2 ← set_color t1 inner red
  rotate t2 parent

-- 情况3: only the inner child of the brother is red.
unfoldable pub inner_red :
    (rotate back : Tree → Ptr → Run Tree) → Tree → (bro inner parent : Ptr) → Run Tree
inner_red rotate back t bro inner parent = do
  c ← color_of t parent
  t1 ← set_color t bro c
  t2 ← set_color t1 inner black
  t3 ← back t2 bro
  rotate t3 parent

-- 情况4: the outer child of the brother is red.
unfoldable pub outer_red : (Tree → Ptr → Run Tree) → Tree → (bro outer parent : Ptr) → Run Tree
outer_red rotate t bro outer parent = do
  c ← color_of t parent
  t1 ← set_color t bro c
  t2 ← set_color t1 parent black
  t3 ← set_color t2 outer black
  rotate t3 parent

-- A round, with the brother, its children on the inner and the outer side, and the rotation at the
-- parent and the one back.
unfoldable pub delete_round :
    (rotate back : Tree → Ptr → Run Tree) → Tree → (bro inner outer parent : Ptr) → Round
unfolding push_up red_brother inner_red outer_red
delete_round rotate back t bro inner outer parent = do
  c ← color_of t bro
  let black_brother = do
    o ← color_of t outer
    i ← color_of t inner
    if is_red o
        then over (outer_red rotate t bro outer parent)
        else if is_red i
        then over (inner_red rotate back t bro inner parent)
        else push_up t bro parent
  if is_red c then over (red_brother rotate t bro inner parent) else black_brother

-- The body of the while loop of _adjustAfterDelete.
unfoldable pub delete_step : Tree → Ptr → Round
unfolding delete_round left_rotate right_rotate
delete_step t succesor = do
  n ← get t succesor
  np ← get t n.parent
  let left_brother =
      (get t np.left >>= λ b.
      delete_round right_rotate left_rotate t np.left b.right b.left n.parent)
  let right_brother =
      (get t np.right >>= λ b.
      delete_round left_rotate right_rotate t np.right b.left b.right n.parent)
  if succesor == np.right then left_brother else right_brother

-- _adjustAfterDelete
unfoldable pub adjust_after_delete : ℕ → Tree → Ptr → Run Tree
unfolding delete_step
adjust_after_delete zero t succesor = out_of_fuel
adjust_after_delete (suc fuel) t succesor = do
  c ← color_of t succesor
  let again =
      (delete_step t succesor >>= λ (t', next). elim next [
        | none ↦ ok t'
        | some p ↦ adjust_after_delete fuel t' p
      ])
  if not (is_red c) && not (t.root == succesor) then again else ok t

-- while(succ->left != t->nil) succ = succ->left;
unfoldable pub leftmost : ℕ → Tree → Ptr → Run Ptr
leftmost zero t p = out_of_fuel
leftmost (suc fuel) t p = do
  n ← get t p
  let on = leftmost fuel t n.left
  if n.left == t.nil then ok p else on

-- _getSuccessor
unfoldable pub get_successor : ℕ → Tree → Ptr → Run Ptr
unfolding leftmost
get_successor fuel t node = do
  n ← get t node
  let down = leftmost fuel t n.right
  if n.right == t.nil then ok node else down

-- _swapNode
unfoldable pub swap_node : Tree → (node1 node2 : Ptr) → Run Tree
swap_node t node1 node2 = do
  n1 ← get t node1
  n2 ← get t node2
  t1 ← put t node1 (λ n. record n { key = n2.key })
  put t1 node2 (λ n. record n { key = n1.key })

-- RBT_deleteNode from the choice of `succesor` on; `target` has one child at most.
unfoldable pub detach : ℕ → Tree → Ptr → Run Tree
unfolding adjust_after_delete
detach fuel t target = do
  n ← get t target
  let succesor = if not (n.left == t.nil) then n.left else n.right
  t1 ← set_parent t succesor n.parent
  let linked =
      (get t1 n.parent >>= λ np.
      if target == np.left then set_left t1 n.parent succesor else set_right t1 n.parent succesor)
  t2 ← if n.parent == t.nil then ok (set_root t1 succesor) else linked
  t3 ← set_color t2 succesor black
  let repaired = adjust_after_delete fuel t3 succesor
  if succesor == t.nil && not (is_red n.color) then repaired else ok t3

-- RBT_deleteNode: the tree, and the node that left it.
unfoldable pub rbt_delete_node : ℕ → Tree → Ptr → Run (Tree × Ptr)
unfolding get_successor swap_node detach
rbt_delete_node fuel t target = do
  let swapped = (get_successor fuel t target >>= λ s. swap_node t target s >>= λ t1. ok (t1, s))
  let one = do
    n ← get t target
    (t1, gone) ← if not (n.left == t.nil) || not (n.right == t.nil) then swapped else ok (t, target)
    t2 ← detach fuel t1 gone
    ok (t2, gone)
  if target == t.nil then ok (t, t.nil) else one

-- RBT_deleteNodeByKey
unfoldable pub rbt_delete_node_by_key : ℕ → Tree → (key : ℕ) → Run (Tree × Ptr)
unfolding rbt_delete_node
rbt_delete_node_by_key fuel t key =
    rbt_search fuel t key >>= λ target. rbt_delete_node fuel t target
