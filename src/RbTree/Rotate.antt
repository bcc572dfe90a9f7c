-- ===== src/RbTree/Rotate.antt =====
-- 1_rbtree/rbtree.c: the two rotations.
use personal_c_cpp_back_end.Base.{Run, ok, ◌>>=◌, ◌==◌, if◌then◌else◌}
use personal_c_cpp_back_end.RbTree.{Ptr, Tree, get, set_parent, set_left, set_right, set_root}

-- if(p == t->nil) t->root = y; else if(x == p->left) p->left = y; else p->right = y;
unfoldable pub replace_child : Tree → (p x y : Ptr) → Run Tree
replace_child t p x y = do
  let linked = (get t p >>= λ n. if x == n.left then set_left t p y else set_right t p y)
  if p == t.nil then ok (set_root t y) else linked

-- The same in _rightRotate, where the test for the root has no else behind it.
unfoldable pub replace_child_or_root : Tree → (p y x : Ptr) → Run Tree
replace_child_or_root t p y x =
    let t1 = if p == t.nil then set_root t x else t in
    get t1 p >>= λ n. if y == n.right then set_right t1 p x else set_left t1 p x

-- _leftRotate
unfoldable pub left_rotate : Tree → Ptr → Run Tree
unfolding replace_child
left_rotate t x = do
  nx ← get t x
  let y = nx.right
  let rotated = do
    ny ← get t y
    t1 ← replace_child t nx.parent x y
    t2 ← set_parent t1 y nx.parent
    t3 ← set_left t2 y x
    t4 ← set_parent t3 x y
    t5 ← set_right t4 x ny.left
    if ny.left == t5.nil then ok t5 else set_parent t5 ny.left x
  if t.nil == y then ok t else rotated

-- _rightRotate
unfoldable pub right_rotate : Tree → Ptr → Run Tree
unfolding replace_child_or_root
right_rotate t y = do
  ny ← get t y
  let x = ny.left
  let rotated = do
    nx ← get t x
    t1 ← replace_child_or_root t ny.parent y x
    t2 ← set_parent t1 x ny.parent
    t3 ← set_right t2 x y
    t4 ← set_parent t3 y x
    t5 ← set_left t4 y nx.right
    if nx.right == t5.nil then ok t5 else set_parent t5 nx.right y
  if t.nil == x then ok t else rotated
