-- ===== src/RbTree/Tests.antt =====
-- 1_rbtree/rbtree.c: insertions, deletions and a search at trees in memory. The nodes
-- stand at ten times their keys, and the sentinel is at 1.
use personal_c_cpp_back_end.Base.{
  ℕ, ◌≡◌, refl, inl, inr, ◌/◌, none, some, List, [], ◌∷◌, Run, ok, ◌>>=◌, Returns, ◌==◌,
  if◌then◌else◌, zero, suc, ◌++◌, arith, ◌<◌,
}
use personal_c_cpp_back_end.RbTree.{Ptr, Color, red, black, Node, Tree, get, rbt_search}
use personal_c_cpp_back_end.RbTree.Insert.{rbt_insert_node}
use personal_c_cpp_back_end.RbTree.Delete.{rbt_delete_node_by_key}
use personal_c_cpp_back_end.RbTree.Shape.{Shape, leaf, fork, IsTree, Has, IsOrdered}
use personal_c_cpp_back_end.RbTree.Search.{Finds, rbt_search-Finds}

-- The tree without nodes, in a memory that holds unused ones.
abbrev unused : ℕ → Node
unused k = record { parent = 0; left = 0; right = 0; color = red; key = k }

abbrev sentinel : Node
sentinel = record { parent = 1; left = 1; right = 1; color = black; key = 0 }

abbrev empty : Tree
empty = record {
  root = 1;
  nil = 1;
  node = λ p. if p == 1 then some sentinel else some (unused (p / 10));
}

abbrev insert_all : List Ptr → Tree → Run Tree
insert_all [] t = ok t
insert_all (p ∷ ps) t = rbt_insert_node 9 t p >>= λ (t', q). insert_all ps t'

-- The keys and the colours, in order.
abbrev listing : ℕ → Tree → Ptr → List (ℕ × Color)
listing zero t p = []
listing (suc fuel) t p = if p == t.nil then [] else elim (t.node p) [
  | none ↦ []
  | some n ↦ listing fuel t n.left ++ (n.key, n.color) ∷ listing fuel t n.right
]

abbrev six : Run Tree
six = insert_all (200 ∷ 100 ∷ 400 ∷ 300 ∷ 500 ∷ 250 ∷ []) empty

inserted :
    (six >>= λ t. ok (listing 9 t t.root))
    ≡ ok ((10, black) ∷ (20, black) ∷ (25, red) ∷ (30, black) ∷ (40, red) ∷ (50, black) ∷ [])
unfolding rbt_insert_node
inserted = refl

-- The deletion of 10 finds a red brother, and makes the node of 30 red, whose child 25 is red.
abbrev parent_colors : Tree → Ptr → Run (Color × Color)
parent_colors t p = get t p >>= λ n. get t n.parent >>= λ m. ok (n.color, m.color)

red_under_red :
    (six >>= λ t. rbt_delete_node_by_key 9 t 10 >>= λ (t', p). parent_colors t' 250) ≡ ok (red, red)
unfolding rbt_insert_node rbt_delete_node_by_key rbt_search
red_under_red = refl

-- A root with the key 10 and a right child with the key 20, and a node with the key 20 that is not in
-- the tree.
abbrev two : Tree
two = record {
  root = 100;
  nil = 1;
  node = λ p.
      if p == 100
      then some (record { parent = 1; left = 1; right = 200; color = black; key = 10 })
      else if p == 200
      then some (record { parent = 100; left = 1; right = 1; color = red; key = 20 })
      else some (unused 20);
}

abbrev two_shape : Shape
two_shape = fork leaf 100 10 (fork leaf 200 20 leaf)

two-IsTree : IsTree two two.root two_shape
two-IsTree = (
  refl,
  ground arith,
  (
    record { parent = 1; left = 1; right = 200; color = black; key = 10 },
    refl,
    refl,
    refl,
    (
      refl,
      ground arith,
      (record { parent = 100; left = 1; right = 1; color = red; key = 20 }, refl, refl, refl, refl),
    ),
  ),
)

two-above : (q : Ptr) (j : ℕ) → Has (fork leaf 200 20 leaf) q j → 10 < j
two-above q j (inl here) = omega (arith, here.1)
two-above q j (inr (inl h)) = elim h [ ]
two-above q j (inr (inr h)) = elim h [ ]

two-IsOrdered : IsOrdered two_shape
two-IsOrdered = (
  λ q j h. elim h [ ],
  λ q j h. two-above q j h,
  tt,
  (λ q j h. elim h [ ], λ q j h. elim h [ ], tt, tt),
)

rbt_search-Finds_example : Returns (rbt_search 3 two 20) λ q. Finds two two_shape 20 q
rbt_search-Finds_example =
    rbt_search-Finds 3 two two_shape 20 two-IsTree two-IsOrdered (omega arith)

-- The first insertion makes the node a child of the sentinel too.
sentinel_child : (insert_all (200 ∷ []) empty >>= λ t. get t t.nil >>= λ n. ok n.right) ≡ ok 200
unfolding rbt_insert_node
sentinel_child = refl
