-- ===== src/RbTree/Shape.antt =====
-- 1_rbtree/rbtree.c: the binary tree that the nodes below an address form, and its order.
use personal_c_cpp_back_end.Base.{ℕ, suc, ◌<◌, ◌≡◌, ◌≢◌, ◌⊎◌, ◌+◌, some}
use personal_c_cpp_back_end.RbTree.{Ptr, Node, Tree}

pub data Shape : Type 0 where
  leaf : Shape
  fork : Shape → Ptr → ℕ → Shape → Shape

-- The nodes below `p` form the shape, whose leaves are the sentinel.
abbrev pub IsTree : Tree → Ptr → Shape → Type 0
IsTree t p leaf = p ≡ t.nil
IsTree t p (fork l q k r) =
    (p ≡ q)
    × (q ≢ t.nil)
    × ((n : Node) × (t.node q ≡ some n) × (n.key ≡ k) × IsTree t n.left l × IsTree t n.right r)

-- The node at `p` has the key `k`.
abbrev pub Has : Shape → Ptr → ℕ → Type 0
Has leaf p k = ⊥
Has (fork l q j r) p k = ((p ≡ q) × (k ≡ j)) ⊎ (Has l p k ⊎ Has r p k)

abbrev pub IsOrdered : Shape → Type 0
IsOrdered leaf = Unit
IsOrdered (fork l p k r) =
    ((q : Ptr) (j : ℕ) → Has l q j → j < k)
    × ((q : Ptr) (j : ℕ) → Has r q j → k < j)
    × IsOrdered l
    × IsOrdered r

-- A bound of the length of the ways down.
abbrev pub count : Shape → ℕ
count leaf = 0
count (fork l p k r) = suc (count l + count r)
