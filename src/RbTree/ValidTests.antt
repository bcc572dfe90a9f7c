-- ===== src/RbTree/ValidTests.antt =====
-- 1_rbtree/rbtree.c: an insertion into a red-black search tree that rotates. The sentinel is at 1.
use personal_c_cpp_back_end.Base.{
  Run, ◌≡◌, refl, ◌/◌, some, [], ◌∷◌, Returns, ◌==◌, if◌then◌else◌, arith, ◌⊎◌, ok, ◌>>=◌,
}
use personal_c_cpp_back_end.RbTree.{Ptr, red, black, Node, Tree, rbt_search, get}
use personal_c_cpp_back_end.RbTree.Insert.{rbt_insert_node}
use personal_c_cpp_back_end.RbTree.Zipper.{tip, bin, hit}
use personal_c_cpp_back_end.RbTree.Balance.{Entries}
use personal_c_cpp_back_end.RbTree.Lookup.{rbt_insert_node-rbt_search}
use personal_c_cpp_back_end.RbTree.Insertion.{IsValid, Present, Added, rbt_insert_node-IsValid}

-- A black root with the key 10 and a red right child with the key 20; other memory holds nodes with
-- a tenth of their address as key.
abbrev pair : Tree
pair = record {
  root = 100;
  nil = 1;
  node = λ p.
      if p == 1
      then some (record { parent = 1; left = 1; right = 1; color = black; key = 0 })
      else if p == 100
      then some (record { parent = 1; left = 1; right = 200; color = black; key = 10 })
      else if p == 200
      then some (record { parent = 100; left = 1; right = 1; color = red; key = 20 })
      else some (record { parent = 0; left = 0; right = 0; color = red; key = p / 10 });
}

abbrev pair_entries : Entries
pair_entries = (100, 10) ∷ (200, 20) ∷ []

pair-IsValid : IsValid pair pair_entries
unfolding hit
pair-IsValid = record {
  tree = bin black tip 100 10 (bin red tip 200 20 tip);
  zip = record {
    sentinel = refl;
    black_nil = (_, refl, refl);
    below = (refl, tt, (refl, tt, tt));
    above = refl;
    once = λ q. ground arith;
    no_nil = ground arith;
  };
  balanced = record {
    black_root = refl;
    height = 1;
    good = (0, refl, refl, (refl, refl, refl, refl));
  };
  same = refl;
  sorted = ((ground arith, tt), (tt, tt));
}

abbrev third : Node
third = record { parent = 0; left = 0; right = 0; color = red; key = 30 }

rbt_insert_node-IsValid_example :
    Returns
      (rbt_insert_node 3 pair 300)
      λ result. Present pair pair_entries 30 result ⊎ Added pair_entries 300 30 result
rbt_insert_node-IsValid_example =
    rbt_insert_node-IsValid 3 pair pair_entries 300 third pair-IsValid refl (ground arith)
      (ground arith, (ground arith, tt)) (ground arith)

-- The rotation makes the middle key the root.
rotated :
    (rbt_insert_node 3 pair 300 >>= λ (t, p).
    get t t.root >>= λ n. ok (n.left ∷ n.key ∷ n.right ∷ []))
    ≡ ok (100 ∷ 20 ∷ 300 ∷ [])
unfolding rbt_insert_node
rotated = refl

abbrev searched : Run (Ptr × Ptr)
searched = rbt_insert_node 3 pair 300 >>= λ (t', p). rbt_search 4 t' 30 >>= λ q. ok (p, q)

rbt_insert_node-rbt_search_example : Returns searched λ (p, q). q ≡ p
rbt_insert_node-rbt_search_example =
    rbt_insert_node-rbt_search 3 4 pair pair_entries 300 third pair-IsValid refl (ground arith)
      (ground arith, (ground arith, tt)) (ground arith) (ground arith)
