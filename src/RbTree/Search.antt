-- ===== src/RbTree/Search.antt =====
-- 1_rbtree/rbtree.c: RBT_search finds exactly the keys of the tree, and RBT_insertNode drops a node
-- whose key is there already.
use personal_c_cpp_back_end.Base.{
  ℕ, zero, suc, ◌<◌, ◌≡◌, ◌≢◌, refl, ap, ◌∙◌, Returns-mono, ◌⊎◌, inl, inr, true, false, some,
  Returns, Returns-bind, ltb, ◌==◌, arith, dec_lt,
}
use personal_c_cpp_back_end.RbTree.{Ptr, Node, Tree, search_from, rbt_search}
use personal_c_cpp_back_end.RbTree.Shape.{Shape, leaf, fork, IsTree, Has, IsOrdered, count}
use personal_c_cpp_back_end.RbTree.Insert.{find_place, rbt_insert_node}

-- `p` has the key, or is the sentinel of a tree without the key.
abbrev pub Finds : Tree → Shape → ℕ → Ptr → Type 0
Finds t s key p = ((p ≡ t.nil) × ((q : Ptr) → ¬ (Has s q key))) ⊎ ((p ≢ t.nil) × Has s p key)

-- A key on one side of the root is in the tree exactly if it is in that side.
not_left :
    (l r : Shape) (p : Ptr) (k key : ℕ)
    → IsOrdered (fork l p k r)
    → k < key
    → ((q : Ptr) → ¬ (Has r q key))
    → (q : Ptr) → ¬ (Has (fork l p k r) q key)
not_left l r p k key o lt missing q (inl here) = omega (arith, here.1, lt)
not_left l r p k key o lt missing q (inr (inl h)) = omega (arith, o.0 q key h, lt)
not_left l r p k key o lt missing q (inr (inr h)) = missing q h

not_right :
    (l r : Shape) (p : Ptr) (k key : ℕ)
    → IsOrdered (fork l p k r)
    → key < k
    → ((q : Ptr) → ¬ (Has l q key))
    → (q : Ptr) → ¬ (Has (fork l p k r) q key)
not_right l r p k key o lt missing q (inl here) = omega (arith, here.1, lt)
not_right l r p k key o lt missing q (inr (inl h)) = missing q h
not_right l r p k key o lt missing q (inr (inr h)) = omega (arith, o.1 q key h, lt)

in_left :
    (l r : Shape) (p : Ptr) (k key : ℕ) (q : Ptr)
    → IsOrdered (fork l p k r)
    → key < k
    → Has (fork l p k r) q key
    → Has l q key
in_left l r p k key q o lt (inl here) = absurd (omega (arith, here.1, lt))
in_left l r p k key q o lt (inr (inl h)) = h
in_left l r p k key q o lt (inr (inr h)) = absurd (omega (arith, o.1 q key h, lt))

in_right :
    (l r : Shape) (p : Ptr) (k key : ℕ) (q : Ptr)
    → IsOrdered (fork l p k r)
    → k < key
    → Has (fork l p k r) q key
    → Has r q key
in_right l r p k key q o lt (inl here) = absurd (omega (arith, here.1, lt))
in_right l r p k key q o lt (inr (inl h)) = absurd (omega (arith, o.0 q key h, lt))
in_right l r p k key q o lt (inr (inr h)) = h

search_from-Finds :
    (fuel : ℕ) (t : Tree) (p : Ptr) (s : Shape) (key : ℕ)
    → IsTree t p s
    → IsOrdered s
    → count s < fuel
    → Returns (search_from fuel t p key) λ q. Finds t s key q
unfolding search_from
search_from-Finds zero t p s key w o enough = absurd (omega (arith, enough))
search_from-Finds (suc fuel) t p leaf key w o enough =
    let test : (p == t.nil) ≡ true = ground arith in rw test (inl (refl, λ q h. h))
search_from-Finds (suc fuel) t p (fork l q k r) key w o enough =
    let (same, given, (n, node, keyed, left, right)) = w in
    let test : (p == t.nil) ≡ false = ground arith in
    let there = ap t.node same ∙ node in
    elim (dec_lt key k) [
      | yes lt ↦
          let go : ltb key n.key ≡ true = ground (arith, keyed) in
          let found = search_from-Finds fuel t n.left l key left o.2 (omega (arith, enough)) in
          rw (test, there, go)
            (Returns-mono _ (search_from fuel t n.left key) found λ x f. elim f [
              | inl (nil, missing) ↦ inl (nil, not_right l r q k key o lt missing)
              | inr (real, h) ↦ inr (real, inr (inl h))
            ])
      | no ge ↦ elim (dec_lt k key) [
        | yes gt ↦
            let stay : ltb key n.key ≡ false = ground (arith, keyed) in
            let go : ltb n.key key ≡ true = ground (arith, keyed) in
            let found = search_from-Finds fuel t n.right r key right o.3 (omega (arith, enough)) in
            rw (test, there, stay, go)
              (Returns-mono _ (search_from fuel t n.right key) found λ x f. elim f [
                | inl (nil, missing) ↦ inl (nil, not_left l r q k key o gt missing)
                | inr (real, h) ↦ inr (real, inr (inr h))
              ])
        | no le ↦
            let stay : ltb key n.key ≡ false = ground (arith, keyed) in
            let stay' : ltb n.key key ≡ false = ground (arith, keyed) in
            rw (test, there, stay, stay')
              (inr (ground (arith, same, given), inl (same, omega (arith, ge, le))))
      ]
    ]

-- On an ordered tree, with as much fuel as it has nodes and one more, RBT_search returns a node that
-- has the key, or the sentinel if no node has it.
pub rbt_search-Finds :
    (fuel : ℕ) (t : Tree) (s : Shape) (key : ℕ)
    → IsTree t t.root s
    → IsOrdered s
    → count s < fuel
    → Returns (rbt_search fuel t key) λ q. Finds t s key q
unfolding rbt_search
rbt_search-Finds fuel t s key w o enough = search_from-Finds fuel t t.root s key w o enough

-- The way down to a place for the key meets the node that has it.
find_place-Has :
    (fuel : ℕ) (t : Tree) (p prev : Ptr) (s : Shape) (key : ℕ) (q : Ptr)
    → IsTree t p s
    → IsOrdered s
    → count s < fuel
    → Has s q key
    → Returns
        (find_place fuel t p prev key)
        λ (found, last). (x : Ptr) × (found ≡ some x) × Has s x key
unfolding find_place
find_place-Has zero t p prev s key q w o enough h = absurd (omega (arith, enough))
find_place-Has (suc fuel) t p prev leaf key q w o enough h = elim h [ ]
find_place-Has (suc fuel) t p prev (fork l x k r) key q w o enough h =
    let (same, given, (n, node, keyed, left, right)) = w in
    let test : (p == t.nil) ≡ false = ground arith in
    let there = ap t.node same ∙ node in
    elim (dec_lt key k) [
      | yes lt ↦
          let go : ltb key n.key ≡ true = ground (arith, keyed) in
          let inside : Has l q key = in_left l r x k key q o lt h in
          let found =
            find_place-Has fuel t n.left p l key q left o.2 (omega (arith, enough)) inside in
          rw (test, there, go)
            (Returns-mono _ (find_place fuel t n.left p key) found λ y f. (f.0, f.1, inr (inl f.2)))
      | no ge ↦ elim (dec_lt k key) [
        | yes gt ↦
            let stay : ltb key n.key ≡ false = ground (arith, keyed) in
            let go : ltb n.key key ≡ true = ground (arith, keyed) in
            let inside : Has r q key = in_right l r x k key q o gt h in
            let found =
              find_place-Has fuel t n.right p r key q right o.3 (omega (arith, enough)) inside in
            rw (test, there, stay, go)
              (Returns-mono _ (find_place fuel t n.right p key) found
                λ y f. (f.0, f.1, inr (inr f.2)))
        | no le ↦
            let stay : ltb key n.key ≡ false = ground (arith, keyed) in
            let stay' : ltb n.key key ≡ false = ground (arith, keyed) in
            rw (test, there, stay, stay') (p, refl, inl (same, omega (arith, ge, le)))
      ]
    ]

-- RBT_insertNode of a node whose key is in the tree returns the node that has the key, and leaves the
-- tree as it is.
pub rbt_insert_node-repeated :
    (fuel : ℕ) (t : Tree) (s : Shape) (target q : Ptr) (n : Node)
    → IsTree t t.root s
    → IsOrdered s
    → count s < fuel
    → t.node target ≡ some n
    → Has s q n.key
    → Returns (rbt_insert_node fuel t target) λ (t', p). (t' ≡ t) × Has s p n.key
unfolding rbt_insert_node
rbt_insert_node-repeated fuel t s target q n w o enough there h = rw there (
    Returns-bind _ (find_place fuel t t.root t.root n.key) _
      (find_place-Has fuel t t.root t.root s n.key q w o enough h)
      λ (found, last) (x, e, h'). rw e (refl, h'))
