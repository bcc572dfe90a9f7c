-- ===== src/RbTree/Lookup.antt =====
-- 1_rbtree/rbtree.c: RBT_search on red-black search trees, and after RBT_insertNode.
use personal_c_cpp_back_end.Base.{
  ℕ, suc, ◌<◌, ◌≡◌, ◌≢◌, refl, sym, ap, ◌∙◌, subst, some, [], ◌∷◌, ◌++◌, length, length-append, ok,
  ◌>>=◌, Returns, Returns-mono, Returns-bind, arith, ◌⊎◌, inl, inr,
}
use personal_c_cpp_back_end.RbTree.{Ptr, Node, Tree, rbt_search}
use personal_c_cpp_back_end.RbTree.Insert.{rbt_insert_node}
use personal_c_cpp_back_end.RbTree.Shape.{Shape, leaf, fork, IsTree, Has, IsOrdered, count}
use personal_c_cpp_back_end.RbTree.Search.{rbt_search-Finds}
use personal_c_cpp_back_end.RbTree.Zipper.{Colored, tip, bin, ne_of_hit, occ, addr, IsBelow}
use personal_c_cpp_back_end.RbTree.Balance.{
  Entries, inorder, AllAbove, AllBelow, IsSorted, IsSorted-parts, IsSorted-left, IsSorted-right,
}
use personal_c_cpp_back_end.RbTree.Place.{size}
use personal_c_cpp_back_end.RbTree.Insertion.{
  IsValid, IsFresh, Present, Added, size-inorder, rbt_insert_node-IsValid,
}

-- The node `q` with the key `j` is an entry.
abbrev pub IsEntry : Ptr → ℕ → Entries → Type 0
IsEntry q j [] = ⊥
IsEntry q j ((p, k) ∷ es) = ((q ≡ p) × (j ≡ k)) ⊎ IsEntry q j es

IsEntry-front : (q : Ptr) (j : ℕ) (xs ys : Entries) → IsEntry q j xs → IsEntry q j (xs ++ ys)
IsEntry-front q j [] ys e = absurd e
IsEntry-front q j ((p, k) ∷ xs) ys (inl here) = inl here
IsEntry-front q j ((p, k) ∷ xs) ys (inr e) = inr (IsEntry-front q j xs ys e)

IsEntry-back : (q : Ptr) (j : ℕ) (xs ys : Entries) → IsEntry q j ys → IsEntry q j (xs ++ ys)
IsEntry-back q j [] ys e = e
IsEntry-back q j ((p, k) ∷ xs) ys e = inr (IsEntry-back q j xs ys e)

AllAbove-entry : (k : ℕ) (es : Entries) (q : Ptr) (j : ℕ) → AllAbove k es → IsEntry q j es → k < j
AllAbove-entry k [] q j a e = absurd e
AllAbove-entry k ((p, i) ∷ es) q j (lt, a) (inl (_, same)) = omega (arith, lt, same)
AllAbove-entry k ((p, i) ∷ es) q j (lt, a) (inr e) = AllAbove-entry k es q j a e

AllBelow-entry : (k : ℕ) (es : Entries) (q : Ptr) (j : ℕ) → AllBelow k es → IsEntry q j es → j < k
AllBelow-entry k [] q j a e = absurd e
AllBelow-entry k ((p, i) ∷ es) q j (lt, a) (inl (_, same)) = omega (arith, lt, same)
AllBelow-entry k ((p, i) ∷ es) q j (lt, a) (inr e) = AllBelow-entry k es q j a e

-- In rising order a key has one node.
entry_unique :
    (es : Entries) (p q : Ptr) (k : ℕ) → IsSorted es → IsEntry p k es → IsEntry q k es → p ≡ q
entry_unique [] p q k s a b = absurd a
entry_unique ((r, i) ∷ es) p q k (above, s) (inl (e, _)) (inl (e', _)) = e ∙ sym e'
entry_unique ((r, i) ∷ es) p q k (above, s) (inl (_, same)) (inr b) =
    absurd (omega (arith, same, AllAbove-entry i es q k above b))
entry_unique ((r, i) ∷ es) p q k (above, s) (inr a) (inl (_, same)) =
    absurd (omega (arith, same, AllAbove-entry i es p k above a))
entry_unique ((r, i) ∷ es) p q k (above, s) (inr a) (inr b) = entry_unique es p q k s a b

-- The tree without its colours.
abbrev shape : Colored → Shape
shape tip = leaf
shape (bin c l p k r) = fork (shape l) p k (shape r)

Has-IsEntry : (s : Colored) (q : Ptr) (j : ℕ) → Has (shape s) q j → IsEntry q j (inorder s)
Has-IsEntry tip q j h = absurd h
Has-IsEntry (bin c l p k r) q j (inl here) = IsEntry-back q j (inorder l) _ (inl here)
Has-IsEntry (bin c l p k r) q j (inr (inl h)) =
    IsEntry-front q j (inorder l) _ (Has-IsEntry l q j h)
Has-IsEntry (bin c l p k r) q j (inr (inr h)) =
    IsEntry-back q j (inorder l) _ (inr (Has-IsEntry r q j h))

IsEntry-split :
    (q : Ptr) (j : ℕ) (xs ys : Entries) → IsEntry q j (xs ++ ys) → IsEntry q j xs ⊎ IsEntry q j ys
IsEntry-split q j [] ys e = inr e
IsEntry-split q j ((p, k) ∷ xs) ys (inl here) = inl (inl here)
IsEntry-split q j ((p, k) ∷ xs) ys (inr e) = elim (IsEntry-split q j xs ys e) [
  | inl a ↦ inl (inr a)
  | inr b ↦ inr b
]

IsEntry-Has : (s : Colored) (q : Ptr) (j : ℕ) → IsEntry q j (inorder s) → Has (shape s) q j
IsEntry-Has tip q j e = absurd e
IsEntry-Has (bin c l p k r) q j e = elim (IsEntry-split q j (inorder l) ((p, k) ∷ inorder r) e) [
  | inl a ↦ inr (inl (IsEntry-Has l q j a))
  | inr (inl here) ↦ inl here
  | inr (inr b) ↦ inr (inr (IsEntry-Has r q j b))
]

shape-IsOrdered : (s : Colored) → IsSorted (inorder s) → IsOrdered (shape s)
shape-IsOrdered tip sorted = tt
shape-IsOrdered (bin c l p k r) sorted =
    let (below, above) = IsSorted-parts (inorder l) p k (inorder r) sorted in
    (
      (λ q j h. AllBelow-entry k (inorder l) q j below (Has-IsEntry l q j h)),
      (λ q j h. AllAbove-entry k (inorder r) q j above (Has-IsEntry r q j h)),
      shape-IsOrdered l (IsSorted-left (inorder l) _ sorted),
      shape-IsOrdered r (IsSorted-right (inorder l) _ sorted).1,
    )

shape-IsTree :
    (t : Tree) (par : Ptr) (s : Colored)
    → IsBelow t.nil t par s
    → occ t.nil s ≡ 0
    → IsTree t (addr t.nil s) (shape s)
shape-IsTree t par tip below no_nil = refl
shape-IsTree t par (bin c l p k r) (e, bl, br) no_nil = (
  refl,
  (λ same. ne_of_hit t.nil p (omega (arith, no_nil)) (sym same)),
  (
    _,
    e,
    refl,
    shape-IsTree t p l bl (omega (arith, no_nil)),
    shape-IsTree t p r br (omega (arith, no_nil)),
  ),
)

count-shape : (s : Colored) → count (shape s) ≡ size s
count-shape tip = refl
count-shape (bin c l p k r) = omega (arith, count-shape l, count-shape r)

-- RBT_search finds the node of a key that is there.
rbt_search-IsEntry :
    (fuel : ℕ) (t : Tree) (es : Entries) (p : Ptr) (key : ℕ)
    → IsValid t es
    → IsEntry p key es
    → length es < fuel
    → Returns (rbt_search fuel t key) λ q. q ≡ p
rbt_search-IsEntry fuel t es p key v entry enough =
    let s = v.tree in
    let here : IsEntry p key (inorder s) = subst (IsEntry p key) (sym v.same) entry in
    let sorted : IsSorted (inorder s) = subst IsSorted (sym v.same) v.sorted in
    let at_root : IsTree t t.root (shape s) =
      subst (λ a. IsTree t a (shape s)) (sym v.zip.above)
        (shape-IsTree t t.nil s v.zip.below (omega (arith, v.zip.no_nil))) in
    Returns-mono _ (rbt_search fuel t key)
      (rbt_search-Finds fuel t (shape s) key at_root (shape-IsOrdered s sorted)
        (omega (arith, count-shape s, size-inorder s, ap length v.same, enough)))
      λ q finds. elim finds [
        | inl (_, missing) ↦ absurd (missing p (IsEntry-Has s p key here))
        | inr (_, h) ↦ entry_unique (inorder s) q p key sorted (Has-IsEntry s q key h) here
      ]

middle : (xs : Entries) (p : Ptr) (k : ℕ) (ys : Entries) → IsEntry p k (xs ++ ((p, k) ∷ ys))
middle xs p k ys = IsEntry-back p k xs _ (inl (refl, refl))

-- A search for the key behind an insertion finds the node that the insertion returned, whether it was
-- added or was in the tree before, and both loops end.
pub rbt_insert_node-rbt_search :
    (fuel fuel' : ℕ) (t : Tree) (es : Entries) (target : Ptr) (n : Node)
    → IsValid t es
    → t.node target ≡ some n
    → target ≢ t.nil
    → IsFresh target es
    → length es < fuel
    → suc (length es) < fuel'
    → Returns
        (rbt_insert_node fuel t target >>= λ (t', p). rbt_search fuel' t' n.key >>= λ q. ok (p, q))
        λ (p, q). q ≡ p
rbt_insert_node-rbt_search fuel fuel' t es target n v en ne fresh enough enough' =
    Returns-bind _ (rbt_insert_node fuel t target) _
      (rbt_insert_node-IsValid fuel t es target n v en ne fresh enough)
      λ (t', p) outcome.
        Returns-bind _ (rbt_search fuel' t' n.key) _ (found t' p outcome) λ q same. same
  where
    found :
        (t' : Tree) (p : Ptr)
        → Present t es n.key (t', p) ⊎ Added es target n.key (t', p)
        → Returns (rbt_search fuel' t' n.key) λ q. q ≡ p
    found t' p (inl (same, xs, ys, at)) =
        subst (λ x. Returns (rbt_search fuel' x n.key) λ q. q ≡ p) (sym same)
          (rbt_search-IsEntry fuel' t es p n.key v
            (subst (IsEntry p n.key) (sym at) (middle xs p n.key ys)) (omega (arith, enough')))
    found t' p (inr (at, xs, ys, split, v')) =
        subst (λ x. Returns (rbt_search fuel' t' n.key) λ q. q ≡ x) (sym at)
          (rbt_search-IsEntry fuel' t' (xs ++ ((target, n.key) ∷ ys)) target n.key v'
            (middle xs target n.key ys)
            (omega (
              arith,
              enough',
              ap length split,
              length-append xs ys,
              length-append xs ((target, n.key) ∷ ys),
            )))
