-- ===== src/RbTree/Insertion.antt =====
-- 1_rbtree/rbtree.c: RBT_insertNode on red-black search trees.
use personal_c_cpp_back_end.Base.{
  ℕ, ◌<◌, ◌≡◌, ◌≢◌, refl, sym, ap, ◌∙◌, subst, Option, some, [], ◌∷◌, ◌++◌, length, length-append,
  deref, Returns, Returns-mono, Returns-bind, Returns-step, arith, ◌⊎◌, inl, inr,
}
use personal_c_cpp_back_end.RbTree.{Ptr, red, black, Node, Tree, get, rbt_init_tree}
use personal_c_cpp_back_end.RbTree.Insert.{find_place, adjust_after_insert, attach, rbt_insert_node}
use personal_c_cpp_back_end.RbTree.Zipper.{
  Colored, tip, bin, in_left, in_right, Way, hit_ne, occ, occ_way, addr, Zip,
}
use personal_c_cpp_back_end.RbTree.Balance.{
  IsRedBlack, MayStand, Entries, inorder, inorder_at, IsSorted, insert-IsSorted,
}
use personal_c_cpp_back_end.RbTree.Repair.{red_ne_black}
use personal_c_cpp_back_end.RbTree.Turn.{store_self}
use personal_c_cpp_back_end.RbTree.Adjust.{adjust_after_insert-Done}
use personal_c_cpp_back_end.RbTree.Place.{
  size, inorder_at-around, Found, Free, find_place-Found_or_Free,
}
use personal_c_cpp_back_end.RbTree.Attach.{attach-Zip}

-- A red-black search tree in memory, with the sentinel `t.nil`, and these entries in the order of their keys.
pub record IsValid (t : Tree) (es : Entries) : Type 0 where
  pub tree : Colored
  pub zip : Zip t.nil t tree []
  pub balanced : IsRedBlack tree
  pub same : inorder tree ≡ es
  pub sorted : IsSorted es

-- No entry is the node.
abbrev pub IsFresh : Ptr → Entries → Type 0
IsFresh p [] = Unit {0}
IsFresh p ((q, k) ∷ es) = (p ≢ q) × IsFresh p es

-- What an insertion may return: the node that has the key already, or the tree with the node.
abbrev pub Present : Tree → Entries → (key : ℕ) → Tree × Ptr → Type 0
Present t es key (t', p) = (t' ≡ t) × (xs : Entries) × (ys : Entries) × (es ≡ xs ++ ((p, key) ∷ ys))

abbrev pub Added : Entries → (target : Ptr) → (key : ℕ) → Tree × Ptr → Type 0
Added es target key (t', p) =
    (p ≡ target)
    × (xs : Entries) × (ys : Entries) × (es ≡ xs ++ ys)
    × IsValid t' (xs ++ ((target, key) ∷ ys))

IsFresh-parts : (p : Ptr) (xs ys : Entries) → IsFresh p (xs ++ ys) → IsFresh p xs × IsFresh p ys
IsFresh-parts p [] ys f = (tt, f)
IsFresh-parts p ((q, k) ∷ xs) ys (ne, f) = let (a, b) = IsFresh-parts p xs ys f in ((ne, a), b)

occ-IsFresh : (p : Ptr) (s : Colored) → IsFresh p (inorder s) → occ p s ≡ 0
occ-IsFresh p tip f = refl
occ-IsFresh p (bin c l q k r) f =
    let (fl, (ne, fr)) = IsFresh-parts p (inorder l) ((q, k) ∷ inorder r) f in
    omega (arith, occ-IsFresh p l fl, occ-IsFresh p r fr, hit_ne p q ne)

occ_way-IsFresh :
    (p : Ptr) (way : Way) (mid : Entries)
    → IsFresh p (inorder_at way mid)
    → IsFresh p mid × (occ_way p way ≡ 0)
occ_way-IsFresh p [] mid f = (f, refl)
occ_way-IsFresh p (in_left c q k r ∷ up) mid f =
    let (g, none_up) = occ_way-IsFresh p up _ f in
    let (fm, (ne, fr)) = IsFresh-parts p mid ((q, k) ∷ inorder r) g in
    (fm, omega (arith, none_up, occ-IsFresh p r fr, hit_ne p q ne))
occ_way-IsFresh p (in_right c l q k ∷ up) mid f =
    let (g, none_up) = occ_way-IsFresh p up _ f in
    let (fl, (ne, fm)) = IsFresh-parts p (inorder l) ((q, k) ∷ mid) g in
    (fm, omega (arith, none_up, occ-IsFresh p l fl, hit_ne p q ne))

pub size-inorder : (s : Colored) → size s ≡ length (inorder s)
size-inorder tip = refl
size-inorder (bin c l p k r) =
    omega (arith, size-inorder l, size-inorder r, length-append (inorder l) ((p, k) ∷ inorder r))

MayStand-root : (s : Colored) → IsRedBlack s → MayStand s []
MayStand-root tip b = tt
MayStand-root (bin red l p k r) b = absurd (red_ne_black b.black_root)
MayStand-root (bin black l p k r) b = tt

-- The node at the free place, and the repair behind it.
attach-Added :
    (fuel : ℕ) (t : Tree) (es : Entries) (target : Ptr) (n : Node) (bound : ℕ)
    (result : Option Ptr × Ptr)
    → IsSorted es
    → t.node target ≡ some n
    → target ≢ t.nil
    → IsFresh target es
    → bound < fuel
    → Free t.nil t es n.key bound result
    → Returns (attach fuel t target result.1) λ t'. Added es target n.key (t', target)
attach-Added fuel t es target n bound result sorted en ne fresh enough free =
    let way = free.way in
    let out : occ_way target way ≡ 0 = (occ_way-IsFresh target way [] (rw free.same fresh)).1 in
    let es' = inorder_at way ((target, n.key) ∷ []) in
    let (xs, ys, split) = inorder_at-around way in
    let in_order : es' ≡ xs ++ ((target, n.key) ∷ ys) = split ((target, n.key) ∷ []) in
    let sorted' : IsSorted es' = insert-IsSorted n.key target way (rw free.same sorted) free.fits in
    rw free.is_parent (
      attach-Zip t.nil target _ fuel t n way free.zip ne out en free.fits λ t6 v.
        Returns-mono _ (adjust_after_insert fuel t6 target)
          (adjust_after_insert-Done t.nil es' fuel t6 tip target n.key tip way
            record {
              zip = v;
              height = 0;
              good = (refl, refl, refl, refl);
              around = free.around;
              same = refl;
            }
            (omega (arith, free.near)))
          λ t' done. (
            refl,
            xs,
            ys,
            sym free.same ∙ split [],
            rw (← in_order) record {
              tree = done.tree;
              zip = subst (λ z. Zip z t' done.tree []) (sym done.zip.sentinel) done.zip;
              balanced = done.balanced;
              same = done.same;
              sorted = sorted';
            },
          ))

-- The loop starts at the root.
root_place :
    (fuel : ℕ) (t : Tree) (es : Entries) (key : ℕ)
    → IsValid t es
    → length es < fuel
    → Returns
        (find_place fuel t t.root t.root key)
        λ result. Found es key result ⊎ Free t.nil t es key (length es) result
root_place fuel t es key v enough =
    let s = v.tree in
    let bound : size s ≡ length es = size-inorder s ∙ ap length v.same in
    subst
      (λ a.
        Returns (find_place fuel t a a key)
          λ result. Found es key result ⊎ Free t.nil t es key (length es) result)
      (sym v.zip.above)
      (find_place-Found_or_Free t.nil t es key (length es) fuel s [] v.balanced.height
        (addr t.nil s) v.zip v.balanced.good tt (MayStand-root s v.balanced) v.same tt
        (λ e. ap (addr t.nil) e) (omega (arith, bound)) (omega (arith, bound)))

-- RBT_insertNode on a red-black search tree returns with enough fuel. Either a node has the key: this
-- node is returned, and the tree is as it was. Or the result is a red-black search tree again, whose
-- entries are the old ones with the new node at the place of its key.
pub rbt_insert_node-IsValid :
    (fuel : ℕ) (t : Tree) (es : Entries) (target : Ptr) (n : Node)
    → IsValid t es
    → t.node target ≡ some n
    → target ≢ t.nil
    → IsFresh target es
    → length es < fuel
    → Returns
        (rbt_insert_node fuel t target)
        λ result. Present t es n.key result ⊎ Added es target n.key result
unfolding rbt_insert_node
rbt_insert_node-IsValid fuel t es target n v en ne fresh enough =
    Returns-step _ (get t target) n _ (ap deref en) (
      Returns-bind _ (find_place fuel t t.root t.root n.key) _ (root_place fuel t es n.key v enough)
        λ result outcome. elim outcome [
          | inl found ↦ rw found.is_node (inl (refl, found.before, found.after, found.at))
          | inr free ↦ rw free.is_none (
              Returns-bind _ (attach fuel t target result.1) _
                (attach-Added fuel t es target n (length es) result v.sorted en ne fresh enough
                  free)
                λ t' added. inr added)
        ])

-- RBT_initTree makes a red-black search tree without entries of whatever the memory holds.
pub rbt_init_tree-IsValid :
    (t : Tree) (fresh : Ptr)
    → (t' : Tree) × (rbt_init_tree t (some fresh) ≡ some t') × (t'.nil ≡ fresh) × IsValid t' []
unfolding rbt_init_tree
rbt_init_tree-IsValid t fresh =
    let n : Node = record { parent = fresh; left = fresh; right = fresh; color = black; key = 0 } in
    (
      _,
      refl,
      refl,
      record {
        tree = tip;
        zip = record {
          sentinel = refl;
          black_nil = (n, store_self t fresh n, refl);
          below = tt;
          above = refl;
          once = λ q. omega arith;
          no_nil = refl;
        };
        balanced = record { black_root = refl; height = 0; good = refl };
        same = refl;
        sorted = tt;
      },
    )
