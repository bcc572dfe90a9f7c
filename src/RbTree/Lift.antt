-- ===== src/RbTree/Lift.antt =====
-- 1_rbtree/rbtree.c: what the steps of _adjustAfterInsert make of the tree.
use personal_c_cpp_back_end.Base.{ℕ, ◌≡◌, refl, ap, ◌∷◌, ok, Returns, Returns-bind}
use personal_c_cpp_back_end.RbTree.{Ptr, Color, red, black, Tree, set_color, color_of, parent_of}
use personal_c_cpp_back_end.RbTree.Rotate.{left_rotate, right_rotate}
use personal_c_cpp_back_end.RbTree.Insert.{recolor, lift}
use personal_c_cpp_back_end.RbTree.Zipper.{
  Colored, tip, bin, in_left, in_right, Way, addr, parent_addr, IsBelow, Zip, Zip-up, Zip-down,
}
use personal_c_cpp_back_end.RbTree.Balance.{top}
use personal_c_cpp_back_end.RbTree.Turn.{set_color-Zip}
use personal_c_cpp_back_end.RbTree.TurnLeft.{left_rotate-Zip}
use personal_c_cpp_back_end.RbTree.TurnRight.{right_rotate-Zip}

-- The colour of a tree that stands in memory, and the parent of a place.
pub color_of-addr :
    (z : Ptr) (t : Tree) (s : Colored) (way : Way) (par : Ptr) (u : Colored)
    → Zip z t s way
    → IsBelow z t par u
    → color_of t (addr z u) ≡ ok (top u)
color_of-addr z t s way par tip v b = let (m, e, black_m) = v.black_nil in rw e (ap ok black_m)
color_of-addr z t s way par (bin c l p k r) v b = rw b.0 refl

pub parent_of-Zip :
    (z : Ptr) (t : Tree) (c : Color) (l : Colored) (p : Ptr) (k : ℕ) (r : Colored) (way : Way)
    → Zip z t (bin c l p k r) way
    → parent_of t p ≡ ok (parent_addr z way)
parent_of-Zip z t c l p k r way v = rw v.below.0 refl

-- The uncle is red: the colours of three nodes change.
pub recolor-left :
    (z : Ptr) (t : Tree) (cp cg cu : Color) (pl pr ul ur : Colored) (p g u kp kg ku : ℕ) (way : Way)
    → Zip z t (bin cp pl p kp pr) (in_left cg g kg (bin cu ul u ku ur) ∷ way)
    → Returns (recolor t u p g) λ (t', node).
      (node ≡ g) × Zip z t' (bin red (bin black pl p kp pr) g kg (bin black ul u ku ur)) way
unfolding recolor
recolor-left z t cp cg cu pl pr ul ur p g u kp kg ku way v =
    let parent = bin black pl p kp pr in
    Returns-bind _ (set_color t p black) _
      (set_color-Zip z t cp black pl p kp pr (in_left cg g kg (bin cu ul u ku ur) ∷ way) v)
      λ t1 v1.
        Returns-bind _ (set_color t1 u black) _
          (set_color-Zip z t1 cu black ul u ku ur (in_right cg parent g kg ∷ way) (
            Zip-down z t1 _ (in_right cg parent g kg) way
              (Zip-up z t1 _ (in_left cg g kg (bin cu ul u ku ur)) way v1)))
          λ t2 v2.
            Returns-bind _ (set_color t2 g red) _
              (set_color-Zip z t2 cg red parent g kg (bin black ul u ku ur) way
                (Zip-up z t2 _ (in_right cg parent g kg) way v2))
              λ t3 v3. (refl, v3)

pub recolor-right :
    (z : Ptr) (t : Tree) (cp cg cu : Color) (pl pr ul ur : Colored) (p g u kp kg ku : ℕ) (way : Way)
    → Zip z t (bin cp pl p kp pr) (in_right cg (bin cu ul u ku ur) g kg ∷ way)
    → Returns (recolor t u p g) λ (t', node).
      (node ≡ g) × Zip z t' (bin red (bin black ul u ku ur) g kg (bin black pl p kp pr)) way
unfolding recolor
recolor-right z t cp cg cu pl pr ul ur p g u kp kg ku way v =
    let parent = bin black pl p kp pr in
    Returns-bind _ (set_color t p black) _
      (set_color-Zip z t cp black pl p kp pr (in_right cg (bin cu ul u ku ur) g kg ∷ way) v)
      λ t1 v1.
        Returns-bind _ (set_color t1 u black) _
          (set_color-Zip z t1 cu black ul u ku ur (in_left cg g kg parent ∷ way) (
            Zip-down z t1 _ (in_left cg g kg parent) way
              (Zip-up z t1 _ (in_right cg (bin cu ul u ku ur) g kg) way v1)))
          λ t2 v2.
            Returns-bind _ (set_color t2 g red) _
              (set_color-Zip z t2 cg red (bin black ul u ku ur) g kg parent way
                (Zip-up z t2 _ (in_left cg g kg parent) way v2))
              λ t3 v3. (refl, v3)

-- The parent becomes black, the grandparent red, and the parent is rotated to its place.
pub lift-right_rotate :
    (z : Ptr) (t : Tree) (c cp cg : Color) (l r pr u : Colored) (n p g k kp kg : ℕ) (way : Way)
    → Zip z t (bin c l n k r) (in_left cp p kp pr ∷ in_left cg g kg u ∷ way)
    → Returns (lift right_rotate t n) λ (t', node).
      (node ≡ n) × Zip z t' (bin c l n k r) (in_left black p kp (bin red pr g kg u) ∷ way)
unfolding lift
lift-right_rotate z t c cp cg l r pr u n p g k kp kg way v =
    let node = bin c l n k r in
    rw (parent_of-Zip z t c l n k r _ v) (
      Returns-bind _ (set_color t p black) _
        (set_color-Zip z t cp black node p kp pr _ (Zip-up z t node (in_left cp p kp pr) _ v))
        λ t1 v1. rw (parent_of-Zip z t1 black node p kp pr _ v1) (
          Returns-bind _ (set_color t1 g red) _
            (set_color-Zip z t1 cg red (bin black node p kp pr) g kg u way
              (Zip-up z t1 _ (in_left cg g kg u) way v1))
            λ t2 v2.
              Returns-bind _ (right_rotate t2 g) _
                (right_rotate-Zip z t2 black red node pr u p g kp kg way v2)
                λ t3 v3.
                  (refl, Zip-down z t3 node (in_left black p kp (bin red pr g kg u)) way v3)))

pub lift-left_rotate :
    (z : Ptr) (t : Tree) (c cp cg : Color) (l r pl u : Colored) (n p g k kp kg : ℕ) (way : Way)
    → Zip z t (bin c l n k r) (in_right cp pl p kp ∷ in_right cg u g kg ∷ way)
    → Returns (lift left_rotate t n) λ (t', node).
      (node ≡ n) × Zip z t' (bin c l n k r) (in_right black (bin red u g kg pl) p kp ∷ way)
unfolding lift
lift-left_rotate z t c cp cg l r pl u n p g k kp kg way v =
    let node = bin c l n k r in
    rw (parent_of-Zip z t c l n k r _ v) (
      Returns-bind _ (set_color t p black) _
        (set_color-Zip z t cp black pl p kp node _ (Zip-up z t node (in_right cp pl p kp) _ v))
        λ t1 v1. rw (parent_of-Zip z t1 black pl p kp node _ v1) (
          Returns-bind _ (set_color t1 g red) _
            (set_color-Zip z t1 cg red u g kg (bin black pl p kp node) way
              (Zip-up z t1 _ (in_right cg u g kg) way v1))
            λ t2 v2.
              Returns-bind _ (left_rotate t2 g) _
                (left_rotate-Zip z t2 red black u pl node g p kg kp way v2)
                λ t3 v3.
                  (refl, Zip-down z t3 node (in_right black (bin red u g kg pl) p kp) way v3)))
