-- ===== src/RbTree/Turn.antt =====
-- 1_rbtree/rbtree.c: the colouring of a node, and the writes that the two rotations share, at a place of the tree.
use personal_c_cpp_back_end.Base.{
  ℕ, ◌≤◌, ◌<◌, ◌≡◌, ◌≢◌, refl, sym, ap, ◌∙◌, true, false, some, ◌∷◌, Run, ok, Returns, ◌==◌,
  if◌then◌else◌, arith,
}
use personal_c_cpp_back_end.RbTree.{Ptr, Color, Node, Tree, update, put, set_color, set_parent}
use personal_c_cpp_back_end.RbTree.Zipper.{
  Colored, tip, bin, Frame, Way, hit, hit_self, ne_of_hit, occ, occ_way, addr, parent_addr, IsBelow,
  IsAbove, IsBlackNode, Zip, IsBelow-same, IsAbove-same,
}

-- A memory with one node written.
abbrev pub store : Tree → Ptr → Node → Tree
store t p n = record t { node = update t.node p (some n) }

pub put-store :
    (t : Tree) (p : Ptr) (n : Node) (f : Node → Node)
    → t.node p ≡ some n
    → put t p f ≡ ok (store t p (f n))
put-store t p n f e = rw e refl

pub store_self : (t : Tree) (p : Ptr) (n : Node) → (store t p n).node p ≡ some n
store_self t p n = let same : (p == p) ≡ true = ground arith in rw same refl

pub store_other :
    (t : Tree) (p : Ptr) (n : Node) (q : Ptr) → q ≢ p → (store t p n).node q ≡ t.node q
store_other t p n q ne = let test : (q == p) ≡ false = ground (arith, ne) in rw test refl

-- A place where a node is written that is at neither.
pub ne_of_occ : (q p : Ptr) (s : Colored) → 0 < occ q s → occ p s ≡ 0 → q ≢ p
ne_of_occ q p s some_ out e = absurd (omega (arith, ap (λ r. occ r s) e))

pub ne_of_way : (q p : Ptr) (way : Way) → 0 < occ_way q way → occ_way p way ≡ 0 → q ≢ p
ne_of_way q p way some_ out e = absurd (omega (arith, ap (λ r. occ_way r way) e))

-- A node of the tree is not the sentinel.
pub inner_ne_nil :
    (z : Ptr) (t : Tree) (c : Color) (l : Colored) (p : Ptr) (k : ℕ) (r : Colored) (way : Way)
    → Zip z t (bin c l p k r) way
    → p ≢ z
inner_ne_nil z t c l p k r way v e =
    absurd (omega (arith, v.no_nil, ap (λ q. hit q p) e, hit_self p))

-- The colour of the node at the place is written.
pub set_color-Zip :
    (z : Ptr) (t : Tree) (c c' : Color) (l : Colored) (p : Ptr) (k : ℕ) (r : Colored) (way : Way)
    → Zip z t (bin c l p k r) way
    → Returns (set_color t p c') λ t'. Zip z t' (bin c' l p k r) way
set_color-Zip z t c c' l p k r way v =
    let (e, bl, br) = v.below in
    let n' : Node = record {
      parent = parent_addr z way;
      left = addr z l;
      right = addr z r;
      color = c';
      key = k;
    } in
    let one = v.once p in
    let self = hit_self p in
    let (m, em, black_m) = v.black_nil in
    let t' = store t p n' in
    let nil_ne : z ≢ p = λ s. inner_ne_nil z t c l p k r way v (sym s) in
    let same : (s : Colored) → occ p s ≡ 0 → (q : Ptr) → 0 < occ q s → t'.node q ≡ t.node q =
      λ s out q h. store_other t p n' q (ne_of_occ q p s h out) in
    rw e record {
      sentinel = v.sentinel;
      black_nil = (m, store_other t p n' z nil_ne ∙ em, black_m);
      below = (
        store_self t p n',
        IsBelow-same z t t' p l (same l (omega (arith, one, self))) bl,
        IsBelow-same z t t' p r (same r (omega (arith, one, self))) br,
      );
      above =
          IsAbove-same z t t' way p refl
            (λ q h. store_other t p n' q (ne_of_way q p way h (omega (arith, one, self)))) v.above;
      once = λ q. v.once q;
      no_nil = v.no_nil;
    }

pub addr_ne : (z x : Ptr) (s : Colored) → x ≢ z → occ x s ≡ 0 → x ≢ addr z s
addr_ne z x tip ne out = ne
addr_ne z x (bin c l p k r) ne out = ne_of_hit x p (omega (arith, out))

-- What a change of the child above a place leaves: the new child is there, and no other node is written.
abbrev pub Linked : Ptr → Tree → Way → Ptr → Tree → Type 0
Linked z t way y t1 =
    (t1.nil ≡ z)
    × IsAbove z t1 way y
    × ((q : Ptr) → occ_way q way ≡ 0 → q ≢ z → t1.node q ≡ t.node q)
    × IsBlackNode t1 z

-- One child of a node on the way is written.
pub Linked-store :
    (z : Ptr) (t : Tree) (p : Ptr) (n : Node) (f : Frame) (up : Way)
    → t.nil ≡ z
    → IsBlackNode t z
    → occ_way z (f ∷ up) ≡ 0
    → 0 < occ_way p (f ∷ up)
    → (y : Ptr) → IsAbove z (store t p n) (f ∷ up) y
    → Linked z t (f ∷ up) y (store t p n)
Linked-store z t p n f up nil (m, em, bm) no_nil at_p y above = (
  nil,
  above,
  (λ q out nq.
      store_other t p n q λ e. absurd (omega (arith, out, at_p, ap (λ r. occ_way r (f ∷ up)) e))),
  (
    m,
    store_other t p n z (λ e. absurd (omega (arith, no_nil, at_p, ap (λ r. occ_way r (f ∷ up)) e)))
        ∙ em,
    bm,
  ),
)

-- The last write: the inner tree, if it is there, gets its new parent.
abbrev pub adopt : Tree → Ptr → Ptr → Run Tree
adopt t q x = if q == t.nil then ok t else set_parent t q x

pub adopt-IsBelow :
    (z : Ptr) (t0 t : Tree) (x y : Ptr) (b : Colored)
    → t.nil ≡ z
    → ((q : Ptr) → 0 < occ q b → t.node q ≡ t0.node q)
    → IsBelow z t0 y b
    → occ z b ≡ 0
    → ((q : Ptr) → occ q b ≤ 1)
    → Returns (adopt t (addr z b) x) λ t'.
      (t'.nil ≡ z)
      × (t'.root ≡ t.root)
      × ((q : Ptr) → occ q b ≡ 0 → t'.node q ≡ t.node q)
      × IsBelow z t' x b
adopt-IsBelow z t0 t x y tip nil same bb no_nil once =
    let test : (z == t.nil) ≡ true = ground (arith, nil) in rw test (nil, refl, (λ q out. refl), tt)
adopt-IsBelow z t0 t x y (bin c l p k r) nil same (e, bl, br) no_nil once =
    let hp = hit_self p in
    let test : (p == t.nil) ≡ false = ground (arith, nil, ne_of_hit z p (omega (arith, no_nil))) in
    let n' : Node = record { parent = x; left = addr z l; right = addr z r; color = c; key = k } in
    let t' = store t p n' in
    let here = same p (omega (arith, hp)) ∙ e in
    let kept : (s : Colored)
        → occ p s ≡ 0
        → ((q : Ptr) → 0 < occ q s → 0 < occ q (bin c l p k r))
        → (q : Ptr) → 0 < occ q s
        → t'.node q ≡ t0.node q =
      λ s out part q h. store_other t p n' q (ne_of_occ q p s h out) ∙ same q (part q h) in
    rw (test, here)
      (
        nil,
        refl,
        (λ q out. store_other t p n' q (ne_of_hit q p (omega (arith, out)))),
        (
          store_self t p n',
          IsBelow-same z t0 t' p l (kept l (omega (arith, once p, hp)) (λ q h. omega arith)) bl,
          IsBelow-same z t0 t' p r (kept r (omega (arith, once p, hp)) (λ q h. omega arith)) br,
        ),
      )
