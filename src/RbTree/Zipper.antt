-- ===== src/RbTree/Zipper.antt =====
-- 1_rbtree/rbtree.c: the coloured tree that the nodes form, seen from one of its places: the tree below
-- it and the way up to the root. The nodes are determined by this view, parents included.
use personal_c_cpp_back_end.Base.{
  ℕ, ◌+◌, ◌≤◌, ◌<◌, ◌≡◌, ◌≢◌, ◌∙◌, some, List, [], ◌∷◌, ◌==◌, if◌then◌else◌, arith,
}
use personal_c_cpp_back_end.RbTree.{Ptr, Color, black, Node, Tree}

pub data Colored : Type 0 where
  tip : Colored
  bin : Color → Colored → Ptr → ℕ → Colored → Colored

-- A node on the way up, whose left or right child is the place below, with the tree on its other side.
pub data Frame : Type 0 where
  in_left : Color → Ptr → ℕ → Colored → Frame
  in_right : Color → Colored → Ptr → ℕ → Frame

abbrev pub Way : Type 0
Way = List Frame

-- How often an address is among the nodes.
unfoldable pub hit : Ptr → Ptr → ℕ
hit q p = if q == p then 1 else 0

pub hit_self : (p : Ptr) → hit p p ≡ 1
unfolding hit
hit_self p = ground arith

pub hit_ne : (q p : Ptr) → q ≢ p → hit q p ≡ 0
unfolding hit
hit_ne q p ne = ground (arith, ne)

pub ne_of_hit : (q p : Ptr) → hit q p ≡ 0 → q ≢ p
unfolding hit
ne_of_hit q p h = ground arith

abbrev pub occ : Ptr → Colored → ℕ
occ q tip = 0
occ q (bin c l p k r) = occ q l + hit q p + occ q r

abbrev pub occ_way : Ptr → Way → ℕ
occ_way q [] = 0
occ_way q (in_left c p k r ∷ up) = hit q p + occ q r + occ_way q up
occ_way q (in_right c l p k ∷ up) = hit q p + occ q l + occ_way q up

-- The address of a tree, where `z` is the sentinel, and that of the parent of a place.
abbrev pub addr : Ptr → Colored → Ptr
addr z tip = z
addr z (bin c l p k r) = p

abbrev pub parent_addr : Ptr → Way → Ptr
parent_addr z [] = z
parent_addr z (in_left c p k r ∷ up) = p
parent_addr z (in_right c l p k ∷ up) = p

-- The nodes of a tree below the parent `par`.
abbrev pub IsBelow : Ptr → Tree → (par : Ptr) → Colored → Type 0
IsBelow z t par tip = Unit {0}
IsBelow z t par (bin c l p k r) =
    (t.node p
      ≡ some (record { parent = par; left = addr z l; right = addr z r; color = c; key = k }))
    × IsBelow z t p l
    × IsBelow z t p r

-- The nodes on the way up from the place with the address `q`, and the trees beside it.
abbrev pub IsAbove : Ptr → Tree → Way → (q : Ptr) → Type 0
IsAbove z t [] q = t.root ≡ q
IsAbove z t (in_left c p k r ∷ up) q =
    (t.node p
      ≡ some (record { parent = parent_addr z up; left = q; right = addr z r; color = c; key = k }))
    × IsBelow z t p r
    × IsAbove z t up p
IsAbove z t (in_right c l p k ∷ up) q =
    (t.node p
      ≡ some (record { parent = parent_addr z up; left = addr z l; right = q; color = c; key = k }))
    × IsBelow z t p l
    × IsAbove z t up p

abbrev pub IsBlackNode : Tree → Ptr → Type 0
IsBlackNode t p = (n : Node) × (t.node p ≡ some n) × (n.color ≡ black)

-- The nodes of the whole tree, which are different and not the black sentinel.
pub record Zip (z : Ptr) (t : Tree) (s : Colored) (way : Way) : Type 0 where
  pub sentinel : t.nil ≡ z
  pub black_nil : IsBlackNode t z
  pub below : IsBelow z t (parent_addr z way) s
  pub above : IsAbove z t way (addr z s)
  pub once : (q : Ptr) → occ q s + occ_way q way ≤ 1
  pub no_nil : occ z s + occ_way z way ≡ 0

-- One step up and down.
abbrev pub plug : Frame → Colored → Colored
plug (in_left c p k r) s = bin c s p k r
plug (in_right c l p k) s = bin c l p k s

pub Zip-up :
    (z : Ptr) (t : Tree) (s : Colored) (f : Frame) (way : Way)
    → Zip z t s (f ∷ way)
    → Zip z t (plug f s) way
Zip-up z t s (in_left c p k r) way v = record {
  sentinel = v.sentinel;
  black_nil = v.black_nil;
  below = (v.above.0, v.below, v.above.1);
  above = v.above.2;
  once = λ q. omega (arith, v.once q);
  no_nil = omega (arith, v.no_nil);
}
Zip-up z t s (in_right c l p k) way v = record {
  sentinel = v.sentinel;
  black_nil = v.black_nil;
  below = (v.above.0, v.above.1, v.below);
  above = v.above.2;
  once = λ q. omega (arith, v.once q);
  no_nil = omega (arith, v.no_nil);
}

pub Zip-down :
    (z : Ptr) (t : Tree) (s : Colored) (f : Frame) (way : Way)
    → Zip z t (plug f s) way
    → Zip z t s (f ∷ way)
Zip-down z t s (in_left c p k r) way v = record {
  sentinel = v.sentinel;
  black_nil = v.black_nil;
  below = v.below.1;
  above = (v.below.0, v.below.2, v.above);
  once = λ q. omega (arith, v.once q);
  no_nil = omega (arith, v.no_nil);
}
Zip-down z t s (in_right c l p k) way v = record {
  sentinel = v.sentinel;
  black_nil = v.black_nil;
  below = v.below.2;
  above = (v.below.0, v.below.1, v.above);
  once = λ q. omega (arith, v.once q);
  no_nil = omega (arith, v.no_nil);
}

-- Trees of memory that agree on the nodes of a tree or a way.
pub IsBelow-same :
    (z : Ptr) (t t' : Tree) (par : Ptr) (s : Colored)
    → ((q : Ptr) → 0 < occ q s → t'.node q ≡ t.node q)
    → IsBelow z t par s
    → IsBelow z t' par s
IsBelow-same z t t' par tip same b = tt
IsBelow-same z t t' par (bin c l p k r) same (e, bl, br) = (
  same p (omega (arith, hit_self p)) ∙ e,
  IsBelow-same z t t' p l (λ q h. same q (omega arith)) bl,
  IsBelow-same z t t' p r (λ q h. same q (omega arith)) br,
)

pub IsAbove-same :
    (z : Ptr) (t t' : Tree) (way : Way) (a : Ptr)
    → t'.root ≡ t.root
    → ((q : Ptr) → 0 < occ_way q way → t'.node q ≡ t.node q)
    → IsAbove z t way a
    → IsAbove z t' way a
IsAbove-same z t t' [] a root same v = root ∙ v
IsAbove-same z t t' (in_left c p k r ∷ up) a root same (e, b, v) = (
  same p (omega (arith, hit_self p)) ∙ e,
  IsBelow-same z t t' p r (λ q h. same q (omega arith)) b,
  IsAbove-same z t t' up p root (λ q h. same q (omega arith)) v,
)
IsAbove-same z t t' (in_right c l p k ∷ up) a root same (e, b, v) = (
  same p (omega (arith, hit_self p)) ∙ e,
  IsBelow-same z t t' p l (λ q h. same q (omega arith)) b,
  IsAbove-same z t t' up p root (λ q h. same q (omega arith)) v,
)
