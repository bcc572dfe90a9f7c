-- ===== src/RbTree/Repair.antt =====
-- 1_rbtree/rbtree.c: the state of the repair in _adjustAfterInsert, and its last write, which blackens the root.
use personal_c_cpp_back_end.Base.{
  ℕ, suc, ◌≤◌, ◌≡◌, ◌≢◌, refl, [], ◌∷◌, length, Returns, Returns-mono, arith,
}
use personal_c_cpp_back_end.RbTree.{Ptr, Color, red, black, Tree, set_color}
use personal_c_cpp_back_end.RbTree.Zipper.{
  Colored, tip, bin, Frame, in_left, in_right, Way, Zip, Zip-up, plug,
}
use personal_c_cpp_back_end.RbTree.Balance.{
  top, IsGood, IsRedBlack, IsUnderBlack, IsGoodWay, MayStand, Entries, inorder, inorder_at,
}
use personal_c_cpp_back_end.RbTree.Turn.{set_color-Zip}

-- A red node whose own tree and whose surroundings are right. Its parent may be red.
pub record RedAt (z : Ptr) (t : Tree) (es : Entries) (l : Colored) (node : Ptr) (k : ℕ)
    (r : Colored) (way : Way) : Type 0 where
  pub zip : Zip z t (bin red l node k r) way
  pub height : ℕ
  pub good : IsGood (bin red l node k r) height
  pub around : IsGoodWay way height
  pub same : inorder_at way (inorder (bin red l node k r)) ≡ es

-- Such a node at most `bound` steps below the root.
pub record NextAt (z : Ptr) (es : Entries) (bound : ℕ) (state : Tree × Ptr) : Type 0 where
  pub left : Colored
  pub key : ℕ
  pub right : Colored
  pub way : Way
  pub at : RedAt z state.0 es left state.1 key right way
  pub near : length way ≤ bound

-- A red-black tree with these entries.
pub record Done (z : Ptr) (es : Entries) (t : Tree) : Type 0 where
  pub tree : Colored
  pub zip : Zip z t tree []
  pub balanced : IsRedBlack tree
  pub same : inorder tree ≡ es

IsRedBlack-blacken :
    (c : Color) (l : Colored) (p k : ℕ) (r : Colored) (n : ℕ)
    → IsGood (bin c l p k r) n
    → IsRedBlack (bin black l p k r)
IsRedBlack-blacken red l p k r n (tl, tr, gl, gr) = record {
  black_root = refl;
  height = suc n;
  good = (n, refl, gl, gr);
}
IsRedBlack-blacken black l p k r n good = record { black_root = refl; height = n; good = good }

pub blacken :
    (z : Ptr) (t : Tree) (es : Entries) (c : Color) (l : Colored) (p k : ℕ) (r : Colored) (n : ℕ)
    → Zip z t (bin c l p k r) []
    → IsGood (bin c l p k r) n
    → inorder (bin c l p k r) ≡ es
    → (root : Ptr) → root ≡ p
    → Returns (set_color t root black) (Done z es)
blacken z t es c l p k r n v good same root e = rw e (
    Returns-mono _ (set_color t p black) (set_color-Zip z t c black l p k r [] v) λ t' v'. record {
      tree = bin black l p k r;
      zip = v';
      balanced = IsRedBlack-blacken c l p k r n good;
      same = same;
    })

pub red_ne_black : red ≢ black
red_ne_black e = ground (arith, e)

-- Under a red node only a black tree may stand.
top-left :
    (s : Colored) (p k : ℕ) (r : Colored) (up : Way)
    → MayStand s (in_left red p k r ∷ up)
    → top s ≡ black
top-left tip p k r up may = refl
top-left (bin red a q j b) p k r up may = absurd may
top-left (bin black a q j b) p k r up may = refl

top-right :
    (s l : Colored) (p k : ℕ) (up : Way) → MayStand s (in_right red l p k ∷ up) → top s ≡ black
top-right tip l p k up may = refl
top-right (bin red a q j b) l p k up may = absurd may
top-right (bin black a q j b) l p k up may = refl

left-MayStand :
    (s : Colored) (p k : ℕ) (r : Colored) (up : Way)
    → top s ≡ black
    → MayStand s (in_left red p k r ∷ up)
left-MayStand tip p k r up e = tt
left-MayStand (bin red a q j b) p k r up e = red_ne_black e
left-MayStand (bin black a q j b) p k r up e = tt

right-MayStand :
    (s l : Colored) (p k : ℕ) (up : Way) → top s ≡ black → MayStand s (in_right red l p k ∷ up)
right-MayStand tip l p k up e = tt
right-MayStand (bin red a q j b) l p k up e = red_ne_black e
right-MayStand (bin black a q j b) l p k up e = tt

under_black : (s : Colored) (way : Way) → IsUnderBlack way → MayStand s way
under_black tip way under = tt
under_black (bin red a q j b) way under = under
under_black (bin black a q j b) way under = tt

IsGood-plug :
    (f : Frame) (s : Colored) (up : Way) (n : ℕ)
    → IsGood s n
    → IsGoodWay (f ∷ up) n
    → MayStand s (f ∷ up)
    → (m : ℕ) × IsGood (plug f s) m × IsGoodWay up m × MayStand (plug f s) up
IsGood-plug (in_left red p k r) s up n g (tr, gr, under, w) may =
    (n, (top-left s p k r up may, tr, g, gr), w, under)
IsGood-plug (in_left black p k r) s up n g (gr, w) may = (suc n, (n, refl, g, gr), w, tt)
IsGood-plug (in_right red l p k) s up n g (tl, gl, under, w) may =
    (n, (tl, top-right s l p k up may, gl, g), w, under)
IsGood-plug (in_right black l p k) s up n g (gl, w) may = (suc n, (n, refl, gl, g), w, tt)

-- The colours are right on the whole way up, so the root can be blackened.
pub finish :
    (z : Ptr) (t : Tree) (es : Entries) (c : Color) (l : Colored) (p k : ℕ) (r : Colored)
    (way : Way) (n : ℕ)
    → Zip z t (bin c l p k r) way
    → IsGood (bin c l p k r) n
    → IsGoodWay way n
    → MayStand (bin c l p k r) way
    → inorder_at way (inorder (bin c l p k r)) ≡ es
    → Returns (set_color t t.root black) (Done z es)
finish z t es c l p k r [] n v g w may same = blacken z t es c l p k r n v g same t.root v.above
finish z t es c l p k r (in_left cf q j s ∷ up) n v g w may same =
    let (m, g', w', may') = IsGood-plug (in_left cf q j s) (bin c l p k r) up n g w may in
    finish z t es cf (bin c l p k r) q j s up m (Zip-up z t (bin c l p k r) (in_left cf q j s) up v)
      g' w' may' same
finish z t es c l p k r (in_right cf s q j ∷ up) n v g w may same =
    let (m, g', w', may') = IsGood-plug (in_right cf s q j) (bin c l p k r) up n g w may in
    finish z t es cf s q j (bin c l p k r) up m
      (Zip-up z t (bin c l p k r) (in_right cf s q j) up v) g' w' may' same

-- One step down: the colours are right at both children of a node.
pub IsGood-below :
    (c : Color) (l : Colored) (p k : ℕ) (r : Colored) (way : Way) (n : ℕ)
    → IsGood (bin c l p k r) n
    → IsGoodWay way n
    → MayStand (bin c l p k r) way
    → (m : ℕ) × (IsGood l m
        × IsGoodWay (in_left c p k r ∷ way) m
        × MayStand l (in_left c p k r ∷ way))
      × (IsGood r m × IsGoodWay (in_right c l p k ∷ way) m × MayStand r (in_right c l p k ∷ way))
IsGood-below red l p k r way n (tl, tr, gl, gr) w may = (
  n,
  (gl, (tr, gr, may, w), left-MayStand l p k r way tl),
  (gr, (tl, gl, may, w), right-MayStand r l p k way tr),
)
IsGood-below black l p k r way n (m, e, gl, gr) w may = (
  m,
  (gl, (gr, rw (← e) w), under_black l (in_left black p k r ∷ way) tt),
  (gr, (gl, rw (← e) w), under_black r (in_right black l p k ∷ way) tt),
)
