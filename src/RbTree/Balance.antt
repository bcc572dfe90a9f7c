-- ===== src/RbTree/Balance.antt =====
-- 1_rbtree/rbtree.c: the colours of a red-black tree, and its nodes in order, seen from one place.
use personal_c_cpp_back_end.Base.{ℕ, suc, ◌<◌, ◌≡◌, refl, List, [], ◌∷◌, ◌++◌, append_assoc, arith}
use personal_c_cpp_back_end.RbTree.{Ptr, Color, red, black}
use personal_c_cpp_back_end.RbTree.Zipper.{Colored, tip, bin, Frame, in_left, in_right, Way, plug}

abbrev pub top : Colored → Color
top tip = black
top (bin c l p k r) = c

-- Every way down has `n` black nodes, and a red node has black children.
abbrev pub IsGood : Colored → ℕ → Type 0
IsGood tip n = n ≡ 0
IsGood (bin red l p k r) n = (top l ≡ black) × (top r ≡ black) × IsGood l n × IsGood r n
IsGood (bin black l p k r) n = (m : ℕ) × (n ≡ suc m) × IsGood l m × IsGood r m

pub record IsRedBlack (s : Colored) : Type 0 where
  pub black_root : top s ≡ black
  pub height : ℕ
  pub good : IsGood s height

-- The place has a black node above it.
abbrev pub IsUnderBlack : Way → Type 0
IsUnderBlack [] = ⊥
IsUnderBlack (in_left red p k r ∷ up) = ⊥
IsUnderBlack (in_left black p k r ∷ up) = Unit {0}
IsUnderBlack (in_right red l p k ∷ up) = ⊥
IsUnderBlack (in_right black l p k ∷ up) = Unit {0}

-- With a tree of height `n` at the place the tree has these colours, but for the place itself.
abbrev pub IsGoodWay : Way → ℕ → Type 0
IsGoodWay [] n = Unit {0}
IsGoodWay (in_left red p k r ∷ up) n =
    (top r ≡ black) × IsGood r n × IsUnderBlack up × IsGoodWay up n
IsGoodWay (in_left black p k r ∷ up) n = IsGood r n × IsGoodWay up (suc n)
IsGoodWay (in_right red l p k ∷ up) n =
    (top l ≡ black) × IsGood l n × IsUnderBlack up × IsGoodWay up n
IsGoodWay (in_right black l p k ∷ up) n = IsGood l n × IsGoodWay up (suc n)

-- A red tree stands under a black node.
abbrev pub MayStand : Colored → Way → Type 0
MayStand tip way = Unit {0}
MayStand (bin red l p k r) way = IsUnderBlack way
MayStand (bin black l p k r) way = Unit {0}

-- The nodes with their keys in order: of a tree, and of the whole with a list at the place.
abbrev pub Entries : Type 0
Entries = List (Ptr × ℕ)

abbrev pub inorder : Colored → Entries
inorder tip = []
inorder (bin c l p k r) = inorder l ++ ((p, k) ∷ inorder r)

abbrev pub inorder_at : Way → Entries → Entries
inorder_at [] mid = mid
inorder_at (in_left c p k r ∷ up) mid = inorder_at up (mid ++ ((p, k) ∷ inorder r))
inorder_at (in_right c l p k ∷ up) mid = inorder_at up (inorder l ++ ((p, k) ∷ mid))

pub inorder-plug :
    (f : Frame) (s : Colored) (up : Way)
    → inorder_at (f ∷ up) (inorder s) ≡ inorder_at up (inorder (plug f s))
inorder-plug (in_left c p k r) s up = refl
inorder-plug (in_right c l p k) s up = refl

abbrev pub AllAbove : ℕ → Entries → Type 0
AllAbove k [] = Unit {0}
AllAbove k ((p, j) ∷ es) = (k < j) × AllAbove k es

abbrev pub AllBelow : ℕ → Entries → Type 0
AllBelow k [] = Unit {0}
AllBelow k ((p, j) ∷ es) = (j < k) × AllBelow k es

-- The keys rise.
abbrev pub IsSorted : Entries → Type 0
IsSorted [] = Unit {0}
IsSorted ((p, k) ∷ es) = AllAbove k es × IsSorted es

-- The key belongs at the place.
abbrev pub Fits : ℕ → Way → Type 0
Fits k [] = Unit {0}
Fits k (in_left c p j r ∷ up) = (k < j) × Fits k up
Fits k (in_right c l p j ∷ up) = (j < k) × Fits k up

AllAbove-append : (k : ℕ) (xs ys : Entries) → AllAbove k xs → AllAbove k ys → AllAbove k (xs ++ ys)
AllAbove-append k [] ys a b = b
AllAbove-append k ((p, j) ∷ xs) ys (h, a) b = (h, AllAbove-append k xs ys a b)

AllBelow-append : (k : ℕ) (xs ys : Entries) → AllBelow k xs → AllBelow k ys → AllBelow k (xs ++ ys)
AllBelow-append k [] ys a b = b
AllBelow-append k ((p, j) ∷ xs) ys (h, a) b = (h, AllBelow-append k xs ys a b)

AllAbove-parts : (k : ℕ) (xs ys : Entries) → AllAbove k (xs ++ ys) → AllAbove k xs × AllAbove k ys
AllAbove-parts k [] ys a = (tt, a)
AllAbove-parts k ((p, j) ∷ xs) ys (h, a) = let (b, c) = AllAbove-parts k xs ys a in ((h, b), c)

AllAbove-lt : (k j : ℕ) (es : Entries) → k < j → AllAbove j es → AllAbove k es
AllAbove-lt k j [] lt a = tt
AllAbove-lt k j ((p, i) ∷ es) lt (h, a) = (omega arith, AllAbove-lt k j es lt a)

AllBelow-lt : (k j : ℕ) (es : Entries) → j < k → AllBelow j es → AllBelow k es
AllBelow-lt k j [] lt a = tt
AllBelow-lt k j ((p, i) ∷ es) lt (h, a) = (omega arith, AllBelow-lt k j es lt a)

-- A sorted list at an entry.
pub IsSorted-parts :
    (xs : Entries) (p : Ptr) (k : ℕ) (ys : Entries)
    → IsSorted (xs ++ ((p, k) ∷ ys))
    → AllBelow k xs × AllAbove k ys
IsSorted-parts [] p k ys (a, s) = (tt, a)
IsSorted-parts ((q, j) ∷ xs) p k ys (a, s) =
    let (below, above) = IsSorted-parts xs p k ys s in
    (((AllAbove-parts j xs ((p, k) ∷ ys) a).1.0, below), above)

pub IsSorted-left : (xs ys : Entries) → IsSorted (xs ++ ys) → IsSorted xs
IsSorted-left [] ys s = tt
IsSorted-left ((p, k) ∷ xs) ys (a, s) = ((AllAbove-parts k xs ys a).0, IsSorted-left xs ys s)

pub IsSorted-right : (xs ys : Entries) → IsSorted (xs ++ ys) → IsSorted ys
IsSorted-right [] ys s = s
IsSorted-right ((p, k) ∷ xs) ys (a, s) = IsSorted-right xs ys s

IsSorted-at : (way : Way) (mid : Entries) → IsSorted (inorder_at way mid) → IsSorted mid
IsSorted-at [] mid s = s
IsSorted-at (in_left c p k r ∷ up) mid s = IsSorted-left mid _ (IsSorted-at up _ s)
IsSorted-at (in_right c l p k ∷ up) mid s = (IsSorted-right (inorder l) _ (IsSorted-at up _ s)).1

IsSorted-insert :
    (k : ℕ) (p : Ptr) (xs ys : Entries)
    → IsSorted (xs ++ ys)
    → AllBelow k xs
    → AllAbove k ys
    → IsSorted (xs ++ ((p, k) ∷ ys))
IsSorted-insert k p [] ys s below above = (above, s)
IsSorted-insert k p ((q, j) ∷ xs) ys (a, s) (h, below) above =
    let (b, c) = AllAbove-parts j xs ys a in
    (AllAbove-append j xs ((p, k) ∷ ys) b (h, c), IsSorted-insert k p xs ys s below above)

-- A key that belongs at the place, put between what is there.
inorder_at-insert :
    (k : ℕ) (p : Ptr) (way : Way) (xs ys : Entries)
    → IsSorted (inorder_at way (xs ++ ys))
    → AllBelow k xs
    → AllAbove k ys
    → Fits k way
    → IsSorted (inorder_at way (xs ++ ((p, k) ∷ ys)))
inorder_at-insert k p [] xs ys s below above fits = IsSorted-insert k p xs ys s below above
inorder_at-insert k p (in_left c q j r ∷ up) xs ys s below above (lt, fits) =
    let rest = (q, j) ∷ inorder r in
    let (_, far) = IsSorted-parts (xs ++ ys) q j (inorder r) (IsSorted-at up _ s) in
    rw (append_assoc xs ((p, k) ∷ ys) rest) (
      inorder_at-insert k p up xs (ys ++ rest) (rw (← append_assoc xs ys rest) s) below
        (AllAbove-append k ys rest above (lt, AllAbove-lt k j (inorder r) lt far)) fits)
inorder_at-insert k p (in_right c l q j ∷ up) xs ys s below above (lt, fits) =
    let front = inorder l ++ ((q, j) ∷ xs) in
    let (near, _) = IsSorted-parts (inorder l) q j (xs ++ ys) (IsSorted-at up _ s) in
    rw (← append_assoc (inorder l) ((q, j) ∷ xs) ((p, k) ∷ ys)) (
      inorder_at-insert k p up front ys (rw (append_assoc (inorder l) ((q, j) ∷ xs) ys) s)
        (AllBelow-append k (inorder l) ((q, j) ∷ xs) (AllBelow-lt k j (inorder l) lt near)
          (lt, below))
        above fits)

-- A key that belongs at a place with no node, put there.
pub insert-IsSorted :
    (k : ℕ) (p : Ptr) (way : Way)
    → IsSorted (inorder_at way [])
    → Fits k way
    → IsSorted (inorder_at way ((p, k) ∷ []))
insert-IsSorted k p way s fits = inorder_at-insert k p way [] [] s tt tt fits
