-- ===== src/RbTree/Place.antt =====
-- 1_rbtree/rbtree.c: the loop of RBT_insertNode that looks for the key, or for the place where it belongs.
use personal_c_cpp_back_end.Base.{
  ℕ, zero, suc, ◌+◌, ◌≤◌, ◌<◌, ◌≡◌, refl, sym, ap, ◌∙◌, true, false, Option, none, some, [], ◌∷◌,
  ◌++◌, append_assoc, append-nil, ◌⊎◌, length, ok, deref, Returns, Returns-step, ltb, ◌==◌,
  if◌then◌else◌, arith, Bool-cases, inl, inr,
}
use personal_c_cpp_back_end.RbTree.{Ptr, Color, Node, Tree, get}
use personal_c_cpp_back_end.RbTree.Insert.{find_place}
use personal_c_cpp_back_end.RbTree.Zipper.{
  Colored, tip, bin, in_left, in_right, Way, addr, parent_addr, Zip, Zip-down,
}
use personal_c_cpp_back_end.RbTree.Balance.{
  IsGood, IsGoodWay, MayStand, Entries, inorder, inorder_at, Fits,
}
use personal_c_cpp_back_end.RbTree.Repair.{IsGood-below}
use personal_c_cpp_back_end.RbTree.Turn.{inner_ne_nil}

abbrev pub size : Colored → ℕ
size tip = 0
size (bin c l p k r) = suc (size l + size r)

-- What stands before and after a place, in order.
pub inorder_at-around :
    (way : Way)
    → (xs : Entries) × (ys : Entries) × ((mid : Entries) → inorder_at way mid ≡ xs ++ (mid ++ ys))
inorder_at-around [] = ([], [], λ mid. sym (append-nil mid))
inorder_at-around (in_left c p k r ∷ up) =
    let (xs, ys, same) = inorder_at-around up in
    let rest = (p, k) ∷ inorder r in
    (xs, rest ++ ys, λ mid. same (mid ++ rest) ∙ ap (λ es. xs ++ es) (append_assoc mid rest ys))
inorder_at-around (in_right c l p k ∷ up) =
    let (xs, ys, same) = inorder_at-around up in
    let front = inorder l ++ ((p, k) ∷ []) in
    (
      xs ++ front,
      ys,
      λ mid.
          ap (inorder_at up) (sym (append_assoc (inorder l) ((p, k) ∷ []) mid))
          ∙ same (front ++ mid)
          ∙ ap (λ es. xs ++ es) (append_assoc front mid ys)
          ∙ sym (append_assoc xs front (mid ++ ys)),
    )

-- The entry of a node with the key is in the tree.
pub record Found (es : Entries) (key : ℕ) (result : Option Ptr × Ptr) : Type 0 where
  pub node : Ptr
  pub is_node : result.0 ≡ some node
  pub before : Entries
  pub after : Entries
  pub at : es ≡ before ++ ((node, key) ∷ after)

-- The empty place where the key belongs, with its parent.
pub record Free (z : Ptr) (t : Tree) (es : Entries) (key bound : ℕ) (result : Option Ptr × Ptr)
    : Type 0 where
  pub way : Way
  pub is_none : result.0 ≡ none
  pub is_parent : result.1 ≡ parent_addr z way
  pub zip : Zip z t tip way
  pub around : IsGoodWay way 0
  pub fits : Fits key way
  pub same : inorder_at way [] ≡ es
  pub near : length way ≤ bound

-- What one step of the loop decides.
leave-step :
    (Q : Option Ptr × Ptr → Type 0) (fuel : ℕ) (t : Tree) (node prev : Ptr) (key : ℕ)
    → (node == t.nil) ≡ true
    → Q (none, prev)
    → Returns (find_place (suc fuel) t node prev key) Q
unfolding find_place
leave-step Q fuel t node prev key at_nil h = rw at_nil h

look-step :
    (Q : Option Ptr × Ptr → Type 0) (fuel : ℕ) (t : Tree) (node prev : Ptr) (key : ℕ) (n : Node)
    → (node == t.nil) ≡ false
    → get t node ≡ ok n
    → Returns
        (if ltb key n.key
          then find_place fuel t n.left node key
          else if ltb n.key key
          then find_place fuel t n.right node key
          else ok (some node, node))
        Q
    → Returns (find_place (suc fuel) t node prev key) Q
unfolding find_place
look-step Q fuel t node prev key n inner e h = rw inner (Returns-step Q (get t node) n _ e h)

module _ (z : Ptr) (t : Tree) (es : Entries) (key bound : ℕ) where
  Found-here :
      (c : Color) (l : Colored) (p : Ptr) (k : ℕ) (r : Colored) (way : Way)
      → inorder_at way (inorder (bin c l p k r)) ≡ es
      → k ≡ key
      → Found es key (some p, p)
  Found-here c l p k r way same e =
      let (xs, ys, split) = inorder_at-around way in
      record {
        node = p;
        is_node = refl;
        before = xs ++ inorder l;
        after = inorder r ++ ys;
        at =
            sym same
            ∙ split (inorder (bin c l p k r))
            ∙ ap (λ rest. xs ++ rest) (append_assoc (inorder l) ((p, k) ∷ inorder r) ys)
            ∙ sym (append_assoc xs (inorder l) ((p, k) ∷ (inorder r ++ ys)))
            ∙ ap (λ j. (xs ++ inorder l) ++ ((p, j) ∷ (inorder r ++ ys))) e;
      }

  pub find_place-Found_or_Free :
      (fuel : ℕ) (s : Colored) (way : Way) (n : ℕ) (prev : Ptr)
      → Zip z t s way
      → IsGood s n
      → IsGoodWay way n
      → MayStand s way
      → inorder_at way (inorder s) ≡ es
      → Fits key way
      → (s ≡ tip → prev ≡ parent_addr z way)
      → size s < fuel
      → length way + size s ≤ bound
      → Returns
          (find_place fuel t (addr z s) prev key)
          λ result. Found es key result ⊎ Free z t es key bound result
  find_place-Found_or_Free zero s way n prev v g w may same fits is_prev enough near =
      absurd (omega arith)
  find_place-Found_or_Free (suc fuel) tip way n prev v g w may same fits is_prev enough near =
      let at_nil : (z == t.nil) ≡ true = ground (arith, v.sentinel) in
      leave-step _ fuel t z prev key at_nil (
        inr record {
          way = way;
          is_none = refl;
          is_parent = is_prev refl;
          zip = v;
          around = rw (← g) w;
          fits = fits;
          same = same;
          near = omega arith;
        })
  find_place-Found_or_Free (suc fuel) (bin c l p k r) way n prev v g w may same fits is_prev enough
        near =
      let inner : (p == t.nil) ≡ false =
        ground (arith, v.sentinel, inner_ne_nil z t c l p k r way v) in
      let (m, (gl, wl, ml), (gr, wr, mr)) = IsGood-below c l p k r way n g w may in
      look-step _ fuel t p prev key _ inner (ap deref v.below.0) (elim (Bool-cases (ltb key k)) [
        | inl lt ↦ rw lt (
            find_place-Found_or_Free fuel l (in_left c p k r ∷ way) m p
              (Zip-down z t l (in_left c p k r) way v) gl wl ml same (ground (arith, lt), fits)
              (λ e. refl) (omega arith) (omega arith))
        | inr ge ↦ elim (Bool-cases (ltb k key)) [
          | inl gt ↦
              rw (ge, gt)
                (find_place-Found_or_Free fuel r (in_right c l p k ∷ way) m p
                  (Zip-down z t r (in_right c l p k) way v) gr wr mr same (ground (arith, gt), fits)
                  (λ e. refl) (omega arith) (omega arith))
          | inr le ↦ rw (ge, le) (inl (Found-here c l p k r way same (ground (arith, ge, le))))
        ]
      ])
