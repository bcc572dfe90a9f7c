-- ===== src/RbTree/Round.antt =====
-- 1_rbtree/rbtree.c: a whole round of _adjustAfterInsert, for a red parent below a black grandparent.
use personal_c_cpp_back_end.Base.{
  ℕ, suc, ◌≤◌, ◌≡◌, refl, ap, true, false, ◌∷◌, length, Run, ok, ◌>>=◌, Returns, Returns-bind,
  Returns-step, deref, ◌==◌, if◌then◌else◌, arith,
}
use personal_c_cpp_back_end.RbTree.{Ptr, Color, red, black, is_red, Node, Tree, get, color_of}
use personal_c_cpp_back_end.RbTree.Rotate.{left_rotate, right_rotate}
use personal_c_cpp_back_end.RbTree.Insert.{recolor, lift, insert_round_left, insert_round_right}
use personal_c_cpp_back_end.RbTree.Zipper.{
  Colored, tip, bin, Frame, in_left, in_right, Way, hit_self, occ, occ_way, addr, Zip, Zip-up,
}
use personal_c_cpp_back_end.RbTree.Balance.{top, IsGood, IsGoodWay, Entries, inorder, inorder_at}
use personal_c_cpp_back_end.RbTree.Turn.{inner_ne_nil, addr_ne}
use personal_c_cpp_back_end.RbTree.Lift.{color_of-addr}
use personal_c_cpp_back_end.RbTree.Repair.{RedAt, NextAt}
use personal_c_cpp_back_end.RbTree.Rounds.{
  lift-right_rotate-NextAt, lift-left_rotate-NextAt, left_rotate-RedAt, right_rotate-RedAt,
  recolor-left-NextAt, recolor-right-NextAt,
}

-- What a round decides, once it has read the nodes and the colour of the uncle.
insert_round_left-step :
    (Q : Tree × Ptr → Type 0) (t : Tree) (node parent grand : Ptr) (ng np : Node) (c : Color)
    → get t grand ≡ ok ng
    → get t parent ≡ ok np
    → color_of t ng.right ≡ ok c
    → Returns
        (if is_red c
          then recolor t ng.right parent grand
          else if node == np.right
          then (left_rotate t parent >>= λ t1. lift right_rotate t1 parent)
          else lift right_rotate t node)
        Q
    → Returns (insert_round_left t node parent grand) Q
unfolding insert_round_left
insert_round_left-step Q t node parent grand ng np c eg ep ec h =
    Returns-step Q (get t grand) ng _ eg
      (Returns-step Q (get t parent) np _ ep (Returns-step Q (color_of t ng.right) c _ ec h))

insert_round_right-step :
    (Q : Tree × Ptr → Type 0) (t : Tree) (node parent grand : Ptr) (ng np : Node) (c : Color)
    → get t grand ≡ ok ng
    → get t parent ≡ ok np
    → color_of t ng.left ≡ ok c
    → Returns
        (if is_red c
          then recolor t ng.left parent grand
          else if node == np.left
          then (right_rotate t parent >>= λ t1. lift left_rotate t1 parent)
          else lift left_rotate t node)
        Q
    → Returns (insert_round_right t node parent grand) Q
unfolding insert_round_right
insert_round_right-step Q t node parent grand ng np c eg ep ec h =
    Returns-step Q (get t grand) ng _ eg
      (Returns-step Q (get t parent) np _ ep (Returns-step Q (color_of t ng.left) c _ ec h))

module _ (z : Ptr) (es : Entries) (t : Tree) (g kg : ℕ) (way : Way) where
  -- The colour of the uncle decides: recoloured, or as `turn` does.
  uncle_left :
      (l r u : Colored) (p kp m : ℕ) (turn : Run (Tree × Ptr))
      → Zip z t (bin red l p kp r) (in_left black g kg u ∷ way)
      → IsGood l m
      → IsGood r m
      → IsGoodWay (in_left black g kg u ∷ way) m
      → inorder_at (in_left black g kg u ∷ way) (inorder (bin red l p kp r)) ≡ es
      → (top u ≡ black → Returns turn (NextAt z es (suc (length way))))
      → Returns
          (if is_red (top u) then recolor t (addr z u) p g else turn)
          (NextAt z es (suc (length way)))
  uncle_left l r tip p kp m turn v gl gr around same next = next refl
  uncle_left l r (bin black ul u ku ur) p kp m turn v gl gr around same next = next refl
  uncle_left l r (bin red ul u ku ur) p kp m turn v gl gr (gu, w) same next =
      recolor-left-NextAt z es t l r ul ur p g u kp kg ku m way v gl gr gu w same

  uncle_right :
      (l r u : Colored) (p kp m : ℕ) (turn : Run (Tree × Ptr))
      → Zip z t (bin red l p kp r) (in_right black u g kg ∷ way)
      → IsGood l m
      → IsGood r m
      → IsGoodWay (in_right black u g kg ∷ way) m
      → inorder_at (in_right black u g kg ∷ way) (inorder (bin red l p kp r)) ≡ es
      → (top u ≡ black → Returns turn (NextAt z es (suc (length way))))
      → Returns
          (if is_red (top u) then recolor t (addr z u) p g else turn)
          (NextAt z es (suc (length way)))
  uncle_right l r tip p kp m turn v gl gr around same next = next refl
  uncle_right l r (bin black ul u ku ur) p kp m turn v gl gr around same next = next refl
  uncle_right l r (bin red ul u ku ur) p kp m turn v gl gr (gu, w) same next =
      recolor-right-NextAt z es t l r ul ur p g u kp kg ku m way v gl gr gu w same

module _ (z : Ptr) (es : Entries) (t : Tree) (l r : Colored) (n p g k kp kg : ℕ) (s u : Colored)
    (way : Way) where
  -- The node does not stand where the sibling does.
  apart :
      (f : Frame) (up : Way)
      → Zip z t (bin red l n k r) (f ∷ up)
      → (s : Colored) → occ n s ≤ occ_way n (f ∷ up)
      → (n == addr z s) ≡ false
  apart f up v s part = ground (
    arith,
    addr_ne z n s (inner_ne_nil z t red l n k r _ v) (omega (arith, v.once n, hit_self n, part)),
  )

  -- The parent is a left child, and the node is outside or inside.
  pub outer_left :
      RedAt z t es l n k r (in_left red p kp s ∷ in_left black g kg u ∷ way)
      → Returns (insert_round_left t n p g) (NextAt z es (suc (length way)))
  outer_left v =
      let (ep, _, (eg, bu, _)) = v.zip.above in
      let (_, gs, _, around) = v.around in
      insert_round_left-step _ t n p g _ _ (top u) (ap deref eg) (ap deref ep)
        (color_of-addr z t _ _ g u v.zip bu)
        (rw (apart (in_left red p kp s) _ v.zip s (omega arith)) (
          uncle_left z es t g kg way (bin red l n k r) s u p kp v.height (lift right_rotate t n)
            (Zip-up z t _ (in_left red p kp s) _ v.zip) v.good gs around v.same
            (lift-right_rotate-NextAt z es t l r s u n p g k kp kg way v)))

  pub inner_left :
      RedAt z t es l n k r (in_right red s p kp ∷ in_left black g kg u ∷ way)
      → Returns (insert_round_left t n p g) (NextAt z es (suc (length way)))
  inner_left v =
      let (ep, _, (eg, bu, _)) = v.zip.above in
      let (_, gs, _, around) = v.around in
      let inside : (n == n) ≡ true = ground arith in
      insert_round_left-step _ t n p g _ _ (top u) (ap deref eg) (ap deref ep)
        (color_of-addr z t _ _ g u v.zip bu)
        (rw inside (
          uncle_left z es t g kg way s (bin red l n k r) u p kp v.height
            (left_rotate t p >>= λ t1. lift right_rotate t1 p)
            (Zip-up z t _ (in_right red s p kp) _ v.zip) gs v.good around v.same
            λ tu.
              Returns-bind _ (left_rotate t p) _
                (left_rotate-RedAt z es t l r s u n p g k kp kg way v)
                λ t1 v1. lift-right_rotate-NextAt z es t1 s l r u p n g kp k kg way v1 tu))

  -- The parent is a right child.
  pub outer_right :
      RedAt z t es l n k r (in_right red s p kp ∷ in_right black u g kg ∷ way)
      → Returns (insert_round_right t n p g) (NextAt z es (suc (length way)))
  outer_right v =
      let (ep, _, (eg, bu, _)) = v.zip.above in
      let (_, gs, _, around) = v.around in
      insert_round_right-step _ t n p g _ _ (top u) (ap deref eg) (ap deref ep)
        (color_of-addr z t _ _ g u v.zip bu)
        (rw (apart (in_right red s p kp) _ v.zip s (omega arith)) (
          uncle_right z es t g kg way s (bin red l n k r) u p kp v.height (lift left_rotate t n)
            (Zip-up z t _ (in_right red s p kp) _ v.zip) gs v.good around v.same
            (lift-left_rotate-NextAt z es t l r s u n p g k kp kg way v)))

  pub inner_right :
      RedAt z t es l n k r (in_left red p kp s ∷ in_right black u g kg ∷ way)
      → Returns (insert_round_right t n p g) (NextAt z es (suc (length way)))
  inner_right v =
      let (ep, _, (eg, bu, _)) = v.zip.above in
      let (_, gs, _, around) = v.around in
      let inside : (n == n) ≡ true = ground arith in
      insert_round_right-step _ t n p g _ _ (top u) (ap deref eg) (ap deref ep)
        (color_of-addr z t _ _ g u v.zip bu)
        (rw inside (
          uncle_right z es t g kg way (bin red l n k r) s u p kp v.height
            (right_rotate t p >>= λ t1. lift left_rotate t1 p)
            (Zip-up z t _ (in_left red p kp s) _ v.zip) v.good gs around v.same
            λ tu.
              Returns-bind _ (right_rotate t p) _
                (right_rotate-RedAt z es t l r s u n p g k kp kg way v)
                λ t1 v1. lift-left_rotate-NextAt z es t1 r s l u p n g kp k kg way v1 tu))
