-- ===== src/RbTree/Adjust.antt =====
-- 1_rbtree/rbtree.c: _adjustAfterInsert makes a red-black tree of one with a red node below a red node.
use personal_c_cpp_back_end.Base.{
  ℕ, zero, suc, ◌<◌, ◌≡◌, refl, ap, true, false, [], ◌∷◌, length, ok, deref, Returns, Returns-bind,
  Returns-step, ◌==◌, if◌then◌else◌, arith,
}
use personal_c_cpp_back_end.RbTree.{
  Ptr, red, black, Node, Tree, get, color_of, parent_of, set_color,
}
use personal_c_cpp_back_end.RbTree.Insert.{
  insert_round_left, insert_round_right, adjust_after_insert,
}
use personal_c_cpp_back_end.RbTree.Zipper.{
  Colored, bin, in_left, in_right, Way, hit_self, addr, Zip, Zip-up,
}
use personal_c_cpp_back_end.RbTree.Balance.{Entries}
use personal_c_cpp_back_end.RbTree.Turn.{inner_ne_nil, addr_ne}
use personal_c_cpp_back_end.RbTree.Lift.{parent_of-Zip}
use personal_c_cpp_back_end.RbTree.Repair.{RedAt, NextAt, Done, blacken, finish}
use personal_c_cpp_back_end.RbTree.Round.{outer_left, inner_left, outer_right, inner_right}

-- What the loop does, once it has read the parent and its colour.
stop-step :
    (Q : Tree → Type 0) (fuel : ℕ) (t : Tree) (node p : Ptr)
    → parent_of t node ≡ ok p
    → color_of t p ≡ ok black
    → Returns (set_color t t.root black) Q
    → Returns (adjust_after_insert (suc fuel) t node) Q
unfolding adjust_after_insert
stop-step Q fuel t node p ep ec h =
    Returns-step Q (parent_of t node) p _ ep (Returns-step Q (color_of t p) black _ ec h)

round-step :
    (P : Tree × Ptr → Type 0) (Q : Tree → Type 0) (fuel : ℕ) (t : Tree) (node p g : Ptr) (ng : Node)
    → parent_of t node ≡ ok p
    → color_of t p ≡ ok red
    → parent_of t p ≡ ok g
    → get t g ≡ ok ng
    → Returns
        (if p == ng.left then insert_round_left t node p g else insert_round_right t node p g)
        P
    → ((t' : Tree) (node' : Ptr) → P (t', node') → Returns (adjust_after_insert fuel t' node') Q)
    → Returns (adjust_after_insert (suc fuel) t node) Q
unfolding adjust_after_insert
round-step P Q fuel t node p g ng ep ec eg en h next = Returns-step Q (parent_of t node) p _ ep (
    Returns-step Q (color_of t p) red _ ec (
      Returns-bind Q _ _
        (Returns-step P (parent_of t p) g _ eg (Returns-step P (get t g) ng _ en h))
        λ (t', node') at. next t' node' at))

module _ (z : Ptr) (es : Entries) where
  -- A parent that is a right child is not where the left child of the grandparent is.
  right_parent :
      (t : Tree) (l r u : Colored) (p g kp kg : ℕ) (way : Way)
      → Zip z t (bin red l p kp r) (in_right black u g kg ∷ way)
      → (p == addr z u) ≡ false
  right_parent t l r u p g kp kg way v = ground (
    arith,
    addr_ne z p u (inner_ne_nil z t red l p kp r _ v) (omega (arith, v.once p, hit_self p)),
  )

  pub adjust_after_insert-Done :
      (fuel : ℕ) (t : Tree) (l : Colored) (n k : ℕ) (r : Colored) (way : Way)
      → RedAt z t es l n k r way
      → length way < fuel
      → Returns (adjust_after_insert fuel t n) (Done z es)
  adjust_after_insert-Done zero t l n k r way v enough = absurd (omega arith)
  adjust_after_insert-Done (suc fuel) t l n k r [] v enough =
      let (m, em, black_m) = v.zip.black_nil in
      stop-step _ fuel t n z (parent_of-Zip z t red l n k r [] v.zip) (rw em (ap ok black_m))
        (blacken z t es red l n k r v.height v.zip v.good v.same t.root v.zip.above)
  adjust_after_insert-Done (suc fuel) t l n k r (in_left black p kp s ∷ way) v enough =
      stop-step _ fuel t n p (parent_of-Zip z t red l n k r _ v.zip) (rw v.zip.above.0 refl)
        (finish z t es red l n k r _ v.height v.zip v.good v.around tt v.same)
  adjust_after_insert-Done (suc fuel) t l n k r (in_right black s p kp ∷ way) v enough =
      stop-step _ fuel t n p (parent_of-Zip z t red l n k r _ v.zip) (rw v.zip.above.0 refl)
        (finish z t es red l n k r _ v.height v.zip v.good v.around tt v.same)
  adjust_after_insert-Done (suc fuel) t l n k r (in_left red p kp s ∷ []) v enough =
      absurd v.around.2
  adjust_after_insert-Done (suc fuel) t l n k r (in_left red p kp s ∷ in_left red g kg u ∷ way) v
        enough =
      absurd v.around.2
  adjust_after_insert-Done (suc fuel) t l n k r (in_left red p kp s ∷ in_right red u g kg ∷ way) v
        enough =
      absurd v.around.2
  adjust_after_insert-Done (suc fuel) t l n k r (in_right red s p kp ∷ []) v enough =
      absurd v.around.2
  adjust_after_insert-Done (suc fuel) t l n k r (in_right red s p kp ∷ in_left red g kg u ∷ way) v
        enough =
      absurd v.around.2
  adjust_after_insert-Done (suc fuel) t l n k r (in_right red s p kp ∷ in_right red u g kg ∷ way) v
        enough =
      absurd v.around.2
  adjust_after_insert-Done (suc fuel) t l n k r (in_left red p kp s ∷ in_left black g kg u ∷ way) v
        enough =
      let is_left : (p == p) ≡ true = ground arith in
      round-step (NextAt z es (suc (length way))) _ fuel t n p g _
        (parent_of-Zip z t red l n k r _ v.zip) (rw v.zip.above.0 refl) (rw v.zip.above.0 refl)
        (ap deref v.zip.above.2.0) (rw is_left (outer_left z es t l r n p g k kp kg s u way v))
        λ t' n' next.
          adjust_after_insert-Done fuel t' next.left n' next.key next.right next.way next.at
            (omega (arith, next.near))
  adjust_after_insert-Done (suc fuel) t l n k r (in_right red s p kp ∷ in_left black g kg u ∷ way) v
        enough =
      let is_left : (p == p) ≡ true = ground arith in
      round-step (NextAt z es (suc (length way))) _ fuel t n p g _
        (parent_of-Zip z t red l n k r _ v.zip) (rw v.zip.above.0 refl) (rw v.zip.above.0 refl)
        (ap deref v.zip.above.2.0) (rw is_left (inner_left z es t l r n p g k kp kg s u way v))
        λ t' n' next.
          adjust_after_insert-Done fuel t' next.left n' next.key next.right next.way next.at
            (omega (arith, next.near))
  adjust_after_insert-Done (suc fuel) t l n k r (in_left red p kp s ∷ in_right black u g kg ∷ way) v
        enough =
      let above = Zip-up z t (bin red l n k r) (in_left red p kp s) _ v.zip in
      round-step (NextAt z es (suc (length way))) _ fuel t n p g _
        (parent_of-Zip z t red l n k r _ v.zip) (rw v.zip.above.0 refl) (rw v.zip.above.0 refl)
        (ap deref v.zip.above.2.0)
        (rw (right_parent t (bin red l n k r) s u p g kp kg way above)
          (inner_right z es t l r n p g k kp kg s u way v))
        λ t' n' next.
          adjust_after_insert-Done fuel t' next.left n' next.key next.right next.way next.at
            (omega (arith, next.near))
  adjust_after_insert-Done (suc fuel) t l n k r (in_right red s p kp ∷ in_right black u g kg ∷ way)
        v enough =
      let above = Zip-up z t (bin red l n k r) (in_right red s p kp) _ v.zip in
      round-step (NextAt z es (suc (length way))) _ fuel t n p g _
        (parent_of-Zip z t red l n k r _ v.zip) (rw v.zip.above.0 refl) (rw v.zip.above.0 refl)
        (ap deref v.zip.above.2.0)
        (rw (right_parent t s (bin red l n k r) u p g kp kg way above)
          (outer_right z es t l r n p g k kp kg s u way v))
        λ t' n' next.
          adjust_after_insert-Done fuel t' next.left n' next.key next.right next.way next.at
            (omega (arith, next.near))
