-- ===== src/RbTree/TurnLeft.antt =====
-- 1_rbtree/rbtree.c: the left rotation at a place of the tree.
use personal_c_cpp_back_end.Base.{
  ℕ, ◌+◌, ◌≤◌, ◌<◌, ◌≡◌, ◌≢◌, refl, sym, ap, ◌∙◌, true, false, some, [], ◌∷◌, Returns, Returns-mono,
  Returns-bind, ◌==◌, arith,
}
use personal_c_cpp_back_end.RbTree.{Ptr, Color, Node, Tree}
use personal_c_cpp_back_end.RbTree.Rotate.{replace_child, left_rotate}
use personal_c_cpp_back_end.RbTree.Zipper.{
  Colored, bin, in_left, in_right, Way, hit, hit_self, ne_of_hit, occ, occ_way, addr, parent_addr,
  IsBelow, IsAbove, IsBlackNode, Zip, IsBelow-same, IsAbove-same,
}
use personal_c_cpp_back_end.RbTree.Turn.{
  store, put-store, store_self, store_other, ne_of_occ, ne_of_way, inner_ne_nil, addr_ne, Linked,
  Linked-store, adopt, adopt-IsBelow,
}

pub replace_child-Linked :
    (z : Ptr) (t : Tree) (way : Way) (x y : Ptr)
    → t.nil ≡ z
    → IsBlackNode t z
    → IsAbove z t way x
    → x ≢ z
    → ((q : Ptr) → occ_way q way ≤ 1)
    → occ_way x way ≡ 0
    → occ_way z way ≡ 0
    → Returns (replace_child t (parent_addr z way) x y) (Linked z t way y)
unfolding replace_child
replace_child-Linked z t [] x y nil bn above ne once out no_nil =
    let test : (z == t.nil) ≡ true = ground (arith, nil) in
    rw test (nil, refl, (λ q o nq. refl), bn)
replace_child-Linked z t (in_left c p k r ∷ up) x y nil bn (e, b, v) ne once out no_nil =
    let inner : (p == t.nil) ≡ false = ground (arith, nil, ne_of_hit z p (omega (arith, no_nil))) in
    let left : (x == x) ≡ true = ground arith in
    let n' : Node = record {
      parent = parent_addr z up;
      left = y;
      right = addr z r;
      color = c;
      key = k;
    } in
    let self = hit_self p in
    rw (inner, e, left)
      (Linked-store z t p n' (in_left c p k r) up nil bn no_nil (omega (arith, self)) y (
        store_self t p n',
        IsBelow-same z t (store t p n') p r
            (λ q h. store_other t p n' q (ne_of_occ q p r h (omega (arith, once p, self)))) b,
        IsAbove-same z t (store t p n') up p refl
            (λ q h. store_other t p n' q (ne_of_way q p up h (omega (arith, once p, self)))) v,
      ))
replace_child-Linked z t (in_right c l p k ∷ up) x y nil bn (e, b, v) ne once out no_nil =
    let inner : (p == t.nil) ≡ false = ground (arith, nil, ne_of_hit z p (omega (arith, no_nil))) in
    let right : (x == addr z l) ≡ false = ground (arith, addr_ne z x l ne (omega (arith, out))) in
    let n' : Node = record {
      parent = parent_addr z up;
      left = addr z l;
      right = y;
      color = c;
      key = k;
    } in
    let self = hit_self p in
    rw (inner, e, right)
      (Linked-store z t p n' (in_right c l p k) up nil bn no_nil (omega (arith, self)) y (
        store_self t p n',
        IsBelow-same z t (store t p n') p l
            (λ q h. store_other t p n' q (ne_of_occ q p l h (omega (arith, once p, self)))) b,
        IsAbove-same z t (store t p n') up p refl
            (λ q h. store_other t p n' q (ne_of_way q p up h (omega (arith, once p, self)))) v,
      ))

module _ (z : Ptr) (t : Tree) (cx cy : Color) (a b c : Colored) (x y kx ky : ℕ) (way : Way)
    (v : Zip z t (bin cx a x kx (bin cy b y ky c)) way) where
  -- The nodes of the rotated tree, when the nodes that are no part of the rotation are as before.
  turned_left :
      (t1 t' : Tree)
      → Linked z t way y t1
      → t'.nil ≡ z
      → t'.root ≡ t1.root
      → t'.node x
        ≡ some (record { parent = y; left = addr z a; right = addr z b; color = cx; key = kx })
      → t'.node y
        ≡ some (record {
          parent = parent_addr z way;
          left = x;
          right = addr z c;
          color = cy;
          key = ky;
        })
      → ((q : Ptr) → q ≢ x → q ≢ y → occ q b ≡ 0 → t'.node q ≡ t1.node q)
      → IsBelow z t' x b
      → Zip z t' (bin cy (bin cx a x kx b) y ky c) way
  turned_left t1 t' (nil1, above1, same1, (m, em, bm)) nil root ex ey same bb =
      let one_x = v.once x in
      let one_y = v.once y in
      let hx = hit_self x in
      let hy = hit_self y in
      let kept : (q : Ptr)
          → hit q x ≡ 0
          → hit q y ≡ 0
          → occ q b ≡ 0
          → occ_way q way ≡ 0
          → q ≢ z
          → t'.node q ≡ t.node q =
        λ q qx qy qb qw qz. same q (ne_of_hit q x qx) (ne_of_hit q y qy) qb ∙ same1 q qw qz in
      let real : (q : Ptr) → 0 < occ q a + occ q c → q ≢ z =
        λ q h e. absurd (omega (arith, v.no_nil, h, ap (λ r. occ r a) e, ap (λ r. occ r c) e)) in
      record {
        sentinel = nil;
        black_nil = (
          m,
          same z (ne_of_hit z x (omega (arith, v.no_nil))) (ne_of_hit z y (omega (arith, v.no_nil)))
                (omega (arith, v.no_nil))
              ∙ em,
          bm,
        );
        below = (
          ey,
          (
            ex,
            IsBelow-same z t t' x a
                (λ q h.
                  kept q (omega (arith, v.once q)) (omega (arith, v.once q))
                    (omega (arith, v.once q)) (omega (arith, v.once q)) (real q (omega arith)))
                v.below.1,
            bb,
          ),
          IsBelow-same z t t' y c
              (λ q h.
                kept q (omega (arith, v.once q)) (omega (arith, v.once q)) (omega (arith, v.once q))
                  (omega (arith, v.once q)) (real q (omega arith)))
              v.below.2.2,
        );
        above =
            IsAbove-same z t1 t' way y root
              (λ q h.
                same q (ne_of_hit q x (omega (arith, v.once q)))
                  (ne_of_hit q y (omega (arith, v.once q))) (omega (arith, v.once q)))
              above1;
        once = λ q. omega (arith, v.once q);
        no_nil = omega (arith, v.no_nil);
      }

  turn_facts : (x ≢ y) × (x ≢ z) × (y ≢ z) × (occ_way x way ≡ 0) × (occ_way y way ≡ 0)
  turn_facts =
      let hx = hit_self x in
      let hy = hit_self y in
      (
        ne_of_hit x y (omega (arith, v.once x)),
        inner_ne_nil z t cx a x kx (bin cy b y ky c) way v,
        (λ e. absurd (omega (arith, v.no_nil, ap (λ q. hit q y) e, hy))),
        omega (arith, v.once x),
        omega (arith, v.once y),
      )

-- A left rotation at a place: the nodes keep their colours, keys and order.
pub left_rotate-Zip :
    (z : Ptr) (t : Tree) (cx cy : Color) (a b c : Colored) (x y kx ky : ℕ) (way : Way)
    → Zip z t (bin cx a x kx (bin cy b y ky c)) way
    → Returns (left_rotate t x) λ t'. Zip z t' (bin cy (bin cx a x kx b) y ky c) way
unfolding left_rotate
left_rotate-Zip z t cx cy a b c x y kx ky way v =
    let (ex, ba, (ey, bb, bc)) = v.below in
    let (xy, xz, yz, x_way, y_way) = turn_facts z t cx cy a b c x y kx ky way v in
    let test : (t.nil == y) ≡ false = ground (arith, v.sentinel, yz) in
    rw (ex, test, ey)
      (Returns-bind _ (replace_child t (parent_addr z way) x y) _
        (replace_child-Linked z t way x y v.sentinel v.black_nil v.above xz
          (λ q. omega (arith, v.once q)) x_way (omega (arith, v.no_nil)))
        λ t1 linked.
          let (nil1, above1, same1, bn1) = linked in
          let ex1 = same1 x x_way xz ∙ ex in
          let ey1 = same1 y y_way yz ∙ ey in
          let y1 : Node = record {
            parent = parent_addr z way;
            left = addr z b;
            right = addr z c;
            color = cy;
            key = ky;
          } in
          let y2 : Node = record {
            parent = parent_addr z way;
            left = x;
            right = addr z c;
            color = cy;
            key = ky;
          } in
          let x1 : Node = record { parent = y; left = addr z a; right = y; color = cx; key = kx } in
          let x2 : Node = record {
            parent = y;
            left = addr z a;
            right = addr z b;
            color = cx;
            key = kx;
          } in
          let t2 = store t1 y y1 in
          let t3 = store t2 y y2 in
          let t4 = store t3 x x1 in
          let t5 = store t4 x x2 in
          let ex3 = store_other t2 y y2 x xy ∙ store_other t1 y y1 x xy ∙ ex1 in
          let others : (q : Ptr) → q ≢ x → q ≢ y → t5.node q ≡ t1.node q = λ q qx qy.
            store_other t4 x x2 q qx
            ∙ store_other t3 x x1 q qx
            ∙ store_other t2 y y2 q qy
            ∙ store_other t1 y y1 q qy in
          rw
            (
              put-store t1 y _ (λ n. record n { parent = parent_addr z way }) ey1,
              put-store t2 y _ (λ n. record n { left = x }) (store_self t1 y y1),
              put-store t3 x _ (λ n. record n { parent = y }) ex3,
              put-store t4 x _ (λ n. record n { right = addr z b }) (store_self t3 x x1),
            )
            (Returns-mono _ (adopt t5 (addr z b) x)
              (adopt-IsBelow z t t5 x y b nil1
                (λ q h.
                  others q (ne_of_hit q x (omega (arith, v.once q)))
                    (ne_of_hit q y (omega (arith, v.once q)))
                  ∙ same1 q (omega (arith, v.once q))
                      (λ e. absurd (omega (arith, v.no_nil, h, ap (λ r. occ r b) e))))
                bb (omega (arith, v.no_nil)) (λ q. omega (arith, v.once q)))
              λ t' (nil', root', same', bb').
                turned_left z t cx cy a b c x y kx ky way v t1 t' linked nil' root'
                  (same' x (omega (arith, v.once x, hit_self x)) ∙ store_self t4 x x2)
                  (same' y (omega (arith, v.once y, hit_self y))
                    ∙ store_other t4 x x2 y (λ e. xy (sym e))
                    ∙ store_other t3 x x1 y (λ e. xy (sym e))
                    ∙ store_self t2 y y2)
                  (λ q qx qy qb. same' q qb ∙ others q qx qy) bb'))
