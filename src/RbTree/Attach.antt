-- ===== src/RbTree/Attach.antt =====
-- 1_rbtree/rbtree.c: the writes of RBT_insertNode that put a node at an empty place.
use personal_c_cpp_back_end.Base.{
  ℕ, ◌+◌, ◌≤◌, ◌≡◌, ◌≢◌, refl, sym, ap, ◌∙◌, Bool, true, false, some, [], ◌∷◌, Run, ok, ◌>>=◌,
  deref, Returns, Returns-bind, Returns-step, Returns-assoc, ltb, ◌==◌, if◌then◌else◌, arith,
  Bool-cases, inl, inr,
}
use personal_c_cpp_back_end.RbTree.{
  Ptr, red, Node, Tree, get, set_parent, set_left, set_right, set_root, set_color,
}
use personal_c_cpp_back_end.RbTree.Insert.{adjust_after_insert, attach}
use personal_c_cpp_back_end.RbTree.Zipper.{
  tip, bin, in_left, in_right, Way, hit, hit_self, hit_ne, ne_of_hit, occ_way, addr, parent_addr,
  IsAbove, IsBlackNode, Zip, IsBelow-same, IsAbove-same,
}
use personal_c_cpp_back_end.RbTree.Balance.{Fits}
use personal_c_cpp_back_end.RbTree.Turn.{
  store, put-store, store_self, store_other, ne_of_occ, ne_of_way, Linked, Linked-store,
}

-- The root, and the child of the parent.
abbrev rooted : Tree → (target prev : Ptr) → Tree
rooted t target prev = if prev == t.nil then set_root t target else t

abbrev link : Tree → (key : ℕ) → (target prev : Ptr) → Run Tree
link t key target prev =
    get t prev >>= λ np. if ltb key np.key then set_left t prev target else set_right t prev target

-- What is left for the node itself.
abbrev settle : Tree → Ptr → Run Tree
settle t target =
    (set_left t target t.nil >>= λ t4. set_right t4 target t4.nil) >>= λ t5. set_color t5 target red

get-rooted :
    (t : Tree) (target q : Ptr) (b : Bool) → get (if b then set_root t target else t) q ≡ get t q
get-rooted t target q true = refl
get-rooted t target q false = refl

pub attach-step :
    (P R Q : Tree → Type 0) (fuel : ℕ) (t t1 : Tree) (target prev : Ptr) (n : Node)
    → set_parent t target prev ≡ ok t1
    → get t1 target ≡ ok n
    → Returns (link (rooted t1 target prev) n.key target prev) P
    → ((t3 : Tree) → P t3 → Returns (settle t3 target) R)
    → ((t6 : Tree) → R t6 → Returns (adjust_after_insert fuel t6 target) Q)
    → Returns (attach fuel t target prev) Q
unfolding attach
attach-step P R Q fuel t t1 target prev n ep en h next last =
    let t2 = rooted t1 target prev in
    let adjust : Tree → Run Tree = λ t6. adjust_after_insert fuel t6 target in
    let color : Tree → Run Tree = λ t5. set_color t5 target red in
    let right : Tree → Run Tree = λ t4. set_right t4 target t4.nil in
    let settled : (t3 : Tree)
        → P t3
        → Returns (set_left t3 target t3.nil >>= λ t4. right t4 >>= λ t5. color t5 >>= adjust) Q =
      λ t3 p.
        Returns-assoc Q (set_left t3 target t3.nil) right (λ t5. color t5 >>= adjust)
          (Returns-assoc Q (set_left t3 target t3.nil >>= right) color adjust
            (Returns-bind Q (settle t3 target) adjust (next t3 p) last)) in
    Returns-step Q (set_parent t target prev) t1 _ ep (
      Returns-step Q (get t2 target) n _ (get-rooted t1 target target (prev == t1.nil) ∙ en) (
        Returns-assoc Q (get t2 prev)
          (λ np. if ltb n.key np.key then set_left t2 prev target else set_right t2 prev target)
          (λ t3. set_left t3 target t3.nil >>= λ t4. right t4 >>= λ t5. color t5 >>= adjust)
          (Returns-bind Q (link t2 n.key target prev) _ h settled)))

same_of_test : (q p : Ptr) → (q == p) ≡ true → q ≡ p
same_of_test q p e = ground (arith, e)

module _ (z target : Ptr) (key : ℕ) where
  -- The parent of the place gets the node as its child; an empty tree has it as its root.
  link-Linked :
      (way : Way) (t : Tree)
      → t.nil ≡ z
      → IsBlackNode t z
      → IsAbove z t way z
      → ((q : Ptr) → occ_way q way ≤ 1)
      → occ_way z way ≡ 0
      → Fits key way
      → Returns
          (link (rooted t target (parent_addr z way)) key target (parent_addr z way))
          (Linked z t way target)
  link-Linked [] t nil (m, em, bm) above once no_nil fits =
      let test : (z == t.nil) ≡ true = ground (arith, nil) in
      rw (test, em)
        (elim (Bool-cases (ltb key m.key)) [
          | inl lt ↦
              rw lt (nil, refl, (λ q out ne. store_other t z _ q ne), (_, store_self t z _, bm))
          | inr ge ↦
              rw ge (nil, refl, (λ q out ne. store_other t z _ q ne), (_, store_self t z _, bm))
        ])
  link-Linked (in_left c p k r ∷ up) t nil bn (e, b, v) once no_nil (lt, fits) =
      let inner : (p == t.nil) ≡ false =
        ground (arith, nil, ne_of_hit z p (omega (arith, no_nil))) in
      let left : ltb key k ≡ true = ground (arith, lt) in
      let n' : Node = record {
        parent = parent_addr z up;
        left = target;
        right = addr z r;
        color = c;
        key = k;
      } in
      let self = hit_self p in
      rw (inner, e, left)
        (Linked-store z t p n' (in_left c p k r) up nil bn no_nil (omega (arith, self)) target (
          store_self t p n',
          IsBelow-same z t (store t p n') p r
              (λ q h. store_other t p n' q (ne_of_occ q p r h (omega (arith, once p, self)))) b,
          IsAbove-same z t (store t p n') up p refl
              (λ q h. store_other t p n' q (ne_of_way q p up h (omega (arith, once p, self)))) v,
        ))
  link-Linked (in_right c l p k ∷ up) t nil bn (e, b, v) once no_nil (gt, fits) =
      let inner : (p == t.nil) ≡ false =
        ground (arith, nil, ne_of_hit z p (omega (arith, no_nil))) in
      let right : ltb key k ≡ false = ground (arith, gt) in
      let n' : Node = record {
        parent = parent_addr z up;
        left = addr z l;
        right = target;
        color = c;
        key = k;
      } in
      let self = hit_self p in
      rw (inner, e, right)
        (Linked-store z t p n' (in_right c l p k) up nil bn no_nil (omega (arith, self)) target (
          store_self t p n',
          IsBelow-same z t (store t p n') p l
              (λ q h. store_other t p n' q (ne_of_occ q p l h (omega (arith, once p, self)))) b,
          IsAbove-same z t (store t p n') up p refl
              (λ q h. store_other t p n' q (ne_of_way q p up h (omega (arith, once p, self)))) v,
        ))

  -- The node between two sentinels, red, at the place.
  settle-Zip :
      (way : Way) (t t3 : Tree) (n : Node)
      → Zip z t tip way
      → target ≢ z
      → occ_way target way ≡ 0
      → t.node target ≡ some n
      → n.parent ≡ parent_addr z way
      → n.key ≡ key
      → Linked z t way target t3
      → Returns (settle t3 target) λ t6. Zip z t6 (bin red tip target key tip) way
  settle-Zip way t t3 n v ne out en same_parent same_key (nil3, above3, same3, (m, em, bm)) =
      let n1 : Node = record n { left = t3.nil } in
      let n2 : Node = record n1 { right = t3.nil } in
      let n3 : Node = record n2 { color = red } in
      let t4 = store t3 target n1 in
      let t5 = store t4 target n2 in
      let t6 = store t5 target n3 in
      let hs = hit_self target in
      let others : (q : Ptr) → q ≢ target → t6.node q ≡ t3.node q = λ q nq.
        store_other t5 target n3 q nq
        ∙ store_other t4 target n2 q nq
        ∙ store_other t3 target n1 q nq in
      let end_ : n3
          ≡ record { parent = parent_addr z way; left = z; right = z; color = red; key = key } =
        rw (← same_parent, ← same_key, ← nil3) refl in
      let at_target : (q : Ptr) → q ≡ target → hit q target + occ_way q way ≤ 1 =
        λ q e. rw e (omega (arith, hs, out)) in
      rw
        (
          put-store t3 target n (λ n. record n { left = t3.nil }) (same3 target out ne ∙ en),
          put-store t4 target n1 (λ n. record n { right = t3.nil }) (store_self t3 target n1),
          put-store t5 target n2 (λ n. record n { color = red }) (store_self t4 target n2),
        )
        record {
          sentinel = nil3;
          black_nil = (m, others z (λ e. ne (sym e)) ∙ em, bm);
          below = (store_self t5 target n3 ∙ ap some end_, tt, tt);
          above =
              IsAbove-same z t3 t6 way target refl (λ q h. others q (ne_of_way q target way h out))
                above3;
          once = λ q. elim (Bool-cases (q == target)) [
            | inl e ↦ omega (arith, at_target q (same_of_test q target e))
            | inr e ↦ omega (arith, v.once q, hit_ne q target (ground (arith, e)))
          ];
          no_nil = omega (arith, v.no_nil, hit_ne z target (λ e. ne (sym e)));
        }

-- RBT_insertNode from the insertion on, up to the repair.
pub attach-Zip :
    (z target : Ptr) (Q : Tree → Type 0) (fuel : ℕ) (t : Tree) (n : Node) (way : Way)
    → Zip z t tip way
    → target ≢ z
    → occ_way target way ≡ 0
    → t.node target ≡ some n
    → Fits n.key way
    → ((t6 : Tree)
        → Zip z t6 (bin red tip target n.key tip) way
        → Returns (adjust_after_insert fuel t6 target) Q)
    → Returns (attach fuel t target (parent_addr z way)) Q
attach-Zip z target Q fuel t n way v ne out en fits next =
    let n1 : Node = record n { parent = parent_addr z way } in
    let t1 = store t target n1 in
    let (m, em, bm) = v.black_nil in
    let other : (q : Ptr) → q ≢ target → t1.node q ≡ t.node q = store_other t target n1 in
    let v1 : Zip z t1 tip way = record {
      sentinel = v.sentinel;
      black_nil = (m, other z (λ e. ne (sym e)) ∙ em, bm);
      below = tt;
      above =
          IsAbove-same z t t1 way z refl (λ q h. other q (ne_of_way q target way h out)) v.above;
      once = v.once;
      no_nil = v.no_nil;
    } in
    attach-step (Linked z t1 way target) (λ t6. Zip z t6 (bin red tip target n.key tip) way) Q fuel
      t t1 target (parent_addr z way) n1
      (put-store t target n (λ n. record n { parent = parent_addr z way }) en)
      (ap deref (store_self t target n1))
      (link-Linked z target n.key way t1 v1.sentinel v1.black_nil v1.above
        (λ q. omega (arith, v.once q)) (omega (arith, v.no_nil)) fits)
      (λ t3 linked.
        settle-Zip z target n.key way t1 t3 n1 v1 ne out (store_self t target n1) refl refl linked)
      next
