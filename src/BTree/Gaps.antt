-- ===== src/BTree/Gaps.antt =====
-- 2_btree/btree.c: the loop of _merge_children that closes the gap in the parent.
use personal_c_cpp_back_end.Base.{
  ℕ, zero, suc, ◌+◌, ◌≤◌, ◌<◌, ◌≡◌, refl, sym, ap, ◌∙◌, subst, List, Returns, Returns-mono, length,
  set, length-set, get_or-set_self, get_or-set_ne, arith, ℕ_discrete,
}
use personal_c_cpp_back_end.BTree.{Ptr, null}
use personal_c_cpp_back_end.BTree.Arrays.{at, read-ok, write-ok}
use personal_c_cpp_back_end.BTree.Delete.{close_gap}

-- `ys` is `xs` with the `n` entries behind the index `i` one place down.
pub record Closed (xs ys : List ℕ) (n i : ℕ) : Type 0 where
  pub same_length : length ys ≡ length xs
  pub below : (m : ℕ) → m < i → at ys m ≡ at xs m
  pub moved : (m : ℕ) → i ≤ m → m < i + n → at ys m ≡ at xs (m + 1)

Closed-step :
    (xs ys : List ℕ) (n i : ℕ)
    → i + 1 < length xs
    → Closed (set xs i (at xs (i + 1))) ys n (i + 1)
    → Closed xs ys (suc n) i
Closed-step xs ys n i room c = record {
  same_length = c.same_length ∙ length-set xs i (at xs (i + 1));
  below = λ m h. c.below m (omega arith) ∙ get_or-set_ne xs i m (at xs (i + 1)) 0 (omega arith);
  moved = λ m h k. elim (ℕ_discrete m i) [
    | yes e ↦ rw e (c.below i (omega arith) ∙ get_or-set_self xs i (at xs (i + 1)) 0 (omega arith))
    | no ne ↦
        c.moved m (omega (arith, h, ne)) (omega (arith, k))
        ∙ get_or-set_ne xs i (m + 1) (at xs (i + 1)) 0 (omega (arith, h))
  ];
}

Closed-none : (xs : List ℕ) (i : ℕ) → Closed xs xs 0 i
Closed-none xs i = record {
  same_length = refl;
  below = λ m h. refl;
  moved = λ m h k. absurd (omega (arith, h, k));
}

-- The loop that closes the gap at the index `i`, when all indices are in range.
pub close_gap-Closed :
    (rounds i : ℕ) (keys : List ℕ) (children : List Ptr)
    → i + rounds < length keys
    → i + rounds + 1 < length children
    → Returns (close_gap rounds i keys children) λ (keys', children').
      Closed keys keys' rounds i
      × (cs : List Ptr) × Closed children cs rounds (i + 1)
      × (children' ≡ set cs (i + rounds + 1) null)
unfolding close_gap
close_gap-Closed zero i keys children a b =
    let e : i + 0 + 1 ≡ i + 1 = omega arith in
    rw (write-ok children (i + 1) null (omega arith), e)
      (Closed-none keys i, children, Closed-none children (i + 1), refl)
close_gap-Closed (suc rounds) i keys children a b =
    let ks = set keys i (at keys (i + 1)) in
    let cs = set children (i + 1) (at children (i + 2)) in
    let next : i + suc rounds + 1 ≡ i + 1 + rounds + 1 = omega arith in
    let two : i + 2 ≡ i + 1 + 1 = omega arith in
    rw
      (
        read-ok keys (i + 1) (omega arith),
        write-ok keys i (at keys (i + 1)) (omega arith),
        read-ok children (i + 2) (omega arith),
        write-ok children (i + 1) (at children (i + 2)) (omega arith),
      )
      (Returns-mono _ (close_gap rounds (i + 1) ks cs)
        (close_gap-Closed rounds (i + 1) ks cs (omega (arith, length-set keys i (at keys (i + 1))))
          (omega (arith, length-set children (i + 1) (at children (i + 2)))))
        λ (ks', cs') (hk, cs1, hc, e). (
          Closed-step keys ks' rounds i (omega arith) hk,
          cs1,
          Closed-step children cs1 rounds (i + 1) (omega arith) (
              subst (λ k. Closed (set children (i + 1) (at children k)) cs1 rounds (i + 1 + 1)) two
                hc),
          e ∙ ap (λ k. set cs1 k null) (sym next),
        ))
