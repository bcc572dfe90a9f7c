-- ===== src/LinkedList/Crossings.antt =====
-- 0_kmp_and_linkedlist/linkedTest.cpp: where two lists cross, and the nodes counted from the end.
use personal_c_cpp_back_end.Base.{
  ℕ, zero, suc, ◌+◌, ◌-◌, ◌≤◌, ◌<◌, ◌≡◌, refl, sym, ap, ◌∙◌, true, false, List, [], ◌∷◌, ◌++◌, ok,
  length, length-append, drop, get_or, get_or_past, ltb, ◌==◌, if◌then◌else◌, arith, dec_lt,
}
use personal_c_cpp_back_end.LinkedList.{
  Ptr, null, Heap, count_list_node_num, meet, is_list_crossed, trail, rfind_node_no,
}
use personal_c_cpp_back_end.LinkedList.Chain.{
  Chain, head_of, count_from-Chain, get_nth_node-Chain, not_null, NotIn, Apart,
}

length-drop : (n : ℕ) (ps : List Ptr) → length (drop n ps) ≡ length ps - n
length-drop zero ps = omega arith
length-drop (suc n) [] = omega arith
length-drop (suc n) (x ∷ xs) = omega (arith, length-drop n xs)

drop-append : (n : ℕ) (ps cs : List Ptr) → n ≤ length ps → drop n (ps ++ cs) ≡ drop n ps ++ cs
drop-append zero ps cs le = refl
drop-append (suc n) [] cs le = absurd (omega arith)
drop-append (suc n) (x ∷ xs) cs le = drop-append n xs cs (omega arith)

NotIn-drop : (n : ℕ) (x : Ptr) (ps : List Ptr) → NotIn x ps → NotIn x (drop n ps)
NotIn-drop zero x ps out = out
NotIn-drop (suc n) x [] out = tt
NotIn-drop (suc n) x (y ∷ ys) out = NotIn-drop n x ys out.1

Apart-drop : (n : ℕ) (ps qs : List Ptr) → Apart ps qs → Apart (drop n ps) qs
Apart-drop zero ps qs a = a
Apart-drop (suc n) [] qs a = tt
Apart-drop (suc n) (x ∷ xs) qs a = Apart-drop n xs qs a.1

Apart-drop_right : (n : ℕ) (ps qs : List Ptr) → Apart ps qs → Apart ps (drop n qs)
Apart-drop_right n [] qs a = tt
Apart-drop_right n (x ∷ xs) qs (out, a) = (NotIn-drop n x qs out, Apart-drop_right n xs qs a)

-- Two lists that are equally far from where they meet.
meet-Chain :
    (fuel : ℕ) (h : Heap) (p q : Ptr) (ps qs cs : List Ptr)
    → Chain h p (ps ++ cs)
    → Chain h q (qs ++ cs)
    → length ps ≡ length qs
    → Apart ps qs
    → length ps + length cs < fuel
    → meet fuel h p q ≡ ok (head_of cs)
unfolding meet
meet-Chain zero h p q ps qs cs c d same apart enough = absurd (omega arith)
meet-Chain (suc fuel) h p q [] [] [] c d same apart enough = rw c refl
meet-Chain (suc fuel) h p q [] [] (x ∷ xs) c d same apart enough =
    let test : (x == x) ≡ true = ground arith in rw (c.0, d.0, not_null x c.1, test) refl
meet-Chain (suc fuel) h p q [] (y ∷ ys) cs c d same apart enough = absurd (omega arith)
meet-Chain (suc fuel) h p q (x ∷ xs) [] cs c d same apart enough = absurd (omega arith)
meet-Chain (suc fuel) h p q (x ∷ xs) (y ∷ ys) cs (e, nx, n, ex, c) (e', ny, m, ey, d) same
      (out, apart) enough =
    let test : (x == y) ≡ false = ground (arith, out.0) in
    rw (e, e', not_null x nx, not_null y ny, test, ex, ey)
      (meet-Chain fuel h n.next m.next xs ys cs c d (omega arith) (Apart-tail xs y ys apart)
        (omega arith))
  where
    Apart-tail : (zs : List Ptr) (z : Ptr) (rest : List Ptr) → Apart zs (z ∷ rest) → Apart zs rest
    Apart-tail [] z rest a = tt
    Apart-tail (w ∷ ws) z rest (o, a) = (o.1, Apart-tail ws z rest a)

-- Lists with the nodes `ps` and `qs` of their own, and then the nodes `cs`: the first of `cs` is
-- returned, and null if there is none.
pub is_list_crossed-first :
    (fuel : ℕ) (h : Heap) (p q : Ptr) (ps qs cs : List Ptr)
    → Chain h p (ps ++ cs)
    → Chain h q (qs ++ cs)
    → Apart ps qs
    → length ps + length cs < fuel
    → length qs + length cs < fuel
    → is_list_crossed fuel h p q ≡ ok (head_of cs)
unfolding is_list_crossed count_list_node_num
is_list_crossed-first fuel h p q ps qs cs c d apart enough_p enough_q =
    let size_p = length-append ps cs in
    let size_q = length-append qs cs in
    let count_p = count_from-Chain fuel 0 h p (ps ++ cs) c (omega (arith, size_p)) in
    let count_q = count_from-Chain fuel 0 h q (qs ++ cs) d (omega (arith, size_q)) in
    let num_p : 0 + length (ps ++ cs) ≡ length ps + length cs = omega (arith, size_p) in
    let num_q : 0 + length (qs ++ cs) ≡ length qs + length cs = omega (arith, size_q) in
    elim (dec_lt (length qs) (length ps)) [
      | yes longer ↦
          let k = length ps + length cs - (length qs + length cs) in
          let test : ltb (length qs + length cs) (length ps + length cs) ≡ true = ground arith in
          let (p', e, c') = get_nth_node-Chain h p (ps ++ cs) k c in
          rw (count_p, count_q, num_p, num_q, test, e)
            (meet-Chain fuel h p' q (drop k ps) qs cs (rw⁻¹ (drop-append k ps cs (omega arith)) c')
              d (omega (arith, length-drop k ps)) (Apart-drop k ps qs apart)
              (omega (arith, length-drop k ps)))
      | no shorter ↦
          let k = length qs + length cs - (length ps + length cs) in
          let test : ltb (length qs + length cs) (length ps + length cs) ≡ false = ground arith in
          let (q', e, d') = get_nth_node-Chain h q (qs ++ cs) k d in
          rw (count_p, count_q, num_p, num_q, test, e)
            (meet-Chain fuel h p q' ps (drop k qs) cs c
              (rw⁻¹ (drop-append k qs cs (omega arith)) d')
              (omega (arith, length-drop k qs, shorter)) (Apart-drop_right k ps qs apart)
              (omega arith))
    ]

trail-Chain :
    (fuel : ℕ) (h : Heap) (tail p t : Ptr) (ts ps : List Ptr)
    → Chain h tail (t ∷ ts)
    → Chain h p ps
    → length ts < length ps
    → length ts < fuel
    → trail fuel h tail p ≡ ok (get_or ps (length ts) null)
unfolding trail
trail-Chain zero h tail p t ts ps c d le enough = absurd (omega arith)
trail-Chain (suc fuel) h tail p t ts [] c d le enough = absurd (omega arith)
trail-Chain (suc fuel) h tail p t [] (x ∷ xs) (e, nt, n, et, c) d le enough =
    rw (e, et, c, d.0) refl
trail-Chain (suc fuel) h tail p t (u ∷ us) (x ∷ xs) (e, nt, n, et, c) (e', nx, m, ex, d) le enough =
    let test = ap (λ r. r == null) c.0 ∙ not_null u c.1 in
    rw (e, et, test, e', ex)
      (trail-Chain fuel h n.next m.next u us xs c d (omega arith) (omega arith))

-- What rfindNodeNo does behind the call of getNthNode.
tail-Chain :
    (fuel : ℕ) (h : Heap) (tail p : Ptr) (ts ps : List Ptr)
    → Chain h tail ts
    → Chain h p ps
    → length ts ≤ length ps
    → length ps < fuel
    → (0 < length ts
        → (if tail == null then ok null else trail fuel h tail p)
          ≡ ok (get_or ps (length ts - 1) null))
      × (length ts ≡ 0 → (if tail == null then ok null else trail fuel h tail p) ≡ ok null)
tail-Chain fuel h tail p [] ps c d le enough =
    ((λ more. absurd (omega (arith, more))), (λ e. rw c refl))
tail-Chain fuel h tail p (t ∷ ts) ps c d le enough =
    let index : suc (length ts) - 1 ≡ length ts = omega arith in
    let test = ap (λ r. r == null) c.0 ∙ not_null t c.1 in
    (
      (λ more.
          rw (test, index) (trail-Chain fuel h tail p t ts ps c d (omega arith) (omega arith))),
      (λ e. absurd (omega (arith, e))),
    )

rfind_node_no-cases :
    (fuel : ℕ) (h : Heap) (p : Ptr) (ps : List Ptr) (k : ℕ)
    → Chain h p ps
    → length ps < fuel
    → (k ≤ length ps → rfind_node_no fuel h p k ≡ ok (get_or ps (length ps - k) null))
      × (length ps < k → rfind_node_no fuel h p k ≡ ok null)
unfolding rfind_node_no
rfind_node_no-cases fuel h p ps zero c enough =
    ((λ le. ap ok (sym (get_or_past ps (length ps - 0) null (omega arith)))), λ lt. refl)
rfind_node_no-cases fuel h p ps (suc k) c enough =
    let (tail, e, d) = get_nth_node-Chain h p ps k c in
    let size = length-drop k ps in
    let ends = tail-Chain fuel h tail p (drop k ps) ps d c (omega (arith, size)) enough in
    (
      (λ le.
          let index : length (drop k ps) - 1 ≡ length ps - suc k = omega (arith, size) in
          rw (e, ← index) (ends.0 (omega (arith, size, le)))),
      λ lt. rw e (ends.1 (omega (arith, size, lt))),
    )

-- In a list that ends, with one round more than it has nodes: the k-th node from its end, and null when
-- the list is shorter or k is 0.
pub rfind_node_no-from_end :
    (fuel : ℕ) (h : Heap) (p : Ptr) (ps : List Ptr) (k : ℕ)
    → Chain h p ps
    → length ps < fuel
    → rfind_node_no fuel h p k
      ≡ ok (if ltb (length ps) k then null else get_or ps (length ps - k) null)
rfind_node_no-from_end fuel h p ps k c enough = elim (dec_lt (length ps) k) [
  | yes short ↦
      let test : ltb (length ps) k ≡ true = ground arith in
      rw test ((rfind_node_no-cases fuel h p ps k c enough).1 short)
  | no long ↦
      let test : ltb (length ps) k ≡ false = ground arith in
      rw test ((rfind_node_no-cases fuel h p ps k c enough).0 (omega (arith, long)))
]
