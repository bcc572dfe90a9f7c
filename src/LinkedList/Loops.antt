-- ===== src/LinkedList/Loops.antt =====
-- 0_kmp_and_linkedlist/linkedTest.cpp: isListLooped ends, and tells lists with a loop from those that end.
use personal_c_cpp_back_end.Base.{
  ℕ, zero, suc, ◌+◌, ◌-◌, ◌≤◌, ◌<◌, ◌≡◌, ◌≢◌, refl, sym, ap, ◌∙◌, Bool, true, false, none, some,
  Option, List, [], ◌∷◌, ok, ◌>>=◌, deref, subst, length, ◌==◌, if◌then◌else◌, arith, dec_lt,
  Bool-cases, inl, inr,
}
use personal_c_cpp_back_end.LinkedList.{Ptr, null, LinkNode, Heap, next_of, race, is_list_looped}
use personal_c_cpp_back_end.LinkedList.Chain.{Chain, Chain-unique, not_null}

-- The node that is `n` steps behind `p`.
abbrev link_of : Option LinkNode → Ptr
link_of none = null
link_of (some n) = n.next

abbrev step : Heap → Ptr → Ptr
step h q = link_of (h q)

abbrev pub after : Heap → Ptr → ℕ → Ptr
after h p zero = p
after h p (suc n) = step h (after h p n)

abbrev pub Alive : Heap → Ptr → Type 0
Alive h q = (q ≢ null) × (n : LinkNode) × (h q ≡ some n)

-- `tail` nodes, and then `size` nodes the last of which leads back to the first of them.
pub record Lasso (h : Heap) (p : Ptr) (tail size : ℕ) : Type 0 where
  pub some_loop : 0 < size
  pub alive : (n : ℕ) → n < tail + size → Alive h (after h p n)
  pub back : after h p (tail + size) ≡ after h p tail

-- How far `k` times around a loop leads.
abbrev laps : (size : ℕ) → ℕ → ℕ
laps size zero = 0
laps size (suc k) = laps size k + size

module _ (h : Heap) (p : Ptr) (tail size : ℕ) (l : Lasso h p tail size) where
  round : (d m k : ℕ) → m ≡ tail + d + size → k ≡ tail + d → after h p m ≡ after h p k
  round zero m k em ek =
      ap (after h p) (em ∙ omega arith) ∙ l.back ∙ ap (after h p) (sym (ek ∙ omega arith))
  round (suc d) m k em ek =
      let em' : m ≡ suc (tail + d + size) = omega arith in
      let ek' : k ≡ suc (tail + d) = omega arith in
      ap (after h p) em'
      ∙ ap (step h) (round d (tail + d + size) (tail + d) refl refl)
      ∙ ap (after h p) (sym ek')

  always : (b n : ℕ) → n < b → Alive h (after h p n)
  always zero n lt = absurd (omega arith)
  always (suc b) n lt = elim (dec_lt n (tail + size)) [
    | yes early ↦ l.alive n early
    | no late ↦
        let e = round (n - size - tail) n (n - size) (omega (arith, late)) (omega (arith, late)) in
        rw e (always b (n - size) (omega (arith, late, l.some_loop)))
  ]

  around : (k n : ℕ) → tail ≤ n → after h p (n + laps size k) ≡ after h p n
  around zero n le = ap (after h p) (omega arith)
  around (suc k) n le =
      round (n + laps size k - tail) (n + (laps size k + size)) (n + laps size k)
        (omega (arith, le)) (omega (arith, le))
      ∙ around k n le

  -- Behind the tail, and before the loop is over, the number of steps that is one less than a number of
  -- times around it.
  meeting : (n : ℕ) → (k : ℕ) × (n ≤ laps size k) × (laps size k < n + size)
  meeting zero = (0, omega arith, omega (arith, l.some_loop))
  meeting (suc n) =
      let (k, low, high) = meeting n in
      elim (dec_lt n (laps size k)) [
        | yes more ↦ (k, omega (arith, more), omega (arith, high))
        | no same ↦ (suc k, omega (arith, low, l.some_loop), omega (arith, same))
      ]

  next_of-after : (n : ℕ) → next_of h (after h p n) ≡ ok (after h p (suc n))
  next_of-after n =
      let (ne, node, e) = always (suc n) n (omega arith) in
      ap (λ o. deref o >>= λ m. ok m.next) e ∙ ap (λ o. ok (link_of o)) (sym e)

  is_node : (n : ℕ) → (after h p n == null) ≡ false
  is_node n = not_null (after h p n) (always (suc n) n (omega arith)).0

  race-Lasso :
      (fuel i j : ℕ)
      → i ≤ j
      → j < i + fuel
      → after h p j ≡ after h p (suc (j + j))
      → race fuel h (after h p i) (after h p (suc (i + i))) ≡ ok true
  unfolding race
  race-Lasso zero i j le lt meets = absurd (omega arith)
  race-Lasso (suc fuel) i j le lt meets =
      let twice : suc (suc i + suc i) ≡ suc (suc (suc (i + i))) = omega arith in
      elim (Bool-cases (after h p i == after h p (suc (i + i)))) [
        | inl same ↦ rw (is_node i, is_node (suc (i + i)), same) refl
        | inr other ↦
            let early : i ≢ j = λ e.
              let met : after h p i ≡ after h p (suc (i + i)) = rw e meets in
              let test : (after h p i == after h p (suc (i + i))) ≡ true = ground (arith, met) in
              cc in
            rw
              (
                is_node i,
                is_node (suc (i + i)),
                other,
                next_of-after i,
                next_of-after (suc (i + i)),
                is_node (suc (suc (i + i))),
                next_of-after (suc (suc (i + i))),
              )
              (subst (λ k. race fuel h (after h p (suc i)) (after h p k) ≡ ok true) twice
                (race-Lasso fuel (suc i) j (omega (arith, early)) (omega arith) meets))
      ]

  looped-Lasso : (fuel : ℕ) → tail + size ≤ fuel → is_list_looped fuel h p ≡ ok true
  unfolding is_list_looped
  looped-Lasso fuel enough =
      let (k, low, high) = meeting (suc tail) in
      let j = laps size k - 1 in
      let index : suc (j + j) ≡ j + laps size k = omega (arith, low) in
      let meets = sym (ap (after h p) index ∙ around k j (omega (arith, low))) in
      rw (is_node 0, next_of-after 0)
        (race-Lasso fuel 0 j (omega arith) (omega (arith, low, high)) meets)

-- On a list that ends, the fast pointer gets to the end first.
race-Chain :
    (fuel : ℕ) (h : Heap) (slow fast : Ptr) (ss fs : List Ptr)
    → Chain h slow ss
    → Chain h fast fs
    → length fs < length ss
    → length fs < fuel
    → race fuel h slow fast ≡ ok false
unfolding race
race-Chain zero h slow fast ss fs c d less enough = absurd (omega arith)
race-Chain (suc fuel) h slow fast [] fs c d less enough = absurd (omega arith)
race-Chain (suc fuel) h slow fast (x ∷ xs) [] (e, nx, n, ex, c) d less enough =
    rw (e, not_null x nx, d) refl
race-Chain (suc fuel) h slow fast (x ∷ xs) (y ∷ ys) (e, nx, n, ex, c) (e', ny, m, ey, d) less
      enough =
    let apart : x ≢ y = λ same. absurd (
      omega (
        arith,
        less,
        ap length (Chain-unique h x (x ∷ xs) (y ∷ ys) (refl, nx, n, ex, c) (same, ny, m, ey, d)),
      )) in
    let test : (x == y) ≡ false = ground (arith, apart) in
    rw (e, e', not_null x nx, not_null y ny, test, ex, ey)
      (rest (λ q zs dq less' enough'. race-Chain fuel h n.next q xs zs c dq less' enough') ys d
        (omega arith) (omega arith))
  where
    rest :
        ((q : Ptr) (zs : List Ptr)
          → Chain h q zs
          → length zs < length xs
          → length zs < fuel
          → race fuel h n.next q ≡ ok false)
        → (zs : List Ptr) → Chain h m.next zs
        → length zs < length xs
        → length zs < fuel
        → (if m.next == null then ok m.next else next_of h m.next)
            >>= (λ fast'. race fuel h n.next fast')
          ≡ ok false
    rest next [] d' less' enough' = rw d' (next null [] refl less' (omega arith))
    rest next (z ∷ zs) (ez, nz, o, eo, d') less' enough' =
        rw (ez, not_null z nz, eo) (next o.next zs d' (omega arith) (omega arith))

-- The two kinds of lists, with the number of rounds that isListLooped needs at most.
pub data Shape (h : Heap) (p : Ptr) : Bool → ℕ → Type 0 where
  ends : (ps : List Ptr) → Chain h p ps → Shape h p false (length ps + 1)
  loops : (tail size : ℕ) → Lasso h p tail size → Shape h p true (tail + size)

ended-Chain :
    (fuel : ℕ) (h : Heap) (p : Ptr) (ps : List Ptr)
    → Chain h p ps
    → length ps < fuel
    → is_list_looped fuel h p ≡ ok false
unfolding is_list_looped
ended-Chain fuel h p [] c enough = rw c refl
ended-Chain fuel h p (x ∷ xs) (e, ne, n, eq, c) enough =
    rw (e, not_null x ne, eq)
      (race-Chain fuel h x n.next (x ∷ xs) xs (refl, ne, n, eq, c) c (omega arith) (omega arith))

-- For every list that ends and every list with a loop, isListLooped ends within as many rounds as the
-- list has nodes, or one more when it ends, and its result tells which it is.
pub is_list_looped-decides :
    (fuel : ℕ) (h : Heap) (p : Ptr) (looped : Bool) (rounds : ℕ)
    → Shape h p looped rounds
    → rounds ≤ fuel
    → is_list_looped fuel h p ≡ ok looped
is_list_looped-decides fuel h p looped rounds (ends ps c) enough =
    ended-Chain fuel h p ps c (omega arith)
is_list_looped-decides fuel h p looped rounds (loops tail size l) enough =
    looped-Lasso h p tail size l fuel enough
