-- ===== src/Bytes.antt =====
-- Buffers of bytes: the pieces that C code reads and overwrites at an offset.
pub mod Writes
use personal_c_cpp_back_end.Base.{
  ℕ, zero, suc, ◌+◌, ◌-◌, ◌≤◌, ◌<◌, ◌≡◌, refl, sym, ap, ◌∙◌, List, [], ◌∷◌, ◌++◌, append_assoc,
  append-nil, Run, ok, fault, leb, if◌then◌else◌, length, take, drop, length-append, arith, true,
  false,
}

-- `n` bytes from `o` on, and the buffer with `bs` written there.
abbrev pub slice : ℕ → ℕ → List ℕ → List ℕ
slice o n s = take n (drop o s)

abbrev pub splice : ℕ → List ℕ → List ℕ → List ℕ
splice o bs s = take o s ++ (bs ++ drop (o + length bs) s)

-- The same with a fault outside the buffer.
unfoldable pub load : ℕ → ℕ → List ℕ → Run (List ℕ)
load o n s = if leb (o + n) (length s) then ok (slice o n s) else fault

unfoldable pub store : ℕ → List ℕ → List ℕ → Run (List ℕ)
store o bs s = if leb (o + length bs) (length s) then ok (splice o bs s) else fault

pub load-ok : (o n : ℕ) (s : List ℕ) → o + n ≤ length s → load o n s ≡ ok (slice o n s)
unfolding load
load-ok o n s h = let test : leb (o + n) (length s) ≡ true = ground arith in rw test

pub store-ok :
    (o : ℕ) (bs s : List ℕ) → o + length bs ≤ length s → store o bs s ≡ ok (splice o bs s)
unfolding store
store-ok o bs s h = let test : leb (o + length bs) (length s) ≡ true = ground arith in rw test

pub length-take : (n : ℕ) (s : List ℕ) → n ≤ length s → length (take n s) ≡ n
length-take zero s h = refl
length-take (suc n) [] h = elim h [ ]
length-take (suc n) (x ∷ s) h = ap suc (length-take n s (omega arith))

pub length-drop : (n : ℕ) (s : List ℕ) → length (drop n s) ≡ length s - n
length-drop zero s = omega arith
length-drop (suc n) [] = omega arith
length-drop (suc n) (x ∷ s) = omega (arith, length-drop n s)

pub take-append : (n : ℕ) (xs ys : List ℕ) → length xs ≡ n → take n (xs ++ ys) ≡ xs
take-append n [] ys h = rw (← h)
take-append zero (x ∷ xs) ys h = absurd (omega arith)
take-append (suc n) (x ∷ xs) ys h = ap (◌∷◌ x) (take-append n xs ys (omega arith))

pub drop-append : (n : ℕ) (xs ys : List ℕ) → length xs ≡ n → drop n (xs ++ ys) ≡ ys
drop-append n [] ys h = rw (← h)
drop-append zero (x ∷ xs) ys h = absurd (omega arith)
drop-append (suc n) (x ∷ xs) ys h = drop-append n xs ys (omega arith)

pub take-append_le : (n : ℕ) (xs ys : List ℕ) → n ≤ length xs → take n (xs ++ ys) ≡ take n xs
take-append_le zero xs ys h = refl
take-append_le (suc n) [] ys h = elim h [ ]
take-append_le (suc n) (x ∷ xs) ys h = ap (◌∷◌ x) (take-append_le n xs ys (omega arith))

pub drop-append_le : (n : ℕ) (xs ys : List ℕ) → n ≤ length xs → drop n (xs ++ ys) ≡ drop n xs ++ ys
drop-append_le zero xs ys h = refl
drop-append_le (suc n) [] ys h = elim h [ ]
drop-append_le (suc n) (x ∷ xs) ys h = drop-append_le n xs ys (omega arith)

drop-nil : (n : ℕ) → ◌≡◌ {A = List ℕ} [] (drop n [])
drop-nil zero = refl
drop-nil (suc n) = refl

take-nil : (n : ℕ) → ◌≡◌ {A = List ℕ} [] (take n [])
take-nil zero = refl
take-nil (suc n) = refl

pub drop-drop : (m n : ℕ) (s : List ℕ) → drop m (drop n s) ≡ drop (n + m) s
drop-drop m zero s = let e : zero + m ≡ m = omega arith in rw e
drop-drop m (suc n) [] = sym (drop-nil m) ∙ drop-nil (suc n + m)
drop-drop m (suc n) (x ∷ s) =
    let e : suc n + m ≡ suc (n + m) = omega arith in rw e (drop-drop m n s)

pub take-drop : (m n : ℕ) (s : List ℕ) → m ≤ n → drop m (take n s) ≡ take (n - m) (drop m s)
take-drop zero n s h = let e : n - 0 ≡ n = omega arith in rw e
take-drop (suc m) zero s h = elim h [ ]
take-drop (suc m) (suc n) [] h = take-nil (suc n - suc m)
take-drop (suc m) (suc n) (x ∷ s) h =
    let e : suc n - suc m ≡ n - m = omega arith in rw e (take-drop m n s (omega arith))

pub take-take : (m n : ℕ) (s : List ℕ) → m ≤ n → take m (take n s) ≡ take m s
take-take zero n s h = refl
take-take (suc m) zero s h = elim h [ ]
take-take (suc m) (suc n) [] h = refl
take-take (suc m) (suc n) (x ∷ s) h = ap (◌∷◌ x) (take-take m n s (omega arith))

pub take_add : (m n : ℕ) (s : List ℕ) → take (m + n) s ≡ take m s ++ take n (drop m s)
take_add zero n s = let e : zero + n ≡ n = omega arith in rw e
take_add (suc m) n [] = let e : suc m + n ≡ suc (m + n) = omega arith in rw e (take-nil n)
take_add (suc m) n (x ∷ s) =
    let e : suc m + n ≡ suc (m + n) = omega arith in rw e (ap (◌∷◌ x) (take_add m n s))

module _ (o : ℕ) (bs s : List ℕ) (room : o + length bs ≤ length s) where
  front : length (take o s) ≡ o
  front = length-take o s (omega arith)

  pub length-splice : length (splice o bs s) ≡ length s
  length-splice = omega (
    arith,
    front,
    length-append (take o s) (bs ++ drop (o + length bs) s),
    length-append bs (drop (o + length bs) s),
    length-drop (o + length bs) s,
  )

  -- What was written is read back.
  pub slice-splice_same : slice o (length bs) (splice o bs s) ≡ bs
  slice-splice_same =
      rw (drop-append o (take o s) (bs ++ drop (o + length bs) s) front)
        (take-append (length bs) bs (drop (o + length bs) s) refl)

  pub slice-splice_before : (p n : ℕ) → p + n ≤ o → slice p n (splice o bs s) ≡ slice p n s
  slice-splice_before p n h =
      let inside : p ≤ length (take o s) = omega (arith, front) in
      let rest : n ≤ length (drop p (take o s)) = omega (arith, front, length-drop p (take o s)) in
      rw
        (
          drop-append_le p (take o s) (bs ++ drop (o + length bs) s) inside,
          take-append_le n (drop p (take o s)) (bs ++ drop (o + length bs) s) rest,
        )
        (rw (take-drop p o s (omega arith)) (take-take n (o - p) (drop p s) (omega arith)))

  pub drop-splice_after : (p : ℕ) → o + length bs ≤ p → drop p (splice o bs s) ≡ drop p s
  drop-splice_after p h =
      let whole : p ≡ o + (length bs + (p - (o + length bs))) = omega arith in
      let over : o + length bs + (p - (o + length bs)) ≡ p = omega arith in
      ap (λ k. drop k (splice o bs s)) whole
      ∙ sym (drop-drop (length bs + (p - (o + length bs))) o (splice o bs s))
      ∙ ap (drop (length bs + (p - (o + length bs))))
          (drop-append o (take o s) (bs ++ drop (o + length bs) s) front)
      ∙ sym (drop-drop (p - (o + length bs)) (length bs) (bs ++ drop (o + length bs) s))
      ∙ ap (drop (p - (o + length bs))) (drop-append (length bs) bs (drop (o + length bs) s) refl)
      ∙ drop-drop (p - (o + length bs)) (o + length bs) s
      ∙ ap (λ k. drop k s) over

  pub slice-splice_after : (p n : ℕ) → o + length bs ≤ p → slice p n (splice o bs s) ≡ slice p n s
  slice-splice_after p n h = ap (take n) (drop-splice_after p h)

pub slice_add : (o m n : ℕ) (s : List ℕ) → slice o (m + n) s ≡ slice o m s ++ slice (o + m) n s
slice_add o m n s =
    take_add m n (drop o s) ∙ ap (λ t. take m (drop o s) ++ take n t) (drop-drop m o s)

pub slice-slice : (p n m : ℕ) (s : List ℕ) → p + n ≤ m → slice p n (slice 0 m s) ≡ slice p n s
slice-slice p n m s h =
    rw (take-drop p m s (omega arith)) (take-take n (m - p) (drop p s) (omega arith))

pub length-slice : (o n : ℕ) (s : List ℕ) → o + n ≤ length s → length (slice o n s) ≡ n
length-slice o n s h = length-take n (drop o s) (omega (arith, length-drop o s))

pub load-fault : (o n : ℕ) (s : List ℕ) → length s < o + n → load o n s ≡ fault
unfolding load
load-fault o n s h = let test : leb (o + n) (length s) ≡ false = ground arith in rw test

pub store-fault : (o : ℕ) (bs s : List ℕ) → length s < o + length bs → store o bs s ≡ fault
unfolding store
store-fault o bs s h = let test : leb (o + length bs) (length s) ≡ false = ground arith in rw test
