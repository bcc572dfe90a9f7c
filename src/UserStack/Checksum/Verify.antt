-- ===== src/UserStack/Checksum/Verify.antt =====
-- The checksum makes the message a multiple of 65535, and a message that carries it has the checksum 0.
use personal_c_cpp_back_end.Base.{
  ℕ, zero, suc, take, drop, get_or, ◌+◌, ◌*◌, ◌/◌, ◌%◌, ◌^◌, ◌≤◌, ◌<◌, ◌≡◌, ◌↔◌, refl, ap, ◌∙◌,
  List, [], ◌∷◌, ok, ltb, true, length, arith, Returns,
}
use personal_c_cpp_back_end.Bytes.{slice}
use personal_c_cpp_back_end.UserStack.Checksum.{sum_words, fold_sum, complement, in_cksum}

abbrev pub IsBytes : List ℕ → Type 0
IsBytes [] = Unit {0}
IsBytes (b ∷ bs) = (b < 256) × IsBytes bs

-- The sum of the words without bounds.
unfoldable pub word_sum : List ℕ → ℕ
word_sum [] = 0
word_sum (b ∷ []) = b
word_sum (b ∷ c ∷ rest) = b + 256 * c + word_sum rest

pub word_sum_bound : (bs : List ℕ) → IsBytes bs → 2 * word_sum bs ≤ 65535 * (length bs + 1)
unfolding word_sum
word_sum_bound [] h = omega arith
word_sum_bound (b ∷ []) h = omega arith
word_sum_bound (b ∷ c ∷ rest) h = omega (arith, word_sum_bound rest h.1.1)

sum_words-word_sum :
    (bs : List ℕ) (sum : ℕ) → sum + word_sum bs < 2 ^ 31 → sum_words bs sum ≡ ok (sum + word_sum bs)
unfolding sum_words word_sum
sum_words-word_sum [] sum h = ap ok (omega arith)
sum_words-word_sum (b ∷ []) sum h =
    let test : ltb (sum + b) (2 ^ 31) ≡ true = ground arith in rw test
sum_words-word_sum (b ∷ c ∷ rest) sum h =
    let test : ltb (sum + (b + 256 * c)) (2 ^ 31) ≡ true = ground arith in
    rw test (sum_words-word_sum rest (sum + (b + 256 * c)) (omega arith) ∙ ap ok (omega arith))

-- The longest message for which the sum is sure to stay an int.
abbrev pub max_message : ℕ
max_message = 65535

pub in_cksum-word_sum :
    (bs : List ℕ)
    → IsBytes bs
    → length bs ≤ max_message
    → in_cksum bs ≡ ok (complement (fold_sum (word_sum bs)))
unfolding in_cksum
in_cksum-word_sum bs h short =
    let small : 0 + word_sum bs < 2 ^ 31 = omega (arith, word_sum_bound bs h) in
    let start : 0 + word_sum bs ≡ word_sum bs = omega arith in
    rw (sum_words-word_sum bs 0 small, start)

complement_fold :
    (s : ℕ) → s + 65535 < 2 ^ 32 → complement (fold_sum (s + complement (fold_sum s))) ≡ 0
unfolding complement fold_sum
complement_fold s h = omega arith

complement-lt : (s : ℕ) → complement s < 65536
unfolding complement
complement-lt s = omega arith

word_sum-stored :
    (a b c : ℕ) (rest : List ℕ)
    → word_sum (a ∷ b ∷ c % 256 ∷ c / 256 ∷ rest) ≡ word_sum (a ∷ b ∷ 0 ∷ 0 ∷ rest) + c
unfolding word_sum
word_sum-stored a b c rest = omega arith

-- Take a message of at most 65535 bytes whose second word is 0. If the checksum that in_cksum computes
-- for it is stored in that word, then the checksum of the message is 0, as a receiver tests.
pub in_cksum_verifies :
    (a b : ℕ) (rest : List ℕ)
    → IsBytes (a ∷ b ∷ 0 ∷ 0 ∷ rest)
    → length (a ∷ b ∷ 0 ∷ 0 ∷ rest) ≤ max_message
    → Returns
        (in_cksum (a ∷ b ∷ 0 ∷ 0 ∷ rest))
        λ c. (c < 65536) × (in_cksum (a ∷ b ∷ c % 256 ∷ c / 256 ∷ rest) ≡ ok 0)
in_cksum_verifies a b rest h short =
    rw (in_cksum-word_sum (a ∷ b ∷ 0 ∷ 0 ∷ rest) h short) (complement-lt _, stored)
  where
    c : ℕ
    c = complement (fold_sum (word_sum (a ∷ b ∷ 0 ∷ 0 ∷ rest)))

    small : c < 65536
    small = complement-lt _

    bytes : IsBytes (a ∷ b ∷ c % 256 ∷ c / 256 ∷ rest)
    bytes = (h.0, (h.1.0, (omega (arith, small), (omega (arith, small), h.1.1.1.1))))

    total : word_sum (a ∷ b ∷ c % 256 ∷ c / 256 ∷ rest) ≡ word_sum (a ∷ b ∷ 0 ∷ 0 ∷ rest) + c
    total = word_sum-stored a b c rest

    stored : in_cksum (a ∷ b ∷ c % 256 ∷ c / 256 ∷ rest) ≡ ok 0
    stored =
        in_cksum-word_sum (a ∷ b ∷ c % 256 ∷ c / 256 ∷ rest) bytes short
        ∙ rw total
            (ap ok (complement_fold _ (omega (arith, word_sum_bound (a ∷ b ∷ 0 ∷ 0 ∷ rest) h))))

-- The bytes as the digits of one number, the first with the weight 1.
abbrev pub number : List ℕ → ℕ
number [] = 0
number (b ∷ bs) = b + 256 * number bs

number-word_sum : (bs : List ℕ) → number bs % 65535 ≡ word_sum bs % 65535
unfolding word_sum
number-word_sum [] = refl
number-word_sum (b ∷ []) = ap (λ n. n % 65535) (omega arith)
number-word_sum (b ∷ c ∷ rest) = omega (arith, number-word_sum rest)

number_zero : (bs : List ℕ) → number bs ≡ 0 → word_sum bs ≡ 0
unfolding word_sum
number_zero [] e = refl
number_zero (b ∷ []) e = omega (arith, e)
number_zero (b ∷ c ∷ rest) e = omega (arith, e, number_zero rest (omega (arith, e)))

word_sum_zero : (bs : List ℕ) → word_sum bs ≡ 0 → number bs ≡ 0
unfolding word_sum
word_sum_zero [] e = refl
word_sum_zero (b ∷ []) e = omega (arith, e)
word_sum_zero (b ∷ c ∷ rest) e = omega (arith, e, word_sum_zero rest (omega (arith, e)))

complement_fold-number :
    (s n : ℕ)
    → s < 2 ^ 31
    → n % 65535 ≡ s % 65535
    → ((n + complement (fold_sum s)) % 65535 ≡ 0)
      × (s ≡ 0 → complement (fold_sum s) ≡ 65535)
      × (complement (fold_sum s) ≡ 65535 → s ≡ 0)
unfolding complement fold_sum
complement_fold-number s n h same =
    (omega (arith, same), (λ e. omega (arith, e)), (λ e. omega (arith, e)))

-- For at most 65535 bytes, read as the digits of one number, the checksum is the 16-bit number that
-- makes this number divisible by 65535 when it is added. Of 0 and 65535 it is 65535 exactly if all
-- bytes are 0.
pub in_cksum-number :
    (bs : List ℕ)
    → IsBytes bs
    → length bs ≤ max_message
    → Returns
        (in_cksum bs)
        λ c. (c < 65536) × ((number bs + c) % 65535 ≡ 0) × ((c ≡ 65535) ↔ (number bs ≡ 0))
in_cksum-number bs h short =
    let s = word_sum bs in
    let small : s < 2 ^ 31 = omega (arith, word_sum_bound bs h) in
    let (sum, zero_sum, sum_zero) =
      complement_fold-number s (number bs) small (number-word_sum bs) in
    rw (in_cksum-word_sum bs h short) (
      complement-lt _,
      sum,
      ((λ e. word_sum_zero bs (sum_zero e)), (λ e. zero_sum (number_zero bs e))),
    )

IsBytes-drop : (n : ℕ) (s : List ℕ) → IsBytes s → IsBytes (drop n s)
IsBytes-drop zero s h = h
IsBytes-drop (suc n) [] h = tt
IsBytes-drop (suc n) (x ∷ s) h = IsBytes-drop n s h.1

IsBytes-take : (n : ℕ) (s : List ℕ) → IsBytes s → IsBytes (take n s)
IsBytes-take zero s h = tt
IsBytes-take (suc n) [] h = tt
IsBytes-take (suc n) (x ∷ s) h = (h.0, IsBytes-take n s h.1)

pub IsBytes-slice : (o n : ℕ) (s : List ℕ) → IsBytes s → IsBytes (slice o n s)
IsBytes-slice o n s h = IsBytes-take n (drop o s) (IsBytes-drop o s h)

pub IsBytes-get_or : (s : List ℕ) (i : ℕ) → IsBytes s → get_or s i 0 < 256
IsBytes-get_or [] i h = omega arith
IsBytes-get_or (x ∷ s) zero h = h.0
IsBytes-get_or (x ∷ s) (suc i) h = IsBytes-get_or s i h.1
