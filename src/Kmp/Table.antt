-- ===== src/Kmp/Table.antt =====
-- make_next fills the table with the longest proper border of each prefix of the pattern.
use personal_c_cpp_back_end.Base.{
  ℕ, zero, suc, ◌+◌, ◌-◌, ◌≤◌, ◌<◌, ◌≡◌, ◌≢◌, ◌∙◌, sym, ap, refl, ◌⊎◌, inl, inr, dec_lt, ℕ_discrete,
  true, false, List, Returns, Returns-bind, Returns-mono, ltb, ◌==◌, if◌then◌else◌, length, get_or,
  set, length-set, get_or-set_self, get_or-set_ne, arith,
}
use personal_c_cpp_back_end.Kmp.{at, fall_back, grow, fill, make_next}
use personal_c_cpp_back_end.Kmp.Fits.{
  same_char-in, Fits, IsBorder, Fits-border, not_Fits_between, Fits-mono,
}

-- The first `q` entries of the table are right.
abbrev pub IsTable : List ℕ → List ℕ → ℕ → Type 0
IsTable pattern next q = (i : ℕ) → i < q → IsBorder pattern (suc i) (get_or next i 0)

-- `k` is a border of the first `q` bytes, and no longer one can be extended by the next byte.
pub record IsCandidate (pattern : List ℕ) (q k : ℕ) : Type 0 where
  pub proper : k < q
  pub border : Fits pattern pattern (q - k) q
  pub longest : (e : ℕ) → 0 < e → e + k < q → ¬ Fits pattern pattern e (suc q)

-- What the while loop of make_next leaves.
pub record Stopped (pattern : List ℕ) (q k : ℕ) : Type 0 where
  pub candidate : IsCandidate pattern q k
  pub ended : (k ≡ 0) ⊎ (at pattern q ≡ at pattern k)

module _ {pattern : List ℕ} {q k k' : ℕ} (c : IsCandidate pattern q k) (b : IsBorder pattern k k')
    (mismatch : at pattern q ≢ at pattern k) where
  shorten : IsCandidate pattern q k'
  shorten =
      let below : k < q = c.proper in
      let smaller : k' < k = b.proper in
      let whole : q - k + k ≡ q = omega arith in
      let start : q - k + (k - k') ≡ q - k' = omega arith in
      let fits : Fits pattern pattern (q - k) (q - k + k) = λ x h. c.border x (omega arith) in
      record {
        proper = omega arith;
        border = λ x h.
            Fits-border pattern b (q - k) fits x (omega arith) ∙ ap (at pattern) (omega arith);
        longest = λ e pos h f. elim (dec_lt (e + k) q) [
          | yes short ↦ c.longest e pos short f
          | no long ↦
              not_Fits_between pattern b (q - k) fits (e - (q - k)) (omega arith)
                (λ m. mismatch (ap (at pattern) (sym whole) ∙ m))
                (λ x lt.
                  let same : e + x ≡ q - k + (e - (q - k)) + x = omega arith in
                  f x (omega arith) ∙ ap (at pattern) same)
        ];
      }

pub fall_back-Stopped :
    (fuel : ℕ) (pattern next : List ℕ) (q k : ℕ)
    → k < fuel
    → q ≤ length pattern
    → q ≤ length next
    → IsTable pattern next q
    → IsCandidate pattern q k
    → Returns (fall_back fuel pattern next q k) (Stopped pattern q)
unfolding fall_back
fall_back-Stopped zero pattern next q k enough short room table c = absurd (omega arith)
fall_back-Stopped (suc fuel) pattern next q zero enough short room table c = record {
  candidate = c;
  ended = inl refl;
}
fall_back-Stopped (suc fuel) pattern next q (suc k) enough short room table c =
    let positive : ltb 0 (suc k) ≡ true = ground arith in
    let reads = same_char-in pattern pattern q (suc k) short (omega (arith, c.proper)) in
    elim (ℕ_discrete (at pattern q) (at pattern (suc k))) [
      | yes same ↦
          let test : (at pattern q == at pattern (suc k)) ≡ true = ground arith in
          rw (positive, reads, test) (record { candidate = c; ended = inr same })
      | no mismatch ↦
          let test : (at pattern q == at pattern (suc k)) ≡ false = ground arith in
          let inside : ltb k (length next) ≡ true = ground (arith, c.proper) in
          let b = table k (omega (arith, c.proper)) in
          let back : suc k - 1 ≡ k = omega arith in
          rw (positive, reads, test, back, inside)
            (fall_back-Stopped fuel pattern next q (get_or next k 0) (omega (arith, b.proper)) short
              room table (shorten c b mismatch))
    ]

-- The entry that the body of the for loop writes.
pub grow-IsBorder :
    (pattern : List ℕ) (q k : ℕ)
    → q ≤ length pattern
    → Stopped pattern q k
    → Returns (grow pattern q k) (IsBorder pattern (suc q))
unfolding grow
grow-IsBorder pattern q k short s =
    rw (same_char-in pattern pattern q k short (omega (arith, c.proper))) (grown)
  where
    c : IsCandidate pattern q k
    c = s.candidate

    empty : at pattern q ≢ at pattern k → k ≡ 0
    empty other = elim s.ended [ inl e ↦ e | inr same ↦ absurd (other same) ]

    extended : at pattern q ≡ at pattern k → IsBorder pattern (suc q) (k + 1)
    extended same = record {
      proper = omega (arith, c.proper);
      border = λ x h. elim (dec_lt x k) [
        | yes inside ↦
            c.border x (omega (arith, c.proper)) ∙ ap (at pattern) (omega (arith, c.proper))
        | no last ↦
            let here : x ≡ k = omega (arith, c.proper) in
            let there : q ≡ suc q - (k + 1) + x = omega (arith, c.proper) in
            ap (at pattern) here ∙ sym same ∙ ap (at pattern) there
      ];
      longest = λ e pos h. c.longest e pos (omega arith);
    }

    grown : IsBorder pattern (suc q) (if at pattern q == at pattern k then k + 1 else k)
    grown = elim (ℕ_discrete (at pattern q) (at pattern k)) [
      | yes same ↦
          let test : (at pattern q == at pattern k) ≡ true = ground arith in rw test (extended same)
      | no other ↦
          let test : (at pattern q == at pattern k) ≡ false = ground arith in
          rw test (record {
            proper = omega (arith, c.proper);
            border = λ x h. absurd (omega (arith, empty other));
            longest = λ e pos h f. elim (dec_lt (e + k) q) [
              | yes short ↦ c.longest e pos short f
              | no long ↦
                  let start : 0 ≡ k = omega (arith, empty other) in
                  let last : e + 0 ≡ q = omega (arith, empty other) in
                  other
                    (ap (at pattern) (sym last) ∙ sym (f 0 (omega arith)) ∙ ap (at pattern) start)
            ];
          })
    ]

pub candidate : (pattern : List ℕ) (q k : ℕ) → IsBorder pattern q k → IsCandidate pattern q k
candidate pattern q k b = record {
  proper = b.proper;
  border = b.border;
  longest = λ e pos h f. b.longest e pos h (Fits-mono pattern pattern e q (suc q) (omega arith) f);
}

pub IsTable-set :
    (pattern next : List ℕ) (q k : ℕ)
    → q < length next
    → IsTable pattern next q
    → IsBorder pattern (suc q) k
    → IsTable pattern (set next q k) (suc q)
IsTable-set pattern next q k room table b i h = elim (ℕ_discrete q i) [
  | yes e ↦ rw (← e, get_or-set_self next q k 0 room) b
  | no ne ↦ rw (get_or-set_ne next q i k 0 ne) (table i (omega arith))
]

abbrev pub Filled : List ℕ → ℕ → ℕ → List ℕ → Type 0
Filled pattern size q next = (length next ≡ size) × IsTable pattern next q

fill-Filled :
    (rounds : ℕ) (pattern next : List ℕ) (q k : ℕ)
    → q + rounds ≤ length pattern
    → q + rounds ≤ length next
    → IsTable pattern next q
    → IsBorder pattern q k
    → Returns (fill rounds pattern q k next) (Filled pattern (length next) (q + rounds))
unfolding fill
fill-Filled zero pattern next q k short room table b = (refl, λ i h. table i (omega arith))
fill-Filled (suc rounds) pattern next q k short room table b =
    Returns-bind (Filled pattern (length next) (q + suc rounds))
      (fall_back (k + 1) pattern next q k) _
      (fall_back-Stopped (k + 1) pattern next q k (omega arith) (omega arith) (omega arith) table
        (candidate pattern q k b))
      λ k' stopped.
        Returns-bind (Filled pattern (length next) (q + suc rounds)) (grow pattern q k') _
          (grow-IsBorder pattern q k' (omega arith) stopped)
          λ v b'.
            let inside : ltb q (length next) ≡ true = ground arith in
            let up : q + 1 ≡ suc q = omega arith in
            let kept : length (set next q v) ≡ length next = length-set next q v in
            let rest =
              fill-Filled rounds pattern (set next q v) (suc q) v (omega arith) (omega arith)
                (IsTable-set pattern next q v (omega arith) table b') b' in
            rw (inside, up)
              (Returns-mono (Filled pattern (length next) (q + suc rounds))
                (fill rounds pattern (suc q) v (set next q v)) rest
                λ t (size, all). (size ∙ kept, λ i h. all i (omega arith)))

pub first-IsBorder : (pattern : List ℕ) → IsBorder pattern 1 0
first-IsBorder pattern = record {
  proper = omega arith;
  border = λ x h. absurd (omega arith);
  longest = λ e pos h. absurd (omega arith);
}

-- With a table at least as long as a pattern that is not empty, make_next writes, for each prefix of
-- the pattern, the length of the longest proper border of that prefix; it reads and writes nothing
-- outside the table and the pattern with its terminator.
pub make_next-IsTable :
    (pattern next : List ℕ)
    → 0 < length pattern
    → length pattern ≤ length next
    → Returns (make_next pattern next) (Filled pattern (length next) (length pattern))
unfolding make_next
make_next-IsTable pattern next some_byte room =
    let inside : ltb 0 (length next) ≡ true = ground arith in
    let kept : length (set next 0 0) ≡ length next = length-set next 0 0 in
    let first = first-IsBorder pattern in
    let table = IsTable-set pattern next 0 0 (omega arith) (λ i h. absurd (omega arith)) first in
    rw inside (
      Returns-mono (Filled pattern (length next) (length pattern))
        (fill (length pattern - 1) pattern 1 0 (set next 0 0))
        (fill-Filled (length pattern - 1) pattern (set next 0 0) 1 0 (omega arith) (omega arith)
          table first)
        λ t (size, all). (size ∙ kept, λ i h. all i (omega arith)))
