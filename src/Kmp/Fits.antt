-- ===== src/Kmp/Fits.antt =====
-- The facts about overlapping occurrences on which kmp.c rests.
use personal_c_cpp_back_end.Base.{
  ℕ, zero, suc, ◌+◌, ◌-◌, ◌≤◌, ◌<◌, ◌≡◌, ◌≢◌, ◌∙◌, sym, ap, refl, true, List, ok, length, leb, ◌==◌,
  arith,
}
use personal_c_cpp_back_end.Kmp.{at, char_at, same_char}

pub char_at-in : (s : List ℕ) (i : ℕ) → i ≤ length s → char_at s i ≡ ok (at s i)
unfolding char_at
char_at-in s i h = let test : leb i (length s) ≡ true = ground arith in rw test

pub same_char-in :
    (a b : List ℕ) (i j : ℕ)
    → i ≤ length a
    → j ≤ length b
    → same_char a i b j ≡ ok (at a i == at b j)
unfolding same_char
same_char-in a b i j h h' = rw (char_at-in a i h, char_at-in b j h') refl

-- The pattern, laid at offset `d` of `s`, agrees with `s` below `n`.
abbrev pub Fits : List ℕ → List ℕ → ℕ → ℕ → Type 0
Fits pattern s d n = (x : ℕ) → d + x < n → at pattern x ≡ at s (d + x)

-- `k` is the length of the longest proper border of the first `n` bytes of the pattern.
pub record IsBorder (pattern : List ℕ) (n k : ℕ) : Type 0 where
  pub proper : k < n
  pub border : Fits pattern pattern (n - k) n
  pub longest : (e : ℕ) → 0 < e → e + k < n → ¬ Fits pattern pattern e n

pub Fits-mono : (pattern s : List ℕ) (d m n : ℕ) → m ≤ n → Fits pattern s d n → Fits pattern s d m
Fits-mono pattern s d m n h f x lt = f x (omega arith)

module _ {pattern : List ℕ} (s : List ℕ) {k k' : ℕ} (b : IsBorder pattern k k') (d : ℕ)
    (fits : Fits pattern s d (d + k)) where
  -- After a mismatch the border still fits.
  pub Fits-border : Fits pattern s (d + (k - k')) (d + k)
  Fits-border x h =
      let smaller : k' < k = b.proper in
      let inner : k - k' + x < k = omega arith in
      let whole : d + (k - k' + x) < d + k = omega arith in
      let same : d + (k - k' + x) ≡ d + (k - k') + x = omega arith in
      b.border x inner ∙ fits (k - k' + x) whole ∙ ap (at s) same

  -- No occurrence that agrees beyond the mismatch starts before it.
  pub not_Fits_between :
      (g : ℕ) → g + k' < k → at s (d + k) ≢ at pattern k → ¬ Fits pattern s (d + g) (suc (d + k))
  not_Fits_between zero h mismatch f =
      let here : d + 0 + k < suc (d + k) = omega arith in
      let same : d + 0 + k ≡ d + k = omega arith in mismatch (sym (f k here ∙ ap (at s) same))
  not_Fits_between (suc g) h mismatch f = b.longest (suc g) (omega arith) h λ x lt.
      let inside : d + suc g + x < suc (d + k) = omega arith in
      let below : d + (suc g + x) < d + k = omega arith in
      let same : d + suc g + x ≡ d + (suc g + x) = omega arith in
      f x inside ∙ ap (at s) same ∙ sym (fits (suc g + x) below)
