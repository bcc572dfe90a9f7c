-- ===== src/Kmp.antt =====
-- 0_kmp_and_linkedlist/kmp.c: the failure table of a pattern, and the search that uses it.
pub mod Fits
pub mod Table
pub mod Search
pub mod Overrun
pub mod Tests
use personal_c_cpp_back_end.Base.{
  ℕ, zero, suc, ◌+◌, ◌-◌, ◌*◌, Bool, Option, none, some, List, Run, ok, fault, out_of_fuel, ◌>>=◌,
  read, write, ltb, leb, ◌==◌, if◌then◌else◌, length, get_or, replicate,
}

-- A C string holds its bytes without the terminator, which stands behind them.
abbrev pub at : List ℕ → ℕ → ℕ
at s i = get_or s i 0

-- The read of a C string: the array ends with the terminator.
pub char_at : List ℕ → ℕ → Run ℕ
char_at s i = if leb i (length s) then ok (at s i) else fault

-- a[i] == b[j]
pub same_char : List ℕ → ℕ → List ℕ → ℕ → Run Bool
same_char a i b j = char_at a i >>= λ x. char_at b j >>= λ y. ok (x == y)

-- while (prefixTail > 0 && pattern[subfixTail] != pattern[prefixTail])
--     prefixTail = next[prefixTail - 1];
pub fall_back : ℕ → List ℕ → List ℕ → ℕ → ℕ → Run ℕ
fall_back zero pattern next q k = out_of_fuel
fall_back (suc fuel) pattern next q k =
    let back = (read next (k - 1) >>= λ k'. fall_back fuel pattern next q k') in
    let compare_them = (same_char pattern q pattern k >>= λ same. if same then ok k else back) in
    if ltb 0 k then compare_them else ok k

-- if (pattern[subfixTail] == pattern[prefixTail]) prefixTail++;
pub grow : List ℕ → ℕ → ℕ → Run ℕ
grow pattern q k = same_char pattern q pattern k >>= λ same. ok (if same then k + 1 else k)

-- The for loop of make_next, with `rounds` left before subfixTail reaches patLen.
pub fill : ℕ → List ℕ → ℕ → ℕ → List ℕ → Run (List ℕ)
fill zero pattern q k next = ok next
fill (suc rounds) pattern q k next = do
  k' ← fall_back (k + 1) pattern next q k
  k'' ← grow pattern q k'
  next' ← write next q k''
  fill rounds pattern (q + 1) k'' next'

pub make_next : List ℕ → List ℕ → Run (List ℕ)
unfolding fall_back grow fill char_at same_char
make_next pattern next = do next' ← write next 0 0; fill (length pattern - 1) pattern 1 0 next'

-- while (text[t]) ... ; `none` is the return value -1.
search_from : ℕ → List ℕ → List ℕ → List ℕ → ℕ → ℕ → Run (Option ℕ)
search_from zero text pattern next t p = out_of_fuel
search_from (suc fuel) text pattern next t p =
    let skip = search_from fuel text pattern next (t + 1) p in
    let step = search_from fuel text pattern next (t + 1) (p + 1) in
    let back = (read next (p - 1) >>= λ p'. search_from fuel text pattern next t p') in
    let miss = if p == 0 then skip else back in
    let hit = if p + 1 == length pattern then ok (some (t + 1 - length pattern)) else step in
    let go = (same_char text t pattern p >>= λ same. if same then hit else miss) in
    char_at text t >>= λ c. if c == 0 then ok none else go

-- int next[20] = {0};
abbrev pub next_size : ℕ
next_size = 20

pub kmp : List ℕ → List ℕ → Run (Option ℕ)
unfolding make_next search_from
kmp text pattern = do
  next ← make_next pattern (replicate next_size 0)
  search_from (2 * length text + 1) text pattern next 0 0
