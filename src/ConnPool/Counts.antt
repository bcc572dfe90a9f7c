-- ===== src/ConnPool/Counts.antt =====
-- 6_connections_pool_for_mysql/ConnPool.cpp: how often a connection is in a list.
use personal_c_cpp_back_end.Base.{
  ℕ, suc, ◌+◌, ◌≤◌, ◌<◌, ◌≡◌, ◌≢◌, refl, true, false, List, [], ◌∷◌, ◌++◌, length, ◌==◌,
  if◌then◌else◌, arith,
}
use personal_c_cpp_back_end.ConnPool.{is_in, remove}

-- How often a connection is in a list.
abbrev pub count : ℕ → List ℕ → ℕ
count c [] = 0
count c (x ∷ xs) = if x == c then suc (count c xs) else count c xs

pub count-append : (c : ℕ) (xs ys : List ℕ) → count c (xs ++ ys) ≡ count c xs + count c ys
count-append c [] ys = omega arith
count-append c (x ∷ xs) ys = ground (arith, count-append c xs ys)

pub count-remove : (c d : ℕ) (xs : List ℕ) → count d (remove c xs) ≤ count d xs
count-remove c d [] = omega arith
count-remove c d (x ∷ xs) = ground (arith, count-remove c d xs)

pub count-remove_self : (c : ℕ) (xs : List ℕ) → count c (remove c xs) ≡ 0
count-remove_self c [] = refl
count-remove_self c (x ∷ xs) = ground (arith, count-remove_self c xs)

pub length-remove : (c : ℕ) (xs : List ℕ) → length (remove c xs) + count c xs ≡ length xs
length-remove c [] = refl
length-remove c (x ∷ xs) = ground (arith, length-remove c xs)

pub is_in-count : (c : ℕ) (xs : List ℕ) → is_in c xs ≡ true → 0 < count c xs
is_in-count c [] e = cc
is_in-count c (x ∷ xs) e = ground (arith, is_in-count c xs)

pub count_self : (c : ℕ) → count c (c ∷ []) ≡ 1
count_self c = let test : (c == c) ≡ true = ground arith in rw test refl

pub count_other : (c d : ℕ) → d ≢ c → count d (c ∷ []) ≡ 0
count_other c d ne = let test : (c == d) ≡ false = ground (arith, ne) in rw test refl
