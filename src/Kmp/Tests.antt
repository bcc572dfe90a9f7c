-- ===== src/Kmp/Tests.antt =====
-- The program of kmp.c on its own inputs, and the theorems at them.
use Prim.Native.String.{String}
use Prim.Native.Char.{code}
use personal_c_cpp_back_end.Base.{
  ℕ, ◌≡◌, refl, some, none, List, [], ◌∷◌, ok, fault, Returns, replicate, arith,
}
use personal_c_cpp_back_end.Kmp.{make_next, kmp, next_size}
use personal_c_cpp_back_end.Kmp.Table.{Filled, make_next-IsTable}
use personal_c_cpp_back_end.Kmp.Search.{IsFirst, kmp-IsFirst}
use personal_c_cpp_back_end.Kmp.Overrun.{kmp-fault}

abbrev codes : String → List ℕ
codes String.[] = []
codes (String.◌∷◌ c s) = code c ∷ codes s

abbrev text : List ℕ
text = codes "eabcabcabcabcabcdabc"

abbrev pattern : List ℕ
pattern = codes "abcabcd"

kmp_main : kmp text pattern ≡ ok (some 10)
unfolding kmp
kmp_main = refl

make_next_main :
    make_next (codes "abcdababc") (replicate 9 0) ≡ ok (0 ∷ 0 ∷ 0 ∷ 0 ∷ 1 ∷ 2 ∷ 1 ∷ 2 ∷ 3 ∷ [])
unfolding make_next
make_next_main = refl

kmp_absent : kmp (codes "aabaa") (codes "abb") ≡ ok none
unfolding kmp
kmp_absent = refl

make_next-IsTable_example :
    Returns (make_next pattern (replicate next_size 0)) (Filled pattern 20 7)
make_next-IsTable_example =
    make_next-IsTable pattern (replicate next_size 0) (omega arith) (omega arith)

kmp-IsFirst_example : Returns (kmp text pattern) (IsFirst text pattern)
kmp-IsFirst_example = kmp-IsFirst text pattern (omega arith) (omega arith) (omega arith)

kmp-fault_example : kmp text (replicate 21 97) ≡ fault
kmp-fault_example = kmp-fault text (replicate 21 97) (omega arith)
