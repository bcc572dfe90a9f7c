-- ===== src/UserStack/Checksum.antt =====
-- in_cksum, the Internet checksum over the 16-bit words of a buffer.
pub mod Verify
use personal_c_cpp_back_end.Base.{
  ℕ, ◌+◌, ◌-◌, ◌*◌, ◌/◌, ◌%◌, ◌^◌, List, [], ◌∷◌, Run, ok, fault, ◌>>=◌, ltb, if◌then◌else◌,
}

-- `sum` is an int: an addition that leaves its range is undefined.
unfoldable pub add_int : ℕ → ℕ → Run ℕ
add_int a b = if ltb (a + b) (2 ^ 31) then ok (a + b) else fault

-- The while loop, and the last byte of an odd length. Words are read in the host's byte order, which
-- is little-endian.
unfoldable pub sum_words : List ℕ → ℕ → Run ℕ
unfolding add_int
sum_words [] sum = ok sum
sum_words (b ∷ []) sum = add_int sum b
sum_words (b ∷ c ∷ rest) sum = add_int sum (b + 256 * c) >>= λ sum'. sum_words rest sum'

-- sum = (sum >> 16) + (sum & 0xffff); sum += (sum >> 16); answer = ~sum;
unfoldable pub fold_sum : ℕ → ℕ
fold_sum sum = let once = sum / 65536 + sum % 65536 in once + once / 65536

unfoldable pub complement : ℕ → ℕ
complement sum = 65535 - sum % 65536

unfoldable pub in_cksum : List ℕ → Run ℕ
unfolding sum_words fold_sum complement
in_cksum buffer = sum_words buffer 0 >>= λ sum. ok (complement (fold_sum sum))
