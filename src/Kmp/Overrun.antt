-- ===== src/Kmp/Overrun.antt =====
-- The table of kmp has 20 entries: make_next writes past its end for every longer pattern.
use personal_c_cpp_back_end.Base.{
  ℕ, zero, suc, ◌+◌, ◌-◌, ◌≤◌, ◌<◌, ◌≡◌, dec_lt, true, false, List, fault, Returns-eq-ok, ltb,
  length, replicate, set, length-set, length-replicate, arith,
}
use personal_c_cpp_back_end.Kmp.{fall_back, grow, fill, make_next, kmp, next_size}
use personal_c_cpp_back_end.Kmp.Fits.{IsBorder}
use personal_c_cpp_back_end.Kmp.Table.{
  IsTable, IsTable-set, Stopped, fall_back-Stopped, grow-IsBorder, candidate, first-IsBorder,
}

fill-fault :
    (rounds : ℕ) (pattern next : List ℕ) (q k : ℕ)
    → q + rounds ≤ length pattern
    → q ≤ length next
    → length next < q + rounds
    → IsTable pattern next q
    → IsBorder pattern q k
    → fill rounds pattern q k next ≡ fault
unfolding fill
fill-fault zero pattern next q k short inside past table b = absurd (omega arith)
fill-fault (suc rounds) pattern next q k short inside past table b =
    let (k', e, stopped) = Returns-eq-ok (Stopped pattern q) (fall_back (k + 1) pattern next q k) (
      fall_back-Stopped (k + 1) pattern next q k (omega arith) (omega arith) inside table
        (candidate pattern q k b)) in
    let (v, ev, b') =
      Returns-eq-ok _ (grow pattern q k') (grow-IsBorder pattern q k' (omega arith) stopped) in
    elim (dec_lt q (length next)) [
      | yes more ↦
          let test : ltb q (length next) ≡ true = ground arith in
          let up : q + 1 ≡ suc q = omega arith in
          let kept : length (set next q v) ≡ length next = length-set next q v in
          rw (e, ev, test, up)
            (fill-fault rounds pattern (set next q v) (suc q) v (omega arith) (omega arith)
              (omega arith) (IsTable-set pattern next q v more table b') b')
      | no full ↦ let test : ltb q (length next) ≡ false = ground arith in rw (e, ev, test)
    ]

make_next-fault :
    (pattern next : List ℕ)
    → 0 < length next
    → length next < length pattern
    → make_next pattern next ≡ fault
unfolding make_next
make_next-fault pattern next some_entry past =
    let test : ltb 0 (length next) ≡ true = ground arith in
    let kept : length (set next 0 0) ≡ length next = length-set next 0 0 in
    rw test (
      fill-fault (length pattern - 1) pattern (set next 0 0) 1 0 (omega arith) (omega arith)
        (omega arith)
        (IsTable-set pattern next 0 0 some_entry (λ i h. absurd (omega arith))
          (first-IsBorder pattern))
        (first-IsBorder pattern))

-- With any pattern of more than 20 bytes the search writes outside its table, whatever the text.
pub kmp-fault : (text pattern : List ℕ) → next_size < length pattern → kmp text pattern ≡ fault
unfolding kmp
kmp-fault text pattern long =
    let size = length-replicate next_size (let z : ℕ = 0 in z) in
    rw (make_next-fault pattern (replicate next_size 0) (omega arith) (omega (arith, size)))
