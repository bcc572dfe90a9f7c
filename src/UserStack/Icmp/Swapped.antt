-- ===== src/UserStack/Icmp/Swapped.antt =====
-- 5_userspace_stack/udp_icmp_arp_stack.c: the copy of a ping in which icmp_process has exchanged the
-- addresses and cleared the checksum.
use personal_c_cpp_back_end.Base.{
  ℕ, ◌+◌, ◌≤◌, ◌≡◌, refl, ap, ◌∙◌, List, [], ◌∷◌, ◌++◌, ok, length, arith,
}
use personal_c_cpp_back_end.Bytes.{slice, load-ok, length-slice, slice-slice, slice_add}
use personal_c_cpp_back_end.Bytes.Writes.{
  Writes, written, AllWithin, AllApart, Final, store_all-written, length-written,
  slice-written_apart, slice-written-Final,
}
use personal_c_cpp_back_end.UserStack.{
  copy, icmp_ping_packet_size, icmp_ping_header_size, ping_swapped,
}
use personal_c_cpp_back_end.UserStack.Mac.{eth_len}
use personal_c_cpp_back_end.UserStack.At

module _ (stream : List ℕ) (n : ℕ) where
  unfoldable pub swaps : Writes
  swaps =
      (At.icmp_code, 0 ∷ [])
      ∷ (At.icmp_type, 0 ∷ [])
      ∷ (At.icmp_check_sum, 0 ∷ 0 ∷ [])
      ∷ (At.ip_dst_ip, slice At.ip_src_ip 4 stream)
      ∷ (At.ip_src_ip, slice At.ip_dst_ip 4 stream)
      ∷ (At.eth_dst_mac, slice At.eth_src_mac eth_len stream)
      ∷ (At.eth_src_mac, slice At.eth_dst_mac eth_len stream)
      ∷ []

  pub base : List ℕ
  base = slice 0 (icmp_ping_packet_size + n) stream

  -- The frame before its checksum is set.
  pub swapped : List ℕ
  swapped = written swaps base

-- The ICMP message of a frame: type, code, checksum and what the sender chose.
pub message_parts :
    (n : ℕ) (frame : List ℕ)
    → slice At.icmp_type (icmp_ping_header_size + n) frame
      ≡ slice At.icmp_type 1 frame
        ++ (slice At.icmp_code 1 frame
            ++ (slice At.icmp_check_sum 2 frame ++ slice 38 (4 + n) frame))
message_parts n frame =
    let e : icmp_ping_header_size + n ≡ 1 + (1 + (2 + (4 + n))) = omega arith in
    rw e (
      slice_add At.icmp_type 1 (1 + (2 + (4 + n))) frame
      ∙ ap (λ t. slice At.icmp_type 1 frame ++ t)
          (slice_add At.icmp_code 1 (2 + (4 + n)) frame
            ∙ ap (λ t. slice At.icmp_code 1 frame ++ t)
                (slice_add At.icmp_check_sum 2 (4 + n) frame)))

module _ (stream : List ℕ) (n : ℕ) (whole : icmp_ping_packet_size + n ≤ length stream) where
  pub src_ip_there : length (slice At.ip_src_ip 4 stream) ≡ 4
  src_ip_there = length-slice At.ip_src_ip 4 stream (omega arith)

  pub dst_ip_there : length (slice At.ip_dst_ip 4 stream) ≡ 4
  dst_ip_there = length-slice At.ip_dst_ip 4 stream (omega arith)

  pub src_mac_there : length (slice At.eth_src_mac eth_len stream) ≡ eth_len
  src_mac_there = length-slice At.eth_src_mac eth_len stream (omega arith)

  pub dst_mac_there : length (slice At.eth_dst_mac eth_len stream) ≡ eth_len
  dst_mac_there = length-slice At.eth_dst_mac eth_len stream (omega arith)

  base_size : length (base stream n) ≡ icmp_ping_packet_size + n
  unfolding base
  base_size = length-slice 0 (icmp_ping_packet_size + n) stream (omega arith)

  within : AllWithin (icmp_ping_packet_size + n) (swaps stream n)
  unfolding swaps
  within = omega (arith, src_ip_there, dst_ip_there, src_mac_there, dst_mac_there)

  pub ping_swapped-swapped : ping_swapped n stream ≡ ok (swapped stream n)
  unfolding ping_swapped swaps copy base swapped
  ping_swapped-swapped =
      rw
        (
          load-ok 0 (icmp_ping_packet_size + n) stream (omega arith),
          load-ok At.ip_src_ip 4 stream (omega arith),
          load-ok At.ip_dst_ip 4 stream (omega arith),
          load-ok At.eth_src_mac eth_len stream (omega arith),
          load-ok At.eth_dst_mac eth_len stream (omega arith),
        )
        (store_all-written (swaps stream n) (base stream n) (icmp_ping_packet_size + n) base_size
          within)

  pub swapped_size : length (swapped stream n) ≡ icmp_ping_packet_size + n
  unfolding swapped
  swapped_size =
      length-written (swaps stream n) (base stream n) (icmp_ping_packet_size + n) base_size within

  pub final :
      (k p m : ℕ) (bs : List ℕ)
      → length bs ≡ m
      → Final k p m bs (swaps stream n)
      → slice p m (swapped stream n) ≡ bs
  unfolding swapped
  final k p m bs width f =
      slice-written-Final k p m bs (swaps stream n) (base stream n) (icmp_ping_packet_size + n)
        width base_size within f

  pub kept :
      (p m : ℕ)
      → p + m ≤ icmp_ping_packet_size + n
      → AllApart p m (swaps stream n)
      → slice p m (swapped stream n) ≡ slice p m stream
  unfolding swapped base
  kept p m inside apart =
      slice-written_apart (swaps stream n) (base stream n) (icmp_ping_packet_size + n) p m base_size
        within apart
      ∙ slice-slice p m (icmp_ping_packet_size + n) stream inside

  pub swapped_type : slice At.icmp_type 1 (swapped stream n) ≡ 0 ∷ []
  unfolding swaps
  swapped_type =
      final 1 At.icmp_type 1 _ refl
        (refl, refl, omega (arith, src_ip_there, dst_ip_there, src_mac_there, dst_mac_there))

  pub swapped_code : slice At.icmp_code 1 (swapped stream n) ≡ 0 ∷ []
  unfolding swaps
  swapped_code =
      final 0 At.icmp_code 1 _ refl
        (refl, refl, omega (arith, src_ip_there, dst_ip_there, src_mac_there, dst_mac_there))

  swapped_check_sum : slice At.icmp_check_sum 2 (swapped stream n) ≡ 0 ∷ 0 ∷ []
  unfolding swaps
  swapped_check_sum =
      final 2 At.icmp_check_sum 2 _ refl
        (refl, refl, omega (arith, src_ip_there, dst_ip_there, src_mac_there, dst_mac_there))

  pub swapped_rest : slice 38 (4 + n) (swapped stream n) ≡ slice 38 (4 + n) stream
  unfolding swaps
  swapped_rest =
      kept 38 (4 + n) (omega arith)
        (omega (arith, src_ip_there, dst_ip_there, src_mac_there, dst_mac_there))

  pub swapped_message :
      slice At.icmp_type (icmp_ping_header_size + n) (swapped stream n)
      ≡ 0 ∷ 0 ∷ 0 ∷ 0 ∷ slice 38 (4 + n) stream
  swapped_message =
      message_parts n (swapped stream n)
      ∙ rw (swapped_type, swapped_code, swapped_check_sum, swapped_rest)
