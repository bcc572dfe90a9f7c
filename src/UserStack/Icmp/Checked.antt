-- ===== src/UserStack/Icmp/Checked.antt =====
-- 5_userspace_stack/udp_icmp_arp_stack.c: the answer to a ping, with its checksum set.
use personal_c_cpp_back_end.Base.{
  ℕ, ◌+◌, ◌/◌, ◌%◌, ◌≤◌, ◌≡◌, refl, ap, ◌∙◌, List, [], ◌∷◌, ok, Returns, Returns-bind, length,
  arith,
}
use personal_c_cpp_back_end.Bytes.{
  slice, splice, load-ok, store-ok, length-slice, slice_add, length-splice, slice-splice_same,
  slice-splice_before, slice-splice_after,
}
use personal_c_cpp_back_end.UserStack.{icmp_ping_packet_size, icmp_ping_header_size, ping_checked}
use personal_c_cpp_back_end.UserStack.Checksum.{in_cksum}
use personal_c_cpp_back_end.UserStack.Checksum.Verify.{
  IsBytes, IsBytes-slice, max_message, in_cksum_verifies,
}
use personal_c_cpp_back_end.UserStack.Mac.{eth_len}
use personal_c_cpp_back_end.UserStack.At
use personal_c_cpp_back_end.UserStack.Icmp.Swapped.{
  swaps, swapped, src_ip_there, dst_ip_there, src_mac_there, dst_mac_there, swapped_size, final,
  kept, swapped_type, swapped_code, swapped_rest, swapped_message, message_parts,
}

-- The frame that answers the ping in `stream` with `n` bytes of data.
pub record IsPingReply (stream : List ℕ) (n : ℕ) (frame : List ℕ) : Type 0 where
  pub size : length frame ≡ icmp_ping_packet_size + n
  pub to_sender : slice At.eth_dst_mac eth_len frame ≡ slice At.eth_src_mac eth_len stream
  pub from_host : slice At.eth_src_mac eth_len frame ≡ slice At.eth_dst_mac eth_len stream
  pub header : slice At.eth_proto 14 frame ≡ slice At.eth_proto 14 stream
  pub src_ip : slice At.ip_src_ip 4 frame ≡ slice At.ip_dst_ip 4 stream
  pub dst_ip : slice At.ip_dst_ip 4 frame ≡ slice At.ip_src_ip 4 stream
  pub echo_reply : slice At.icmp_type 2 frame ≡ 0 ∷ 0 ∷ []
  pub message : slice 38 (4 + n) frame ≡ slice 38 (4 + n) stream
  pub verifies : in_cksum (slice At.icmp_type (icmp_ping_header_size + n) frame) ≡ ok 0

module _ (stream : List ℕ) (n : ℕ) (whole : icmp_ping_packet_size + n ≤ length stream) where
  module _ (c : ℕ) where
    checked : List ℕ
    checked = splice At.icmp_check_sum (c % 256 ∷ c / 256 ∷ []) (swapped stream n)

    there : At.icmp_check_sum + 2 ≤ length (swapped stream n)
    there = omega (arith, (swapped_size stream n whole))

    before :
        (p m : ℕ) → p + m ≤ At.icmp_check_sum → slice p m checked ≡ slice p m (swapped stream n)
    unfolding checked
    before = slice-splice_before At.icmp_check_sum (c % 256 ∷ c / 256 ∷ []) (swapped stream n) there

    after : (p m : ℕ) → At.icmp_check_sum + 2 ≤ p → slice p m checked ≡ slice p m (swapped stream n)
    unfolding checked
    after = slice-splice_after At.icmp_check_sum (c % 256 ∷ c / 256 ∷ []) (swapped stream n) there

    stored : slice At.icmp_check_sum 2 checked ≡ c % 256 ∷ c / 256 ∷ []
    unfolding checked
    stored = slice-splice_same At.icmp_check_sum (c % 256 ∷ c / 256 ∷ []) (swapped stream n) there

    checked_message :
        slice At.icmp_type (icmp_ping_header_size + n) checked
        ≡ 0 ∷ 0 ∷ c % 256 ∷ c / 256 ∷ slice 38 (4 + n) stream
    checked_message =
        message_parts n checked
        ∙ rw (
          before At.icmp_type 1 (omega arith),
          before At.icmp_code 1 (omega arith),
          stored,
          after 38 (4 + n) (omega arith),
          (swapped_type stream n whole),
          (swapped_code stream n whole),
          (swapped_rest stream n whole),
        )

    checked-IsPingReply :
        in_cksum (0 ∷ 0 ∷ c % 256 ∷ c / 256 ∷ slice 38 (4 + n) stream) ≡ ok 0
        → IsPingReply stream n checked
    unfolding swaps
    checked-IsPingReply verifies = record {
      size =
          unfold checked in
          (length-splice At.icmp_check_sum (c % 256 ∷ c / 256 ∷ []) (swapped stream n) there
            ∙ (swapped_size stream n whole));
      to_sender =
          before At.eth_dst_mac eth_len (omega arith)
          ∙ final stream n whole 5 At.eth_dst_mac eth_len _ (src_mac_there stream n whole)
              (refl, refl, omega (arith, (dst_mac_there stream n whole)));
      from_host =
          before At.eth_src_mac eth_len (omega arith)
          ∙ final stream n whole 6 At.eth_src_mac eth_len _ (dst_mac_there stream n whole)
              (refl, refl, tt);
      header =
          before At.eth_proto 14 (omega arith)
          ∙ kept stream n whole At.eth_proto 14 (omega arith) (
              omega (
                arith,
                (src_ip_there stream n whole),
                (dst_ip_there stream n whole),
                (src_mac_there stream n whole),
                (dst_mac_there stream n whole),
              ));
      src_ip =
          before At.ip_src_ip 4 (omega arith)
          ∙ final stream n whole 4 At.ip_src_ip 4 _ (dst_ip_there stream n whole) (
            refl,
            refl,
            omega (arith, (src_mac_there stream n whole), (dst_mac_there stream n whole)),
          );
      dst_ip =
          before At.ip_dst_ip 4 (omega arith)
          ∙ final stream n whole 3 At.ip_dst_ip 4 _ (src_ip_there stream n whole) (
            refl,
            refl,
            omega (
              arith,
              (dst_ip_there stream n whole),
              (src_mac_there stream n whole),
              (dst_mac_there stream n whole),
            ),
          );
      echo_reply =
          slice_add At.icmp_type 1 1 checked
          ∙ rw (
            before At.icmp_type 1 (omega arith),
            before At.icmp_code 1 (omega arith),
            (swapped_type stream n whole),
            (swapped_code stream n whole),
          );
      message = after 38 (4 + n) (omega arith) ∙ (swapped_rest stream n whole);
      verifies = ap in_cksum checked_message ∙ verifies;
    }

  pub ping_checked-IsPingReply :
      IsBytes stream
      → icmp_ping_header_size + n ≤ max_message
      → Returns (ping_checked n (swapped stream n)) (IsPingReply stream n)
  unfolding ping_checked checked
  ping_checked-IsPingReply bytes short =
      let size = length-slice 38 (4 + n) stream (omega arith) in
      let verified =
        in_cksum_verifies 0 0 (slice 38 (4 + n) stream)
          (
            omega arith,
            (omega arith, (omega arith, (omega arith, IsBytes-slice 38 (4 + n) stream bytes))),
          )
          (omega (arith, size)) in
      rw
        (
          load-ok At.icmp_type (icmp_ping_header_size + n) (swapped stream n)
              (omega (arith, (swapped_size stream n whole))),
          (swapped_message stream n whole),
        )
        (Returns-bind (IsPingReply stream n) (in_cksum (0 ∷ 0 ∷ 0 ∷ 0 ∷ slice 38 (4 + n) stream)) _
          verified
          λ c (small, zero_sum).
            rw (store-ok At.icmp_check_sum (c % 256 ∷ c / 256 ∷ []) (swapped stream n) (there c))
              (checked-IsPingReply c zero_sum))
