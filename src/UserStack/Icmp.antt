-- ===== src/UserStack/Icmp.antt =====
-- 5_userspace_stack/udp_icmp_arp_stack.c: icmp_process answers a ping with its data, the addresses
-- exchanged and a checksum that verifies.
pub mod Swapped
pub mod Checked
use personal_c_cpp_back_end.Base.{
  ℕ, ◌+◌, ◌*◌, ◌/◌, ◌%◌, ◌≤◌, ◌<◌, ◌≡◌, refl, ap, ◌∙◌, true, List, [], ◌∷◌, ◌++◌, ok, fault,
  Returns, Returns-bind, length, ◌==◌, get_or, arith,
}
use personal_c_cpp_back_end.Bytes.{
  slice, splice, load-ok, load-fault, store-ok, length-slice, slice-slice, slice_add, length-splice,
  slice-splice_same, slice-splice_before, slice-splice_after,
}
use personal_c_cpp_back_end.Bytes.Writes.{
  Writes, written, AllWithin, AllApart, Final, store_all-written, length-written,
  slice-written_apart, slice-written-Final,
}
use personal_c_cpp_back_end.UserStack.{
  copy, icmp_ping_packet_size, icmp_ping_header_size, icmp_datalen, ping_swapped, ping_checked,
  icmp_process, load_u8, load_be16,
}
use personal_c_cpp_back_end.UserStack.Checksum.{in_cksum}
use personal_c_cpp_back_end.UserStack.Checksum.Verify.{
  IsBytes, IsBytes-slice, IsBytes-get_or, max_message, in_cksum_verifies,
}
use personal_c_cpp_back_end.UserStack.Mac.{eth_len}
use personal_c_cpp_back_end.UserStack.At
use personal_c_cpp_back_end.UserStack.Icmp.Swapped.{swapped, ping_swapped-swapped}
use personal_c_cpp_back_end.UserStack.Icmp.Checked.{IsPingReply, ping_checked-IsPingReply}

abbrev pub total_len_of : List ℕ → ℕ
total_len_of stream =
    256 * get_or (slice At.ip_total_len 2 stream) 0 0 + get_or (slice At.ip_total_len 2 stream) 1 0

abbrev pub header_len_of : List ℕ → ℕ
header_len_of stream = get_or (slice At.ip_header_len 1 stream) 0 0 % 16

abbrev pub type_of : List ℕ → ℕ
type_of stream = get_or (slice At.icmp_type 1 stream) 0 0

-- A frame that is a ping whose lengths agree with one another and with the buffer.
pub record IsPing (stream : List ℕ) (n : ℕ) : Type 0 where
  pub bytes : IsBytes stream
  pub type : type_of stream ≡ 8
  pub lengths : header_len_of stream * 4 + icmp_ping_header_size + n ≡ total_len_of stream
  pub inside : icmp_ping_packet_size + n ≤ length stream

datalen-eq :
    (total header n : ℕ)
    → header * 4 + icmp_ping_header_size + n ≡ total
    → total < 65536
    → icmp_datalen total header ≡ n
unfolding icmp_datalen
datalen-eq total header n e small = omega arith

-- A ping with `n` bytes of data, if malloc succeeds, is answered by one frame: addresses exchanged,
-- an echo reply with the data and identifiers of the request, and a checksum that verifies.
pub icmp_process-IsPingReply :
    (stream : List ℕ) (n : ℕ)
    → IsPing stream n
    → Returns (icmp_process true stream) λ r.
      (r.success ≡ true) × ((frame : List ℕ) × (r.sent ≡ frame ∷ []) × IsPingReply stream n frame)
unfolding icmp_process load_be16 load_u8
icmp_process-IsPingReply stream n ping =
    let room : 42 ≤ length stream = omega (arith, ping.inside) in
    let high = IsBytes-get_or _ 0 (IsBytes-slice At.ip_total_len 2 stream ping.bytes) in
    let low = IsBytes-get_or _ 1 (IsBytes-slice At.ip_total_len 2 stream ping.bytes) in
    let test : (type_of stream == 8) ≡ true = ground (arith, ping.type) in
    rw
      (
        load-ok At.ip_total_len 2 stream (omega arith),
        load-ok At.ip_header_len 1 stream (omega arith),
        load-ok At.icmp_type 1 stream (omega arith),
        test,
        datalen-eq (total_len_of stream) (header_len_of stream) n ping.lengths
            (omega (arith, high, low)),
        ping_swapped-swapped stream n ping.inside,
      )
      (Returns-bind _ (ping_checked n (swapped stream n)) _
        (ping_checked-IsPingReply stream n ping.inside ping.bytes
          (omega (arith, ping.lengths, high, low)))
        λ frame reply. (refl, (frame, refl, reply)))

overread :
    (stream : List ℕ) (n : ℕ)
    → length stream < icmp_ping_packet_size + n
    → ping_swapped n stream ≡ fault
unfolding ping_swapped
overread stream n long = rw (load-fault 0 (icmp_ping_packet_size + n) stream (omega arith))

-- A ping whose lengths claim more data than the buffer holds, or too little for its own header, so
-- that the length wraps round, makes icmp_process read behind the buffer.
pub icmp_process-fault :
    (stream : List ℕ)
    → icmp_ping_packet_size ≤ length stream
    → type_of stream ≡ 8
    → length stream
      < icmp_ping_packet_size + icmp_datalen (total_len_of stream) (header_len_of stream)
    → icmp_process true stream ≡ fault
unfolding icmp_process load_be16 load_u8
icmp_process-fault stream room type long =
    let test : (type_of stream == 8) ≡ true = ground arith in
    rw
      (
        load-ok At.ip_total_len 2 stream (omega arith),
        load-ok At.ip_header_len 1 stream (omega arith),
        load-ok At.icmp_type 1 stream (omega arith),
        test,
      )
      (rw (overread stream (icmp_datalen (total_len_of stream) (header_len_of stream)) long))
