-- ===== src/UserStack/Udp.antt =====
-- udp_process ends the payload with a 0 byte, wherever the length field of the packet says it ends.
use personal_c_cpp_back_end.Base.{
  ℕ, ◌+◌, ◌-◌, ◌*◌, ◌%◌, ◌^◌, ◌≤◌, ◌<◌, ◌≡◌, List, [], ◌∷◌, ok, fault, length, get_or, arith,
}
use personal_c_cpp_back_end.Bytes.{slice, splice, load-ok, store-ok, store-fault}
use personal_c_cpp_back_end.UserStack.{udp_process, load_be16}
use personal_c_cpp_back_end.UserStack.Checksum.Verify.{IsBytes, IsBytes-slice, IsBytes-get_or}
use personal_c_cpp_back_end.UserStack.At

abbrev pub length_of : List ℕ → ℕ
length_of stream =
    256 * get_or (slice At.udp_length 2 stream) 0 0 + get_or (slice At.udp_length 2 stream) 1 0

-- A buffer that holds the headers of a UDP packet.
pub record IsUdp (stream : List ℕ) : Type 0 where
  pub bytes : IsBytes stream
  pub headers : At.udp_payload ≤ length stream

-- The byte that the length field names as the one behind the packet becomes 0 and nothing else changes,
-- if that byte lies in the buffer, also when the length field is below 8 and the byte is one of the UDP
-- header; otherwise the write is outside the buffer.
pub udp_process_lem :
    (stream : List ℕ)
    → IsUdp stream
    → (34 + length_of stream < length stream
        → udp_process stream ≡ ok (splice (34 + length_of stream) (0 ∷ []) stream))
      × (length stream ≤ 34 + length_of stream → udp_process stream ≡ fault)
unfolding udp_process load_be16
udp_process_lem stream udp =
    let room : At.udp_length + 2 ≤ length stream = omega (arith, udp.headers) in
    rw (load-ok At.udp_length 2 stream room, place)
      (
        (λ fits. store-ok (34 + length_of stream) (0 ∷ []) stream (omega arith)),
        (λ past. store-fault (34 + length_of stream) (0 ∷ []) stream (omega arith)),
      )
  where
    high : get_or (slice At.udp_length 2 stream) 0 0 < 256
    high = IsBytes-get_or _ 0 (IsBytes-slice At.udp_length 2 stream udp.bytes)

    low : get_or (slice At.udp_length 2 stream) 1 0 < 256
    low = IsBytes-get_or _ 1 (IsBytes-slice At.udp_length 2 stream udp.bytes)

    place :
        (At.udp_payload + (length_of stream + 2 ^ 64 - 8) % 2 ^ 64) % 2 ^ 64 ≡ 34 + length_of stream
    place = omega (arith, high, low)
