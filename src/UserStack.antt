-- ===== src/UserStack.antt =====
-- 5_userspace_stack/udp_icmp_arp_stack.c: answers to ARP requests and pings over raw frames. A frame
-- is the list of the bytes in the receive buffer; the packed structs are read and written at their
-- offsets. What the code prints is left out; what it sends is part of the result.
pub mod At
pub mod Checksum
pub mod Mac
pub mod Arp
pub mod Icmp
pub mod Udp
pub mod Tests
use personal_c_cpp_back_end.Base.{
  ℕ, ◌+◌, ◌-◌, ◌*◌, ◌/◌, ◌%◌, ◌^◌, Bool, true, false, not, ◌&&◌, Option, none, some, List, [], ◌∷◌,
  ◌++◌, Run, ok, fault, ◌>>=◌, ◌>>◌, require, ◌==◌, if◌then◌else◌, get_or, length, replicate,
}
use personal_c_cpp_back_end.Bytes.{load, store}
use Checksum.{in_cksum}
use Mac.{str2mac, eth_len}

-- sizeof(struct arp_packet), sizeof(struct icmp_ping_packet), sizeof(struct icmp_ping_header).
abbrev pub arp_packet_size : ℕ
arp_packet_size = 42

abbrev pub icmp_ping_packet_size : ℕ
icmp_ping_packet_size = 42

abbrev pub icmp_ping_header_size : ℕ
icmp_ping_header_size = 8

-- One byte, and ntohs of the 16-bit field at `o`.
pub load_u8 : ℕ → List ℕ → Run ℕ
load_u8 o s = load o 1 s >>= λ bs. ok (get_or bs 0 0)

pub load_be16 : ℕ → List ℕ → Run ℕ
load_be16 o s = load o 2 s >>= λ bs. ok (256 * get_or bs 0 0 + get_or bs 1 0)

-- What a handler returns (`false` for -1) and the frames that it injects.
pub record Result : Type 0 where
  pub success : Bool
  pub sent : List (List ℕ)

abbrev pub result : Bool → List (List ℕ) → Result
result b frames = record { success = b; sent = frames }

-- memcpy(to, from, n) between two fields of buffers.
pub copy : ℕ → List ℕ → ℕ → ℕ → List ℕ → Run (List ℕ)
copy o from n to_offset to = load o n from >>= λ bs. store to_offset bs to

-- The reply that arp_process builds in `arp_ack` from the request in `stream`.
pub arp_reply : List ℕ → List ℕ → List ℕ → Run (List ℕ)
unfolding copy
arp_reply localmac localip stream = do
  ack ← load 0 arp_packet_size stream
  ack ← copy At.arp_src_mac stream eth_len At.arp_dst_mac ack
  ack ← copy At.arp_src_ip stream 4 At.arp_dst_ip ack
  ack ← copy At.arp_src_mac stream eth_len At.eth_dst_mac ack
  ack ← store At.arp_src_mac localmac ack
  ack ← store At.arp_src_ip localip ack
  ack ← store At.eth_src_mac localmac ack
  ack ← store At.arp_op (0 ∷ 2 ∷ []) ack
  ok ack

-- "00:0c:29:ef:e2:3b"
abbrev pub self_mac : List ℕ
self_mac =
    b'0' ∷ b'0' ∷ b':' ∷ b'0' ∷ b'c' ∷ b':' ∷ b'2' ∷ b'9' ∷ b':' ∷ b'e' ∷ b'f' ∷ b':' ∷ b'e' ∷ b'2'
    ∷ b':' ∷ b'3' ∷ b'b' ∷ []

-- Two 32-bit fields are equal if their bytes are.
pub same_bytes : List ℕ → List ℕ → Bool
same_bytes [] [] = true
same_bytes (a ∷ xs) (b ∷ ys) = (a == b) && same_bytes xs ys
same_bytes _ _ = false

-- `localip` is inet_addr(SELF_IP), `localmac` the contents of the local buffer before str2mac.
pub arp_process : (localip localmac stream : List ℕ) → Run Result
unfolding load_be16 same_bytes
arp_process localip localmac stream = do
  op ← load_be16 At.arp_op stream
  dst_ip ← load At.arp_dst_ip 4 stream
  let mac = (str2mac localmac self_mac).0
  let answer = (arp_reply mac localip stream >>= λ ack. ok (result true (ack ∷ [])))
  if not (same_bytes dst_ip localip)
      then ok (result false [])
      else if op == 1
      then answer
      else ok (result false [])

-- The lengths of icmp_process are _u16: icmp_len, then the length of the data behind the header.
unfoldable pub icmp_datalen : ℕ → ℕ → ℕ
icmp_datalen total_len header_len =
    let icmp_len = (total_len + 65536 - header_len * 4) % 65536 in
    (icmp_len + 65536 - icmp_ping_header_size) % 65536

-- The copy of the request that icmp_process turns into the answer, before its checksum is set.
pub ping_swapped : ℕ → List ℕ → Run (List ℕ)
unfolding copy
ping_swapped datalen stream = do
  ack ← load 0 (icmp_ping_packet_size + datalen) stream
  ack ← store At.icmp_code (0 ∷ []) ack
  ack ← store At.icmp_type (0 ∷ []) ack
  ack ← store At.icmp_check_sum (0 ∷ 0 ∷ []) ack
  ack ← copy At.ip_src_ip stream 4 At.ip_dst_ip ack
  ack ← copy At.ip_dst_ip stream 4 At.ip_src_ip ack
  ack ← copy At.eth_src_mac stream eth_len At.eth_dst_mac ack
  ack ← copy At.eth_dst_mac stream eth_len At.eth_src_mac ack
  ok ack

-- checkSum = in_cksum(&icmp_ping, sizeof(struct icmp_ping_header) + icmp_datalen), stored in the host's
-- byte order.
pub ping_checked : ℕ → List ℕ → Run (List ℕ)
ping_checked datalen ack = do
  message ← load At.icmp_type (icmp_ping_header_size + datalen) ack
  c ← in_cksum message
  store At.icmp_check_sum (c % 256 ∷ c / 256 ∷ []) ack

-- `memory`: malloc returned a buffer.
pub icmp_process : (memory : Bool) (stream : List ℕ) → Run Result
unfolding load_u8 load_be16 icmp_datalen ping_swapped ping_checked
icmp_process memory stream = do
  total_len ← load_be16 At.ip_total_len stream
  version_len ← load_u8 At.ip_header_len stream
  let datalen = icmp_datalen total_len (version_len % 16)
  type ← load_u8 At.icmp_type stream
  let answer = (do
    ack ← ping_swapped datalen stream
    ack ← ping_checked datalen ack
    ok (result true (ack ∷ [])))
  if type == 8 then (if memory then answer else ok (result false [])) else ok (result true [])

-- payload[length - sizeof(struct udp_header)] = '\0': the index is a size_t, and addresses have 64 bits.
pub udp_process : List ℕ → Run (List ℕ)
unfolding load_be16
udp_process stream = do
  len ← load_be16 At.udp_length stream
  store ((At.udp_payload + (len + 2 ^ 64 - 8) % 2 ^ 64) % 2 ^ 64) (0 ∷ []) stream

-- ip_process: the switch on the protocol, IPPROTO_UDP or IPPROTO_ICMP.
pub ip_process : (memory : Bool) (stream : List ℕ) → Run Result
unfolding load_u8
ip_process memory stream = do
  proto ← load_u8 At.ip_proto stream
  let udp = (udp_process stream >>= λ _. ok (result true []))
  let icmp = (icmp_process memory stream >>= λ r. ok (result true r.sent))
  if proto == 17 then udp else if proto == 1 then icmp else ok (result true [])

-- The body of the loop of main for one frame: the frames that it sends.
pub handle_frame : (memory : Bool) (localip localmac stream : List ℕ) → Run (List (List ℕ))
unfolding load_be16
handle_frame memory localip localmac stream = do
  proto ← load_be16 At.eth_proto stream
  let ip = (ip_process memory stream >>= λ r. ok r.sent)
  let arp = (arp_process localip localmac stream >>= λ r. ok r.sent)
  if proto == 0x0800 then ip else if proto == 0x0806 then arp else ok []
