-- ===== src/UserStack/Arp.antt =====
-- arp_process answers a request for the address of this host, and nothing else.
use personal_c_cpp_back_end.Base.{
  ℕ, ◌+◌, ◌*◌, ◌≤◌, ◌≡◌, ◌≢◌, refl, ◌∙◌, ◌⊎◌, inl, inr, true, false, List, [], ◌∷◌, ok, ◌>>=◌,
  Returns, Returns-bind, Bool-cases, length, ◌==◌, if◌then◌else◌, get_or, ℕ_discrete, arith,
}
use personal_c_cpp_back_end.Bytes.{slice, slice-slice, length-slice, load-ok}
use personal_c_cpp_back_end.Bytes.Writes.{
  Writes, written, AllWithin, store_all-written, length-written, slice-written_apart,
  slice-written-Final, Final,
}
use personal_c_cpp_back_end.UserStack.{
  Result, result, copy, arp_packet_size, arp_reply, self_mac, same_bytes, arp_process, load_be16,
}
use personal_c_cpp_back_end.UserStack.Mac.{str2mac, str2mac_from, eth_len}
use personal_c_cpp_back_end.UserStack.At

module _ (localmac localip stream : List ℕ) where
  reply_writes : Writes
  reply_writes =
      (At.arp_dst_mac, slice At.arp_src_mac eth_len stream)
      ∷ (At.arp_dst_ip, slice At.arp_src_ip 4 stream)
      ∷ (At.eth_dst_mac, slice At.arp_src_mac eth_len stream)
      ∷ (At.arp_src_mac, localmac)
      ∷ (At.arp_src_ip, localip)
      ∷ (At.eth_src_mac, localmac)
      ∷ (At.arp_op, 0 ∷ 2 ∷ [])
      ∷ []

  -- The frame that answers the request in `stream`.
  pub record IsArpReply (frame : List ℕ) : Type 0 where
    pub size : length frame ≡ arp_packet_size
    pub to_sender : slice At.eth_dst_mac eth_len frame ≡ slice At.arp_src_mac eth_len stream
    pub from_host : slice At.eth_src_mac eth_len frame ≡ localmac
    pub kinds : slice At.eth_proto 8 frame ≡ slice At.eth_proto 8 stream
    pub op : slice At.arp_op 2 frame ≡ 0 ∷ 2 ∷ []
    pub src_mac : slice At.arp_src_mac eth_len frame ≡ localmac
    pub src_ip : slice At.arp_src_ip 4 frame ≡ localip
    pub dst_mac : slice At.arp_dst_mac eth_len frame ≡ slice At.arp_src_mac eth_len stream
    pub dst_ip : slice At.arp_dst_ip 4 frame ≡ slice At.arp_src_ip 4 stream

module _ (localmac localip stream : List ℕ) (mac_size : length localmac ≡ eth_len)
    (ip_size : length localip ≡ 4) (whole : arp_packet_size ≤ length stream) where
  mac_there : length (slice At.arp_src_mac eth_len stream) ≡ eth_len
  mac_there = length-slice At.arp_src_mac eth_len stream (omega arith)

  ip_there : length (slice At.arp_src_ip 4 stream) ≡ 4
  ip_there = length-slice At.arp_src_ip 4 stream (omega arith)

  base : List ℕ
  base = slice 0 arp_packet_size stream

  base_size : length base ≡ arp_packet_size
  unfolding base
  base_size = length-slice 0 arp_packet_size stream (omega arith)

  within : AllWithin arp_packet_size (reply_writes localmac localip stream)
  unfolding reply_writes
  within = omega (arith, mac_there, ip_there)

  arp_reply-written :
      arp_reply localmac localip stream ≡ ok (written (reply_writes localmac localip stream) base)
  unfolding arp_reply reply_writes copy base
  arp_reply-written =
      rw
        (
          load-ok 0 arp_packet_size stream (omega arith),
          load-ok At.arp_src_mac eth_len stream (omega arith),
          load-ok At.arp_src_ip 4 stream (omega arith),
        )
        (store_all-written (reply_writes localmac localip stream) (slice 0 arp_packet_size stream)
          arp_packet_size base_size within)

  final :
      (k p n : ℕ) (bs : List ℕ)
      → length bs ≡ n
      → Final k p n bs (reply_writes localmac localip stream)
      → slice p n (written (reply_writes localmac localip stream) base) ≡ bs
  final k p n bs width f =
      slice-written-Final k p n bs (reply_writes localmac localip stream) base arp_packet_size width
        base_size within f

  pub arp_reply-IsArpReply :
      Returns (arp_reply localmac localip stream) (IsArpReply localmac localip stream)
  unfolding reply_writes base
  arp_reply-IsArpReply = rw arp_reply-written (record {
    size =
        length-written (reply_writes localmac localip stream) base arp_packet_size base_size within;
    to_sender =
        final 2 At.eth_dst_mac eth_len _ mac_there (refl, refl, omega (arith, mac_size, ip_size));
    from_host = final 5 At.eth_src_mac eth_len _ mac_size (refl, refl, omega arith);
    kinds =
        slice-written_apart (reply_writes localmac localip stream) base arp_packet_size At.eth_proto
          8 base_size within (omega (arith, mac_there, ip_there))
        ∙ slice-slice At.eth_proto 8 arp_packet_size stream (omega arith);
    op = final 6 At.arp_op 2 _ refl (refl, refl, tt);
    src_mac = final 3 At.arp_src_mac eth_len _ mac_size (refl, refl, omega arith);
    src_ip = final 4 At.arp_src_ip 4 _ ip_size (refl, refl, omega arith);
    dst_mac =
        final 0 At.arp_dst_mac eth_len _ mac_there (refl, refl, omega (arith, mac_there, ip_there));
    dst_ip = final 1 At.arp_dst_ip 4 _ ip_there (refl, refl, omega (arith, mac_there, ip_there));
  })

-- The MAC address of this host.
abbrev pub host_mac : List ℕ
host_mac = 0x00 ∷ 0x0c ∷ 0x29 ∷ 0xef ∷ 0xe2 ∷ 0x3b ∷ []

str2mac_self : (u v w x y z : ℕ) → (str2mac (u ∷ v ∷ w ∷ x ∷ y ∷ z ∷ []) self_mac).0 ≡ host_mac
unfolding str2mac str2mac_from
str2mac_self u v w x y z = refl

str2mac-self_mac :
    (buffer : List ℕ) → length buffer ≡ eth_len → (str2mac buffer self_mac).0 ≡ host_mac
str2mac-self_mac (u ∷ v ∷ w ∷ x ∷ y ∷ z ∷ []) size = str2mac_self u v w x y z
str2mac-self_mac _ size = absurd (omega arith)

same_bytes_self : (s : List ℕ) → same_bytes s s ≡ true
unfolding same_bytes
same_bytes_self [] = refl
same_bytes_self (x ∷ s) = ground (arith, same_bytes_self s)

eq_of_same_bytes : (s t : List ℕ) → same_bytes s t ≡ true → s ≡ t
unfolding same_bytes
eq_of_same_bytes [] [] h = refl
eq_of_same_bytes [] (y ∷ t) h = cc
eq_of_same_bytes (x ∷ s) [] h = cc
eq_of_same_bytes (x ∷ s) (y ∷ t) h = ground (arith, eq_of_same_bytes s t)

abbrev pub op_of : List ℕ → ℕ
op_of stream = 256 * get_or (slice At.arp_op 2 stream) 0 0 + get_or (slice At.arp_op 2 stream) 1 0

-- The answer to a frame: one reply to a request for the address of this host, and none to any other.
abbrev pub Answers : List ℕ → List ℕ → Result → Type 0
Answers localip stream r =
    ((slice At.arp_dst_ip 4 stream ≡ localip)
      × (op_of stream ≡ 1)
      × (r.success ≡ true)
      × ((frame : List ℕ) × (r.sent ≡ frame ∷ []) × IsArpReply host_mac localip stream frame))
    ⊎ (((slice At.arp_dst_ip 4 stream ≢ localip) ⊎ (op_of stream ≢ 1))
        × (r.success ≡ false)
        × (r.sent ≡ []))

-- For a buffer that holds an ARP packet, arp_process never faults. If the packet asks for the address
-- of this host it sends one frame, to the asker and from this host, that tells the asker this host's
-- addresses; otherwise it returns -1 and sends nothing.
pub arp_process-Answers :
    (localip localmac stream : List ℕ)
    → length localip ≡ 4
    → length localmac ≡ eth_len
    → arp_packet_size ≤ length stream
    → Returns (arp_process localip localmac stream) (Answers localip stream)
unfolding arp_process load_be16
arp_process-Answers localip localmac stream ip_size mac_size whole =
    rw
      (
        load-ok At.arp_op 2 stream (omega arith),
        load-ok At.arp_dst_ip 4 stream (omega arith),
        str2mac-self_mac localmac mac_size,
      )
      (elim (Bool-cases (same_bytes (slice At.arp_dst_ip 4 stream) localip)) [
        | inl mine ↦ rw mine (asked mine)
        | inr other ↦
            rw other (inr (inl (λ e. cc (same_bytes_self localip, rw e at other)), refl, refl))
      ])
  where
    asked :
        same_bytes (slice At.arp_dst_ip 4 stream) localip ≡ true
        → Returns
            (if op_of stream == 1
              then (arp_reply host_mac localip stream >>= λ ack. ok (result true (ack ∷ [])))
              else ok (result false []))
            (Answers localip stream)
    asked mine = elim (ℕ_discrete (op_of stream) 1) [
      | yes request ↦
          let test : (op_of stream == 1) ≡ true = ground arith in
          rw test (
            Returns-bind (Answers localip stream) (arp_reply host_mac localip stream) _
              (arp_reply-IsArpReply host_mac localip stream refl ip_size whole)
              λ frame reply. inl (eq_of_same_bytes _ _ mine, request, refl, (frame, refl, reply)))
      | no reply ↦
          let test : (op_of stream == 1) ≡ false = ground arith in
          rw test (inr (inr reply, refl, refl))
    ]
