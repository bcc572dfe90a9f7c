-- ===== src/UserStack/Tests.antt =====
-- Frames for the host 192.168.131.129, and the theorems at them.
use personal_c_cpp_back_end.Base.{
  ◌↔◌, ◌+◌, ℕ, ◌%◌, ◌<◌, ◌≡◌, refl, true, List, [], ◌∷◌, ◌++◌, ok, Returns, replicate, arith,
}
use personal_c_cpp_back_end.Bytes.{splice, load, store}
use personal_c_cpp_back_end.UserStack.{
  arp_process, icmp_process, udp_process, handle_frame, arp_reply,
}
use personal_c_cpp_back_end.UserStack.Checksum.{in_cksum}
use personal_c_cpp_back_end.UserStack.Checksum.Verify.{number, in_cksum-number}
use personal_c_cpp_back_end.UserStack.Mac.{
  mac_of, print_mac, str2mac, str2mac_from, str2mac-print_mac,
}
use personal_c_cpp_back_end.UserStack.Arp.{Answers, arp_process-Answers}
use personal_c_cpp_back_end.UserStack.Icmp.{IsPing, icmp_process-IsPingReply}
use personal_c_cpp_back_end.UserStack.Icmp.Checked.{IsPingReply}
use personal_c_cpp_back_end.UserStack.Udp.{IsUdp, udp_process_lem}

abbrev host_ip : List ℕ
host_ip = 192 ∷ 168 ∷ 131 ∷ 129 ∷ []

abbrev asker_mac : List ℕ
asker_mac = 1 ∷ 2 ∷ 3 ∷ 4 ∷ 5 ∷ 6 ∷ []

abbrev asker_ip : List ℕ
asker_ip = 192 ∷ 168 ∷ 131 ∷ 1 ∷ []

-- "Who has 192.168.131.129?"
abbrev arp_request : List ℕ
arp_request =
    replicate 6 255
    ++ (asker_mac
        ++ (8
            ∷ 6
            ∷ 0
            ∷ 1
            ∷ 8
            ∷ 0
            ∷ 6
            ∷ 4
            ∷ 0
            ∷ 1
            ∷ (asker_mac ++ (asker_ip ++ (replicate 6 0 ++ host_ip)))))

-- A ping with two bytes of data.
abbrev ping : List ℕ
ping =
    (0 ∷ 12 ∷ 41 ∷ 239 ∷ 226 ∷ 59 ∷ [])
    ++ (asker_mac
        ++ (8
            ∷ 0
            ∷ 69
            ∷ 0
            ∷ 0
            ∷ 30
            ∷ 0
            ∷ 0
            ∷ 0
            ∷ 0
            ∷ 64
            ∷ 1
            ∷ 0
            ∷ 0
            ∷ (asker_ip ++ (host_ip ++ (8 ∷ 0 ∷ 0 ∷ 0 ∷ 7 ∷ 7 ∷ 0 ∷ 1 ∷ 104 ∷ 105 ∷ [])))))

abbrev udp_packet : List ℕ
udp_packet = splice 38 (0 ∷ 9 ∷ 0 ∷ 0 ∷ 65 ∷ []) ping

answers_request :
    handle_frame true host_ip (replicate 6 0) arp_request
    ≡ ok (
        (asker_mac
          ++ (0
              ∷ 12
              ∷ 41
              ∷ 239
              ∷ 226
              ∷ 59
              ∷ 8
              ∷ 6
              ∷ 0
              ∷ 1
              ∷ 8
              ∷ 0
              ∷ 6
              ∷ 4
              ∷ 0
              ∷ 2
              ∷ 0
              ∷ 12
              ∷ 41
              ∷ 239
              ∷ 226
              ∷ 59
              ∷ (host_ip ++ (asker_mac ++ asker_ip))))
        ∷ [])
unfolding handle_frame arp_process arp_reply load store str2mac str2mac_from
answers_request = refl

in_cksum-number_example : Returns (in_cksum (104 ∷ 105 ∷ 33 ∷ [])) λ c.
    (c < 65536)
    × ((number (104 ∷ 105 ∷ 33 ∷ []) + c) % 65535 ≡ 0)
    × ((c ≡ 65535) ↔ (number (104 ∷ 105 ∷ 33 ∷ []) ≡ 0))
in_cksum-number_example = in_cksum-number (104 ∷ 105 ∷ 33 ∷ []) (omega arith) (omega arith)

str2mac-print_mac_example :
    str2mac (replicate 6 0) (print_mac (mac_of 0 12 41 239 226 59))
    ≡ (mac_of 0 12 41 239 226 59, true)
str2mac-print_mac_example = str2mac-print_mac 0 12 41 239 226 59 (replicate 6 0) (omega arith) refl

arp_process-Answers_example :
    Returns (arp_process host_ip (replicate 6 0) arp_request) (Answers host_ip arp_request)
arp_process-Answers_example =
    arp_process-Answers host_ip (replicate 6 0) arp_request refl refl (omega arith)

ping-IsPing : IsPing ping 2
ping-IsPing = record { bytes = omega arith; type = refl; lengths = refl; inside = omega arith }

icmp_process-IsPingReply_example :
    Returns (icmp_process true ping) λ r.
      (r.success ≡ true) × ((frame : List ℕ) × (r.sent ≡ frame ∷ []) × IsPingReply ping 2 frame)
icmp_process-IsPingReply_example = icmp_process-IsPingReply ping 2 ping-IsPing

udp_packet-IsUdp : IsUdp udp_packet
udp_packet-IsUdp = record { bytes = omega arith; headers = omega arith }

udp_process_lem_example : udp_process udp_packet ≡ ok (splice 43 (0 ∷ []) udp_packet)
udp_process_lem_example = (udp_process_lem udp_packet udp_packet-IsUdp).0 (omega arith)
