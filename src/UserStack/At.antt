-- ===== src/UserStack/At.antt =====
-- Where the fields of the packed structs of udp_icmp_arp_stack.c lie: eth_header, then arp_header or
-- ip_header, then icmp_ping_header or udp_header, then the payload.
use personal_c_cpp_back_end.Base.{ℕ}

abbrev pub eth_dst_mac : ℕ
eth_dst_mac = 0

abbrev pub eth_src_mac : ℕ
eth_src_mac = 6

abbrev pub eth_proto : ℕ
eth_proto = 12

abbrev pub arp_op : ℕ
arp_op = 20

abbrev pub arp_src_mac : ℕ
arp_src_mac = 22

abbrev pub arp_src_ip : ℕ
arp_src_ip = 28

abbrev pub arp_dst_mac : ℕ
arp_dst_mac = 32

abbrev pub arp_dst_ip : ℕ
arp_dst_ip = 38

abbrev pub ip_header_len : ℕ
ip_header_len = 14

abbrev pub ip_total_len : ℕ
ip_total_len = 16

abbrev pub ip_proto : ℕ
ip_proto = 23

abbrev pub ip_src_ip : ℕ
ip_src_ip = 26

abbrev pub ip_dst_ip : ℕ
ip_dst_ip = 30

abbrev pub icmp_type : ℕ
icmp_type = 34

abbrev pub icmp_code : ℕ
icmp_code = 35

abbrev pub icmp_check_sum : ℕ
icmp_check_sum = 36

abbrev pub udp_length : ℕ
udp_length = 38

abbrev pub udp_payload : ℕ
udp_payload = 42
