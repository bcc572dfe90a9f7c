-- ===== src/DnsClient.antt =====
-- 10_async_request_pool_by_epoll/async_dns_client.c: the request that the client builds and the response
-- that it parses. Memory is a list of bytes; a pointer into the buffer of a packet is an index.
pub mod Response
pub mod Names
pub mod Encoding
pub mod RoundTrip
pub mod Tests
use personal_c_cpp_back_end.Base.{
  ℕ, zero, suc, ◌+◌, ◌*◌, ◌/◌, ◌%◌, Bool, true, false, Option, none, some, List, [], ◌∷◌, ◌++◌, Run,
  ok, fault, out_of_fuel, ◌>>=◌, read, ◌==◌, if◌then◌else◌, length, replicate,
}
use personal_c_cpp_back_end.Bytes.{load, store}

-- struct dns_header, each field as its bytes in memory
pub record Header : Type 0 where
  pub id : List ℕ
  pub flags : List ℕ
  pub qdcount : List ℕ
  pub ancount : List ℕ
  pub nscount : List ℕ
  pub arcount : List ℕ

-- struct dns_question, with the memory at qname
pub record Question : Type 0 where
  pub size : ℕ
  pub qtype : List ℕ
  pub qclass : List ℕ
  pub qname : List ℕ

-- dns_create_header, with the two bytes that are taken from random()
unfoldable pub dns_create_header : List ℕ → Header
dns_create_header random = record {
  id = random;
  flags = 1 ∷ 0 ∷ [];
  qdcount = 0 ∷ 1 ∷ [];
  ancount = 0 ∷ 0 ∷ [];
  nscount = 0 ∷ 0 ∷ [];
  arcount = 0 ∷ 0 ∷ [];
}

abbrev pub dot : ℕ
dot = 46

-- strtok gives no empty token.
abbrev pub emit : List ℕ → List (List ℕ) → List (List ℕ)
emit [] tokens = tokens
emit (c ∷ cs) tokens = (c ∷ cs) ∷ tokens

-- The tokens of the calls of strtok with the delimiter "."; `current` is the one that has begun.
unfoldable pub tokens_from : (current : List ℕ) → List ℕ → List (List ℕ)
tokens_from current [] = emit current []
tokens_from current (c ∷ cs) =
    let ended = emit current (tokens_from [] cs) in
    let on = tokens_from (current ++ (c ∷ [])) cs in if c == dot then ended else on

-- The loop over the tokens: *qname_p = len; and strncpy of the token and the zero behind it.
unfoldable pub write_tokens : List (List ℕ) → (at : ℕ) → List ℕ → Run (List ℕ)
write_tokens [] at qname = ok qname
write_tokens (token ∷ tokens) at qname = do
  qname1 ← store at (length token % 256 ∷ []) qname
  qname2 ← store (at + 1) (token ++ (0 ∷ [])) qname1
  write_tokens tokens (at + 1 + length token) qname2

-- `memory` is what malloc returns; `none` is the return value -2.
unfoldable pub dns_create_question :
    (memory : Option (List ℕ)) → (hostname : List ℕ) → Run (Option Question)
unfolding tokens_from write_tokens
dns_create_question none hostname = ok none
dns_create_question (some memory) hostname = do
  qname ← write_tokens (tokens_from [] hostname) 0 memory
  ok (
      some (record {
        size = length hostname + 2;
        qtype = 0 ∷ 1 ∷ [];
        qclass = 0 ∷ 1 ∷ [];
        qname = qname;
      }))

abbrev pub header_bytes : Header → List ℕ
header_bytes h = h.id ++ (h.flags ++ (h.qdcount ++ (h.ancount ++ (h.nscount ++ h.arcount))))

-- The request, and its length.
unfoldable pub dns_build_request : Header → Question → (request : List ℕ) → Run (List ℕ × ℕ)
dns_build_request header question request = do
  request1 ← store 0 (header_bytes header) request
  name ← load 0 question.size question.qname
  request2 ← store 12 name request1
  request3 ← store (12 + question.size) question.qtype request2
  request4 ← store (12 + question.size + 2) question.qclass request3
  ok (request4, question.size + 2 + 2 + 12)

-- (in & 0xC0) == 0xC0: the bits 6 and 7 are set.
unfoldable pub is_pointer : ℕ → Bool
is_pointer in_ = in_ / 64 % 4 == 3

-- Names are read from `ptr` on in `chunk` and appended to `out` at `len`, where `pos` points.
unfoldable pub dns_parse_name :
    ℕ → (chunk : List ℕ) → (ptr : ℕ) → (out : List ℕ) → (len : ℕ) → Run (List ℕ × ℕ)
unfolding is_pointer
dns_parse_name zero chunk ptr out len = out_of_fuel
dns_parse_name (suc fuel) chunk ptr out len = do
  flag ← read chunk ptr
  let follow = (read chunk (ptr + 1) >>= λ n. dns_parse_name fuel chunk n out len)
  let label = do
    bytes ← load (ptr + 1) flag chunk
    out1 ← store len bytes out
    next ← read chunk (ptr + 1 + flag)
    let last = dns_parse_name fuel chunk (ptr + 1 + flag) out1 (len + flag)
    let more =
        (store (len + flag) (dot ∷ []) out1 >>= λ out2.
        dns_parse_name fuel chunk (ptr + 1 + flag) out2 (len + flag + 1))
    if next == 0 then last else more
  if flag == 0 then ok (out, len) else if is_pointer flag then follow else label
