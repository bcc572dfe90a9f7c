-- ===== src/DnsClient/Response.antt =====
-- 10_async_request_pool_by_epoll/async_dns_client.c: dns_parse_response. What inet_ntop makes of four
-- bytes is a parameter.
use personal_c_cpp_back_end.Base.{
  ℕ, zero, suc, ◌+◌, ◌*◌, List, [], ◌∷◌, ◌++◌, Run, ok, fault, out_of_fuel, ◌>>=◌, read, ◌==◌,
  if◌then◌else◌, replicate,
}
use personal_c_cpp_back_end.Bytes.{load}
use personal_c_cpp_back_end.DnsClient.{dns_parse_name}

-- struct dns_item, with the strings that it points to
pub record Item : Type 0 where
  pub domain : List ℕ
  pub ip : List ℕ

-- ntohs(*(unsigned short*)ptr)
unfoldable pub read_short : List ℕ → ℕ → Run ℕ
read_short buffer ptr =
    read buffer ptr >>= λ high. read buffer (ptr + 1) >>= λ low. ok (high * 256 + low)

-- The string in an array; without a zero it runs out of the array.
unfoldable pub c_string : List ℕ → Run (List ℕ)
c_string [] = fault
c_string (c ∷ cs) = let rest = (c_string cs >>= λ s. ok (c ∷ s)) in if c == 0 then ok [] else rest

-- The loop over the labels of a question; where it ends.
unfoldable pub skip_name : ℕ → List ℕ → ℕ → Run ℕ
skip_name zero buffer ptr = out_of_fuel
skip_name (suc fuel) buffer ptr = do
  flag ← read buffer ptr
  let rest = skip_name fuel buffer (ptr + (flag + 1))
  if flag == 0 then ok (ptr + (flag + 1)) else rest

unfoldable pub skip_questions : ℕ → List ℕ → (rounds ptr : ℕ) → Run ℕ
unfolding skip_name
skip_questions fuel buffer zero ptr = ok ptr
skip_questions fuel buffer (suc rounds) ptr =
    skip_name fuel buffer ptr >>= λ ptr'. skip_questions fuel buffer rounds (ptr' + 4)

-- An answer: where the next one is expected, and the item that is made of it.
unfoldable pub parse_answer : (List ℕ → List ℕ) → ℕ → List ℕ → (ptr : ℕ) → Run (ℕ × List Item)
unfolding dns_parse_name read_short c_string
parse_answer inet_ntop fuel buffer start = do
  (aname, len) ← dns_parse_name fuel buffer start (replicate 128 0) 0
  type_ ← read_short buffer (start + 2)
  ttl ← read_short buffer (start + 6)
  datalen ← read_short buffer (start + 10)
  let ptr = start + 12
  let host = do
    netip ← load ptr datalen buffer
    domain ← c_string aname
    ok (ptr + datalen, record { domain = domain; ip = inet_ntop netip } ∷ [])
  let cname =
      (dns_parse_name fuel buffer ptr (replicate 128 0) 0 >>= λ (name, size).
      ok (ptr + datalen, []))
  if type_ == 5
      then cname
      else if type_ == 1
      then (if datalen == 4 then host else ok (ptr + datalen, []))
      else ok (ptr, [])

unfoldable pub parse_answers : (List ℕ → List ℕ) → ℕ → List ℕ → (rounds ptr : ℕ) → Run (List Item)
unfolding parse_answer
parse_answers inet_ntop fuel buffer zero ptr = ok []
parse_answers inet_ntop fuel buffer (suc rounds) ptr = do
  (next, item) ← parse_answer inet_ntop fuel buffer ptr
  items ← parse_answers inet_ntop fuel buffer rounds next
  ok (item ++ items)

-- The list of items; its count is the length.
unfoldable pub dns_parse_response : (List ℕ → List ℕ) → ℕ → List ℕ → Run (List Item)
unfolding skip_questions parse_answers read_short
dns_parse_response inet_ntop fuel buffer = do
  querys ← read_short buffer 4
  answers ← read_short buffer 6
  ptr ← skip_questions fuel buffer querys 12
  parse_answers inet_ntop fuel buffer answers ptr
