-- ===== src/DnsClient/Tests.antt =====
-- 10_async_request_pool_by_epoll/async_dns_client.c: a request, a response and the theorems at them.
use personal_c_cpp_back_end.Base.{
  ℕ, ◌≡◌, refl, List, [], ◌∷◌, ◌++◌, ok, out_of_fuel, Returns, replicate, length, take, arith,
}
use personal_c_cpp_back_end.Bytes.{load, store}
use personal_c_cpp_back_end.DnsClient.{dns_parse_name}
use personal_c_cpp_back_end.DnsClient.Response.{dns_parse_response}
use personal_c_cpp_back_end.DnsClient.Names.{join, encode, dns_parse_name-self_pointer}
use personal_c_cpp_back_end.DnsClient.RoundTrip.{name_in_request, name_in_request-same}

-- "ab.c"
abbrev labels : List (List ℕ)
labels = (97 ∷ 98 ∷ []) ∷ (99 ∷ []) ∷ []

-- A response with that question, an address for it by a pointer, an answer of another type, and another
-- address that is lost behind it.
abbrev answer : (type_ : ℕ) → List ℕ → List ℕ
answer type_ bytes = 192 ∷ 12 ∷ 0 ∷ type_ ∷ 0 ∷ 1 ∷ 0 ∷ 0 ∷ 0 ∷ 60 ∷ 0 ∷ length bytes ∷ bytes

abbrev response : (count : ℕ) → List ℕ → List ℕ
response count answers =
    1
    ∷ 2
    ∷ 129
    ∷ 128
    ∷ 0
    ∷ 1
    ∷ 0
    ∷ count
    ∷ 0
    ∷ 0
    ∷ 0
    ∷ 0
    ∷ (encode labels ++ (0 ∷ 1 ∷ 0 ∷ 1 ∷ answers))

one_address :
    dns_parse_response (λ ip. ip) 9 (response 1 (answer 1 (8 ∷ 8 ∷ 4 ∷ 4 ∷ [])))
    ≡ ok (record { domain = join labels; ip = 8 ∷ 8 ∷ 4 ∷ 4 ∷ [] } ∷ [])
unfolding dns_parse_response load store
one_address = refl

-- The data of an answer that is neither a name nor an address is not skipped.
lost_address :
    dns_parse_response
      (λ ip. ip)
      9
      (response 2
        (answer 28 (0 ∷ 1 ∷ 2 ∷ 3 ∷ []) ++ (answer 1 (8 ∷ 8 ∷ 4 ∷ 4 ∷ []) ++ replicate 20 0)))
    ≡ ok []
unfolding dns_parse_response load store
lost_address = refl

dns_parse_name-self_pointer_example :
    dns_parse_name 1000 (192 ∷ 0 ∷ []) 0 (replicate 128 0) 0 ≡ out_of_fuel
dns_parse_name-self_pointer_example =
    dns_parse_name-self_pointer 1000 (192 ∷ 0 ∷ []) 0 192 (replicate 128 0) 0 (omega arith)
      (omega arith) refl refl

name_in_request-same_example :
    Returns
      (name_in_request 3 7 9 (replicate 6 0) (join labels) (replicate 64 0))
      λ (name, len). (len ≡ 4) × (take len name ≡ 97 ∷ 98 ∷ 46 ∷ 99 ∷ [])
name_in_request-same_example =
    name_in_request-same 3 7 9 (replicate 6 0) (replicate 64 0) (97 ∷ 98 ∷ []) ((99 ∷ []) ∷ [])
      (omega arith, omega arith, (omega arith, omega arith, tt))
      ((omega arith, (omega arith, tt)), ((omega arith, tt), tt)) refl (omega arith) (omega arith)
      (omega arith)
