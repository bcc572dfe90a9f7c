-- ===== src/DnsClient/RoundTrip.antt =====
-- 10_async_request_pool_by_epoll/async_dns_client.c: the name that dns_parse_name reads in the request.
use personal_c_cpp_back_end.Base.{
  ℕ, zero, suc, ◌+◌, ◌≤◌, ◌<◌, ◌≡◌, refl, ap, ◌∙◌, none, some, List, [], ◌∷◌, ◌++◌, Run, fault,
  Returns, Returns-mono, Returns-bind, ◌>>=◌, length, replicate, length-replicate, take, drop,
  arith, inl,
}
use personal_c_cpp_back_end.Bytes.{load-ok, store-ok, slice, splice, length-splice}
use personal_c_cpp_back_end.Bytes.Writes.{slice-written_same}
use personal_c_cpp_back_end.DnsClient.{
  dns_create_question, dns_create_header, header_bytes, dns_build_request, dns_parse_name,
}
use personal_c_cpp_back_end.DnsClient.Names.{join, encode, AllShort, dns_parse_name-labels}
use personal_c_cpp_back_end.DnsClient.Encoding.{
  AllNoDot, length-encode, take_all, question_of, dns_create_question-encode,
}

-- The name stands in the request behind the twelve bytes of the header.
dns_build_request-name :
    (a b : ℕ) (hostname name request : List ℕ)
    → length name ≡ length hostname + 2
    → 12 + length name + 4 ≤ length request
    → Returns
        (dns_build_request (dns_create_header (a ∷ b ∷ [])) (question_of hostname name) request)
        λ (r, n). (n ≡ 12 + length name + 4) × (slice 12 (length name) r ≡ name)
unfolding dns_build_request dns_create_header
dns_build_request-name a b hostname name request same room =
    let header = header_bytes (dns_create_header (a ∷ b ∷ [])) in
    let size = length name in
    let r1 = splice 0 header request in
    let size1 = length-splice 0 header request (omega arith) in
    let r2 = splice 12 name r1 in
    let size2 = length-splice 12 name r1 (omega (arith, size1)) in
    let r3 = splice (12 + size) (0 ∷ 1 ∷ []) r2 in
    let size3 = length-splice (12 + size) (0 ∷ 1 ∷ []) r2 (omega (arith, size1, size2)) in
    rw
      (
        ← same,
        store-ok 0 header request (omega arith),
        load-ok 0 size name (omega arith),
        take_all size name refl,
        store-ok 12 name r1 (omega (arith, size1)),
        store-ok (12 + size) (0 ∷ 1 ∷ []) r2 (omega (arith, size1, size2)),
        store-ok (12 + size + 2) (0 ∷ 1 ∷ []) r3 (omega (arith, size1, size2, size3)),
      )
      (
        omega arith,
        slice-written_same 12 size name ((12 + size, 0 ∷ 1 ∷ []) ∷ (12 + size + 2, 0 ∷ 1 ∷ []) ∷ [])
            r1 (length request) refl size1 (omega arith) (omega arith, (omega arith, tt))
            (inl (omega arith), (inl (omega arith), tt)),
      )

take-drop_join : (n : ℕ) (s : List ℕ) → s ≡ take n s ++ drop n s
take-drop_join zero s = refl
take-drop_join (suc n) [] = refl
take-drop_join (suc n) (x ∷ xs) = ap (◌∷◌ x) (take-drop_join n xs)

-- The question of a host name, the request with it, and the name that is read in the request.
abbrev pub name_in_request : ℕ → (a b : ℕ) → (memory hostname request : List ℕ) → Run (List ℕ × ℕ)
name_in_request fuel a b memory hostname request =
    dns_create_question (some memory) hostname >>= λ made. elim made [
      | none ↦ fault
      | some question ↦
          dns_build_request (dns_create_header (a ∷ b ∷ [])) question request >>= λ (r, n).
          dns_parse_name fuel r 12 (replicate 128 0) 0
    ]

-- For a host name of labels without dots, of 1 to 191 bytes each and 128 at most in all, and a request
-- that has room: the name that is read in the request is the host name. One round more than there are
-- labels is enough.
pub name_in_request-same :
    (fuel a b : ℕ) (memory request l : List ℕ) (ls : List (List ℕ))
    → AllShort (l ∷ ls)
    → AllNoDot (l ∷ ls)
    → length memory ≡ length (join (l ∷ ls)) + 2
    → length (join (l ∷ ls)) + 18 ≤ length request
    → length (join (l ∷ ls)) ≤ 128
    → length ls + 1 < fuel
    → Returns
        (name_in_request fuel a b memory (join (l ∷ ls)) request)
        λ (name, len). (len ≡ length (join (l ∷ ls))) × (take len name ≡ join (l ∷ ls))
name_in_request-same fuel a b memory request l ls short out size room fits enough =
    let hostname = join (l ∷ ls) in
    let name = encode (l ∷ ls) in
    let whole = length-encode l ls in
    let zeros = length-replicate {A = ℕ} 128 0 in
    rw (dns_create_question-encode memory l ls short out size) (
      Returns-bind _
        (dns_build_request (dns_create_header (a ∷ b ∷ [])) (question_of hostname name) request) _
        (dns_build_request-name a b hostname name request whole (omega (arith, whole)))
        λ (r, n) (_, text).
          let there =
            take-drop_join (length name) (drop 12 r)
            ∙ ap (λ s. s ++ drop (length name) (drop 12 r)) text in
          Returns-mono _ (dns_parse_name fuel r 12 (replicate 128 0) 0)
            (dns_parse_name-labels fuel r 12 (replicate 128 0) 0 l ls _ there short enough
              (omega (arith, zeros)))
            λ (found, len) (e, same, _). (e ∙ omega arith, same))
