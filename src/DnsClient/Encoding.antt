-- ===== src/DnsClient/Encoding.antt =====
-- 10_async_request_pool_by_epoll/async_dns_client.c: the question that is made of a host name, and the
-- name that dns_parse_name reads in the request.
use personal_c_cpp_back_end.Base.{
  ℕ, ◌+◌, ◌%◌, ◌≤◌, ◌<◌, ◌≡◌, ◌≢◌, refl, sym, ap, ◌∙◌, false, some, List, [], ◌∷◌, ◌++◌,
  append_assoc, append-nil, ok, Returns, Returns-mono, Returns-eq-ok, ◌==◌, length, length-append,
  take, arith,
}
use personal_c_cpp_back_end.Bytes.{
  store-ok, splice, length-splice, length-take, take-append, take-take,
}
use personal_c_cpp_back_end.DnsClient.{
  dot, emit, tokens_from, write_tokens, Question, dns_create_question,
}
use personal_c_cpp_back_end.DnsClient.Names.{join, encode, AllShort, take-splice}

abbrev pub NoDot : List ℕ → Type 0
NoDot [] = Unit {0}
NoDot (c ∷ cs) = (c ≢ dot) × NoDot cs

abbrev pub AllNoDot : List (List ℕ) → Type 0
AllNoDot [] = Unit {0}
AllNoDot (l ∷ ls) = NoDot l × AllNoDot ls

tokens_from-last : (current l : List ℕ) → NoDot l → tokens_from current l ≡ emit (current ++ l) []
unfolding tokens_from
tokens_from-last current [] out = ap (λ s. emit s []) (sym (append-nil current))
tokens_from-last current (c ∷ cs) (ne, out) =
    let test : (c == dot) ≡ false = ground (arith, ne) in
    rw test (
      tokens_from-last (current ++ (c ∷ [])) cs out
      ∙ ap (λ s. emit s []) (append_assoc current (c ∷ []) cs))

tokens_from-dot :
    (current l rest : List ℕ)
    → NoDot l
    → tokens_from current (l ++ (dot ∷ rest)) ≡ emit (current ++ l) (tokens_from [] rest)
unfolding tokens_from
tokens_from-dot current [] rest out =
    ap (λ s. emit s (tokens_from [] rest)) (sym (append-nil current))
tokens_from-dot current (c ∷ cs) rest (ne, out) =
    let test : (c == dot) ≡ false = ground (arith, ne) in
    rw test (
      tokens_from-dot (current ++ (c ∷ [])) cs rest out
      ∙ ap (λ s. emit s (tokens_from [] rest)) (append_assoc current (c ∷ []) cs))

emit-cons : (l : List ℕ) (ts : List (List ℕ)) → 0 < length l → emit l ts ≡ l ∷ ts
emit-cons [] ts some_ = absurd (omega arith)
emit-cons (c ∷ cs) ts some_ = refl

tokens_from-join :
    (l : List ℕ) (ls : List (List ℕ))
    → AllShort (l ∷ ls)
    → AllNoDot (l ∷ ls)
    → tokens_from [] (join (l ∷ ls)) ≡ l ∷ ls
tokens_from-join l [] (some_, _, _) (out, _) = tokens_from-last [] l out ∙ emit-cons l [] some_
tokens_from-join l (m ∷ ms) (some_, _, short) (out, others) =
    tokens_from-dot [] l (join (m ∷ ms)) out
    ∙ emit-cons l (tokens_from [] (join (m ∷ ms))) some_
    ∙ ap (◌∷◌ l) (tokens_from-join m ms short others)

pub length-encode :
    (l : List ℕ) (ls : List (List ℕ)) → length (encode (l ∷ ls)) ≡ length (join (l ∷ ls)) + 2
length-encode l [] = omega (arith, length-append l (0 ∷ []))
length-encode l (m ∷ ms) = omega (
  arith,
  length-append l (encode (m ∷ ms)),
  length-append l (dot ∷ join (m ∷ ms)),
  length-encode m ms,
)

-- The two writes for one token.
write_token :
    (at : ℕ) (l qname : List ℕ)
    → length l < 192
    → at + length l + 2 ≤ length qname
    → let q2 = splice (at + 1) (l ++ (0 ∷ [])) (splice at (length l % 256 ∷ []) qname) in
      (take (at + length l + 2) q2 ≡ take at qname ++ (length l ∷ (l ++ (0 ∷ []))))
      × (length q2 ≡ length qname)
write_token at l qname short room =
    let q1 = splice at (length l % 256 ∷ []) qname in
    let whole : length l % 256 ≡ length l = omega arith in
    let size1 = length-splice at (length l % 256 ∷ []) qname (omega arith) in
    let sum = length-append l (0 ∷ []) in
    let index : at + length l + 2 ≡ at + 1 + length (l ++ (0 ∷ [])) = omega (arith, sum) in
    (
      ap (λ k. take k (splice (at + 1) (l ++ (0 ∷ [])) q1)) index
          ∙ take-splice (at + 1) (l ++ (0 ∷ [])) q1 (omega (arith, sum, size1))
          ∙ ap (λ s. s ++ (l ++ (0 ∷ [])))
              (take-splice at (length l % 256 ∷ []) qname (omega arith))
          ∙ append_assoc (take at qname) (length l % 256 ∷ []) (l ++ (0 ∷ []))
          ∙ ap (λ k. take at qname ++ (k ∷ (l ++ (0 ∷ [])))) whole,
      length-splice (at + 1) (l ++ (0 ∷ [])) q1 (omega (arith, sum, size1)) ∙ size1,
    )

-- The token without the zero, which the next one overwrites.
write_token-front :
    (at : ℕ) (l qname : List ℕ)
    → length l < 192
    → at + length l + 2 ≤ length qname
    → take
        (at + 1 + length l)
        (splice (at + 1) (l ++ (0 ∷ [])) (splice at (length l % 256 ∷ []) qname))
      ≡ take at qname ++ (length l ∷ l)
write_token-front at l qname short room =
    let q2 = splice (at + 1) (l ++ (0 ∷ [])) (splice at (length l % 256 ∷ []) qname) in
    let front = take at qname ++ (length l ∷ l) in
    let size = length-append (take at qname) (length l ∷ l) in
    sym (take-take (at + 1 + length l) (at + length l + 2) q2 (omega arith))
    ∙ ap (take (at + 1 + length l)) (
        (write_token at l qname short room).0
        ∙ sym (append_assoc (take at qname) (length l ∷ l) (0 ∷ [])))
    ∙ take-append (at + 1 + length l) front (0 ∷ [])
        (omega (arith, size, length-take at qname (omega arith)))

write_tokens-encode :
    (l : List ℕ) (ls : List (List ℕ)) (at : ℕ) (qname : List ℕ)
    → AllShort (l ∷ ls)
    → at + length (encode (l ∷ ls)) ≤ length qname
    → Returns (write_tokens (l ∷ ls) at qname) λ q.
      (take (at + length (encode (l ∷ ls))) q ≡ take at qname ++ encode (l ∷ ls))
      × (length q ≡ length qname)
unfolding write_tokens
write_tokens-encode l [] at qname (some_, short, _) room =
    let sum = length-append l (0 ∷ []) in
    let index : at + length (encode (l ∷ [])) ≡ at + length l + 2 = omega (arith, sum) in
    let size1 = length-splice at (length l % 256 ∷ []) qname (omega (arith, sum)) in
    let (text, size) = write_token at l qname short (omega (arith, sum)) in
    rw
      (
        store-ok at (length l % 256 ∷ []) qname (omega (arith, sum)),
        store-ok (at + 1) (l ++ (0 ∷ [])) (splice at (length l % 256 ∷ []) qname)
            (omega (arith, sum, size1)),
      )
      (rw index text, size)
write_tokens-encode l (m ∷ ms) at qname (some_, short, others) room =
    let sum = length-append l (encode (m ∷ ms)) in
    let zero_sum = length-append l (0 ∷ []) in
    let at' = at + 1 + length l in
    let q1 = splice at (length l % 256 ∷ []) qname in
    let q2 = splice (at + 1) (l ++ (0 ∷ [])) q1 in
    let size1 = length-splice at (length l % 256 ∷ []) qname (omega (arith, sum)) in
    let (_, size) = write_token at l qname short (omega (arith, sum)) in
    let index : at + length (encode (l ∷ m ∷ ms)) ≡ at' + length (encode (m ∷ ms)) =
      omega (arith, sum) in
    rw
      (
        store-ok at (length l % 256 ∷ []) qname (omega (arith, sum)),
        store-ok (at + 1) (l ++ (0 ∷ [])) q1 (omega (arith, sum, zero_sum, size1)),
      )
      (Returns-mono _ (write_tokens (m ∷ ms) at' q2)
        (write_tokens-encode m ms at' q2 others (omega (arith, sum, size)))
        λ q (text, same). (
          ap (λ k. take k q) index
              ∙ text
              ∙ ap (λ s. s ++ encode (m ∷ ms))
                  (write_token-front at l qname short (omega (arith, sum)))
              ∙ append_assoc (take at qname) (length l ∷ l) (encode (m ∷ ms)),
          same ∙ size,
        ))

pub take_all : (n : ℕ) (s : List ℕ) → length s ≡ n → take n s ≡ s
take_all n s e = ap (take n) (sym (append-nil s)) ∙ take-append n s [] e

abbrev pub question_of : List ℕ → List ℕ → Question
question_of hostname qname = record {
  size = length hostname + 2;
  qtype = 0 ∷ 1 ∷ [];
  qclass = 0 ∷ 1 ∷ [];
  qname = qname;
}

-- For a host name of labels without dots, of 1 to 191 bytes each, the memory that is asked for is filled
-- to its end with the labels behind their lengths and a zero.
pub dns_create_question-encode :
    (memory l : List ℕ) (ls : List (List ℕ))
    → AllShort (l ∷ ls)
    → AllNoDot (l ∷ ls)
    → length memory ≡ length (join (l ∷ ls)) + 2
    → dns_create_question (some memory) (join (l ∷ ls))
      ≡ ok (some (question_of (join (l ∷ ls)) (encode (l ∷ ls))))
unfolding dns_create_question
dns_create_question-encode memory l ls short out size =
    let fits = length-encode l ls in
    let (q, e, (text, same)) =
      Returns-eq-ok _ (write_tokens (l ∷ ls) 0 memory)
        (write_tokens-encode l ls 0 memory short (omega (arith, fits))) in
    let whole : q ≡ encode (l ∷ ls) = sym (take_all _ q (omega (arith, same, fits))) ∙ text in
    rw (tokens_from-join l ls short out, e, whole) refl
