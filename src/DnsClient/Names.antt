-- ===== src/DnsClient/Names.antt =====
-- 10_async_request_pool_by_epoll/async_dns_client.c: what dns_parse_name makes of the labels of a name,
-- and of a pointer to itself.
use personal_c_cpp_back_end.Base.{
  ℕ, zero, suc, ◌+◌, ◌/◌, ◌%◌, ◌≤◌, ◌<◌, ◌≡◌, refl, sym, ap, ◌∙◌, true, false, List, [], ◌∷◌, ◌++◌,
  append_assoc, ok, out_of_fuel, Returns, Returns-mono, read, ltb, ◌==◌, ◌>>=◌, if◌then◌else◌,
  length, length-append, get_or, take, drop, arith,
}
use personal_c_cpp_back_end.Bytes.{
  load, store, load-ok, store-ok, splice, length-splice, length-take, length-drop, take-append,
  drop-append, drop-drop,
}
use personal_c_cpp_back_end.DnsClient.{dot, dns_parse_name, is_pointer}

-- The labels with dots between them.
abbrev pub join : List (List ℕ) → List ℕ
join [] = []
join (l ∷ []) = l
join (l ∷ m ∷ ls) = l ++ (dot ∷ join (m ∷ ls))

-- The labels as they stand in a packet, each behind its length, and a zero behind the last.
abbrev pub encode : List (List ℕ) → List ℕ
encode [] = 0 ∷ []
encode (l ∷ ls) = length l ∷ (l ++ encode ls)

-- Labels with at least one byte and less than 192, from where on a length is a pointer.
abbrev pub AllShort : List (List ℕ) → Type 0
AllShort [] = Unit {0}
AllShort (l ∷ ls) = (0 < length l) × (length l < 192) × AllShort ls

get_or-drop : (chunk : List ℕ) (p : ℕ) → get_or chunk p 0 ≡ get_or (drop p chunk) 0 0
get_or-drop [] zero = refl
get_or-drop [] (suc p) = refl
get_or-drop (x ∷ xs) zero = refl
get_or-drop (x ∷ xs) (suc p) = get_or-drop xs p

read-at : (chunk : List ℕ) (p b : ℕ) (rest : List ℕ) → drop p chunk ≡ b ∷ rest → read chunk p ≡ ok b
read-at chunk p b rest e =
    let room : p < length chunk = omega (arith, length-drop p chunk, ap length e) in
    let test : ltb p (length chunk) ≡ true = ground arith in
    rw test (ap ok (get_or-drop chunk p ∙ ap (λ xs. get_or xs 0 0) e))

-- Bytes that stand in a buffer are loaded, and what follows them is found behind them.
load-at :
    (chunk : List ℕ) (p : ℕ) (bs rest : List ℕ)
    → drop p chunk ≡ bs ++ rest
    → 0 < length bs
    → load p (length bs) chunk ≡ ok bs
load-at chunk p bs rest e some_ =
    let room : p + length bs ≤ length chunk =
      omega (arith, length-drop p chunk, ap length e, length-append bs rest) in
    load-ok p (length bs) chunk room
    ∙ ap (λ s. ok (take (length bs) s)) e
    ∙ ap ok (take-append (length bs) bs rest refl)

behind :
    (chunk : List ℕ) (p : ℕ) (bs rest : List ℕ)
    → drop p chunk ≡ bs ++ rest
    → drop (p + length bs) chunk ≡ rest
behind chunk p bs rest e =
    sym (drop-drop (length bs) p chunk)
    ∙ ap (drop (length bs)) e
    ∙ drop-append (length bs) bs rest refl

-- The bytes up to the end of a write.
pub take-splice :
    (o : ℕ) (bs s : List ℕ)
    → o + length bs ≤ length s
    → take (o + length bs) (splice o bs s) ≡ take o s ++ bs
take-splice o bs s room =
    ap (take (o + length bs)) (sym (append_assoc (take o s) bs (drop (o + length bs) s)))
    ∙ take-append (o + length bs) (take o s ++ bs) (drop (o + length bs) s)
        (omega (arith, length-append (take o s) bs, length-take o s (omega (arith, room))))

parse-end :
    (fuel : ℕ) (chunk : List ℕ) (p : ℕ) (out : List ℕ) (len : ℕ) (rest : List ℕ)
    → drop p chunk ≡ 0 ∷ rest
    → 0 < fuel
    → dns_parse_name fuel chunk p out len ≡ ok (out, len)
unfolding dns_parse_name
parse-end zero chunk p out len rest e enough = absurd (omega arith)
parse-end (suc fuel) chunk p out len rest e enough = rw (read-at chunk p 0 rest e) refl

-- A label with the byte `next` behind it.
parse-label :
    (fuel : ℕ) (chunk : List ℕ) (p : ℕ) (out : List ℕ) (len : ℕ) (l : List ℕ) (next : ℕ)
    (rest : List ℕ)
    → drop p chunk ≡ length l ∷ (l ++ (next ∷ rest))
    → 0 < length l
    → length l < 192
    → len + length l ≤ length out
    → dns_parse_name (suc fuel) chunk p out len ≡ (
        if next == 0
        then dns_parse_name fuel chunk (p + 1 + length l) (splice len l out) (len + length l)
        else (store (len + length l) (dot ∷ []) (splice len l out) >>= λ out2.
            dns_parse_name fuel chunk (p + 1 + length l) out2 (len + length l + 1)))
unfolding dns_parse_name is_pointer
parse-label fuel chunk p out len l next rest e some_ short room =
    let inside : drop (p + 1) chunk ≡ l ++ (next ∷ rest) =
      behind chunk p (length l ∷ []) (l ++ (next ∷ rest)) e in
    let ending : drop (p + 1 + length l) chunk ≡ next ∷ rest =
      behind chunk (p + 1) l (next ∷ rest) inside in
    let filled : (length l == 0) ≡ false = ground arith in
    let no_pointer : (length l / 64 % 4 == 3) ≡ false = ground arith in
    rw
      (
        read-at chunk p (length l) (l ++ (next ∷ rest)) e,
        filled,
        no_pointer,
        load-at chunk (p + 1) l (next ∷ rest) inside some_,
        store-ok len l out room,
        read-at chunk (p + 1 + length l) next rest ending,
      )
      refl

-- The bytes of a name in a packet, one label after the other, are appended to `out` with dots between
-- the labels.
pub dns_parse_name-labels :
    (fuel : ℕ) (chunk : List ℕ) (p : ℕ) (out : List ℕ) (len : ℕ) (l : List ℕ) (ls : List (List ℕ))
    (rest : List ℕ)
    → drop p chunk ≡ encode (l ∷ ls) ++ rest
    → AllShort (l ∷ ls)
    → length ls + 1 < fuel
    → len + length (join (l ∷ ls)) ≤ length out
    → Returns (dns_parse_name fuel chunk p out len) λ (out', len').
      (len' ≡ len + length (join (l ∷ ls)))
      × (take len' out' ≡ take len out ++ join (l ∷ ls))
      × (length out' ≡ length out)
dns_parse_name-labels zero chunk p out len l ls rest e short enough room = absurd (omega arith)
dns_parse_name-labels (suc fuel) chunk p out len l [] rest e (some_, short, _) enough room =
    let shape = e ∙ ap (◌∷◌ (length l)) (append_assoc l (0 ∷ []) rest) in
    let ending =
      behind chunk (p + 1) l (0 ∷ rest) (behind chunk p (length l ∷ []) (l ++ (0 ∷ rest)) shape) in
    rw
      (
        parse-label fuel chunk p out len l 0 rest shape some_ short room,
        parse-end fuel chunk (p + 1 + length l) (splice len l out) (len + length l) rest ending
            (omega arith),
      )
      (refl, take-splice len l out room, length-splice len l out room)
dns_parse_name-labels (suc fuel) chunk p out len l (m ∷ ms) rest e (some_, short, others) enough
      room =
    let tail = (m ++ encode ms) ++ rest in
    let shape = e ∙ ap (◌∷◌ (length l)) (append_assoc l (encode (m ∷ ms)) rest) in
    let ending =
      behind chunk (p + 1) l (length m ∷ tail)
        (behind chunk p (length l ∷ []) (l ++ (length m ∷ tail)) shape) in
    let sum = length-append l (dot ∷ join (m ∷ ms)) in
    let more : (length m == 0) ≡ false = ground (arith, others.0) in
    let room_l : len + length l ≤ length out = omega (arith, sum) in
    let out1 = splice len l out in
    let size1 = length-splice len l out room_l in
    let room_dot : len + length l + length (dot ∷ []) ≤ length out1 = omega (arith, sum, size1) in
    let out2 = splice (len + length l) (dot ∷ []) out1 in
    let size2 = length-splice (len + length l) (dot ∷ []) out1 room_dot in
    let text =
      take-splice (len + length l) (dot ∷ []) out1 room_dot
      ∙ ap (λ s. s ++ (dot ∷ [])) (take-splice len l out room_l) in
    rw
      (
        parse-label fuel chunk p out len l (length m) tail shape some_ short room_l,
        more,
        store-ok (len + length l) (dot ∷ []) out1 room_dot,
      )
      (Returns-mono _ (dns_parse_name fuel chunk (p + 1 + length l) out2 (len + length l + 1))
        (dns_parse_name-labels fuel chunk (p + 1 + length l) out2 (len + length l + 1) m ms rest
          ending others (omega arith) (omega (arith, sum, size1, size2)))
        λ (out', len') (e_len, e_take, e_size). (
          omega (arith, e_len, sum),
          e_take
              ∙ ap (λ s. s ++ join (m ∷ ms)) text
              ∙ append_assoc (take len out ++ l) (dot ∷ []) (join (m ∷ ms))
              ∙ append_assoc (take len out) l (dot ∷ join (m ∷ ms)),
          e_size ∙ size2 ∙ size1,
        ))

-- A pointer to itself is followed for ever: no number of rounds is enough.
pub dns_parse_name-self_pointer :
    (fuel : ℕ) (chunk : List ℕ) (p flag : ℕ) (out : List ℕ) (len : ℕ)
    → 192 ≤ flag
    → flag < 256
    → read chunk p ≡ ok flag
    → read chunk (p + 1) ≡ ok p
    → dns_parse_name fuel chunk p out len ≡ out_of_fuel
unfolding dns_parse_name is_pointer
dns_parse_name-self_pointer zero chunk p flag out len low high here target = refl
dns_parse_name-self_pointer (suc fuel) chunk p flag out len low high here target =
    let filled : (flag == 0) ≡ false = ground arith in
    let pointer : (flag / 64 % 4 == 3) ≡ true = ground arith in
    rw (here, filled, pointer, target)
      (dns_parse_name-self_pointer fuel chunk p flag out len low high here target)
