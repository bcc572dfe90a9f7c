-- ===== src/Reactor/Steps.antt =====
-- 4_high_concurrency_reacor_test/epollTest_multiport.c: send_cb and recv_cb keep the items
-- and the watched descriptors in step.
use mathlib.Core.Option.{some-injective}
use personal_c_cpp_back_end.Base.{
  ℕ, Bool, zero, suc, ◌+◌, ◌≡◌, Bool-cases, Option-cases, inl, if◌then◌else◌, refl, sym, ap, ◌∙◌,
  true, none, some, Option, List, [], ◌∷◌, ◌++◌, length, take, drop, ok, Returns, ◌==◌, arith, inr,
  subst, ◌^◌, ◌-◌, ◌%◌,
}
use personal_c_cpp_back_end.Reactor.{
  Ptr, Fd, send_cb, recv_cb, SockItem, Interest, epollin, epollout_et, Stream, Reactor, update,
  Reply, Incoming, bytes, try_again, broken, max_buffer_size, set_item, set_stream, sent_part, send,
  received, epoll_mod, epoll_del, on_send, on_recv, echo, disconnect,
}
use personal_c_cpp_back_end.Reactor.Streams.{IsEcho, IsValid, update_self}
use personal_c_cpp_back_end.Reactor.Exchange.{
  Keeps, modified, exchange-Keeps, apart_fds, turn-Keeps,
}

-- The calls of the kernel on a connection of the reactor.
pub send-connected :
    (r : Reactor) (fd : Fd) (buffer : List ℕ) (len : ℕ) (taken : Option ℕ) (s : Stream)
    → r.stream fd ≡ some s
    → send r fd buffer len taken
      ≡ set_stream r fd (
          some (record s {
            offered = s.offered ++ take len buffer;
            output = s.output ++ sent_part taken (take len buffer);
          }))
unfolding send
send-connected r fd buffer len taken s e = rw (send, e) refl

received-connected :
    (r : Reactor) (fd : Fd) (chunk : List ℕ) (s : Stream)
    → r.stream fd ≡ some s
    → received r fd chunk ≡ set_stream r fd (some (record s { input = s.input ++ chunk }))
unfolding received
received-connected r fd chunk s e = rw (received, e) refl

pub update_same : (f : Fd → Option (Interest × Ptr)) (fd g : Fd) → f g ≡ update f fd (f fd) g
update_same f fd g = elim (Bool-cases (g == fd)) [
  | inl e ↦
      let same : g ≡ fd = ground (arith, e) in ap f same ∙ sym (ap (λ t. if t then f fd else f g) e)
  | inr e ↦ sym (ap (λ t. if t then f fd else f g) e)
]

pub epoll_mod-modified :
    (r : Reactor) (epfd fd : Fd) (events : Interest) (p : Ptr)
    → epfd ≡ r.epfd
    → epoll_mod r epfd fd events p
      ≡ record r { watch = update r.watch fd (modified (r.watch fd) (events, p)) }
unfolding epoll_mod
epoll_mod-modified r epfd fd events p mine =
    let test : (epfd == r.epfd) ≡ true = ground (arith, mine) in
    elim (Option-cases (r.watch fd)) [
      | inl e ↦
          let same : record r { watch = r.watch }
              ≡ record r { watch = update r.watch fd (r.watch fd) } =
            λ i. record r { watch = λ g. update_same r.watch fd g i } in
          rw (test, e) (same ∙ ap (λ o. record r { watch = update r.watch fd o }) e)
      | inr (w, e) ↦ rw (test, e) refl
    ]

pub on_send-Keeps :
    (all : Bool) (r : Reactor) (p : Ptr) (si : SockItem) (reply : Reply)
    → IsValid all r
    → r.item p ≡ some si
    → si.callback ≡ send_cb
    → Returns (on_send r p reply) (Keeps all r p)
unfolding on_send
on_send-Keeps all r p si reply v at is_send =
    let o = v.owned p si at in
    let (s, at_s, same) =
      subst (λ c. IsEcho c (r.stream si.sockfd) (take si.sendlength si.sendbuffer)) is_send
        o.is_echo in
    let sent = send-connected r si.sockfd si.sendbuffer si.sendlength reply.taken s at_s in
    let turned : SockItem = record si { callback = recv_cb } in
    rw at (
      rw
        (
          sent,
          epoll_mod-modified (set_item (set_stream r si.sockfd _) p (some turned)) si.epfd si.sockfd
              epollin p o.same_epfd,
        )
        (turn-Keeps all r p si turned _ v at refl refl (_, refl, same)))

take-length : (n : ℕ) (xs ys : List ℕ) → n ≡ length xs → take n (xs ++ ys) ≡ xs
take-length n [] ys e = rw e refl
take-length zero (x ∷ xs) ys e = absurd (omega (arith, e))
take-length (suc n) (x ∷ xs) ys e = ap (λ rest. x ∷ rest) (take-length n xs ys (omega (arith, e)))

echo-Keeps :
    (all : Bool) (r : Reactor) (p : Ptr) (si : SockItem) (chunk : List ℕ)
    → IsValid all r
    → r.item p ≡ some si
    → si.callback ≡ recv_cb
    → Keeps all r p (echo r p si chunk)
unfolding echo
echo-Keeps all r p si chunk v at is_recv =
    let o = v.owned p si at in
    let (s, at_s, same) =
      subst (λ c. IsEcho c (r.stream si.sockfd) (take si.sendlength si.sendbuffer)) is_recv
        o.is_echo in
    let n = length chunk in
    let recvbuffer = chunk ++ drop n si.recvbuffer in
    let copied = take-length n chunk (drop n si.recvbuffer) refl in
    let held =
      take-length n (take n recvbuffer) (drop n si.sendbuffer) (ap length (sym copied)) ∙ copied in
    rw
      (
        received-connected r si.sockfd chunk s at_s,
        epoll_mod-modified (set_item (set_stream r si.sockfd _) p _) si.epfd si.sockfd epollout_et p
            o.same_epfd,
      )
      (turn-Keeps all r p si _ _ v at refl refl
        (_, refl, ap (λ xs. xs ++ chunk) same ∙ ap (λ xs. s.offered ++ xs) (sym held)))

-- The item and its descriptor go.
disconnect-Keeps :
    (all : Bool) (r : Reactor) (p : Ptr) (si : SockItem)
    → IsValid all r
    → r.item p ≡ some si
    → Keeps all r p (disconnect r p si)
unfolding disconnect epoll_del
disconnect-Keeps all r p si v at =
    let mine : (si.epfd == r.epfd) ≡ true = ground (arith, (v.owned p si at).same_epfd) in
    rw mine (
      exchange-Keeps all r ((r.client_cnt + 2 ^ 32 - 1) % 2 ^ 32) p none si.sockfd none none v
        (apart_fds all r p si v at) (λ sj e. ap (λ x. x.sockfd) (some-injective _ _ (sym e ∙ at)))
        (inr (update_self r.item p none, update_self r.watch si.sockfd none)))

chunk-Keeps :
    (all : Bool) (r : Reactor) (p : Ptr) (si : SockItem) (chunk : List ℕ)
    → IsValid all r
    → r.item p ≡ some si
    → si.callback ≡ recv_cb
    → Returns {A = Reactor}
        (elim chunk [ [] ↦ ok (disconnect r p si) | b ∷ rest ↦ ok (echo r p si (b ∷ rest)) ])
        (Keeps all r p)
chunk-Keeps all r p si [] v at is_recv = disconnect-Keeps all r p si v at
chunk-Keeps all r p si (b ∷ rest) v at is_recv = echo-Keeps all r p si (b ∷ rest) v at is_recv

incoming-Keeps :
    (all : Bool) (r : Reactor) (p : Ptr) (si : SockItem) (incoming : Incoming)
    → IsValid all r
    → r.item p ≡ some si
    → si.callback ≡ recv_cb
    → Returns
        (elim incoming [
          | try_again ↦ ok r
          | broken ↦ ok (disconnect r p si)
          | bytes bs ↦ elim (take max_buffer_size bs) [
            | [] ↦ ok (disconnect r p si)
            | b ∷ rest ↦ ok (echo r p si (b ∷ rest))
          ]
        ])
        (Keeps all r p)
incoming-Keeps all r p si try_again v at is_recv = (v, λ q sj ne e. e)
incoming-Keeps all r p si broken v at is_recv = disconnect-Keeps all r p si v at
incoming-Keeps all r p si (bytes bs) v at is_recv =
    chunk-Keeps all r p si (take max_buffer_size bs) v at is_recv

pub on_recv-Keeps :
    (all : Bool) (r : Reactor) (p : Ptr) (si : SockItem) (reply : Reply)
    → IsValid all r
    → r.item p ≡ some si
    → si.callback ≡ recv_cb
    → Returns (on_recv r p reply) (Keeps all r p)
unfolding on_recv
on_recv-Keeps all r p si reply v at is_recv =
    rw at (incoming-Keeps all r p si reply.incoming v at is_recv)
