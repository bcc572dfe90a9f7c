-- ===== src/Reactor/Accept.antt =====
-- 4_high_concurrency_reacor_test/epollTest_multiport.c: accept_cb adds an item and a watched
-- descriptor.
use mathlib.Core.Option.{none-ne-some}
use personal_c_cpp_back_end.Base.{
  ℕ, Bool, false, Option, if◌then◌else◌, ◌⊎◌, ◌+◌, ◌≡◌, ◌≢◌, refl, sym, ap, ◌∙◌, true, none, some,
  [], take, Returns, ◌==◌, arith, inl, inr, subst, Option-cases, ◌^◌, ◌%◌,
}
use personal_c_cpp_back_end.Reactor.{
  Ptr, Fd, recv_cb, SockItem, Interest, epollin, Stream, Reactor, update, Reply, set_item,
  set_stream, epoll_add, on_accept,
}
use personal_c_cpp_back_end.Reactor.Streams.{interest_of, IsEcho, IsValid, update_self}
use personal_c_cpp_back_end.Reactor.Steps.{update_same}
use personal_c_cpp_back_end.Reactor.Exchange.{Keeps, exchange, exchange-Keeps}

-- The memory that malloc gives holds no item, and the new descriptor is that of no item. If `all`,
-- EPOLL_CTL_ADD succeeds.
pub record IsFresh (all : Bool) (r : Reactor) (reply : Reply) : Type 0 where
  pub memory : Ptr
  pub is_memory : reply.memory ≡ some memory
  pub unused : r.item memory ≡ none
  pub new_fd :
      (fd : Fd)
      → reply.accepted ≡ some fd
      → (q : Ptr) (sj : SockItem) → r.item q ≡ some sj
      → sj.sockfd ≢ fd
  pub adds : all ≡ true → reply.added ≡ true

pub epoll_add-unwatched :
    (r : Reactor) (added : Bool) (epfd fd : Fd) (events : Interest) (p : Ptr)
    → epfd ≡ r.epfd
    → r.watch fd ≡ none
    → epoll_add r added epfd fd events p
      ≡ record r { watch = update r.watch fd (if added then some (events, p) else none) }
unfolding epoll_add
epoll_add-unwatched r true epfd fd events p mine e =
    let test : (epfd == r.epfd) ≡ true = ground (arith, mine) in rw test (rw e refl)
epoll_add-unwatched r false epfd fd events p mine e =
    let test : (epfd == r.epfd) ≡ true = ground (arith, mine) in
    rw test (
      (λ i. record r { watch = λ g. update_same r.watch fd g i })
      ∙ ap (λ o. record r { watch = update r.watch fd o }) e)

-- The descriptor of no item is not watched.
pub not_watched :
    (all : Bool) (r : Reactor) (fd : Fd)
    → IsValid all r
    → ((q : Ptr) (sj : SockItem) → r.item q ≡ some sj → sj.sockfd ≢ fd)
    → r.watch fd ≡ none
not_watched all r fd v new_fd = elim (Option-cases (r.watch fd)) [
  | inl e ↦ e
  | inr (w, e) ↦ let (si, at_w, same) = v.live fd w e in absurd (new_fd w.1 si at_w same)
]

-- What an added descriptor is watched for.
pub added_watch :
    (all added : Bool) (w : Interest × Ptr) (o : Option (Interest × Ptr))
    → (all ≡ true → added ≡ true)
    → o ≡ (if added then some w else none)
    → (o ≡ some w) ⊎ ((all ≡ false) × (o ≡ none))
added_watch all true w o adds e = inl e
added_watch true false w o adds e = absurd (cc (adds refl))
added_watch false false w o adds e = inr (refl, e)

client-Keeps :
    (all added : Bool) (r : Reactor) (count : ℕ) (q : Ptr) (fd : Fd) (client : SockItem)
    → IsValid all r
    → (all ≡ true → added ≡ true)
    → r.item q ≡ none
    → ((q' : Ptr) (sj : SockItem) → r.item q' ≡ some sj → sj.sockfd ≢ fd)
    → client.sockfd ≡ fd
    → client.epfd ≡ r.epfd
    → client.callback ≡ recv_cb
    → Keeps all r q (
        exchange r count q
          (some client)
          fd
          (if added then some (epollin, q) else none)
          (some (record { input = []; offered = []; output = [] })))
client-Keeps all added r count q fd client v adds unused new_fd same_fd same_epfd is_recv =
    let s : Stream = record { input = []; offered = []; output = [] } in
    let w : Option (Interest × Ptr) = if added then some (epollin, q) else none in
    exchange-Keeps all r count q (some client) fd w (some s) v (λ q' sj at_q ne. new_fd q' sj at_q)
      (λ sj at_q. absurd (none-ne-some _ (sym unused ∙ at_q)))
      (inl (
        client,
        update_self r.item q (some client),
        same_fd,
        record {
          same_epfd = same_epfd;
          watched =
              subst
                (λ c.
                  (update r.watch fd w client.sockfd ≡ some (interest_of c, q))
                  ⊎ ((all ≡ false) × (update r.watch fd w client.sockfd ≡ none)))
                (sym is_recv)
                (added_watch all added (epollin, q) _ adds
                  (ap (update r.watch fd w) same_fd ∙ update_self r.watch fd w));
          is_echo =
              subst
                (λ c.
                  IsEcho c (update r.stream fd (some s) client.sockfd)
                    (take client.sendlength client.sendbuffer))
                (sym is_recv)
                (
                  s,
                  ap (update r.stream fd (some s)) same_fd ∙ update_self r.stream fd (some s),
                  refl,
                );
        },
      ))

pub on_accept-Keeps :
    (all : Bool) (r : Reactor) (p : Ptr) (si : SockItem) (reply : Reply)
    → IsValid all r
    → r.item p ≡ some si
    → IsFresh all r reply
    → Returns (on_accept r p reply) λ r'.
      IsValid all r' × ((q : Ptr) (sj : SockItem) → r.item q ≡ some sj → r'.item q ≡ some sj)
unfolding on_accept
on_accept-Keeps all r p si reply v at fresh = elim (Option-cases reply.accepted) [
  | inl e ↦ rw (at, e) (v, λ q sj at_q. at_q)
  | inr (fd, e) ↦
      rw (at, e, fresh.is_memory)
        let new_fd = fresh.new_fd fd e in
          let client : SockItem = record reply.garbage {
            sockfd = fd;
            callback = recv_cb;
            epfd = si.epfd;
          } in
          let counted : Reactor = record r { client_cnt = (r.client_cnt + 1) % 2 ^ 32 } in
          let opened =
            set_stream counted fd (some (record { input = []; offered = []; output = [] })) in
          let mine = (v.owned p si at).same_epfd in
          rw
            (epoll_add-unwatched (set_item opened fresh.memory (some client)) reply.added si.epfd fd
              epollin fresh.memory mine (not_watched all r fd v new_fd))
            let (valid, kept) =
                client-Keeps all reply.added r counted.client_cnt fresh.memory fd client v
                  fresh.adds fresh.unused new_fd refl mine refl in
              (
                valid,
                λ q sj at_q.
                    kept q sj
                      (λ same. none-ne-some _ (sym fresh.unused ∙ ap r.item (sym same) ∙ at_q))
                      at_q,
              )
]
