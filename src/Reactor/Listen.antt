-- ===== src/Reactor/Listen.antt =====
-- 4_high_concurrency_reacor_test/epollTest_multiport.c: init_port_and_listen.
use mathlib.Core.Option.{none-ne-some}
use personal_c_cpp_back_end.Base.{
  Bool, true, false, Option, ◌≢◌, ◌⊎◌, if◌then◌else◌, ◌≡◌, refl, sym, ◌∙◌, Bool-cases, Option-cases,
  none, some, Returns, inl, inr,
}
use personal_c_cpp_back_end.Reactor.{
  Ptr, Fd, accept_cb, SockItem, Interest, epollin, Reactor, update, set_item, epoll_add, Opening,
  Opened, no_socket, no_bind, no_listen, listener, init_port_and_listen,
}
use personal_c_cpp_back_end.Reactor.Streams.{IsValid, update_self, update_other, touched-IsValid}
use personal_c_cpp_back_end.Reactor.Accept.{epoll_add-unwatched, not_watched, added_watch}

-- The socket, which no item has, and the memory for its item. If `all`, EPOLL_CTL_ADD succeeds.
pub record CanListen (all : Bool) (r : Reactor) (o : Opening) : Type 0 where
  pub memory : Ptr
  pub is_memory : o.memory ≡ some memory
  pub unused : r.item memory ≡ none
  pub new_fd :
      (fd : Fd)
      → o.socket ≡ some fd
      → (q : Ptr) (sj : SockItem) → r.item q ≡ some sj
      → sj.sockfd ≢ fd
  pub adds : all ≡ true → o.added ≡ true

-- The results: the reactor is as it was, or it listens at the new socket as well.
abbrev pub Opens : Bool → Reactor → Reactor × Opened → Type 0
Opens all r (r', no_socket) = r' ≡ r
Opens all r (r', no_bind) = r' ≡ r
Opens all r (r', no_listen) = r' ≡ r
Opens all r (r', listener fd) =
    IsValid all r'
    × (p : Ptr) × (si : SockItem) × (r'.item p ≡ some si)
    × (si.callback ≡ accept_cb)
    × ((r'.watch fd ≡ some (epollin, p)) ⊎ ((all ≡ false) × (r'.watch fd ≡ none)))

listens :
    (all added : Bool) (r : Reactor) (fd : Fd) (p : Ptr) (garbage : SockItem)
    → IsValid all r
    → r.item p ≡ none
    → ((q : Ptr) (sj : SockItem) → r.item q ≡ some sj → sj.sockfd ≢ fd)
    → (all ≡ true → added ≡ true)
    → Opens all r (
      epoll_add
          (set_item r p
            (some (record garbage { sockfd = fd; callback = accept_cb; epfd = r.epfd })))
          added
          r.epfd
          fd
          epollin
          p,
      listener fd,
    )
listens all added r fd p garbage v unused new_fd adds =
    let si : SockItem = record garbage { sockfd = fd; callback = accept_cb; epfd = r.epfd } in
    let r1 = set_item r p (some si) in
    let w : Option (Interest × Ptr) = if added then some (epollin, p) else none in
    let r2 : Reactor = record r1 { watch = update r.watch fd w } in
    let at_p = update_self r.item p (some si) in
    let watched = added_watch all added (epollin, p) _ adds (update_self r.watch fd w) in
    rw (epoll_add-unwatched r1 added r.epfd fd epollin p refl (not_watched all r fd v new_fd)) (
      touched-IsValid all r r2 p fd v
          record {
            epfd_same = refl;
            items = λ q ne. update_other r.item p (some si) q ne;
            watches = λ f ne. update_other r.watch fd w f ne;
            streams = λ f ne. refl;
            others = λ q sj at_q ne. new_fd q sj at_q;
            before = λ sj at_q. absurd (none-ne-some _ (sym unused ∙ at_q));
          }
          (inl (si, at_p, refl, record { same_epfd = refl; watched = watched; is_echo = tt })),
      p,
      si,
      at_p,
      refl,
      watched,
    )

-- On a valid reactor init_port_and_listen leaves it as it is when a call fails, or adds an item whose
-- callback is accept_cb, and leaves a valid reactor. Its descriptor is watched for it, unless EPOLL_CTL_ADD
-- failed.
pub init_port_and_listen-Opens :
    (all : Bool) (r : Reactor) (o : Opening)
    → IsValid all r
    → CanListen all r o
    → Returns (init_port_and_listen r r.epfd o) (Opens all r)
unfolding init_port_and_listen
init_port_and_listen-Opens all r o v can = elim (Option-cases o.socket) [
  | inl e ↦ rw e refl
  | inr (fd, e) ↦ elim (Bool-cases o.bound) [
    | inr eb ↦ rw (e, eb) refl
    | inl eb ↦ elim (Bool-cases o.listening) [
      | inr el ↦ rw (e, eb, el) refl
      | inl el ↦
          rw (e, eb, el, can.is_memory)
            (listens all o.added r fd can.memory o.garbage v can.unused (can.new_fd fd e) can.adds)
    ]
  ]
]
