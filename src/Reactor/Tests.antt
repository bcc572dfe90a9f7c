-- ===== src/Reactor/Tests.antt =====
-- 4_high_concurrency_reacor_test/epollTest_multiport.c: a reactor with a listening socket and a client.
use mathlib.Core.Option.{some-injective, none-ne-some}
use personal_c_cpp_back_end.Base.{
  ℕ, Bool, inl, false, sym, ap, subst, ◌≡◌, refl, none, some, [], ◌∷◌, true, ok, ◌>>=◌, Returns,
  ◌==◌, if◌then◌else◌, arith,
}
use personal_c_cpp_back_end.Reactor.{
  Ptr, Fd, send_cb, recv_cb, accept_cb, SockItem, Interest, epollin, epollout_et, Reactor, Reply,
  bytes, Event, on_send, on_recv, on_accept, dispatch, echo, disconnect, send, received, epoll_add,
  epoll_mod, epoll_del, Opening, no_bind, init_port_and_listen,
}
use personal_c_cpp_back_end.Reactor.Streams.{IsValid, Owned}
use personal_c_cpp_back_end.Reactor.Accept.{IsFresh}
use personal_c_cpp_back_end.Reactor.Reach.{
  IsReported, nothing, ready, Reaches, start, wait, round, Reaches-IsReported, Reaches-dispatch,
}
use personal_c_cpp_back_end.Reactor.Lost.{Lost, on_send-Lost}

abbrev blank : SockItem
blank = record {
  sockfd = 0;
  callback = recv_cb;
  epfd = 0;
  recvbuffer = [];
  sendbuffer = [];
  recvlength = 0;
  sendlength = 0;
}

abbrev server : SockItem
server = record blank { sockfd = 4; callback = accept_cb; epfd = 3 }

abbrev client : SockItem
client = record blank { sockfd = 5; epfd = 3 }

-- The server's item at 40 and the client's at 50.
abbrev opened : Reactor
opened = record {
  epfd = 3;
  watch =
      λ fd. if fd == 4 then some (epollin, 40) else if fd == 5 then some (epollin, 50) else none;
  item = λ p. if p == 40 then some server else if p == 50 then some client else none;
  stream = λ fd. if fd == 5 then some (record { input = []; offered = []; output = [] }) else none;
  client_cnt = 1;
}

abbrev reply : Reply
reply = record {
  taken = some 2;
  incoming = bytes (7 ∷ 8 ∷ 9 ∷ []);
  accepted = some 5;
  added = true;
  memory = some 60;
  garbage = blank;
}

abbrev at_client : Event
at_client = record { is_io = true; ptr = 50 }

abbrev at_server : Event
at_server = record { is_io = true; ptr = 40 }

-- Three bytes come in, and two go out.
echoed :
    (dispatch opened at_client reply >>= λ r. dispatch r at_client reply >>= λ r'. ok (r'.stream 5))
    ≡ ok (some (record { input = 7 ∷ 8 ∷ 9 ∷ []; offered = 7 ∷ 8 ∷ 9 ∷ []; output = 7 ∷ 8 ∷ [] }))
unfolding dispatch on_send on_recv echo send received epoll_mod
echoed = refl

server-Owned : Owned true opened 40 server
server-Owned = record { same_epfd = refl; watched = inl refl; is_echo = tt }

client-Owned : Owned true opened 50 client
client-Owned = record {
  same_epfd = refl;
  watched = inl refl;
  is_echo = (record { input = []; offered = []; output = [] }, refl, refl);
}

at_number : (q p : ℕ) → (q == p) ≡ true → q ≡ p
at_number q p e = ground (arith, e)

opened-Owned :
    (p : Ptr) (si : SockItem) (a b : Bool)
    → (p == 40) ≡ a
    → (p == 50) ≡ b
    → (if a then some server else if b then some client else none) ≡ some si
    → Owned true opened p si
opened-Owned p si true b ea eb e =
    subst (λ x. Owned true opened p x) (some-injective _ _ e)
      (subst (λ q. Owned true opened q server) (sym (at_number p 40 ea)) server-Owned)
opened-Owned p si false true ea eb e =
    subst (λ x. Owned true opened p x) (some-injective _ _ e)
      (subst (λ q. Owned true opened q client) (sym (at_number p 50 eb)) client-Owned)
opened-Owned p si false false ea eb e = absurd (none-ne-some _ e)

opened-live :
    (fd : Fd) (w : Interest × Ptr) (a b : Bool)
    → (fd == 4) ≡ a
    → (fd == 5) ≡ b
    → (if a then some (epollin, 40) else if b then some (epollin, 50) else none) ≡ some w
    → (si : SockItem) × (opened.item w.1 ≡ some si) × (si.sockfd ≡ fd)
opened-live fd w true b ea eb e =
    (server, ap (λ x. opened.item x.1) (sym (some-injective _ _ e)), sym (at_number fd 4 ea))
opened-live fd w false true ea eb e =
    (client, ap (λ x. opened.item x.1) (sym (some-injective _ _ e)), sym (at_number fd 5 eb))
opened-live fd w false false ea eb e = absurd (none-ne-some _ e)

opened-IsValid : IsValid true opened
opened-IsValid = record {
  owned = λ p si e. opened-Owned p si (p == 40) (p == 50) refl refl e;
  live = λ fd w e. opened-live fd w (fd == 4) (fd == 5) refl refl e;
  distinct = λ p q si sj at_p at_q same. ground arith;
}

-- The client ends its connection, and the server accepts another with the same descriptor.
abbrev ended : Reply
ended = record reply { incoming = bytes [] }

both : Reaches true opened opened (at_client ∷ at_server ∷ [])
both =
    wait start
      (ready {fd = 5} epollin refl (ground arith, tt) (ready {fd = 4} epollin refl tt nothing))

ended-IsFresh : IsFresh true opened (record ended { accepted = none })
ended-IsFresh = record {
  memory = 60;
  is_memory = refl;
  unused = refl;
  new_fd = λ fd e. absurd (none-ne-some _ e);
  adds = λ e. refl;
}

-- The reactor after that end.
abbrev alone : Reactor
alone = disconnect (record opened { client_cnt = 1 }) 50 client

after_end : Reaches true opened alone (at_server ∷ [])
unfolding dispatch on_recv disconnect epoll_del
after_end = round (record ended { accepted = none }) both ended-IsFresh refl

reply-IsFresh : IsFresh true alone reply
unfolding disconnect epoll_del
reply-IsFresh = record {
  memory = 60;
  is_memory = refl;
  unused = refl;
  new_fd = λ fd e q sj at same. ground arith;
  adds = λ e. refl;
}

Reaches-IsReported_example : IsValid true alone × IsReported alone (at_server ∷ [])
Reaches-IsReported_example = Reaches-IsReported opened-IsValid after_end

Reaches-dispatch_example :
    Returns (dispatch alone at_server reply) λ r'. IsValid true r' × IsReported r' []
Reaches-dispatch_example = Reaches-dispatch reply opened-IsValid after_end reply-IsFresh

-- The client's item with three bytes to send.
abbrev full : SockItem
full = record client { callback = send_cb; sendbuffer = 7 ∷ 8 ∷ 9 ∷ []; sendlength = 3 }

abbrev sending : Reactor
sending = record {
  epfd = 3;
  watch = λ fd. if fd == 5 then some (epollout_et, 50) else none;
  item = λ p. if p == 50 then some full else none;
  stream = λ fd.
      if fd == 5 then some (record { input = 7 ∷ 8 ∷ 9 ∷ []; offered = []; output = [] }) else none;
  client_cnt = 1;
}

full-Owned : Owned true sending 50 full
full-Owned = record {
  same_epfd = refl;
  watched = inl refl;
  is_echo = (record { input = 7 ∷ 8 ∷ 9 ∷ []; offered = []; output = [] }, refl, refl);
}

sending-Owned :
    (p : Ptr) (si : SockItem) (a : Bool)
    → (p == 50) ≡ a
    → (if a then some full else none) ≡ some si
    → Owned true sending p si
sending-Owned p si true ea e =
    subst (λ x. Owned true sending p x) (some-injective _ _ e)
      (subst (λ q. Owned true sending q full) (sym (at_number p 50 ea)) full-Owned)
sending-Owned p si false ea e = absurd (none-ne-some _ e)

sending-live :
    (fd : Fd) (w : Interest × Ptr) (a : Bool)
    → (fd == 5) ≡ a
    → (if a then some (epollout_et, 50) else none) ≡ some w
    → (si : SockItem) × (sending.item w.1 ≡ some si) × (si.sockfd ≡ fd)
sending-live fd w true ea e =
    (full, ap (λ x. sending.item x.1) (sym (some-injective _ _ e)), sym (at_number fd 5 ea))
sending-live fd w false ea e = absurd (none-ne-some _ e)

sending-IsValid : IsValid true sending
sending-IsValid = record {
  owned = λ p si e. sending-Owned p si (p == 50) refl e;
  live = λ fd w e. sending-live fd w (fd == 5) refl e;
  distinct = λ p q si sj at_p at_q same. ground arith;
}

on_send-Lost_example : Returns (on_send sending 50 reply) λ r'.
    Lost r' 50 full (record { input = 7 ∷ 8 ∷ 9 ∷ []; offered = []; output = [] }) (7 ∷ 8 ∷ 9 ∷ [])
on_send-Lost_example =
    on_send-Lost true sending 50 full reply 2
      (record { input = 7 ∷ 8 ∷ 9 ∷ []; offered = []; output = [] }) sending-IsValid refl refl refl
      refl refl (ground arith)

-- A third socket is added; a fourth has no address.
abbrev third : Opening
third = record {
  socket = some 6;
  bound = true;
  listening = true;
  added = true;
  memory = some 60;
  garbage = blank;
}

listening :
    (init_port_and_listen opened 3 third >>= λ (r, o). ok (r.watch 6)) ≡ ok (some (epollin, 60))
unfolding init_port_and_listen epoll_add
listening = refl

-- If EPOLL_CTL_ADD fails, the new client is not watched.
left_alone :
    (dispatch opened at_server (record reply { accepted = some 6; added = false }) >>= λ r.
    ok (r.watch 6))
    ≡ ok none
unfolding dispatch on_accept epoll_add
left_alone = refl

unbound : init_port_and_listen opened 3 (record third { bound = false }) ≡ ok (opened, no_bind)
unfolding init_port_and_listen
unbound = refl
