-- ===== src/Reactor.antt =====
-- 4_high_concurrency_reacor_test/epollTest_multiport.c: the callbacks of the echo server and its loop.
-- What the kernel answers to a call is an argument, a `Reply`; its table of watched descriptors and the
-- bytes of the connections are part of the state.
pub mod Streams
pub mod Exchange
pub mod Steps
pub mod Accept
pub mod Reach
pub mod Lost
pub mod Listen
pub mod Tests
use personal_c_cpp_back_end.Base.{
  ℕ, zero, suc, ◌+◌, ◌-◌, ◌%◌, ◌^◌, Bool, true, false, ◌||◌, Option, none, some, List, [], ◌∷◌,
  ◌++◌, length, take, drop, Run, ok, ◌>>=◌, deref, ◌==◌, if◌then◌else◌,
}

abbrev pub Ptr : Type 0
Ptr = ℕ

abbrev pub Fd : Type 0
Fd = ℕ

-- MAX_BUFFER_SIZE
abbrev pub max_buffer_size : ℕ
max_buffer_size = 1024

-- What `callback` points to.
pub data Callback : Type 0 where
  no_callback : Callback
  send_cb : Callback
  recv_cb : Callback
  accept_cb : Callback

-- struct sockitem
pub record SockItem : Type 0 where
  pub sockfd : Fd
  pub callback : Callback
  pub epfd : Fd
  pub recvbuffer : List ℕ
  pub sendbuffer : List ℕ
  pub recvlength : ℕ
  pub sendlength : ℕ

-- The events that epoll watches for: EPOLLIN, and EPOLLOUT | EPOLLET.
pub data Interest : Type 0 where
  epollin : Interest
  epollout_et : Interest

-- The bytes of a connection: what recv has given, what send was asked to send, and what it took.
pub record Stream : Type 0 where
  pub input : List ℕ
  pub offered : List ℕ
  pub output : List ℕ

-- The reactor's epoll instance, the watched descriptors with their `data.ptr`, the memory of the
-- items, the connections, and `client_cnt`, an int in two's complement.
pub record Reactor : Type 0 where
  pub epfd : Fd
  pub watch : Fd → Option (Interest × Ptr)
  pub item : Ptr → Option SockItem
  pub stream : Fd → Option Stream
  pub client_cnt : ℕ

-- What recv finds: bytes, of which none are the end of the connection; EAGAIN, EWOULDBLOCK or EINTR;
-- another error.
pub data Incoming : Type 0 where
  bytes : List ℕ → Incoming
  try_again : Incoming
  broken : Incoming

-- What the kernel and malloc answer during one callback: how many bytes send takes, or an error; what
-- recv finds; the new descriptor of accept; whether EPOLL_CTL_ADD succeeds; the memory, and what it
-- holds.
pub record Reply : Type 0 where
  pub taken : Option ℕ
  pub incoming : Incoming
  pub accepted : Option Fd
  pub added : Bool
  pub memory : Option Ptr
  pub garbage : SockItem

abbrev pub update {ℓ} : {A : Type ℓ} → (ℕ → A) → ℕ → A → ℕ → A
update f p v q = if q == p then v else f q

abbrev pub set_item : Reactor → Ptr → Option SockItem → Reactor
set_item r p i = record r { item = update r.item p i }

abbrev pub set_stream : Reactor → Fd → Option Stream → Reactor
set_stream r fd s = record r { stream = update r.stream fd s }

-- epoll_ctl, whose result no caller looks at. EPOLL_CTL_ADD may fail (ENOSPC, ENOMEM) and leaves a
-- watched descriptor as it is, and EPOLL_CTL_MOD one that is not watched.
unfoldable pub epoll_add : Reactor → (added : Bool) → (epfd fd : Fd) → Interest → Ptr → Reactor
epoll_add r added epfd fd events p =
    let watching : Reactor = elim (r.watch fd) [
      | none ↦ record r { watch = update r.watch fd (some (events, p)) }
      | some w ↦ r
    ] in
    if epfd == r.epfd then (if added then watching else r) else r

unfoldable pub epoll_mod : Reactor → (epfd fd : Fd) → Interest → Ptr → Reactor
epoll_mod r epfd fd events p =
    let changed : Reactor = elim (r.watch fd) [
      | none ↦ r
      | some w ↦ record r { watch = update r.watch fd (some (events, p)) }
    ] in
    if epfd == r.epfd then changed else r

unfoldable pub epoll_del : Reactor → (epfd fd : Fd) → Reactor
epoll_del r epfd fd = if epfd == r.epfd then record r { watch = update r.watch fd none } else r

-- What send takes of the bytes; none at an error.
abbrev pub sent_part : Option ℕ → List ℕ → List ℕ
sent_part none chunk = []
sent_part (some n) chunk = take n chunk

-- send offers the first `len` bytes, and takes at most those.
unfoldable pub send : Reactor → Fd → (buffer : List ℕ) → (len : ℕ) → Option ℕ → Reactor
send r fd buffer len taken =
    let chunk = take len buffer in
    elim (r.stream fd) [
      | none ↦ r
      | some s ↦ set_stream r fd (
          some
            (record s { offered = s.offered ++ chunk; output = s.output ++ sent_part taken chunk }))
    ]

-- The state after recv has given the bytes.
unfoldable pub received : Reactor → Fd → List ℕ → Reactor
received r fd chunk = elim (r.stream fd) [
  | none ↦ r
  | some s ↦ set_stream r fd (some (record s { input = s.input ++ chunk }))
]

-- send_cb: the result of send is returned, and the loop drops it.
unfoldable pub on_send : Reactor → Ptr → Reply → Run Reactor
on_send r p reply = do
  si ← deref (r.item p)
  let r1 = send r si.sockfd si.sendbuffer si.sendlength reply.taken
  let r2 = set_item r1 p (some (record si { callback = recv_cb }))
  ok (epoll_mod r2 si.epfd si.sockfd epollin p)

-- The end of a connection in recv_cb.
unfoldable pub disconnect : Reactor → Ptr → SockItem → Reactor
disconnect r p si =
    let r1 = record r { client_cnt = (r.client_cnt + 2 ^ 32 - 1) % 2 ^ 32 } in
    let r2 = epoll_del r1 si.epfd si.sockfd in
    let r3 = set_stream r2 si.sockfd none in set_item r3 p none

-- Bytes in recv_cb: they are copied to the send buffer.
unfoldable pub echo : Reactor → Ptr → SockItem → List ℕ → Reactor
echo r p si chunk =
    let n = length chunk in
    let recvbuffer = chunk ++ drop n si.recvbuffer in
    let sendbuffer = take n recvbuffer ++ drop n si.sendbuffer in
    let si' : SockItem = record si {
      recvbuffer = recvbuffer;
      recvlength = n;
      sendbuffer = sendbuffer;
      sendlength = n;
      callback = send_cb;
    } in
    let r1 = set_item (received r si.sockfd chunk) p (some si') in
    epoll_mod r1 si.epfd si.sockfd epollout_et p

-- recv_cb
unfoldable pub on_recv : Reactor → Ptr → Reply → Run Reactor
on_recv r p reply = do
  si ← deref (r.item p)
  elim reply.incoming [
    | try_again ↦ ok r
    | broken ↦ ok (disconnect r p si)
    | bytes bs ↦
        let chunk = take max_buffer_size bs in
        elim chunk [ [] ↦ ok (disconnect r p si) | b ∷ rest ↦ ok (echo r p si (b ∷ rest)) ]
  ]

-- accept_cb: the memory from malloc is written without a test.
unfoldable pub on_accept : Reactor → Ptr → Reply → Run Reactor
on_accept r p reply = do
  si ← deref (r.item p)
  elim reply.accepted [
    | none ↦ ok r
    | some clientfd ↦
        let r1 = record r { client_cnt = (r.client_cnt + 1) % 2 ^ 32 } in
        let r2 = set_stream r1 clientfd (some (record { input = []; offered = []; output = [] })) in
        deref reply.memory >>= λ q.
        let client = record reply.garbage {
          sockfd = clientfd;
          callback = recv_cb;
          epfd = si.epfd;
        } in
        ok (epoll_add (set_item r2 q (some client)) reply.added si.epfd clientfd epollin q)
  ]

-- What epoll_wait reports of a descriptor: whether it can be read or written, and `data.ptr`.
pub record Event : Type 0 where
  pub is_io : Bool
  pub ptr : Ptr

-- A round of the loop over the reported events.
unfoldable pub dispatch : Reactor → Event → Reply → Run Reactor
dispatch r ev reply =
    let call =
      (deref (r.item ev.ptr) >>= λ si. elim si.callback [
        | no_callback ↦ ok r
        | send_cb ↦ on_send r ev.ptr reply
        | recv_cb ↦ on_recv r ev.ptr reply
        | accept_cb ↦ on_accept r ev.ptr reply
      ]) in
    if ev.is_io then call else ok r

-- What the calls in init_port_and_listen answer.
pub record Opening : Type 0 where
  pub socket : Option Fd
  pub bound : Bool
  pub listening : Bool
  pub added : Bool
  pub memory : Option Ptr
  pub garbage : SockItem

-- The results of init_port_and_listen: -1, -2, -3, or the descriptor.
pub data Opened : Type 0 where
  no_socket : Opened
  no_bind : Opened
  no_listen : Opened
  listener : Fd → Opened

unfoldable pub init_port_and_listen : Reactor → (epfd : Fd) → Opening → Run (Reactor × Opened)
init_port_and_listen r epfd o = elim o.socket [
  | none ↦ ok (r, no_socket)
  | some sockfd ↦
      let watched =
        (deref o.memory >>= λ p.
        let si = record o.garbage { sockfd = sockfd; callback = accept_cb; epfd = epfd } in
        ok (epoll_add (set_item r p (some si)) o.added epfd sockfd epollin p, listener sockfd)) in
      if o.bound then (if o.listening then watched else ok (r, no_listen)) else ok (r, no_bind)
]
