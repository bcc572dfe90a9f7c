-- ===== src/Reactor/Reach.antt =====
-- 4_high_concurrency_reacor_test/epollTest_multiport.c: the loop of main, from one epoll_wait to the next.
use mathlib.Core.Option.{some-injective}
use personal_c_cpp_back_end.Base.{
  ◌≡◌, ◌≢◌, refl, sym, ap, ◌∙◌, subst, Bool, Bool-cases, some, List, [], ◌∷◌, Run, ok, Returns,
  Returns-mono, inl, inr,
}
use personal_c_cpp_back_end.Reactor.{
  Ptr, Fd, Callback, no_callback, send_cb, recv_cb, accept_cb, SockItem, Interest, Reactor, Reply,
  Event, on_send, on_recv, on_accept, dispatch,
}
use personal_c_cpp_back_end.Reactor.Streams.{IsValid}
use personal_c_cpp_back_end.Reactor.Exchange.{Keeps}
use personal_c_cpp_back_end.Reactor.Steps.{on_send-Keeps, on_recv-Keeps}
use personal_c_cpp_back_end.Reactor.Accept.{IsFresh, on_accept-Keeps}

-- The events that are still to be handled point to items, and no two to the same.
abbrev pub IsAway : Ptr → List Event → Type 0
IsAway p [] = Unit {0}
IsAway p (ev ∷ evs) = (ev.ptr ≢ p) × IsAway p evs

abbrev pub IsReported : Reactor → List Event → Type 0
IsReported r [] = Unit {0}
IsReported r (ev ∷ evs) =
    ((si : SockItem) × (r.item ev.ptr ≡ some si)) × IsAway ev.ptr evs × IsReported r evs

-- What epoll_wait gives: events of different watched descriptors, with their `data.ptr`.
abbrev pub IsNew : Fd → List Fd → Type 0
IsNew fd [] = Unit {0}
IsNew fd (f ∷ fds) = (f ≢ fd) × IsNew fd fds

pub data Waited (r : Reactor) : List Fd → List Event → Type 0 where
  nothing : Waited r [] []
  ready :
      {fd : Fd} {fds : List Fd} {ev : Event} {evs : List Event} (i : Interest)
      → r.watch fd ≡ some (i, ev.ptr)
      → IsNew fd fds
      → Waited r fds evs
      → Waited r (fd ∷ fds) (ev ∷ evs)

-- The states of the loop, with the events that are still to be handled; if `all`, every EPOLL_CTL_ADD
-- on the way succeeds.
pub data Reaches (all : Bool) (r0 : Reactor) : Reactor → List Event → Type 0 where
  start : Reaches all r0 r0 []
  wait :
      {r : Reactor} {fds : List Fd} {evs : List Event}
      → Reaches all r0 r []
      → Waited r fds evs
      → Reaches all r0 r evs
  round :
      {r r' : Reactor} {ev : Event} {evs : List Event} (reply : Reply)
      → Reaches all r0 r (ev ∷ evs)
      → IsFresh all r reply
      → dispatch r ev reply ≡ ok r'
      → Reaches all r0 r' evs

Waited-IsAway :
    (all : Bool) (r : Reactor) (fd : Fd) (i : Interest) (p : Ptr)
    → IsValid all r
    → r.watch fd ≡ some (i, p)
    → {fds : List Fd} {evs : List Event} → Waited r fds evs
    → IsNew fd fds
    → IsAway p evs
Waited-IsAway all r fd i p v at nothing new = tt
Waited-IsAway all r fd i p v at (ready {fd = f} {ev = ev} j at_f _ rest) (ne, new) =
    let (si, at_p, same) = v.live fd (i, p) at in
    let (sj, at_q, same') = v.live f (j, ev.ptr) at_f in
    let one : ev.ptr ≡ p → f ≡ fd = λ e.
      sym same' ∙ ap (λ x. x.sockfd) (some-injective _ _ (sym at_q ∙ ap r.item e ∙ at_p)) ∙ same in
    ((λ e. ne (one e)), Waited-IsAway all r fd i p v at rest new)

Waited-IsReported :
    (all : Bool) (r : Reactor)
    → IsValid all r
    → {fds : List Fd} {evs : List Event} → Waited r fds evs
    → IsReported r evs
Waited-IsReported all r v nothing = tt
Waited-IsReported all r v (ready {fd = fd} {ev = ev} i at new rest) =
    let (si, at_p, same) = v.live fd (i, ev.ptr) at in
    ((si, at_p), Waited-IsAway all r fd i ev.ptr v at rest new, Waited-IsReported all r v rest)

-- Events elsewhere stay reported.
IsReported-kept :
    (r r' : Reactor) (p : Ptr) (evs : List Event)
    → ((q : Ptr) (si : SockItem) → q ≢ p → r.item q ≡ some si → r'.item q ≡ some si)
    → IsAway p evs
    → IsReported r evs
    → IsReported r' evs
IsReported-kept r r' p [] kept away reported = tt
IsReported-kept r r' p (ev ∷ evs) kept (ne, away) ((si, at), new, reported) =
    ((si, kept ev.ptr si ne at), new, IsReported-kept r r' p evs kept away reported)

-- A callback that is called, whichever it is.
call-Keeps :
    (all : Bool) (r : Reactor) (p : Ptr) (si : SockItem) (reply : Reply) (c : Callback)
    → IsValid all r
    → r.item p ≡ some si
    → IsFresh all r reply
    → si.callback ≡ c
    → Returns
        (elim c [
          | no_callback ↦ ok r
          | send_cb ↦ on_send r p reply
          | recv_cb ↦ on_recv r p reply
          | accept_cb ↦ on_accept r p reply
        ])
        (Keeps all r p)
call-Keeps all r p si reply no_callback v at fresh is_c = (v, λ q sj ne e. e)
call-Keeps all r p si reply send_cb v at fresh is_c = on_send-Keeps all r p si reply v at is_c
call-Keeps all r p si reply recv_cb v at fresh is_c = on_recv-Keeps all r p si reply v at is_c
call-Keeps all r p si reply accept_cb v at fresh is_c =
    Returns-mono _ (on_accept r p reply) (on_accept-Keeps all r p si reply v at fresh)
      λ r' (valid, kept). (valid, λ q sj ne e. kept q sj e)

dispatch-Keeps :
    (all : Bool) (r : Reactor) (ev : Event) (si : SockItem) (reply : Reply)
    → IsValid all r
    → r.item ev.ptr ≡ some si
    → IsFresh all r reply
    → Returns (dispatch r ev reply) (Keeps all r ev.ptr)
unfolding dispatch
dispatch-Keeps all r ev si reply v at fresh = elim (Bool-cases ev.is_io) [
  | inr off ↦ rw off (v, λ q sj ne e. e)
  | inl on ↦ rw (on, at) (call-Keeps all r ev.ptr si reply si.callback v at fresh refl)
]

returned-eq :
    {r' : Reactor} (P : Reactor → Type 0) (m : Run Reactor) → Returns m P → m ≡ ok r' → P r'
returned-eq {r' = r'} P m h e = subst (λ x. Returns x P) e h

-- From a valid reactor, between two rounds the items and the watched descriptors are in step: every
-- watched descriptor points to its item, no two items have the same descriptor, and what was received
-- on a connection is what was offered to send and then what the send buffer still holds. Every item's
-- descriptor is watched for what its callback waits for, or else is not watched at all, which is so
-- for none if every EPOLL_CTL_ADD succeeds (`all`) and none was so at the start. The events that are
-- still to be handled point to different items. malloc gives memory that holds no item, and accept
-- gives descriptors that no item has.
pub Reaches-IsReported :
    {all : Bool} {r0 r : Reactor} {evs : List Event}
    → IsValid all r0
    → Reaches all r0 r evs
    → IsValid all r × IsReported r evs
Reaches-IsReported v start = (v, tt)
Reaches-IsReported {all = all} v (wait {r = r} run waited) =
    let (valid, _) = Reaches-IsReported v run in (valid, Waited-IsReported all r valid waited)
Reaches-IsReported {all = all} v
      (round {r = r} {r' = r'} {ev = ev} {evs = evs} reply run fresh step) =
    let (valid, ((si, at), away, reported)) = Reaches-IsReported v run in
    let (valid', kept) =
      returned-eq (Keeps all r ev.ptr) (dispatch r ev reply)
        (dispatch-Keeps all r ev si reply valid at fresh) step in
    (valid', IsReported-kept r r' ev.ptr evs kept away reported)

-- Whatever the order of the events and whatever the callbacks before did, the next round does not use
-- the memory of an item that was freed, and leaves a valid reactor whose other reported events still
-- point to their items. This is whether or not EPOLL_CTL_ADD succeeds, provided that malloc gives memory
-- that holds no item, and accept descriptors that no item has.
pub Reaches-dispatch :
    {all : Bool} {r0 r : Reactor} {ev : Event} {evs : List Event} (reply : Reply)
    → IsValid all r0
    → Reaches all r0 r (ev ∷ evs)
    → IsFresh all r reply
    → Returns (dispatch r ev reply) λ r'. IsValid all r' × IsReported r' evs
Reaches-dispatch {all = all} {r = r} {ev = ev} {evs = evs} reply v run fresh =
    let (valid, ((si, at), away, reported)) = Reaches-IsReported v run in
    Returns-mono _ (dispatch r ev reply) (dispatch-Keeps all r ev si reply valid at fresh)
      λ r' (valid', kept). (valid', IsReported-kept r r' ev.ptr evs kept away reported)
