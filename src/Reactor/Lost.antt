-- ===== src/Reactor/Lost.antt =====
-- 4_high_concurrency_reacor_test/epollTest_multiport.c: a send that takes only a part of the buffer.
use mathlib.Core.Option.{some-injective}
use personal_c_cpp_back_end.Base.{
  ℕ, Bool, zero, suc, ◌+◌, ◌≤◌, ◌<◌, ◌≡◌, sym, ap, ◌∙◌, subst, some, List, [], ◌∷◌, ◌++◌, length,
  length-append, take, Returns, arith,
}
use personal_c_cpp_back_end.Reactor.{
  Ptr, send_cb, recv_cb, SockItem, epollin, epollout_et, Stream, Reactor, Reply, on_send, sent_part,
  set_item, set_stream,
}
use personal_c_cpp_back_end.Reactor.Streams.{IsValid, IsEcho, update_self}
use personal_c_cpp_back_end.Reactor.Steps.{send-connected, epoll_mod-modified}
use personal_c_cpp_back_end.Reactor.Exchange.{modified}

length-take : (n : ℕ) (xs : List ℕ) → length (take n xs) ≤ n
length-take zero xs = omega arith
length-take (suc n) [] = omega arith
length-take (suc n) (x ∷ xs) = omega (arith, length-take n xs)

-- A connection on which bytes are missing: the output grew by less than the chunk, and the reactor
-- waits for input again with nothing left to send.
pub record Lost (r : Reactor) (p : Ptr) (si : SockItem) (s : Stream) (chunk : List ℕ) : Type 0 where
  pub after : Stream
  pub connected : r.stream si.sockfd ≡ some after
  pub nothing_left : after.input ≡ after.offered
  pub grown : length after.output < length s.output + length chunk
  pub waits : r.watch si.sockfd ≡ some (epollin, p)
  pub reads : r.item p ≡ some (record si { callback = recv_cb })

-- When send takes fewer bytes than the buffer holds, send_cb goes back to reading all the same: the
-- connection has nothing left to send and its input is all offered, while its output has grown by less
-- than the buffer held, and the reactor waits for input. This is for any item of a valid reactor whose
-- descriptor is watched.
pub on_send-Lost :
    (all : Bool) (r : Reactor) (p : Ptr) (si : SockItem) (reply : Reply) (n : ℕ) (s : Stream)
    → IsValid all r
    → r.item p ≡ some si
    → si.callback ≡ send_cb
    → r.watch si.sockfd ≡ some (epollout_et, p)
    → r.stream si.sockfd ≡ some s
    → reply.taken ≡ some n
    → n < length (take si.sendlength si.sendbuffer)
    → Returns (on_send r p reply) λ r'. Lost r' p si s (take si.sendlength si.sendbuffer)
unfolding on_send
on_send-Lost all r p si reply n s v at is_send watched at_s taken less =
    let o = v.owned p si at in
    let chunk = take si.sendlength si.sendbuffer in
    let turned : SockItem = record si { callback = recv_cb } in
    let (s', at_s', same) = subst (λ c. IsEcho c (r.stream si.sockfd) chunk) is_send o.is_echo in
    let after : Stream = record s' {
      offered = s'.offered ++ chunk;
      output = s'.output ++ sent_part reply.taken chunk;
    } in
    let one : s' ≡ s = some-injective _ _ (sym at_s' ∙ at_s) in
    let part : sent_part reply.taken chunk ≡ take n chunk = ap (λ t. sent_part t chunk) taken in
    rw at (
      rw
        (
          send-connected r si.sockfd si.sendbuffer si.sendlength reply.taken s' at_s',
          epoll_mod-modified (set_item (set_stream r si.sockfd _) p (some turned)) si.epfd si.sockfd
              epollin p o.same_epfd,
        )
        record {
          after = after;
          connected = update_self r.stream si.sockfd (some after);
          nothing_left = same;
          grown = omega (
            arith,
            less,
            length-take n chunk,
            ap length part,
            length-append s'.output (sent_part reply.taken chunk),
            ap (λ x. length x.output) one,
          );
          waits =
              update_self r.watch si.sockfd (modified (r.watch si.sockfd) (epollin, p))
              ∙ ap (λ o. modified o (epollin, p)) watched;
          reads = update_self r.item p (some turned);
        })
