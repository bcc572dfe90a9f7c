-- ===== src/Reactor/Exchange.antt =====
-- 4_high_concurrency_reacor_test/epollTest_multiport.c: a change of one item and of its
-- descriptor, which is what each callback makes.
use mathlib.Core.Option.{some-injective}
use personal_c_cpp_back_end.Base.{
  ℕ, Bool, ◌≡◌, ◌≢◌, refl, sym, ap, ◌∙◌, none, some, Option, take, inl, inr, subst,
}
use personal_c_cpp_back_end.Reactor.{Ptr, Fd, SockItem, Interest, Stream, Reactor, update}
use personal_c_cpp_back_end.Reactor.Streams.{
  interest_of, IsEcho, IsValid, update_self, update_other, Settled, touched-IsValid,
}

-- What a callback leaves: a valid reactor, in which the other items stand as before.
abbrev pub Keeps : Bool → Reactor → Ptr → Reactor → Type 0
Keeps all r p r' =
    IsValid all r' × ((q : Ptr) (si : SockItem) → q ≢ p → r.item q ≡ some si → r'.item q ≡ some si)

-- A reactor with another item at an address, and what belongs to its descriptor.
abbrev pub exchange :
    Reactor
    → (count : ℕ) → Ptr
    → Option SockItem
    → Fd
    → Option (Interest × Ptr)
    → Option Stream
    → Reactor
exchange r count p i fd w o = record {
  epfd = r.epfd;
  watch = update r.watch fd w;
  item = update r.item p i;
  stream = update r.stream fd o;
  client_cnt = count;
}

pub exchange-Keeps :
    (all : Bool) (r : Reactor) (count : ℕ) (p : Ptr) (i : Option SockItem) (fd : Fd)
    (w : Option (Interest × Ptr)) (o : Option Stream)
    → IsValid all r
    → ((q : Ptr) (sj : SockItem) → r.item q ≡ some sj → q ≢ p → sj.sockfd ≢ fd)
    → ((sj : SockItem) → r.item p ≡ some sj → sj.sockfd ≡ fd)
    → Settled all (exchange r count p i fd w o) p fd
    → Keeps all r p (exchange r count p i fd w o)
exchange-Keeps all r count p i fd w o v others before settled = (
  touched-IsValid all r (exchange r count p i fd w o) p fd v
      record {
        epfd_same = refl;
        items = λ q ne. update_other r.item p i q ne;
        watches = λ f ne. update_other r.watch fd w f ne;
        streams = λ f ne. update_other r.stream fd o f ne;
        others = others;
        before = before;
      }
      settled,
  λ q si ne e. update_other r.item p i q ne ∙ e,
)

-- An item elsewhere has another descriptor.
pub apart_fds :
    (all : Bool) (r : Reactor) (p : Ptr) (si : SockItem)
    → IsValid all r
    → r.item p ≡ some si
    → (q : Ptr) (sj : SockItem) → r.item q ≡ some sj
    → q ≢ p
    → sj.sockfd ≢ si.sockfd
apart_fds all r p si v at q sj at_q ne same = ne (v.distinct q p sj si at_q at same)

-- EPOLL_CTL_MOD of a descriptor, watched or not.
abbrev pub modified : Option (Interest × Ptr) → Interest × Ptr → Option (Interest × Ptr)
modified none w = none
modified (some old) w = some w

-- The item stays, with another callback.
pub turn-Keeps :
    (all : Bool) (r : Reactor) (p : Ptr) (si si' : SockItem) (s : Stream)
    → IsValid all r
    → r.item p ≡ some si
    → si'.sockfd ≡ si.sockfd
    → si'.epfd ≡ si.epfd
    → IsEcho si'.callback (some s) (take si'.sendlength si'.sendbuffer)
    → Keeps all r p (
        exchange r r.client_cnt p
          (some si')
          si.sockfd
          (modified (r.watch si.sockfd) (interest_of si'.callback, p))
          (some s))
turn-Keeps all r p si si' s v at same_fd same_epfd is_echo =
    let fd = si.sockfd in
    let new : Interest × Ptr = (interest_of si'.callback, p) in
    let w = modified (r.watch fd) new in
    let at_w = ap (update r.watch fd w) same_fd ∙ update_self r.watch fd w in
    exchange-Keeps all r r.client_cnt p (some si') fd w (some s) v (apart_fds all r p si v at)
      (λ sj e. ap (λ x. x.sockfd) (some-injective _ _ (sym e ∙ at)))
      (inl (
        si',
        update_self r.item p (some si'),
        same_fd,
        record {
          same_epfd = same_epfd ∙ (v.owned p si at).same_epfd;
          watched = elim (v.owned p si at).watched [
            | inl here ↦ inl (at_w ∙ ap (λ o. modified o new) here)
            | inr (lax, dead) ↦ inr (lax, at_w ∙ ap (λ o. modified o new) dead)
          ];
          is_echo =
              subst (λ o. IsEcho si'.callback o (take si'.sendlength si'.sendbuffer))
                (sym (ap (update r.stream fd (some s)) same_fd ∙ update_self r.stream fd (some s)))
                is_echo;
        },
      ))
