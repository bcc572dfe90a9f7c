-- ===== src/Reactor/Streams.antt =====
-- 4_high_concurrency_reacor_test/epollTest_multiport.c: what holds between the rounds of the loop.
use mathlib.Core.Option.{some-injective, none-ne-some}
use personal_c_cpp_back_end.Base.{
  ℕ, Bool, ◌≡◌, ◌≢◌, refl, sym, ap, ◌∙◌, true, false, none, some, Option, List, ◌++◌, take, ◌==◌,
  arith, Bool-cases, inl, inr, ◌⊎◌, subst,
}
use personal_c_cpp_back_end.Reactor.{
  Ptr, Fd, Callback, no_callback, send_cb, recv_cb, accept_cb, SockItem, Interest, epollin,
  epollout_et, Stream, Reactor, update,
}

-- The events that a callback waits for.
abbrev pub interest_of : Callback → Interest
interest_of no_callback = epollin
interest_of send_cb = epollout_et
interest_of recv_cb = epollin
interest_of accept_cb = epollin

-- What was received on a connection is what was offered to send, followed by what the buffer holds.
abbrev pub IsEcho : Callback → Option Stream → (pending : List ℕ) → Type 0
IsEcho no_callback s pending = Unit {0}
IsEcho accept_cb s pending = Unit {0}
IsEcho recv_cb o pending = (s : Stream) × (o ≡ some s) × (s.input ≡ s.offered)
IsEcho send_cb o pending = (s : Stream) × (o ≡ some s) × (s.input ≡ s.offered ++ pending)

-- An item of the reactor's epoll instance, which watches its descriptor for its callback; unless `all`,
-- the descriptor may also be one that EPOLL_CTL_ADD failed to add.
pub record Owned (all : Bool) (r : Reactor) (p : Ptr) (si : SockItem) : Type 0 where
  pub same_epfd : si.epfd ≡ r.epfd
  pub watched :
      (r.watch si.sockfd ≡ some (interest_of si.callback, p))
      ⊎ ((all ≡ false) × (r.watch si.sockfd ≡ none))
  pub is_echo : IsEcho si.callback (r.stream si.sockfd) (take si.sendlength si.sendbuffer)

-- No descriptor is watched with a pointer to memory that is not an item of it, and no two items have
-- the same descriptor.
pub record IsValid (all : Bool) (r : Reactor) : Type 0 where
  pub owned : (p : Ptr) (si : SockItem) → r.item p ≡ some si → Owned all r p si
  pub live :
      (fd : Fd) (w : Interest × Ptr)
      → r.watch fd ≡ some w
      → (si : SockItem) × (r.item w.1 ≡ some si) × (si.sockfd ≡ fd)
  pub distinct :
      (p q : Ptr) (si sj : SockItem)
      → r.item p ≡ some si
      → r.item q ≡ some sj
      → si.sockfd ≡ sj.sockfd
      → p ≡ q

pub update_self {ℓ} : {A : Type ℓ} (f : ℕ → A) (p : ℕ) (v : A) → update f p v p ≡ v
update_self f p v = let test : (p == p) ≡ true = ground arith in rw test refl

pub update_other {ℓ} :
    {A : Type ℓ} (f : ℕ → A) (p : ℕ) (v : A) (q : ℕ) → q ≢ p → update f p v q ≡ f q
update_other f p v q ne = let test : (q == p) ≡ false = ground (arith, ne) in rw test refl

-- Nothing but the item at `p` and the descriptor `fd` differs, and no other item has the descriptor.
pub record Touched (r r' : Reactor) (p : Ptr) (fd : Fd) : Type 0 where
  pub epfd_same : r'.epfd ≡ r.epfd
  pub items : (q : Ptr) → q ≢ p → r'.item q ≡ r.item q
  pub watches : (f : Fd) → f ≢ fd → r'.watch f ≡ r.watch f
  pub streams : (f : Fd) → f ≢ fd → r'.stream f ≡ r.stream f
  pub others : (q : Ptr) (si : SockItem) → r.item q ≡ some si → q ≢ p → si.sockfd ≢ fd
  pub before : (si : SockItem) → r.item p ≡ some si → si.sockfd ≡ fd

-- The item with its descriptor, or neither.
abbrev pub Settled : Bool → Reactor → Ptr → Fd → Type 0
Settled all r p fd =
    ((si : SockItem) × (r.item p ≡ some si) × (si.sockfd ≡ fd) × Owned all r p si)
    ⊎ ((r.item p ≡ none) × (r.watch fd ≡ none))

same_of_test : (q p : ℕ) → (q == p) ≡ true → q ≡ p
same_of_test q p e = ground (arith, e)

dec_eq : (q p : ℕ) → (q ≡ p) ⊎ (q ≢ p)
dec_eq q p = elim (Bool-cases (q == p)) [
  | inl e ↦ inl (same_of_test q p e)
  | inr e ↦ inr (ground (arith, e))
]

module _ (all : Bool) (r r' : Reactor) (p : Ptr) (fd : Fd) (v : IsValid all r)
    (t : Touched r r' p fd) where
  kept_item : (q : Ptr) (si : SockItem) → q ≢ p → r'.item q ≡ some si → Owned all r' q si
  kept_item q si ne e =
      let old = sym (t.items q ne) ∙ e in
      let o = v.owned q si old in
      let apart = t.others q si old ne in
      record {
        same_epfd = o.same_epfd ∙ sym t.epfd_same;
        watched = elim o.watched [
          | inl here ↦ inl (t.watches si.sockfd apart ∙ here)
          | inr (lax, dead) ↦ inr (lax, t.watches si.sockfd apart ∙ dead)
        ];
        is_echo = rw (t.streams si.sockfd apart) o.is_echo;
      }

  kept_watch :
      (f : Fd) (w : Interest × Ptr)
      → f ≢ fd
      → r'.watch f ≡ some w
      → (si : SockItem) × (r'.item w.1 ≡ some si) × (si.sockfd ≡ f)
  kept_watch f w ne e =
      let (si, at_w, here) = v.live f w (sym (t.watches f ne) ∙ e) in
      (
        si,
        t.items w.1 (λ same. ne (sym here ∙ t.before si (ap r.item (sym same) ∙ at_w))) ∙ at_w,
        here,
      )

  new_item :
      (q : Ptr) (si : SockItem)
      → q ≡ p
      → r'.item q ≡ some si
      → Settled all r' p fd
      → Owned all r' q si
  new_item q si same e (inl (sj, at_p, here, o)) =
      let si_same : sj ≡ si = some-injective _ _ (sym at_p ∙ ap r'.item (sym same) ∙ e) in
      subst (λ x. Owned all r' q x) si_same (subst (λ x. Owned all r' x sj) (sym same) o)
  new_item q si same e (inr (gone, dead)) =
      absurd (none-ne-some _ (sym gone ∙ ap r'.item (sym same) ∙ e))

  new_watch :
      (f : Fd) (w : Interest × Ptr)
      → f ≡ fd
      → r'.watch f ≡ some w
      → Settled all r' p fd
      → (si : SockItem) × (r'.item w.1 ≡ some si) × (si.sockfd ≡ f)
  new_watch f w same e (inl (sj, at_p, here, o)) =
      let found = ap r'.watch (here ∙ sym same) ∙ e in
      elim o.watched [
        | inl to_sj ↦
            let to_p : p ≡ w.1 = ap (λ x. x.1) (some-injective _ _ (sym to_sj ∙ found)) in
            (sj, ap r'.item (sym to_p) ∙ at_p, here ∙ sym same)
        | inr (lax, dead) ↦ absurd (none-ne-some _ (sym dead ∙ found))
      ]
  new_watch f w same e (inr (gone, dead)) =
      absurd (none-ne-some _ (sym dead ∙ ap r'.watch (sym same) ∙ e))

  -- The item at `p` has the descriptor `fd`, any other item another.
  at_fd : (si : SockItem) → r'.item p ≡ some si → Settled all r' p fd → si.sockfd ≡ fd
  at_fd si e (inl (sj, at_p, here, o)) =
      ap (λ x. x.sockfd) (some-injective _ _ (sym e ∙ at_p)) ∙ here
  at_fd si e (inr (gone, dead)) = absurd (none-ne-some _ (sym gone ∙ e))

  off_fd : (q : Ptr) (si : SockItem) → q ≢ p → r'.item q ≡ some si → si.sockfd ≢ fd
  off_fd q si ne e = t.others q si (sym (t.items q ne) ∙ e) ne

  still_distinct :
      Settled all r' p fd
      → (q s : Ptr) (si sj : SockItem) → r'.item q ≡ some si
      → r'.item s ≡ some sj
      → si.sockfd ≡ sj.sockfd
      → q ≡ s
  still_distinct settled q s si sj e e' same = elim (dec_eq q p) [
    | inl at_q ↦ elim (dec_eq s p) [
      | inl at_s ↦ at_q ∙ sym at_s
      | inr ne ↦
          absurd (off_fd s sj ne e' (sym same ∙ at_fd si (ap r'.item (sym at_q) ∙ e) settled))
    ]
    | inr ne ↦ elim (dec_eq s p) [
      | inl at_s ↦ absurd (off_fd q si ne e (same ∙ at_fd sj (ap r'.item (sym at_s) ∙ e') settled))
      | inr ne' ↦ v.distinct q s si sj (sym (t.items q ne) ∙ e) (sym (t.items s ne') ∙ e') same
    ]
  ]

  pub touched-IsValid : Settled all r' p fd → IsValid all r'
  touched-IsValid settled = record {
    owned = λ q si e. elim (dec_eq q p) [
      | inl same ↦ new_item q si same e settled
      | inr ne ↦ kept_item q si ne e
    ];
    live = λ f w e. elim (dec_eq f fd) [
      | inl same ↦ new_watch f w same e settled
      | inr ne ↦ kept_watch f w ne e
    ];
    distinct = still_distinct settled;
  }

  -- Every other item stays.
  pub touched_other : (q : Ptr) (si : SockItem) → q ≢ p → r.item q ≡ some si → r'.item q ≡ some si
  touched_other q si ne e = t.items q ne ∙ e
