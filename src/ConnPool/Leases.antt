-- ===== src/ConnPool/Leases.antt =====
-- 6_connections_pool_for_mysql/ConnPool.cpp: every connection is free or busy, and at one place.
use personal_c_cpp_back_end.Base.{
  ℕ, zero, suc, ◌+◌, ◌≤◌, ◌<◌, ◌≡◌, refl, ap, ◌∙◌, ◌⊎◌, Bool, true, false, List, [], ◌∷◌, ◌++◌, Run,
  ok, subst, Returns, length, length-append, leb, if◌then◌else◌, arith, Bool-cases, inl, inr,
  dec_le, ℕ_discrete,
}
use personal_c_cpp_back_end.ConnPool.{
  ConnPool, Answer, null_conn, conn_pool, init_from, init, add_free, take_front, take_conn, wake,
  is_in, put_conn, is_empty,
}
use personal_c_cpp_back_end.ConnPool.Counts.{
  count, count-append, count-remove, count-remove_self, length-remove, is_in-count, count_self,
  count_other,
}

-- m_cur_conn counts the connections, they are at most the maximum, and none is there twice.
pub record IsKept (max_conn cur_conn : ℕ) (free busy : List ℕ) : Type 0 where
  pub total : cur_conn ≡ length free + length busy
  pub bounded : cur_conn ≤ max_conn
  pub once : (c : ℕ) → count c free + count c busy ≤ 1

abbrev pub IsValid : ConnPool → Type 0
IsValid p = IsKept p.max_conn p.cur_conn p.free_list p.busy_list

-- A pool that has something in its list, or goes on no more.
abbrev Ready : ConnPool → Type 0
Ready p = (0 < length p.free_list) ⊎ (p.abort ≡ true)

-- The first of the free connections becomes busy.
lend-IsKept :
    (p : ConnPool) (c : ℕ) (cs : List ℕ)
    → p.free_list ≡ c ∷ cs
    → IsValid p
    → IsKept p.max_conn p.cur_conn cs (p.busy_list ++ (c ∷ []))
lend-IsKept p c cs e v = record {
  total = omega (arith, v.total, ap length e, length-append p.busy_list (c ∷ []));
  bounded = v.bounded;
  once = λ d. omega (
    arith,
    v.once d,
    ap (count d) e,
    count-append d (c ∷ []) cs,
    count-append d p.busy_list (c ∷ []),
  );
}

-- What the end of takeConn leaves of the pool: it is valid, and the maximum is the same.
abbrev pub Kept : ConnPool → ConnPool × Answer → Type 0
Kept p (p', a) = IsValid p' × (p'.max_conn ≡ p.max_conn)

front-Kept :
    (p : ConnPool) (free : List ℕ)
    → p.free_list ≡ free
    → IsValid p
    → Ready p
    → Returns (take_front p) (Kept p)
unfolding take_front
front-Kept p [] e v why = elim (Bool-cases p.abort) [
  | inl stopped ↦ rw stopped (v, refl)
  | inr on ↦ elim why [ inl some_ ↦ absurd (omega (arith, some_, ap length e)) | inr stopped ↦ cc ]
]
front-Kept p (c ∷ cs) e v why = elim (Bool-cases p.abort) [
  | inl stopped ↦ rw stopped (v, refl)
  | inr on ↦ rw (on, e) (lend-IsKept p c cs e v, refl)
]

empty-length : (xs : List ℕ) → is_empty xs ≡ true → length xs ≡ 0
empty-length [] e = refl
empty-length (x ∷ xs) e = cc

some-length : (xs : List ℕ) → is_empty xs ≡ false → 0 < length xs
some-length [] e = cc
some-length (x ∷ xs) e = omega arith

-- A connection that is neither free nor busy, as newFreeConn makes them.
abbrev pub IsNew : ConnPool → ℕ → Type 0
IsNew p c = count c p.free_list + count c p.busy_list ≡ 0

add_free-IsValid :
    (p : ConnPool) (c : ℕ)
    → IsValid p
    → IsNew p c
    → p.cur_conn < p.max_conn
    → IsValid (add_free p c)
unfolding add_free
add_free-IsValid p c v new room = record {
  total = omega (arith, v.total, length-append p.free_list (c ∷ []));
  bounded = omega arith;
  once = λ d. elim (ℕ_discrete d c) [
    | yes same ↦ rw same (omega (arith, new, count-append c p.free_list (c ∷ []), count_self c))
    | no ne ↦ omega (arith, v.once d, count-append d p.free_list (c ∷ []), count_other c d ne)
  ];
}

take_conn-Kept :
    (p : ConnPool) (c : ℕ) (good : Bool)
    → IsValid p
    → IsNew p c
    → Returns (take_conn p c good) (Kept p)
unfolding take_conn
take_conn-Kept p c good v new = elim (Bool-cases (is_empty p.free_list)) [
  | inr some_ ↦ rw some_ (front-Kept p p.free_list refl v (inl (some-length p.free_list some_)))
  | inl none_ ↦ elim (dec_le p.max_conn p.cur_conn) [
    | yes full ↦
        let test : leb p.max_conn p.cur_conn ≡ true = ground arith in rw (none_, test) (v, refl)
    | no room ↦
        let test : leb p.max_conn p.cur_conn ≡ false = ground (arith, room) in
        rw (none_, test) (grown good (omega (arith, room)))
  ]
]
  where
    grown :
        (b : Bool)
        → p.cur_conn < p.max_conn
        → Returns (if b then take_front (add_free p c) else ok (p, null_conn)) (Kept p)
    grown true room =
        front-Kept (add_free p c) _ refl (add_free-IsValid p c v new room)
          (inl (omega (arith, length-append p.free_list (c ∷ []))))
    grown false room = (v, refl)

wake-Kept : (p : ConnPool) (expired : Bool) → IsValid p → Returns (wake p expired) (Kept p)
unfolding wake
wake-Kept p expired v = elim (Bool-cases (is_empty p.free_list)) [
  | inr some_ ↦ rw some_ (front-Kept p p.free_list refl v (inl (some-length p.free_list some_)))
  | inl none_ ↦ elim (Bool-cases p.abort) [
    | inl stopped ↦ rw (none_, stopped) (v, refl)
    | inr on ↦ rw (none_, on) (v, refl)
  ]
]

put_conn-IsValid : (p : ConnPool) (c : ℕ) → IsValid p → IsValid (put_conn p c)
unfolding put_conn
put_conn-IsValid p c v = elim (Bool-cases (is_in c p.busy_list)) [
  | inl busy ↦
      let there = is_in-count c p.busy_list busy in
      rw busy record {
        total = omega (
          arith,
          v.total,
          v.once c,
          there,
          length-remove c p.busy_list,
          length-append p.free_list (c ∷ []),
        );
        bounded = v.bounded;
        once = λ d. elim (ℕ_discrete d c) [
          | yes same ↦ rw same (
              omega (
                arith,
                v.once c,
                there,
                count-append c p.free_list (c ∷ []),
                count_self c,
                count-remove_self c p.busy_list,
              ))
          | no ne ↦ omega (
            arith,
            v.once d,
            count-append d p.free_list (c ∷ []),
            count_other c d ne,
            count-remove c d p.busy_list,
          )
        ];
      }
  | inr other ↦ rw other v
]

-- Connections that differ from those of the pool and from each other.
abbrev pub AllNew : ConnPool → List (ℕ × Bool) → Type 0
AllNew p [] = Unit {0}
AllNew p ((c, good) ∷ made) = IsNew p c × AllNew (add_free p c) made

init_from-Kept :
    (rounds : ℕ) (p : ConnPool) (made : List (ℕ × Bool))
    → IsValid p
    → AllNew p made
    → rounds + p.cur_conn ≤ p.max_conn
    → rounds ≤ length made
    → Returns (init_from rounds p made) λ (p', good). IsValid p' × (p'.max_conn ≡ p.max_conn)
unfolding init_from
init_from-Kept zero p made v new room enough = (v, refl)
init_from-Kept (suc rounds) p [] v new room enough = absurd (omega arith)
init_from-Kept (suc rounds) p ((c, true) ∷ made) v (new, others) room enough =
    init_from-Kept rounds (add_free p c) made (add_free-IsValid p c v new (omega arith)) others
      (omega arith) (omega arith)
init_from-Kept (suc rounds) p ((c, false) ∷ made) v new room enough = (v, refl)

-- The pools that calls on a pool with the maximum `max` can make, after init.
pub data History (max : ℕ) : ConnPool → Type 0 where
  starts :
      (made : List (ℕ × Bool)) (p : ConnPool) (good : Bool)
      → 2 ≤ length made
      → AllNew (conn_pool max) made
      → init (conn_pool max) made ≡ ok (p, good)
      → History max p
  takes :
      (p p' : ConnPool) (c : ℕ) (good : Bool) (a : Answer)
      → History max p
      → IsNew p c
      → take_conn p c good ≡ ok (p', a)
      → History max p'
  wakes :
      (p p' : ConnPool) (expired : Bool) (a : Answer)
      → History max p
      → wake p expired ≡ ok (p', a)
      → History max p'
  puts : (p : ConnPool) (c : ℕ) → History max p → History max (put_conn p c)

put_conn-max_conn : (p : ConnPool) (c : ℕ) → (put_conn p c).max_conn ≡ p.max_conn
unfolding put_conn
put_conn-max_conn p c = elim (Bool-cases (is_in c p.busy_list)) [
  | inl busy ↦ rw busy refl
  | inr other ↦ rw other refl
]

at_result : {A : Type 0} (P : A → Type 0) (m : Run A) (a : A) → m ≡ ok a → Returns m P → P a
at_result P m a e h = subst (λ r. Returns r P) e h

new_pool-IsValid : (max : ℕ) → IsValid (conn_pool max)
unfolding conn_pool
new_pool-IsValid max = record { total = refl; bounded = omega arith; once = λ c. omega arith }

started-IsValid :
    (max : ℕ) (made : List (ℕ × Bool)) (p : ConnPool) (good : Bool)
    → 2 ≤ max
    → 2 ≤ length made
    → AllNew (conn_pool max) made
    → init (conn_pool max) made ≡ ok (p, good)
    → IsValid p × (p.max_conn ≡ max)
unfolding init conn_pool
started-IsValid max made p good two enough new e =
    at_result (λ r. IsValid r.0 × (r.0.max_conn ≡ max)) _ (p, good) e
      (init_from-Kept 2 (conn_pool max) made (new_pool-IsValid max) new (omega arith) enough)

-- With a maximum of at least two, in every pool that calls can make: m_cur_conn is the number of free and
-- busy connections together, it is at most the maximum, and no connection is in the lists twice, so none
-- is lent to two callers.
pub History-IsValid :
    (max : ℕ) (p : ConnPool) → 2 ≤ max → History max p → IsValid p × (p.max_conn ≡ max)
History-IsValid max q two (starts made p good enough new e) =
    started-IsValid max made p good two enough new e
History-IsValid max q two (takes p p' c good a h new e) =
    let (v, same) = History-IsValid max p two h in
    let (v', same') =
      at_result (Kept p) (take_conn p c good) (p', a) e (take_conn-Kept p c good v new) in
    (v', same' ∙ same)
History-IsValid max q two (wakes p p' expired a h e) =
    let (v, same) = History-IsValid max p two h in
    let (v', same') = at_result (Kept p) (wake p expired) (p', a) e (wake-Kept p expired v) in
    (v', same' ∙ same)
History-IsValid max q two (puts p c h) =
    let (v, same) = History-IsValid max p two h in
    (put_conn-IsValid p c v, put_conn-max_conn p c ∙ same)
