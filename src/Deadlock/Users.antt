-- ===== src/Deadlock/Users.antt =====
-- before_lock and after_lock keep the users of the locks counted, which after_unlock needs.
use mathlib.Core.Option.{none-ne-some}
use personal_c_cpp_back_end.Base.{
  ℕ, ◌+◌, ◌%◌, ◌<◌, ◌≡◌, ◌≢◌, sym, ap, ◌∙◌, inl, inr, true, false, none, some, ok, fault,
  out_of_fuel, Run, Returns, Returns-bind, Returns-eq-ok, ◌==◌, ℕ_discrete, arith,
}
use personal_c_cpp_back_end.Deadlock.{
  Ptr, null, int_mod, Vertex, ResourceLock, TaskGraph, has, update, add_vertex, add_lock,
  add_vertex_to_graph, add_lock_to_graph, find_or_add_vertex, find_or_add_lock, search_vertex,
  search_lock, add_relation_before_lock, become_holder_after_lock, before_lock, after_lock,
}
use personal_c_cpp_back_end.Deadlock.Waits.{IsSound}
use personal_c_cpp_back_end.Deadlock.Lookup.{users, users_in, search_vertex_lem, search_lock_lem}
use personal_c_cpp_back_end.Deadlock.Links.{has-link_last, link_last-Distinct}
use personal_c_cpp_back_end.Deadlock.Updates.{find_or_add_vertex-IsSound, find_or_add_lock-IsSound}
use personal_c_cpp_back_end.Deadlock.Counts.{
  waiters, waiters_in, IsCounted, waiters_in_none, waiters_in-update, waiters_in-update_less,
  waiters_in-link_last,
}

module _ {g : TaskGraph} (s : IsSound g) (c : IsCounted g) where
  -- A new vertex waits for nothing.
  add_vertex-IsCounted :
      (fresh : Ptr) (tid : ℕ)
      → fresh ≢ null
      → IsCounted (add_vertex_to_graph (add_vertex g fresh tid) fresh)
  unfolding add_vertex_to_graph add_vertex
  add_vertex-IsCounted fresh tid ne =
      let test : (fresh == null) ≡ false = ground (arith, ne) in
      let v : Vertex = record { tid = tid; waitting = null } in
      let own : (fresh == fresh) ≡ true = ground arith in
      let m = update g.vertex fresh (some v) in
      rw test record {
        listed = λ p u e. ground (arith, has-link_last g.vertex_list fresh p, c.listed p u);
        counted = λ q l given e.
            let idle : (null == q) ≡ false = ground (arith, given) in
            let linked = waiters_in-link_last m g.vertex_list fresh q in
            omega (
              arith,
              c.counted q l given e,
              (rw (own, idle) at linked),
              (rw idle at (waiters_in-update g.vertex g.vertex_list fresh q v c.distinct)),
            );
        distinct = link_last-Distinct g.vertex_list fresh c.distinct;
      }

  -- No one waits for a new lock.
  add_lock-IsCounted :
      (fresh mtx : Ptr)
      → fresh ≢ null
      → g.resource fresh ≡ none
      → IsCounted (add_lock_to_graph (add_lock g fresh mtx) fresh)
  unfolding add_lock_to_graph add_lock
  add_lock-IsCounted fresh mtx ne unused =
      let test : (fresh == null) ≡ false = ground (arith, ne) in
      let unwanted : (p : Ptr) (v : Vertex) → g.vertex p ≡ some v → v.waitting ≢ fresh =
        λ p v e same. elim (s.waiting p v e) [
          | inl idle ↦ ne (sym same ∙ idle)
          | inr (l, held) ↦ none-ne-some _ (sym unused ∙ ap g.resource (sym same) ∙ held)
        ] in
      rw test record {
        listed = c.listed;
        counted = λ q l given e. elim (ℕ_discrete q fresh) [
          | yes here ↦ omega (
            arith,
            waiters_in_none g.vertex g.vertex_list fresh unwanted,
            ap (waiters_in g.vertex g.vertex_list) here,
          )
          | no other ↦ c.counted q l given (ground (arith, e, other))
        ];
        distinct = c.distinct;
      }

  -- The lock at `q` has one user more, and the vertex at `p` waits for it.
  add_relation-IsCounted :
      (p q : Ptr) (v : Vertex) (l : ResourceLock)
      → has p g.vertex_list ≡ true
      → g.vertex p ≡ some v
      → g.resource q ≡ some l
      → l.used + 1 < int_mod
      → Returns (add_relation_before_lock g p q) IsCounted
  unfolding add_relation_before_lock
  add_relation-IsCounted p q v l i at_p at_q small =
      let v' : Vertex = record v { waitting = q } in
      rw (at_p, at_q)
        record {
          listed = λ r u e. elim (ℕ_discrete r p) [
            | yes here ↦ ap (λ x. has x g.vertex_list) here ∙ i
            | no other ↦ c.listed r u (ground (arith, e, other))
          ];
          counted = λ r k given e.
              let more = waiters_in-update g.vertex g.vertex_list p r v' c.distinct in
              elim (ℕ_discrete r q) [
                | yes here ↦
                    let test : (q == r) ≡ true = ground (arith, here) in
                    let used : k.used ≡ (l.used + 1) % int_mod = ground (arith, e, here) in
                    let before = c.counted r l given (ap g.resource here ∙ at_q) in
                    omega (arith, (rw test at more), used, before, small)
                | no other ↦
                    let test : (q == r) ≡ false = ground (arith, other) in
                    omega (arith, (rw test at more), c.counted r k given (ground (arith, e, other)))
              ];
          distinct = c.distinct;
        }

  -- The vertex at `p` waits for nothing any more, and if it waited for the lock at `q`, then this has
  -- one user more than the threads that wait for it.
  become_holder-IsCounted :
      (p q : Ptr) (v : Vertex) (l : ResourceLock)
      → has p g.vertex_list ≡ true
      → q ≢ null
      → g.vertex p ≡ some v
      → g.resource q ≡ some l
      → Returns
          (become_holder_after_lock g p q)
          λ g'. IsCounted g' × (v.waitting ≡ q → waiters g' q < l.used)
  unfolding become_holder_after_lock
  become_holder-IsCounted p q v l i ne at_p at_q =
      let v' : Vertex = record v { waitting = null } in
      rw (at_p, at_q)
        (
          record {
            listed = λ r u e. elim (ℕ_discrete r p) [
              | yes here ↦ ap (λ x. has x g.vertex_list) here ∙ i
              | no other ↦ c.listed r u (ground (arith, e, other))
            ];
            counted = λ r k given e.
                let idle : (null == r) ≡ false = ground (arith, given) in
                let more = waiters_in-update g.vertex g.vertex_list p r v' c.distinct in
                elim (ℕ_discrete r q) [
                  | yes here ↦
                      let used : k.used ≡ l.used = ground (arith, e, here) in
                      omega (
                        arith,
                        (rw idle at more),
                        used,
                        c.counted r l given (ap g.resource here ∙ at_q),
                      )
                  | no other ↦
                      omega
                        (arith, (rw idle at more), c.counted r k given (ground (arith, e, other)))
                ];
            distinct = c.distinct;
          },
          (λ waited. omega (
            arith,
            c.counted q l ne at_q,
            waiters_in-update_less g.vertex g.vertex_list p q v v' c.distinct i at_p waited
                (λ e. ne (sym e)),
          )),
        )

  find_or_add_vertex-IsCounted :
      (tid : ℕ) (fresh : Ptr)
      → fresh ≢ null
      → Returns (find_or_add_vertex g tid fresh) λ (g', p). IsCounted g'
  unfolding find_or_add_vertex
  find_or_add_vertex-IsCounted tid fresh ne =
      Returns-bind _ (search_vertex g tid) _ (search_vertex_lem tid s) λ p found. elim found [
        | inl missing ↦
            let test : (p == null) ≡ true = ground arith in
            let given : (fresh == null) ≡ false = ground arith in
            rw (test, given) (add_vertex-IsCounted fresh tid ne)
        | inr hit ↦
            let test : (p == null) ≡ false = ground (arith, (s.vertices p hit.0).0) in rw test c
      ]

  find_or_add_lock-IsCounted :
      (mtx fresh : Ptr)
      → fresh ≢ null
      → g.resource fresh ≡ none
      → Returns (find_or_add_lock g mtx fresh) λ (g', q). IsCounted g'
  unfolding find_or_add_lock
  find_or_add_lock-IsCounted mtx fresh ne unused =
      Returns-bind _ (search_lock g mtx) _ (search_lock_lem mtx s) λ q found. elim found [
        | inl missing ↦
            let test : (q == null) ≡ true = ground arith in
            let given : (fresh == null) ≡ false = ground arith in
            rw (test, given) (add_lock-IsCounted fresh mtx ne unused)
        | inr hit ↦
            let test : (q == null) ≡ false = ground (arith, (s.locks q hit.0).0) in rw test c
      ]

Returns-both {ℓ} :
    {A : Type ℓ} (P Q : A → Type 0) (m : Run A)
    → Returns m P
    → Returns m Q
    → Returns m λ a. P a × Q a
Returns-both P Q (ok a) h k = (h, k)
Returns-both P Q fault h k = elim h [ ]
Returns-both P Q out_of_fuel h k = elim h [ ]

-- On a sound graph that counts the users, with memory for the new nodes that holds no lock, and the
-- users of the mutex within the range of int, the hook before a lock call counts them again.
pub before_lock-IsCounted :
    (g : TaskGraph) (tid : ℕ) (mtx fresh_vertex fresh_lock : Ptr)
    → IsSound g
    → IsCounted g
    → fresh_vertex ≢ null
    → fresh_lock ≢ null
    → g.resource fresh_lock ≡ none
    → users g mtx + 1 < int_mod
    → Returns (before_lock g tid mtx fresh_vertex fresh_lock) IsCounted
unfolding before_lock
before_lock-IsCounted g tid mtx fresh_vertex fresh_lock s c ne_vertex ne_lock unused small =
    Returns-bind _ (find_or_add_vertex g tid fresh_vertex) _
      (Returns-both _ _ (find_or_add_vertex g tid fresh_vertex)
        (find_or_add_vertex-IsSound g tid fresh_vertex ne_vertex s)
        (find_or_add_vertex-IsCounted s c tid fresh_vertex ne_vertex))
      λ (g1, p) ((s1, (listed, (v, at_p, mine)), (same_locks, same_list, kept)), c1).
        Returns-bind _ (find_or_add_lock g1 mtx fresh_lock) _
          (Returns-both _ _ (find_or_add_lock g1 mtx fresh_lock)
            (find_or_add_lock-IsSound g1 mtx fresh_lock ne_lock s1)
            (find_or_add_lock-IsCounted s1 c1 mtx fresh_lock ne_lock
              (ap (λ m. m fresh_lock) same_locks ∙ unused)))
          λ (g2, q)
              (
                (
                  s2,
                  ((listed', (l, at_q, its, used)), same_vertices, same_vertex_list, kept_locks),
                ),
                c2,
              ).
            let same_users : users g1 mtx ≡ users g mtx =
              ap (λ m. users_in m g1.lock_list mtx) same_locks
              ∙ ap (λ ps. users_in g.resource ps mtx) same_list in
            add_relation-IsCounted s2 c2 p q v l (ap (has p) same_vertex_list ∙ listed)
              (ap (λ m. m p) same_vertices ∙ at_p) at_q (omega (arith, used, same_users, small))

-- For a thread and a mutex that the graph knows, the hook after a lock call keeps the users counted, and
-- if the thread waited for the mutex, leaves it one user more than the threads that wait for it.
pub after_lock-IsCounted :
    (g : TaskGraph) (tid : ℕ) (mtx p q : Ptr) (v : Vertex) (l : ResourceLock)
    → IsSound g
    → IsCounted g
    → search_vertex g tid ≡ ok p
    → search_lock g mtx ≡ ok q
    → p ≢ null
    → q ≢ null
    → g.vertex p ≡ some v
    → g.resource q ≡ some l
    → Returns (after_lock g tid mtx) λ g'. IsCounted g' × (v.waitting ≡ q → waiters g' q < l.used)
unfolding after_lock
after_lock-IsCounted g tid mtx p q v l s c found found' ne ne' at_p at_q =
    let (p', e, vertex) = Returns-eq-ok _ (search_vertex g tid) (search_vertex_lem tid s) in
    let same : p' ≡ p = cc in
    let some_vertex : (p == null) ≡ false = ground (arith, ne) in
    let some_lock : (q == null) ≡ false = ground (arith, ne') in
    elim vertex [
      | inl missing ↦ absurd (ne (sym same ∙ missing))
      | inr vertex ↦
          rw (found, found', some_vertex, some_lock)
            (become_holder-IsCounted s c p q v l
              (ap (λ x. has x g.vertex_list) (sym same) ∙ vertex.0) ne' at_p at_q)
    ]
