-- ===== src/Deadlock/Updates.antt =====
-- What the hooks around a lock call do to the task graph: the pointers stay sound, and the graph
-- records who waits and who holds.
use personal_c_cpp_back_end.Base.{
  ℕ, ◌≡◌, ◌≢◌, refl, sym, inl, inr, true, false, ok, Returns, Returns-bind, Returns-eq-ok, ◌==◌,
  arith,
}
use personal_c_cpp_back_end.Deadlock.{
  Ptr, null, add_vertex, add_vertex_to_graph, TaskGraph, add_lock, search_vertex, search_lock,
  add_lock_to_graph, find_or_add_vertex, find_or_add_lock, after_lock,
}
use personal_c_cpp_back_end.Deadlock.Waits.{IsSound}
use personal_c_cpp_back_end.Deadlock.Lookup.{
  users, IsUsed, search_lock-users, IsVertexOf, search_vertex_lem, search_lock_lem,
}
use personal_c_cpp_back_end.Deadlock.Links.{has-link_last}
use personal_c_cpp_back_end.Deadlock.NewNodes.{add_vertex-IsSound, add_lock-IsSound}
use personal_c_cpp_back_end.Deadlock.Relations.{Holds, become_holder-IsSound}

-- What the look-up of a vertex leaves: the locks and the other vertices.
abbrev pub Adds : TaskGraph → Ptr → TaskGraph → Type 0
Adds g p g' =
    (g'.resource ≡ g.resource)
    × (g'.lock_list ≡ g.lock_list)
    × ((r : Ptr) → r ≢ p → g'.vertex r ≡ g.vertex r)

add_vertex-Adds :
    (g : TaskGraph) (fresh : Ptr) (tid : ℕ)
    → fresh ≢ null
    → Adds g fresh (add_vertex_to_graph (add_vertex g fresh tid) fresh)
unfolding add_vertex_to_graph add_vertex
add_vertex-Adds g fresh tid given =
    let test : (fresh == null) ≡ false = ground (arith, given) in
    rw test (refl, refl, (λ r ne. ground (arith, ne)))

-- What a look-up that makes the node if there is none returns.
pub find_or_add_vertex-IsSound :
    (g : TaskGraph) (tid : ℕ) (fresh : Ptr)
    → fresh ≢ null
    → IsSound g
    → Returns
        (find_or_add_vertex g tid fresh)
        λ (g', p). IsSound g' × IsVertexOf g' tid p × Adds g p g'
unfolding find_or_add_vertex
find_or_add_vertex-IsSound g tid fresh ne s =
    Returns-bind _ (search_vertex g tid) _ (search_vertex_lem tid s) λ p found. elim found [
      | inl missing ↦
          let test : (p == null) ≡ true = ground arith in
          let given : (fresh == null) ≡ false = ground arith in
          let (sound, vertex) = add_vertex-IsSound s fresh tid ne in
          rw (test, given) (sound, vertex, add_vertex-Adds g fresh tid ne)
      | inr hit ↦
          let test : (p == null) ≡ false = ground (arith, (s.vertices p hit.0).0) in
          rw test (s, hit, (refl, refl, (λ r ne. refl)))
    ]

-- The lock at `q`, with the users that the graph `g` has for its mutex. All else is as in `g`.
abbrev pub Counted : TaskGraph → (mtx q : Ptr) → TaskGraph → Type 0
Counted g mtx q g' =
    IsUsed g' g'.lock_list mtx (users g mtx) q
    × (g'.vertex ≡ g.vertex)
    × (g'.vertex_list ≡ g.vertex_list)
    × ((r : Ptr) → r ≢ q → g'.resource r ≡ g.resource r)

add_lock-Counted :
    (g : TaskGraph) (fresh mtx : Ptr)
    → fresh ≢ null
    → users g mtx ≡ 0
    → Counted g mtx fresh (add_lock_to_graph (add_lock g fresh mtx) fresh)
unfolding add_lock_to_graph add_lock
add_lock-Counted g fresh mtx given none_yet =
    let test : (fresh == null) ≡ false = ground (arith, given) in
    rw test (
      (
        ground (arith, has-link_last g.lock_list fresh fresh),
        (record { holder = null; lock = mtx; used = 0 }, ground arith, refl, sym none_yet),
      ),
      refl,
      refl,
      (λ r ne. ground (arith, ne)),
    )

pub find_or_add_lock-IsSound :
    (g : TaskGraph) (mtx fresh : Ptr)
    → fresh ≢ null
    → IsSound g
    → Returns (find_or_add_lock g mtx fresh) λ (g', q). IsSound g' × Counted g mtx q g'
unfolding find_or_add_lock
find_or_add_lock-IsSound g mtx fresh ne s =
    Returns-bind _ (search_lock g mtx) _ (search_lock-users mtx s) λ q found. elim found [
      | inl (missing, none_yet) ↦
          let test : (q == null) ≡ true = ground arith in
          let given : (fresh == null) ≡ false = ground arith in
          let (sound, lock) = add_lock-IsSound s fresh mtx ne in
          rw (test, given) (sound, add_lock-Counted g fresh mtx ne none_yet)
      | inr hit ↦
          let test : (q == null) ≡ false = ground (arith, (s.locks q hit.0).0) in
          rw test (s, (hit, refl, refl, (λ r ne. refl)))
    ]

-- The graph knows the thread and the mutex.
abbrev pub Knows : TaskGraph → ℕ → Ptr → Type 0
Knows g tid mtx = (search_vertex g tid ≢ ok null) × (search_lock g mtx ≢ ok null)

-- For a thread and a mutex that the graph knows, the hook after a lock call never faults, keeps the
-- pointers sound, and records the thread as the holder, which waits for nothing any more.
pub after_lock-IsSound :
    (g : TaskGraph) (tid : ℕ) (mtx : Ptr)
    → IsSound g
    → Knows g tid mtx
    → Returns (after_lock g tid mtx) λ g'. IsSound g' × Holds g' tid mtx
unfolding after_lock
after_lock-IsSound g tid mtx s known =
    let (p, found, vertex) = Returns-eq-ok _ (search_vertex g tid) (search_vertex_lem tid s) in
    let (q, found', lock) = Returns-eq-ok _ (search_lock g mtx) (search_lock_lem mtx s) in
    elim vertex [
      | inl missing ↦ absurd (known.0 (rw missing at found))
      | inr vertex ↦ elim lock [
        | inl missing ↦ absurd (known.1 (rw missing at found'))
        | inr lock ↦
            let some_vertex : (p == null) ≡ false = ground (arith, (s.vertices p vertex.0).0) in
            let some_lock : (q == null) ≡ false = ground (arith, (s.locks q lock.0).0) in
            rw (found, found', some_vertex, some_lock) (become_holder-IsSound s vertex lock)
      ]
    ]
