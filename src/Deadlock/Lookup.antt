-- ===== src/Deadlock/Lookup.antt =====
-- search_vertex and search_lock find the node that they are asked for.
use personal_c_cpp_back_end.Base.{
  ℕ, ◌≡◌, refl, sym, ap, ◌∙◌, ◌⊎◌, inl, inr, true, false, some, List, [], ◌∷◌, Returns,
  Returns-mono, Option, none, if◌then◌else◌, ◌==◌, ℕ_discrete, arith,
}
use personal_c_cpp_back_end.Deadlock.{
  Ptr, null, Vertex, ResourceLock, TaskGraph, has, search_vertex_in, search_vertex, search_lock_in,
  search_lock,
}
use personal_c_cpp_back_end.Deadlock.Waits.{IsSound}

-- The vertex at `p` is that of thread `tid`; the node at `p` is that of mutex `mtx`.
abbrev pub IsVertexOf : TaskGraph → ℕ → Ptr → Type 0
IsVertexOf g tid p =
    (has p g.vertex_list ≡ true) × ((v : Vertex) × (g.vertex p ≡ some v) × (v.tid ≡ tid))

abbrev pub IsLockOf : TaskGraph → Ptr → Ptr → Type 0
IsLockOf g mtx p =
    (has p g.lock_list ≡ true) × ((l : ResourceLock) × (g.resource p ≡ some l) × (l.lock ≡ mtx))

pub search_vertex_in_lem :
    (g : TaskGraph) (ps : List Ptr) (tid : ℕ)
    → ((p : Ptr) → has p ps ≡ true → (v : Vertex) × (g.vertex p ≡ some v))
    → Returns (search_vertex_in g ps tid) λ p.
      (p ≡ null) ⊎ ((has p ps ≡ true) × ((v : Vertex) × (g.vertex p ≡ some v) × (v.tid ≡ tid)))
unfolding search_vertex_in
search_vertex_in_lem g [] tid known = inl refl
search_vertex_in_lem g (q ∷ ps) tid known =
    let (v, e) = known q (ground arith) in
    let rest = search_vertex_in_lem g ps tid (λ p i. known p (ground arith)) in
    elim (ℕ_discrete tid v.tid) [
      | yes same ↦
          let test : (tid == v.tid) ≡ true = ground arith in
          rw (e, test) (inr (ground arith, (v, e, sym same)))
      | no other ↦
          let test : (tid == v.tid) ≡ false = ground arith in
          rw (e, test)
            (Returns-mono _ (search_vertex_in g ps tid) rest λ p found. elim found [
              | inl missing ↦ inl missing
              | inr (i, hit) ↦ inr (ground arith, hit)
            ])
    ]

pub search_lock_in_lem :
    (g : TaskGraph) (ps : List Ptr) (mtx : Ptr)
    → ((p : Ptr) → has p ps ≡ true → (l : ResourceLock) × (g.resource p ≡ some l))
    → Returns (search_lock_in g ps mtx) λ p.
      (p ≡ null)
      ⊎ ((has p ps ≡ true) × ((l : ResourceLock) × (g.resource p ≡ some l) × (l.lock ≡ mtx)))
unfolding search_lock_in
search_lock_in_lem g [] mtx known = inl refl
search_lock_in_lem g (q ∷ ps) mtx known =
    let (l, e) = known q (ground arith) in
    let rest = search_lock_in_lem g ps mtx (λ p i. known p (ground arith)) in
    elim (ℕ_discrete mtx l.lock) [
      | yes same ↦
          let test : (mtx == l.lock) ≡ true = ground arith in
          rw (e, test) (inr (ground arith, (l, e, sym same)))
      | no other ↦
          let test : (mtx == l.lock) ≡ false = ground arith in
          rw (e, test)
            (Returns-mono _ (search_lock_in g ps mtx) rest λ p found. elim found [
              | inl missing ↦ inl missing
              | inr (i, hit) ↦ inr (ground arith, hit)
            ])
    ]

pub search_vertex_lem :
    {g : TaskGraph} (tid : ℕ)
    → IsSound g
    → Returns (search_vertex g tid) λ p. (p ≡ null) ⊎ IsVertexOf g tid p
unfolding search_vertex
search_vertex_lem {g} tid s = search_vertex_in_lem g g.vertex_list tid (λ p i. (s.vertices p i).1)

pub search_lock_lem :
    {g : TaskGraph} (mtx : Ptr)
    → IsSound g
    → Returns (search_lock g mtx) λ p. (p ≡ null) ⊎ IsLockOf g mtx p
unfolding search_lock
search_lock_lem {g} mtx s = search_lock_in_lem g g.lock_list mtx (λ p i. (s.locks p i).1)

-- The field `used` of the first lock of the list that is that of the mutex, or 0 if there is none.
abbrev pub users_in : (Ptr → Option ResourceLock) → List Ptr → Ptr → ℕ
users_in m [] mtx = 0
users_in m (p ∷ ps) mtx =
    let rest = users_in m ps mtx in
    elim (m p) [ none ↦ 0 | some l ↦ if mtx == l.lock then l.used else rest ]

abbrev pub users : TaskGraph → Ptr → ℕ
users g mtx = users_in g.resource g.lock_list mtx

-- A node of the list that is that of the mutex, and has these users.
abbrev pub IsUsed : TaskGraph → List Ptr → Ptr → ℕ → Ptr → Type 0
IsUsed g ps mtx n p =
    (has p ps ≡ true)
    × ((l : ResourceLock) × (g.resource p ≡ some l) × (l.lock ≡ mtx) × (l.used ≡ n))

users_in_cons :
    (m : Ptr → Option ResourceLock) (q : Ptr) (ps : List Ptr) (mtx : Ptr) (l : ResourceLock)
    → m q ≡ some l
    → users_in m (q ∷ ps) mtx ≡ (if mtx == l.lock then l.used else users_in m ps mtx)
users_in_cons m q ps mtx l e = rw (users_in, e) refl

search_lock_in-users :
    (g : TaskGraph) (ps : List Ptr) (mtx : Ptr)
    → ((p : Ptr) → has p ps ≡ true → (l : ResourceLock) × (g.resource p ≡ some l))
    → Returns (search_lock_in g ps mtx) λ p.
      ((p ≡ null) × (users_in g.resource ps mtx ≡ 0))
      ⊎ IsUsed g ps mtx (users_in g.resource ps mtx) p
unfolding search_lock_in
search_lock_in-users g [] mtx known = inl (refl, refl)
search_lock_in-users g (q ∷ ps) mtx known =
    let (l, e) = known q (ground arith) in
    let rest = search_lock_in-users g ps mtx (λ p i. known p (ground arith)) in
    elim (ℕ_discrete mtx l.lock) [
      | yes same ↦
          let test : (mtx == l.lock) ≡ true = ground arith in
          let here =
            users_in_cons g.resource q ps mtx l e
            ∙ ap (λ b. if b then l.used else users_in g.resource ps mtx) test in
          rw (e, test) (inr (ground arith, (l, e, sym same, sym here)))
      | no other ↦
          let test : (mtx == l.lock) ≡ false = ground arith in
          let there =
            users_in_cons g.resource q ps mtx l e
            ∙ ap (λ b. if b then l.used else users_in g.resource ps mtx) test in
          rw (e, test)
            (Returns-mono _ (search_lock_in g ps mtx) rest λ p found. elim found [
              | inl (missing, zero_users) ↦ inl (missing, there ∙ zero_users)
              | inr (i, (k, ek, its, used)) ↦ inr (ground arith, (k, ek, its, used ∙ sym there))
            ])
    ]

pub search_lock-users :
    {g : TaskGraph} (mtx : Ptr)
    → IsSound g
    → Returns
        (search_lock g mtx)
        λ p. ((p ≡ null) × (users g mtx ≡ 0)) ⊎ IsUsed g g.lock_list mtx (users g mtx) p
unfolding search_lock
search_lock-users {g} mtx s = search_lock_in-users g g.lock_list mtx (λ p i. (s.locks p i).1)
