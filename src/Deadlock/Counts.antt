-- ===== src/Deadlock/Counts.antt =====
-- The users of a lock: how many threads wait for it, and how that number changes with the graph.
use personal_c_cpp_back_end.Base.{
  ℕ, ◌+◌, ◌≤◌, ◌<◌, ◌≡◌, ◌≢◌, refl, sym, ap, ◌∙◌, true, false, none, some, Option, List, [], ◌∷◌,
  if◌then◌else◌, ◌==◌, inl, inr, Option-cases, ℕ_discrete, arith,
}
use personal_c_cpp_back_end.Deadlock.{
  Ptr, null, Vertex, ResourceLock, TaskGraph, has, update, link_last,
}
use personal_c_cpp_back_end.Deadlock.Waits.{Distinct}

-- No thread waits for the lock at `q`.
abbrev pub IsUnwanted : TaskGraph → Ptr → Type 0
IsUnwanted g q = (p : Ptr) (v : Vertex) → g.vertex p ≡ some v → v.waitting ≢ q

-- How many of the vertices of a list wait for the lock at `q`.
abbrev pub waits_here : Option Vertex → Ptr → ℕ
waits_here none q = 0
waits_here (some v) q = if v.waitting == q then 1 else 0

abbrev pub waiters_in : (Ptr → Option Vertex) → List Ptr → Ptr → ℕ
waiters_in m [] q = 0
waiters_in m (p ∷ ps) q = waits_here (m p) q + waiters_in m ps q

abbrev pub waiters : TaskGraph → Ptr → ℕ
waiters g q = waiters_in g.vertex g.vertex_list q

-- Every vertex is in the list, once, and a lock counts at least the threads that wait for it as users.
pub record IsCounted (g : TaskGraph) : Type 0 where
  pub listed : (p : Ptr) (v : Vertex) → g.vertex p ≡ some v → has p g.vertex_list ≡ true
  pub counted :
      (q : Ptr) (l : ResourceLock) → q ≢ null → g.resource q ≡ some l → waiters g q ≤ l.used
  pub distinct : Distinct g.vertex_list

waits_here_self :
    (o : Option Vertex) (v : Vertex) (q : Ptr) → o ≡ some v → v.waitting ≡ q → waits_here o q ≡ 1
waits_here_self o v q e same =
    let test : (v.waitting == q) ≡ true = ground (arith, same) in rw (e, test) refl

waiters_in-has :
    (m : Ptr → Option Vertex) (ps : List Ptr) (q p : Ptr) (v : Vertex)
    → has p ps ≡ true
    → m p ≡ some v
    → v.waitting ≡ q
    → 0 < waiters_in m ps q
waiters_in-has m [] q p v i e same = absurd (ground (arith, i))
waiters_in-has m (r ∷ ps) q p v i e same = elim (ℕ_discrete p r) [
  | yes here ↦ omega (arith, waits_here_self (m r) v q (ap m (sym here) ∙ e) same)
  | no other ↦ omega (arith, waiters_in-has m ps q p v (ground (arith, i, other)) e same)
]

pub IsCounted-IsUnwanted :
    (g : TaskGraph) (q : Ptr) → IsCounted g → waiters g q ≡ 0 → IsUnwanted g q
IsCounted-IsUnwanted g q c none_waits p v e same =
    absurd (
      omega
        (arith, none_waits, waiters_in-has g.vertex g.vertex_list q p v (c.listed p v e) e same))

pub waiters_in_none :
    (m : Ptr → Option Vertex) (ps : List Ptr) (q : Ptr)
    → ((p : Ptr) (v : Vertex) → m p ≡ some v → v.waitting ≢ q)
    → waiters_in m ps q ≡ 0
waiters_in_none m [] q unwanted = refl
waiters_in_none m (p ∷ ps) q unwanted =
    let rest = waiters_in_none m ps q unwanted in
    elim (Option-cases (m p)) [
      | inl e ↦ rw e (omega (arith, rest))
      | inr (v, e) ↦
          let test : (v.waitting == q) ≡ false = ground (arith, unwanted p v e) in
          rw (e, test) (omega (arith, rest))
    ]

waiters_in-update_off :
    (m : Ptr → Option Vertex) (ps : List Ptr) (p q : Ptr) (v : Vertex)
    → has p ps ≡ false
    → waiters_in (update m p (some v)) ps q ≡ waiters_in m ps q
waiters_in-update_off m [] p q v off = refl
waiters_in-update_off m (r ∷ ps) p q v off =
    let test : (r == p) ≡ false = ground (arith, off) in
    rw test
      (ap (λ n. waits_here (m r) q + n) (waiters_in-update_off m ps p q v (ground (arith, off))))

-- A vertex that is written counts once more at most.
pub waiters_in-update :
    (m : Ptr → Option Vertex) (ps : List Ptr) (p q : Ptr) (v : Vertex)
    → Distinct ps
    → waiters_in (update m p (some v)) ps q ≤ waiters_in m ps q + waits_here (some v) q
waiters_in-update m [] p q v d = omega arith
waiters_in-update m (r ∷ ps) p q v d = elim (ℕ_discrete r p) [
  | yes same ↦
      let test : (r == p) ≡ true = ground (arith, same) in
      let off = waiters_in-update_off m ps p q v (ap (λ x. has x ps) (sym same) ∙ d.0) in
      rw test (omega (arith, off))
  | no other ↦
      let test : (r == p) ≡ false = ground (arith, other) in
      rw test (omega (arith, waiters_in-update m ps p q v d.1))
]

-- One that stops waiting counts no more.
pub waiters_in-update_less :
    (m : Ptr → Option Vertex) (ps : List Ptr) (p q : Ptr) (u v : Vertex)
    → Distinct ps
    → has p ps ≡ true
    → m p ≡ some u
    → u.waitting ≡ q
    → v.waitting ≢ q
    → waiters_in (update m p (some v)) ps q < waiters_in m ps q
waiters_in-update_less m [] p q u v d i e here gone = absurd (ground (arith, i))
waiters_in-update_less m (r ∷ ps) p q u v d i e here gone =
    let free : (v.waitting == q) ≡ false = ground (arith, gone) in
    elim (ℕ_discrete r p) [
      | yes same ↦
          let test : (r == p) ≡ true = ground (arith, same) in
          let off = waiters_in-update_off m ps p q v (ap (λ x. has x ps) (sym same) ∙ d.0) in
          let one = waits_here_self (m r) u q (ap m same ∙ e) here in
          rw (test, free) (omega (arith, off, one))
      | no other ↦
          let test : (r == p) ≡ false = ground (arith, other) in
          rw test (
            omega (
              arith,
              waiters_in-update_less m ps p q u v d.1 (ground (arith, i, other)) e here gone,
            ))
    ]

pub waiters_in-link_last :
    (m : Ptr → Option Vertex) (ps : List Ptr) (node q : Ptr)
    → waiters_in m (link_last ps node) q ≤ waiters_in m ps q + waits_here (m node) q
unfolding link_last
waiters_in-link_last m [] node q = omega arith
waiters_in-link_last m (p ∷ ps) node q = elim (ℕ_discrete p node) [
  | yes same ↦ let test : (p == node) ≡ true = ground (arith, same) in rw test (omega arith)
  | no other ↦
      let test : (p == node) ≡ false = ground (arith, other) in
      rw test (omega (arith, waiters_in-link_last m ps node q))
]
