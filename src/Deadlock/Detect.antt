-- ===== src/Deadlock/Detect.antt =====
-- One round of detector_routine finds a deadlock exactly if there is one.
use personal_c_cpp_back_end.Base.{
  ℕ, zero, suc, ◌+◌, ◌≤◌, ◌<◌, ◌≡◌, ◌≢◌, ◌↔◌, refl, ◌⊎◌, inl, inr, Bool, true, false, List, [], ◌∷◌,
  ok, Returns, Returns-mono, Returns-bind, ◌==◌, if◌then◌else◌, length, arith,
}
use personal_c_cpp_back_end.Deadlock.{
  Ptr, null, TaskGraph, has, with_visited, all_vertex_unvisited, search_cross, skip_visited,
  detect_from, detect,
}
use personal_c_cpp_back_end.Deadlock.Waits.{
  Chain, Leads, Ends, IsSound, Chain-has, not_Ends_of_cycle,
}
use personal_c_cpp_back_end.Deadlock.Cross.{unmarked, Searched, search_cross-Searched}

-- All of `ps` are vertices of the graph.
abbrev AllIn : TaskGraph → List Ptr → Type 0
AllIn g ps = (p : Ptr) → has p ps ≡ true → has p g.vertex_list ≡ true

-- What the round says of the vertices `ps`.
abbrev pub Verdict : TaskGraph → List Ptr → Ptr → Type 0
Verdict g ps c =
    ((c ≡ null) × ((p : Ptr) → has p ps ≡ true → Ends g p))
    ⊎ ((c ≢ null) × Leads g c c × ((p : Ptr) × (has p ps ≡ true) × Chain g p c))

abbrev pub Detected : TaskGraph → List Ptr → TaskGraph × Ptr → Type 0
Detected g ps (g', c) = (m : Ptr → Bool) × (g' ≡ with_visited g m) × Verdict g ps c

unmarked-le-length : (m : Ptr → Bool) (ps : List Ptr) → unmarked m ps ≤ length ps
unfolding unmarked
unmarked-le-length m [] = omega arith
unmarked-le-length m (p ∷ ps) = ground (arith, unmarked-le-length m ps)

length-skip_visited : (g : TaskGraph) (ps : List Ptr) → length (skip_visited g ps) ≤ length ps
unfolding skip_visited
length-skip_visited g [] = omega arith
length-skip_visited g (p ∷ ps) = ground (arith, length-skip_visited g ps)

length-skip_marked :
    (g : TaskGraph) (p : Ptr) (ps : List Ptr) {n : ℕ}
    → g.visited p ≡ true
    → length ps < n
    → length (skip_visited g (p ∷ ps)) < n
unfolding skip_visited
length-skip_marked g p ps marked h = rw marked (omega (arith, length-skip_visited g ps))

-- A vertex is left or was marked.
has-skip_visited :
    (g : TaskGraph) (ps : List Ptr) (p : Ptr)
    → has p ps ≡ true
    → (has p (skip_visited g ps) ≡ true) ⊎ (g.visited p ≡ true)
unfolding skip_visited
has-skip_visited g [] p i = cc
has-skip_visited g (q ∷ ps) p i = ground (arith, has-skip_visited g ps p)

has_of_skip_visited :
    (g : TaskGraph) (ps : List Ptr) (p : Ptr) → has p (skip_visited g ps) ≡ true → has p ps ≡ true
unfolding skip_visited
has_of_skip_visited g [] p i = i
has_of_skip_visited g (q ∷ ps) p i = ground (arith, has_of_skip_visited g ps p)

module _ {g : TaskGraph} (sound : IsSound g) where
  -- What a call with the fuel that is left returns.
  abbrev Rest : ℕ → Type 0
  Rest fuel =
      (m : Ptr → Bool) (ps : List Ptr)
      → AllIn g ps
      → length ps < fuel
      → Returns (detect_from fuel (with_visited g m) ps) (Detected g ps)

  search :
      (m : Ptr → Bool) (p : Ptr)
      → has p g.vertex_list ≡ true
      → Returns
          (search_cross (length g.vertex_list + 1) (all_vertex_unvisited (with_visited g m)) p)
          (Searched g (λ q. if has q g.vertex_list then false else m q) p)
  unfolding all_vertex_unvisited
  search m p i =
      let cleared : Ptr → Bool = λ q. if has q g.vertex_list then false else m q in
      search_cross-Searched sound (length g.vertex_list + 1) cleared p i
        (omega (arith, unmarked-le-length cleared g.vertex_list)) (λ q j marked. ground arith)

  widen :
      (m : Ptr → Bool) (ps : List Ptr)
      → ((p : Ptr) → has p g.vertex_list ≡ true → m p ≡ true → Ends g p)
      → AllIn g ps
      → (r : TaskGraph × Ptr) → Detected g (skip_visited (with_visited g m) ps) r
      → Detected g ps r
  widen m ps ended inside (g', c) (m', e, verdict) = (
    m',
    e,
    elim verdict [
      | inl (none_found, rest) ↦ inl (
        none_found,
        λ p i. elim (has-skip_visited (with_visited g m) ps p i) [
          | inl left ↦ rest p left
          | inr marked ↦ ended p (inside p i) marked
        ],
      )
      | inr (found, cycle, (p, i, chain)) ↦
          inr (found, cycle, (p, has_of_skip_visited (with_visited g m) ps p i, chain))
    ],
  )

  after_search :
      (fuel : ℕ)
      → Rest fuel
      → (m : Ptr → Bool) (p : Ptr) (ps : List Ptr) → AllIn g (p ∷ ps)
      → length ps < fuel
      → (r : TaskGraph × Ptr) → Searched g m p r
      → Returns
          (if r.1 == null then detect_from fuel r.0 (skip_visited r.0 (p ∷ ps)) else ok r)
          (Detected g (p ∷ ps))
  after_search fuel rest m p ps inside enough (g', c) (m', e, s) = elim s.verdict [
    | inl (none_found, ended) ↦
        let test : (c == null) ≡ true = ground arith in
        let g'' = with_visited g m' in
        let shorter : length (skip_visited g'' (p ∷ ps)) < fuel =
          length-skip_marked g'' p ps s.start enough in
        rw (test, e)
          (Returns-mono (Detected g (p ∷ ps)) (detect_from fuel g'' (skip_visited g'' (p ∷ ps)))
            (rest m' (skip_visited g'' (p ∷ ps))
              (λ q i. inside q (has_of_skip_visited g'' (p ∷ ps) q i)) shorter)
            (widen m' (p ∷ ps) ended inside))
    | inr (found, cycle, chain) ↦
        let test : (c == null) ≡ false = ground arith in
        rw test (m', e, inr (found, cycle, (p, ground arith, chain)))
  ]

  detect_from-Detected : (fuel : ℕ) → Rest fuel
  unfolding detect_from
  detect_from-Detected zero m ps inside enough = absurd (omega arith)
  detect_from-Detected (suc fuel) m [] inside enough = (m, refl, inl (refl, λ p i. cc))
  detect_from-Detected (suc fuel) m (p ∷ ps) inside enough =
      Returns-bind (Detected g (p ∷ ps))
        (search_cross (length g.vertex_list + 1) (all_vertex_unvisited (with_visited g m)) p) _
        (search m p (inside p (ground arith)))
        (after_search fuel (detect_from-Detected fuel) _ p ps inside (omega arith))

  -- On a graph whose pointers are sound the round ends without a fault. It returns NULL only if the
  -- wait-for chain of every thread ends with a thread that runs, and otherwise a vertex that lies
  -- on a cycle; nothing of the graph but the marks is changed.
  pub detect-Detected : Returns (detect g) (Detected g g.vertex_list)
  unfolding detect
  detect-Detected =
      detect_from-Detected (length g.vertex_list + 1) g.visited g.vertex_list (λ p i. i)
        (omega arith)

-- A round returns NULL exactly if no thread of the graph is on a cycle of threads that wait for one another.
pub detect_iff :
    (g : TaskGraph)
    → IsSound g
    → Returns
        (detect g)
        λ (g', c). (c ≡ null) ↔ ((p : Ptr) → has p g.vertex_list ≡ true → ¬ Leads g p p)
detect_iff g sound =
    Returns-mono
      (λ (r : TaskGraph × Ptr).
        (r.1 ≡ null) ↔ ((p : Ptr) → has p g.vertex_list ≡ true → ¬ Leads g p p))
      (detect g) (detect-Detected sound)
      λ (g', c) (m, e, verdict). elim verdict [
        | inl (none_found, ended) ↦
            (λ _ p i cycle. not_Ends_of_cycle (ended p i) cycle, λ _. none_found)
        | inr (found, cycle, (p, i, chain)) ↦ (
          λ none_found. absurd (found none_found),
          λ free. absurd (free c (Chain-has sound i chain) cycle),
        )
      ]
