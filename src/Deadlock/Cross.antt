-- ===== src/Deadlock/Cross.antt =====
-- search_cross follows the wait-for relation until it meets a vertex for the second time or a
-- thread that waits for nobody.
use personal_c_cpp_back_end.Base.{
  ℕ, zero, suc, ◌+◌, ◌≤◌, ◌<◌, ◌≡◌, ◌≢◌, refl, ◌⊎◌, inl, inr, Bool, true, false, List, [], ◌∷◌, ok,
  Returns, Returns-mono, ◌==◌, if◌then◌else◌, Bool-cases, ℕ_discrete, arith,
}
use personal_c_cpp_back_end.Deadlock.{
  Ptr, null, TaskGraph, has, update, get_wait_vertex, with_visited, search_cross,
}
use personal_c_cpp_back_end.Deadlock.Waits.{
  Waits, Chain, here, onward, Leads, first, later, Ends, free, Leads-Ends, IsSound, next_of,
}

-- How many of the vertices are not marked.
unfoldable pub unmarked : (Ptr → Bool) → List Ptr → ℕ
unmarked m [] = 0
unmarked m (p ∷ ps) = (if m p then 0 else 1) + unmarked m ps

unmarked-update-le :
    (m : Ptr → Bool) (p : Ptr) (ps : List Ptr) → unmarked (update m p true) ps ≤ unmarked m ps
unfolding unmarked
unmarked-update-le m p [] = omega arith
unmarked-update-le m p (q ∷ ps) = ground (arith, unmarked-update-le m p ps)

unmarked-update-lt :
    (m : Ptr → Bool) (p : Ptr) (ps : List Ptr)
    → has p ps ≡ true
    → m p ≡ false
    → unmarked (update m p true) ps < unmarked m ps
unfolding unmarked
unmarked-update-lt m p [] i e = cc
unmarked-update-lt m p (q ∷ ps) i e =
    ground (arith, unmarked-update-le m p ps, unmarked-update-lt m p ps)

-- The outcome of a search from `v` that began with the marks `m`: it left the marks `m'` and
-- returned `c`.
pub record IsSearched (g : TaskGraph) (m : Ptr → Bool) (v : Ptr) (m' : Ptr → Bool) (c : Ptr)
    : Type 0 where
  pub kept : (p : Ptr) → m p ≡ true → m' p ≡ true
  pub start : m' v ≡ true
  pub verdict :
      ((c ≡ null) × ((p : Ptr) → has p g.vertex_list ≡ true → m' p ≡ true → Ends g p))
      ⊎ ((c ≢ null) × Leads g c c × Chain g v c)

abbrev pub Searched : TaskGraph → (Ptr → Bool) → Ptr → TaskGraph × Ptr → Type 0
Searched g m v (g', c) = (m' : Ptr → Bool) × (g' ≡ with_visited g m') × IsSearched g m v m' c

-- Every marked vertex of the list leads to `v`.
abbrev pub Trail : TaskGraph → (Ptr → Bool) → Ptr → Type 0
Trail g m v = (p : Ptr) → has p g.vertex_list ≡ true → m p ≡ true → Leads g p v

pub get_wait_vertex-with_visited :
    (g : TaskGraph) (m : Ptr → Bool) (v : Ptr)
    → get_wait_vertex (with_visited g m) v ≡ get_wait_vertex g v
unfolding get_wait_vertex
get_wait_vertex-with_visited g m v = refl

module _ {g : TaskGraph} where
  Chain-cons : {v w u : Ptr} → Waits g v w → Chain g w u → Chain g v u
  Chain-cons h here = onward here h
  Chain-cons h (onward c h') = onward (Chain-cons h c) h'

  Trail-update :
      (m : Ptr → Bool) {v w : Ptr} → Trail g m v → Waits g v w → Trail g (update m v true) w
  Trail-update m {v} {w} t h p i e = elim (ℕ_discrete p v) [
    | yes same ↦ rw same (first h)
    | no other ↦ later (t p i (ground arith)) h
  ]

  Ends-update :
      (m : Ptr → Bool) {v : Ptr}
      → Trail g m v
      → get_wait_vertex g v ≡ ok null
      → (p : Ptr) → has p g.vertex_list ≡ true
      → update m v true p ≡ true
      → Ends g p
  Ends-update m {v} t e p i h = elim (ℕ_discrete p v) [
    | yes same ↦ rw same (free e)
    | no other ↦ Leads-Ends (t p i (ground arith)) (free e)
  ]

  Searched-next :
      (m : Ptr → Bool) {v w : Ptr}
      → Waits g v w
      → (r : TaskGraph × Ptr) → Searched g (update m v true) w r
      → Searched g m v r
  Searched-next m {v} {w} h (g', c) (m', e, s) = (
    m',
    e,
    record {
      kept = λ p marked. s.kept p (ground arith);
      start = s.kept v (ground arith);
      verdict = elim s.verdict [
        | inl ended ↦ inl ended
        | inr (ne, cycle, chain) ↦ inr (ne, cycle, Chain-cons h chain)
      ];
    },
  )

  -- From the marks of its own trail the search ends within a round for each unmarked vertex.
  pub search_cross-Searched :
      (sound : IsSound g) (fuel : ℕ) (m : Ptr → Bool) (v : Ptr)
      → has v g.vertex_list ≡ true
      → unmarked m g.vertex_list < fuel
      → Trail g m v
      → Returns (search_cross fuel (with_visited g m) v) (Searched g m v)
  unfolding search_cross
  search_cross-Searched sound zero m v i enough t = absurd (omega arith)
  search_cross-Searched sound (suc fuel) m v i enough t =
      let (ne, (r, e)) = sound.vertices v i in
      elim (Bool-cases (m v)) [
        | inl old ↦
            rw (e, old)
              (
                m,
                refl,
                record {
                  kept = λ p marked. marked;
                  start = old;
                  verdict = inr (ne, t v i old, here);
                },
              )
        | inr new ↦
            let (w, edge, next) = next_of sound v i in
            let step = get_wait_vertex-with_visited g (update m v true) v in
            elim next [
              | inl idle ↦
                  let test : (w == null) ≡ true = ground arith in
                  let stop : get_wait_vertex g v ≡ ok null = rw (← idle) edge in
                  rw (e, new, step, edge, test)
                    (
                      update m v true,
                      refl,
                      record {
                        kept = λ p marked. ground arith;
                        start = ground arith;
                        verdict = inl (refl, Ends-update m t stop);
                      },
                    )
              | inr (busy, i') ↦
                  let test : (w == null) ≡ false = ground arith in
                  let h : Waits g v w = record { edge = edge; some_holder = busy } in
                  rw (e, new, step, edge, test)
                    (Returns-mono (Searched g m v)
                      (search_cross fuel (with_visited g (update m v true)) w)
                      (search_cross-Searched sound fuel (update m v true) w i'
                        (omega (arith, unmarked-update-lt m v g.vertex_list i new))
                        (Trail-update m t h))
                      (Searched-next m h))
            ]
      ]
