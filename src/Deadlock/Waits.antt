-- ===== src/Deadlock/Waits.antt =====
-- The wait-for relation that the task graph stands for, and the shape of a graph whose pointers
-- are sound.
use personal_c_cpp_back_end.Base.{
  ◌≡◌, ◌≢◌, refl, ◌⊎◌, inl, inr, ◌∙◌, sym, true, some, List, [], ◌∷◌, ok, arith, ℕ_discrete, ◌==◌,
  false,
}
use personal_c_cpp_back_end.Deadlock.{
  Ptr, null, Vertex, ResourceLock, TaskGraph, has, get_wait_vertex,
}

-- Thread `v` waits for a lock that thread `w` holds.
pub record Waits (g : TaskGraph) (v w : Ptr) : Type 0 where
  pub edge : get_wait_vertex g v ≡ ok w
  pub some_holder : w ≢ null

-- `v` reaches `w` along the relation, in no or more steps.
pub data Chain (g : TaskGraph) (v : Ptr) : Ptr → Type 0 where
  here : Chain g v v
  onward : {w u : Ptr} → Chain g v w → Waits g w u → Chain g v u

-- The same in one or more steps.
pub data Leads (g : TaskGraph) (v : Ptr) : Ptr → Type 0 where
  first : {w : Ptr} → Waits g v w → Leads g v w
  later : {w u : Ptr} → Leads g v w → Waits g w u → Leads g v u

-- The chain of waiting threads from `v` comes to a thread that waits for nobody.
pub data Ends (g : TaskGraph) : Ptr → Type 0 where
  free : {v : Ptr} → get_wait_vertex g v ≡ ok null → Ends g v
  waits : {v w : Ptr} → Waits g v w → Ends g w → Ends g v

ok-injective : {a b : Ptr} → ok a ≡ ok b → a ≡ b
ok-injective h = cc

same_next :
    (g : TaskGraph) (v : Ptr) {w u : Ptr}
    → get_wait_vertex g v ≡ ok w
    → get_wait_vertex g v ≡ ok u
    → w ≡ u
same_next g v p q = ok-injective (sym p ∙ q)

module _ {g : TaskGraph} where
  Ends-next : {v w : Ptr} → Ends g v → Waits g v w → Ends g w
  Ends-next (free e) h = absurd (h.some_holder (same_next g _ h.edge e))
  Ends-next (waits {w = u} h' e) h = rw (same_next g _ h.edge h'.edge) e

  pub Ends-Leads : {v w : Ptr} → Ends g v → Leads g v w → Ends g w
  Ends-Leads e (first h) = Ends-next e h
  Ends-Leads e (later l h) = Ends-next (Ends-Leads e l) h

  pub Leads-Ends : {v w : Ptr} → Leads g v w → Ends g w → Ends g v
  Leads-Ends (first h) e = waits h e
  Leads-Ends (later l h) e = Leads-Ends l (waits h e)

  Leads-next : {v w u : Ptr} → Leads g v w → Waits g v u → (u ≡ w) ⊎ Leads g u w
  Leads-next (first h) h' = inl (same_next g _ h'.edge h.edge)
  Leads-next (later l h) h' = elim (Leads-next l h') [
    | inl e ↦ inr (first (rw e h))
    | inr l' ↦ inr (later l' h)
  ]

  no_first : {v w : Ptr} → get_wait_vertex g v ≡ ok null → ¬ Leads g v w
  no_first e (first h) = h.some_holder (same_next g _ h.edge e)
  no_first e (later l h) = no_first e l

  -- A thread on a cycle waits for ever.
  pub not_Ends_of_cycle : {v : Ptr} → Ends g v → ¬ Leads g v v
  not_Ends_of_cycle (free e) l = no_first e l
  not_Ends_of_cycle (waits {w} h e) l = elim (Leads-next l h) [
    | inl same ↦ not_Ends_of_cycle e (rw same l)
    | inr l' ↦ not_Ends_of_cycle e (later l' h)
  ]

-- No address twice.
abbrev pub Distinct : List Ptr → Type 0
Distinct [] = Unit {0}
Distinct (p ∷ ps) = (has p ps ≡ false) × Distinct ps

-- Every pointer of the graph is NULL or leads to a node that is allocated.
pub record IsSound (g : TaskGraph) : Type 0 where
  pub vertices :
      (p : Ptr) → has p g.vertex_list ≡ true → (p ≢ null) × ((v : Vertex) × (g.vertex p ≡ some v))
  pub waiting :
      (p : Ptr) (v : Vertex)
      → g.vertex p ≡ some v
      → (v.waitting ≡ null) ⊎ ((l : ResourceLock) × (g.resource v.waitting ≡ some l))
  pub holders :
      (p : Ptr) (l : ResourceLock)
      → g.resource p ≡ some l
      → (l.holder ≡ null) ⊎ (has l.holder g.vertex_list ≡ true)
  pub distinct : Distinct g.lock_list
  pub locks :
      (p : Ptr)
      → has p g.lock_list ≡ true
      → (p ≢ null) × ((l : ResourceLock) × (g.resource p ≡ some l))

module _ {g : TaskGraph} (s : IsSound g) where
  -- So a step of the walk never reads a node that is not there.
  pub next_of :
      (p : Ptr)
      → has p g.vertex_list ≡ true
      → (w : Ptr) × (get_wait_vertex g p ≡ ok w)
        × ((w ≡ null) ⊎ ((w ≢ null) × (has w g.vertex_list ≡ true)))
  unfolding get_wait_vertex
  next_of p i =
      let (ne, (v, e)) = s.vertices p i in
      elim (ℕ_discrete v.waitting null) [
        | yes idle ↦
            let test : (v.waitting == null) ≡ true = ground arith in
            (null, rw (e, get_wait_vertex, test), inl refl)
        | no busy ↦
            let test : (v.waitting == null) ≡ false = ground arith in
            elim (s.waiting p v e) [
              | inl idle ↦ absurd (busy idle)
              | inr (l, held) ↦
                  (l.holder, rw (e, get_wait_vertex, test, held), holder_cases (s.holders _ l held))
            ]
      ]
    where
      holder_cases :
          {w : Ptr}
          → (w ≡ null) ⊎ (has w g.vertex_list ≡ true)
          → (w ≡ null) ⊎ ((w ≢ null) × (has w g.vertex_list ≡ true))
      holder_cases {w} (inl e) = inl e
      holder_cases {w} (inr i) = inr ((s.vertices w i).0, i)

  Waits-has : {v w : Ptr} → has v g.vertex_list ≡ true → Waits g v w → has w g.vertex_list ≡ true
  Waits-has {v} {w} i h =
      let (u, edge, next) = next_of v i in
      elim next [
        | inl idle ↦ absurd (h.some_holder (same_next g v h.edge edge ∙ idle))
        | inr (busy, j) ↦ rw (same_next g v h.edge edge) j
      ]

  -- A walk does not leave the graph.
  pub Chain-has :
      {v w : Ptr} → has v g.vertex_list ≡ true → Chain g v w → has w g.vertex_list ≡ true
  Chain-has i here = i
  Chain-has i (onward c h) = Waits-has (Chain-has i c) h
