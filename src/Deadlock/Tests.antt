-- ===== src/Deadlock/Tests.antt =====
-- Two threads that wait for each other, and the theorems at their graph.
use personal_c_cpp_back_end.Base.{
  ℕ, ◌≡◌, ◌↔◌, refl, ◌⊎◌, inl, inr, Bool, true, false, none, some, [], ◌∷◌, Run, ok, ◌>>=◌, Returns,
  ◌==◌, if◌then◌else◌, ℕ_discrete, arith,
}
use personal_c_cpp_back_end.Deadlock.{
  Ptr, null, Vertex, ResourceLock, TaskGraph, has, get_wait_vertex, search_vertex, search_lock,
  before_lock, after_lock, after_unlock, detect, print_cycle, add_vertex_to_graph, add_vertex,
  add_relation_before_lock, add_lock_to_graph, add_lock, become_holder_after_lock, search_cross,
  all_vertex_unvisited,
}
use personal_c_cpp_back_end.Deadlock.Waits.{IsSound, Leads}
use personal_c_cpp_back_end.Deadlock.Detect.{Detected, detect-Detected, detect_iff}
use personal_c_cpp_back_end.Deadlock.Updates.{Knows, after_lock-IsSound}
use personal_c_cpp_back_end.Deadlock.Relations.{Holds}
use personal_c_cpp_back_end.Deadlock.Race.{late_unlock_hides_holder}

abbrev empty : TaskGraph
empty = record {
  vertex_list = [];
  lock_list = [];
  vertex = λ p. none;
  resource = λ p. none;
  visited = λ p. false;
}

abbrev waiting_for : ℕ → Ptr → Vertex
waiting_for tid lock = record { tid = tid; waitting = lock }

abbrev held_by : Ptr → Ptr → ℕ → ResourceLock
held_by v mtx used = record { holder = v; lock = mtx; used = used }

-- Thread 11 at node 1 holds mutex 100 (node 3) and waits for mutex 200 (node 4); thread 12 at node 2
-- holds mutex 200, and waits for mutex 100 if `stuck`.
abbrev pair : Bool → TaskGraph
pair stuck = record {
  vertex_list = 1 ∷ 2 ∷ [];
  lock_list = 3 ∷ 4 ∷ [];
  vertex = λ p.
      if p == 1
      then some (waiting_for 11 4)
      else if p == 2
      then some (waiting_for 12 (if stuck then 3 else 0))
      else none;
  resource = λ p.
      if p == 3
      then some (held_by 1 100 (if stuck then 2 else 1))
      else if p == 4
      then some (held_by 2 200 2)
      else none;
  visited = λ p. false;
}

-- The line opens all that a run of the hooks or of the search computes with.
found_node : Run (TaskGraph × Ptr) → Run Ptr
unfolding before_lock after_lock after_unlock detect search_vertex search_lock add_vertex_to_graph
    add_vertex add_relation_before_lock add_lock_to_graph add_lock become_holder_after_lock
    search_cross all_vertex_unvisited get_wait_vertex
found_node r = r >>= λ (g, c). ok c

-- The hooks of the two threads, up to the calls that block.
detects_cycle :
    found_node (do
      g1 ← before_lock empty 11 100 1 3
      g2 ← after_lock g1 11 100
      g3 ← before_lock g2 12 200 2 4
      g4 ← after_lock g3 12 200
      g5 ← before_lock g4 11 200 5 5
      g6 ← before_lock g5 12 100 5 5
      detect g6)
    ≡ ok 1
unfolding found_node
detects_cycle = refl

no_cycle_yet : found_node (detect (pair false)) ≡ ok null
unfolding found_node
no_cycle_yet = refl

prints_cycle : print_cycle (pair true) 1 ≡ ok (11 ∷ 12 ∷ 11 ∷ [])
unfolding print_cycle get_wait_vertex
prints_cycle = refl

pair_vertex :
    (stuck : Bool) (p : Ptr)
    → has p (pair stuck).vertex_list ≡ true
    → (v : Vertex) × ((pair stuck).vertex p ≡ some v)
pair_vertex stuck p i = elim (ℕ_discrete p 1) [
  | yes e ↦ (waiting_for 11 4, ground arith)
  | no e ↦ (waiting_for 12 (if stuck then 3 else 0), ground arith)
]

pair_lock :
    (stuck : Bool) (p : Ptr)
    → has p (pair stuck).lock_list ≡ true
    → (l : ResourceLock) × ((pair stuck).resource p ≡ some l)
pair_lock stuck p i = elim (ℕ_discrete p 3) [
  | yes e ↦ (held_by 1 100 (if stuck then 2 else 1), ground arith)
  | no e ↦ (held_by 2 200 2, ground arith)
]

pair_waiting :
    (stuck : Bool) (p : Ptr) (v : Vertex)
    → (pair stuck).vertex p ≡ some v
    → (v.waitting ≡ null) ⊎ (has v.waitting (3 ∷ 4 ∷ []) ≡ true)
pair_waiting stuck p v e = ground arith

pair-IsSound : (stuck : Bool) → IsSound (pair stuck)
pair-IsSound stuck = record {
  vertices = λ p i. (ground arith, pair_vertex stuck p i);
  waiting = λ p v e. elim (pair_waiting stuck p v e) [
    | inl idle ↦ inl idle
    | inr i ↦ inr (pair_lock stuck v.waitting i)
  ];
  holders = λ p l e. ground arith;
  distinct = (refl, (refl, tt));
  locks = λ p i. (ground arith, pair_lock stuck p i);
}

detect-Detected_example : Returns (detect (pair true)) (Detected (pair true) (1 ∷ 2 ∷ []))
detect-Detected_example = detect-Detected (pair-IsSound true)

detect_iff_example :
    Returns
      (detect (pair false))
      λ (g', c). (c ≡ null) ↔ ((p : Ptr) → has p (1 ∷ 2 ∷ []) ≡ true → ¬ Leads (pair false) p p)
detect_iff_example = detect_iff (pair false) (pair-IsSound false)

known_pair : Knows (pair true) 12 200
unfolding search_vertex search_lock
known_pair = ((λ e. cc), (λ e. cc))

after_lock-IsSound_example :
    Returns (after_lock (pair true) 12 200) λ g'. IsSound g' × Holds g' 12 200
after_lock-IsSound_example = after_lock-IsSound (pair true) 12 200 (pair-IsSound true) known_pair

found_in_pair :
    (search_lock (pair false) 100 ≡ ok 3)
    × (search_vertex (pair true) 12 ≡ ok 2)
    × (search_lock (pair true) 100 ≡ ok 3)
unfolding search_vertex search_lock
found_in_pair = (refl, refl, refl)

late_unlock_hides_holder_example :
    Returns (after_lock (pair true) 12 100 >>= λ g1. after_unlock g1 100) λ g2.
      (r : Ptr) (u : Vertex)
      → g2.vertex r ≡ some u
      → u.waitting ≡ 3
      → get_wait_vertex g2 r ≡ ok null
late_unlock_hides_holder_example =
    late_unlock_hides_holder (pair true) 12 100 2 3 (waiting_for 12 3) (held_by 1 100 2)
      found_in_pair.1 found_in_pair.2 (omega arith) (omega arith) refl refl (omega arith)
      (omega arith)
