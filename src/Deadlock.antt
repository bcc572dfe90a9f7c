-- ===== src/Deadlock.antt =====
-- 11_deadlock_detector/deadlock_detector.c: the task graph that the lock hooks maintain, and the
-- search for a cycle. Vertices and locks are nodes at addresses; the two linked lists are lists of
-- addresses in link order. The field `visited` of every vertex is kept as one function of its own.
-- The hooks and the search hold `g->mutex`, so each is one step on the graph.
pub mod Waits
pub mod Cross
pub mod Detect
pub mod Lookup
pub mod Links
pub mod NewNodes
pub mod Relations
pub mod Updates
pub mod Counts
pub mod Users
pub mod Unlock
pub mod Race
pub mod Tests
use personal_c_cpp_back_end.Base.{
  ℕ, zero, suc, ◌+◌, ◌-◌, ◌%◌, ◌^◌, Bool, true, false, not, ◌||◌, Option, none, some, List, [], ◌∷◌,
  ◌++◌, Run, ok, fault, out_of_fuel, ◌>>=◌, ◌>>◌, deref, require, ◌==◌, if◌then◌else◌, length,
}

abbrev pub Ptr : Type 0
Ptr = ℕ

abbrev pub null : Ptr
null = 0

-- struct vertex, without `next` and `visited`.
pub record Vertex : Type 0 where
  pub tid : ℕ
  pub waitting : Ptr

-- struct resource_lock, without `next`. `used` is the bit pattern of an int.
pub record ResourceLock : Type 0 where
  pub holder : Ptr
  pub lock : Ptr
  pub used : ℕ

-- struct task_graph, with the nodes that its lists reach. A node that `none` stands for is not
-- allocated, and reading it is a fault.
pub record TaskGraph : Type 0 where
  pub vertex_list : List Ptr
  pub lock_list : List Ptr
  pub vertex : Ptr → Option Vertex
  pub resource : Ptr → Option ResourceLock
  pub visited : Ptr → Bool

abbrev pub has : Ptr → List Ptr → Bool
has a [] = false
has a (p ∷ ps) = (a == p) || has a ps

abbrev pub update {ℓ} : {A : Type ℓ} → (Ptr → A) → Ptr → A → Ptr → A
update f p v q = if q == p then v else f q

-- add_vertex: `fresh` is what malloc returns.
pub add_vertex : TaskGraph → Ptr → ℕ → TaskGraph
add_vertex g fresh tid = if fresh == null then g else record g {
  vertex = update g.vertex fresh (some (record { tid = tid; waitting = null }));
  visited = update g.visited fresh false;
}

-- add_lock
pub add_lock : TaskGraph → Ptr → Ptr → TaskGraph
add_lock g fresh mtx = if fresh == null then g else record g {
  resource = update g.resource fresh (some (record { holder = null; lock = mtx; used = 0 }));
}

abbrev pub int_mod : ℕ
int_mod = 2 ^ 32

pub add_relation_before_lock : TaskGraph → Ptr → Ptr → Run TaskGraph
add_relation_before_lock g vtx lock = do
  v ← deref (g.vertex vtx)
  l ← deref (g.resource lock)
  ok (record g {
    vertex = update g.vertex vtx (some (record v { waitting = lock }));
    resource = update g.resource lock (some (record l { used = (l.used + 1) % int_mod }));
  })

pub become_holder_after_lock : TaskGraph → Ptr → Ptr → Run TaskGraph
become_holder_after_lock g vtx lock = do
  v ← deref (g.vertex vtx)
  l ← deref (g.resource lock)
  ok (record g {
    resource = update g.resource lock (some (record l { holder = vtx }));
    vertex = update g.vertex vtx (some (record v { waitting = null }));
  })

pub dereference_after_unlock : TaskGraph → Ptr → Run TaskGraph
dereference_after_unlock g lock = do
  l ← deref (g.resource lock)
  ok (record g {
    resource =
        update g.resource lock
          (some (record l { holder = null; used = (l.used + int_mod - 1) % int_mod }));
  })

pub get_wait_vertex : TaskGraph → Ptr → Run Ptr
get_wait_vertex g vtx = do
  v ← deref (g.vertex vtx)
  let holder_of = (deref (g.resource v.waitting) >>= λ l. ok l.holder)
  if v.waitting == null then ok null else holder_of

-- while(v) { if(tid == v->tid) return v; v = v->next; }
pub search_vertex_in : TaskGraph → List Ptr → ℕ → Run Ptr
search_vertex_in g [] tid = ok null
search_vertex_in g (p ∷ ps) tid =
    let rest = search_vertex_in g ps tid in
    deref (g.vertex p) >>= λ v. if tid == v.tid then ok p else rest

pub search_vertex : TaskGraph → ℕ → Run Ptr
unfolding search_vertex_in
search_vertex g tid = search_vertex_in g g.vertex_list tid

pub search_lock_in : TaskGraph → List Ptr → Ptr → Run Ptr
search_lock_in g [] mtx = ok null
search_lock_in g (p ∷ ps) mtx =
    let rest = search_lock_in g ps mtx in
    deref (g.resource p) >>= λ l. if mtx == l.lock then ok p else rest

pub search_lock : TaskGraph → Ptr → Run Ptr
unfolding search_lock_in
search_lock g mtx = search_lock_in g g.lock_list mtx

-- add_vertex_to_graph and add_lock_to_graph: walk to the end, and return on the way if the node is
-- there already.
pub link_last : List Ptr → Ptr → List Ptr
link_last [] node = node ∷ []
link_last (p ∷ ps) node = if p == node then p ∷ ps else p ∷ link_last ps node

pub add_vertex_to_graph : TaskGraph → Ptr → TaskGraph
unfolding link_last
add_vertex_to_graph g vtx = record g { vertex_list = link_last g.vertex_list vtx }

pub add_lock_to_graph : TaskGraph → Ptr → TaskGraph
unfolding link_last
add_lock_to_graph g lock = record g { lock_list = link_last g.lock_list lock }

-- The two look-ups of before_lock, each with the node that it makes when there is none.
pub find_or_add_vertex : TaskGraph → ℕ → Ptr → Run (TaskGraph × Ptr)
find_or_add_vertex g tid fresh = do
  found ← search_vertex g tid
  if found == null
      then (require (not (fresh == null))
          >> ok (add_vertex_to_graph (add_vertex g fresh tid) fresh, fresh))
      else ok (g, found)

pub find_or_add_lock : TaskGraph → Ptr → Ptr → Run (TaskGraph × Ptr)
find_or_add_lock g mtx fresh = do
  found ← search_lock g mtx
  if found == null
      then (require (not (fresh == null))
          >> ok (add_lock_to_graph (add_lock g fresh mtx) fresh, fresh))
      else ok (g, found)

-- `fresh_vertex` and `fresh_lock` are what the two calls of malloc return, if they are made.
pub before_lock : TaskGraph → ℕ → Ptr → (fresh_vertex fresh_lock : Ptr) → Run TaskGraph
unfolding find_or_add_vertex find_or_add_lock
before_lock g tid mtx fresh_vertex fresh_lock = do
  (g1, vtx) ← find_or_add_vertex g tid fresh_vertex
  (g2, lock) ← find_or_add_lock g1 mtx fresh_lock
  add_relation_before_lock g2 vtx lock

pub after_lock : TaskGraph → ℕ → Ptr → Run TaskGraph
after_lock g tid mtx = do
  vtx ← search_vertex g tid
  lock ← search_lock g mtx
  require (not (vtx == null || lock == null))
  become_holder_after_lock g vtx lock

-- while(node != NULL) { if(node == lock) { prev->next = node->next; free(lock); break; } ... }
pub unlink : List Ptr → Ptr → List Ptr
unlink [] node = []
unlink (p ∷ ps) node = if p == node then ps else p ∷ unlink ps node

pub free_lock : TaskGraph → Ptr → TaskGraph
unfolding unlink
free_lock g lock =
    if has lock g.lock_list
    then record g { lock_list = unlink g.lock_list lock; resource = update g.resource lock none }
    else g

pub after_unlock : TaskGraph → Ptr → Run TaskGraph
unfolding free_lock
after_unlock g mtx = do
  lock ← search_lock g mtx
  require (not (lock == null))
  g' ← dereference_after_unlock g lock
  l ← deref (g'.resource lock)
  ok (if l.used == 0 then free_lock g' lock else g')

-- all_vertex_unvisited(graph.vertex_list.next)
pub all_vertex_unvisited : TaskGraph → TaskGraph
all_vertex_unvisited g = record g {
  visited = λ p. if has p g.vertex_list then false else g.visited p;
}

abbrev pub with_visited : TaskGraph → (Ptr → Bool) → TaskGraph
with_visited g m = record g { visited = m }

-- search_cross, with fuel for the do-while loop.
pub search_cross : ℕ → TaskGraph → Ptr → Run (TaskGraph × Ptr)
search_cross zero g vtx = out_of_fuel
search_cross (suc fuel) g vtx = do
  v ← deref (g.vertex vtx)
  let marked = with_visited g (update g.visited vtx true)
  let onward =
      (get_wait_vertex marked vtx >>= λ w.
      let rest = search_cross fuel marked w in if w == null then ok (marked, null) else rest)
  if g.visited vtx then ok (g, vtx) else onward

-- while(vtx && vtx->visited) vtx = vtx->next;
pub skip_visited : TaskGraph → List Ptr → List Ptr
skip_visited g [] = []
skip_visited g (p ∷ ps) = if g.visited p then skip_visited g ps else p ∷ ps

-- The while loop of detector_routine over the vertices from `vtx` on; each search has one round for
-- each vertex and one more.
pub detect_from : ℕ → TaskGraph → List Ptr → Run (TaskGraph × Ptr)
detect_from zero g vtx = out_of_fuel
detect_from (suc fuel) g [] = ok (g, null)
detect_from (suc fuel) g (p ∷ ps) = do
  (g', cross) ← search_cross (length g.vertex_list + 1) (all_vertex_unvisited g) p
  let rest = detect_from fuel g' (skip_visited g' (p ∷ ps))
  if cross == null then rest else ok (g', cross)

-- One round of detector_routine: the vertex that search_cross returned, or NULL.
pub detect : TaskGraph → Run (TaskGraph × Ptr)
unfolding detect_from skip_visited
detect g = detect_from (length g.vertex_list + 1) g g.vertex_list

-- The loop of print_cycle: the ids that it prints, with the last one after the loop.
pub print_from : ℕ → TaskGraph → (cross vtx : Ptr) → Run (List ℕ)
print_from zero g cross vtx = out_of_fuel
print_from (suc fuel) g cross vtx = do
  v ← deref (g.vertex vtx)
  w ← get_wait_vertex g vtx
  let more = (print_from fuel g cross w >>= λ ids. ok (v.tid ∷ ids))
  let last = (deref (g.vertex w) >>= λ u. ok (v.tid ∷ u.tid ∷ []))
  if not (w == null || w == cross) then more else last

pub print_cycle : TaskGraph → Ptr → Run (List ℕ)
unfolding print_from
print_cycle g cross = print_from (length g.vertex_list) g cross cross
