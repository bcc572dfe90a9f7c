-- ===== src/Deadlock/Race.antt =====
-- after_unlock runs after the mutex was given up, so another thread may take the mutex and run its
-- after_lock first. The late after_unlock then erases the new holder.
use personal_c_cpp_back_end.Base.{
  ℕ, ◌+◌, ◌-◌, ◌%◌, ◌<◌, ◌≡◌, ◌≢◌, refl, true, false, some, List, [], ◌∷◌, ok, ◌>>=◌, Returns, ◌==◌,
  arith,
}
use personal_c_cpp_back_end.Deadlock.{
  Ptr, null, int_mod, Vertex, ResourceLock, TaskGraph, update, become_holder_after_lock,
  dereference_after_unlock, search_vertex, search_lock_in, search_lock, get_wait_vertex, after_lock,
  after_unlock,
}

abbrev held_by : TaskGraph → Ptr → Ptr → Vertex → ResourceLock → TaskGraph
held_by g p q v l = record g {
  resource = update g.resource q (some (record l { holder = p }));
  vertex = update g.vertex p (some (record v { waitting = null }));
}

search_lock_in-held_by :
    (g : TaskGraph) (p q : Ptr) (v : Vertex) (l : ResourceLock) (ps : List Ptr) (mtx : Ptr)
    → g.resource q ≡ some l
    → search_lock_in (held_by g p q v l) ps mtx ≡ search_lock_in g ps mtx
unfolding search_lock_in
search_lock_in-held_by g p q v l [] mtx held = refl
search_lock_in-held_by g p q v l (r ∷ ps) mtx held =
    ground (arith, search_lock_in-held_by g p q v l ps mtx held)

search_lock-held_by :
    (g : TaskGraph) (p q : Ptr) (v : Vertex) (l : ResourceLock) (mtx : Ptr)
    → g.resource q ≡ some l
    → search_lock (held_by g p q v l) mtx ≡ search_lock g mtx
unfolding search_lock
search_lock-held_by g p q v l mtx held = search_lock_in-held_by g p q v l g.lock_list mtx held

-- When thread `tid` takes a mutex and the thread that gave it up runs its after_unlock only then, the
-- graph has no wait edge for any thread that waits for that mutex, although `tid` holds it.
pub late_unlock_hides_holder :
    (g : TaskGraph) (tid : ℕ) (mtx p q : Ptr) (v : Vertex) (l : ResourceLock)
    → search_vertex g tid ≡ ok p
    → search_lock g mtx ≡ ok q
    → p ≢ null
    → q ≢ null
    → g.vertex p ≡ some v
    → g.resource q ≡ some l
    → 1 < l.used
    → l.used < int_mod
    → Returns (after_lock g tid mtx >>= λ g1. after_unlock g1 mtx) λ g2.
      (r : Ptr) (u : Vertex)
      → g2.vertex r ≡ some u
      → u.waitting ≡ q
      → get_wait_vertex g2 r ≡ ok null
unfolding after_lock become_holder_after_lock after_unlock dereference_after_unlock get_wait_vertex
late_unlock_hides_holder g tid mtx p q v l found found' ne ne' known held shared small =
    let some_vertex : (p == null) ≡ false = ground arith in
    let some_lock : (q == null) ≡ false = ground arith in
    let own : (q == q) ≡ true = ground arith in
    let still = search_lock-held_by g p q v l mtx held in
    let more : ((l.used + int_mod - 1) % int_mod == 0) ≡ false = ground arith in
    rw
      (found, found', some_vertex, some_lock, known, held, still, found', some_lock, own, own, more)
      λ r u e w. rw (e, w, some_lock, own)
