-- ===== src/Deadlock/Relations.antt =====
-- add_relation_before_lock and become_holder_after_lock.
use mathlib.Core.Option.{some-injective}
use personal_c_cpp_back_end.Base.{
  ℕ, ◌+◌, ◌%◌, ◌≡◌, ◌≢◌, refl, sym, ap, ◌∙◌, true, inr, some, Returns, ℕ_discrete, arith,
}
use personal_c_cpp_back_end.Deadlock.{
  Ptr, null, int_mod, Vertex, ResourceLock, TaskGraph, has, add_relation_before_lock,
  become_holder_after_lock,
}
use personal_c_cpp_back_end.Deadlock.Waits.{IsSound}
use personal_c_cpp_back_end.Deadlock.Lookup.{IsVertexOf, IsLockOf}

-- In `g'`, a listed vertex is that of thread `tid` and waits for a listed lock, which is that of mutex
-- `mtx` and has one user more than `n`, an int. All other nodes are as in `g`.
pub record WaitsFor (g g' : TaskGraph) (tid : ℕ) (mtx : Ptr) (n : ℕ) : Type 0 where
  pub thread : Ptr
  pub mutex : Ptr
  pub vertex_listed : has thread g'.vertex_list ≡ true
  pub lock_listed : has mutex g'.lock_list ≡ true
  pub vertex : Vertex
  pub vertex_at : g'.vertex thread ≡ some vertex
  pub is_tid : vertex.tid ≡ tid
  pub waits : vertex.waitting ≡ mutex
  pub lock : ResourceLock
  pub lock_at : g'.resource mutex ≡ some lock
  pub is_mtx : lock.lock ≡ mtx
  pub one_more : lock.used ≡ (n + 1) % int_mod
  pub other_vertices : (p : Ptr) → p ≢ thread → g'.vertex p ≡ g.vertex p
  pub other_locks : (p : Ptr) → p ≢ mutex → g'.resource p ≡ g.resource p

-- Thread `tid` is recorded as the holder of mutex `mtx`, and as waiting for nothing.
abbrev pub Holds : TaskGraph → ℕ → Ptr → Type 0
Holds g tid mtx =
    (p : Ptr) × (q : Ptr) × (v : Vertex) × (l : ResourceLock) × (g.vertex p ≡ some v)
    × (v.tid ≡ tid)
    × (v.waitting ≡ null)
    × (g.resource q ≡ some l)
    × (l.lock ≡ mtx)
    × (l.holder ≡ p)

module _ {g : TaskGraph} (s : IsSound g) {p q : Ptr} {tid : ℕ} {mtx : Ptr}
    (vertex : IsVertexOf g tid p) (lock : IsLockOf g mtx q) where
  pub add_relation-IsSound :
      (l0 : ResourceLock)
      → g.resource q ≡ some l0
      → Returns
          (add_relation_before_lock g p q)
          λ g'. IsSound g' × ((w : WaitsFor g g' tid mtx l0.used) × (w.thread ≡ p) × (w.mutex ≡ q))
  unfolding add_relation_before_lock
  add_relation-IsSound l0 at_q =
      let (i, (v, e, mine)) = vertex in
      let (j, (l, held, its)) = lock in
      let v' : Vertex = record v { waitting = q } in
      let l' : ResourceLock = record l { used = (l.used + 1) % int_mod } in
      rw (e, held)
        (
          record {
            vertices = λ r k.
                let (known, (u, eu)) = s.vertices r k in
                (
                  known,
                  elim (ℕ_discrete p r) [
                    | yes same ↦ (v', ground arith)
                    | no other ↦ (u, ground arith)
                  ],
                );
            waiting = λ r u eu. elim (ℕ_discrete q u.waitting) [
              | yes same ↦ inr (l', ground arith)
              | no other ↦ ground (arith, s.waiting r u)
            ];
            holders = λ r k ek. ground (arith, s.holders r k, s.holders q l);
            distinct = s.distinct;
            locks = λ r k.
                let (known, (u, eu)) = s.locks r k in
                (
                  known,
                  elim (ℕ_discrete q r) [
                    | yes same ↦ (l', ground arith)
                    | no other ↦ (u, ground arith)
                  ],
                );
          },
          (
            record {
              thread = p;
              mutex = q;
              vertex_listed = i;
              lock_listed = j;
              vertex = v';
              vertex_at = ground arith;
              is_tid = mine;
              waits = refl;
              lock = l';
              lock_at = ground arith;
              is_mtx = its;
              one_more = ap (λ k. (k.used + 1) % int_mod) (some-injective _ _ (sym held ∙ at_q));
              other_vertices = λ r ne. ground (arith, ne);
              other_locks = λ r ne. ground (arith, ne);
            },
            refl,
            refl,
          ),
        )

  pub become_holder-IsSound :
      Returns (become_holder_after_lock g p q) λ g'. IsSound g' × Holds g' tid mtx
  unfolding become_holder_after_lock
  become_holder-IsSound =
      let (i, (v, e, mine)) = vertex in
      let (j, (l, held, its)) = lock in
      let v' : Vertex = record v { waitting = null } in
      let l' : ResourceLock = record l { holder = p } in
      rw (e, held)
        (
          record {
            vertices = λ r k.
                let (known, (u, eu)) = s.vertices r k in
                (
                  known,
                  elim (ℕ_discrete p r) [
                    | yes same ↦ (v', ground arith)
                    | no other ↦ (u, ground arith)
                  ],
                );
            waiting = λ r u eu. elim (ℕ_discrete q u.waitting) [
              | yes same ↦ inr (l', ground arith)
              | no other ↦ ground (arith, s.waiting r u)
            ];
            holders = λ r k ek. ground (arith, s.holders r k);
            distinct = s.distinct;
            locks = λ r k.
                let (known, (u, eu)) = s.locks r k in
                (
                  known,
                  elim (ℕ_discrete q r) [
                    | yes same ↦ (l', ground arith)
                    | no other ↦ (u, ground arith)
                  ],
                );
          },
          (p, q, v', l', ground arith, mine, refl, ground arith, its, refl),
        )
