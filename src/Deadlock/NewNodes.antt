-- ===== src/Deadlock/NewNodes.antt =====
-- add_vertex and add_lock keep the pointers of the graph sound.
use personal_c_cpp_back_end.Base.{ℕ, ◌≡◌, ◌≢◌, refl, inl, inr, false, ◌==◌, ℕ_discrete, arith}
use personal_c_cpp_back_end.Deadlock.{
  Ptr, null, ResourceLock, TaskGraph, add_vertex, add_lock, add_vertex_to_graph, add_lock_to_graph,
}
use personal_c_cpp_back_end.Deadlock.Waits.{IsSound}
use personal_c_cpp_back_end.Deadlock.Lookup.{IsVertexOf, IsLockOf}
use personal_c_cpp_back_end.Deadlock.Links.{has-link_last, link_last-Distinct}

module _ {g : TaskGraph} (s : IsSound g) where
  pub add_vertex-IsSound :
      (fresh : Ptr) (tid : ℕ)
      → fresh ≢ null
      → IsSound (add_vertex_to_graph (add_vertex g fresh tid) fresh)
        × IsVertexOf (add_vertex_to_graph (add_vertex g fresh tid) fresh) tid fresh
  unfolding add_vertex_to_graph add_vertex
  add_vertex-IsSound fresh tid ne =
      let test : (fresh == null) ≡ false = ground arith in
      rw test (
        record {
          vertices = λ p i. elim (ℕ_discrete fresh p) [
            | yes same ↦ (ground arith, (record { tid = tid; waitting = null }, ground arith))
            | no other ↦
                let (known, (v, e)) =
                  s.vertices p (ground (arith, has-link_last g.vertex_list fresh p)) in
                (known, (v, ground arith))
          ];
          waiting = λ p v e. ground (arith, s.waiting p v);
          holders =
              λ p l e. ground (arith, s.holders p l, has-link_last g.vertex_list fresh l.holder);
          distinct = s.distinct;
          locks = s.locks;
        },
        (
          ground (arith, has-link_last g.vertex_list fresh fresh),
          (record { tid = tid; waitting = null }, ground arith, refl),
        ),
      )

  pub add_lock-IsSound :
      (fresh mtx : Ptr)
      → fresh ≢ null
      → IsSound (add_lock_to_graph (add_lock g fresh mtx) fresh)
        × IsLockOf (add_lock_to_graph (add_lock g fresh mtx) fresh) mtx fresh
  unfolding add_lock_to_graph add_lock
  add_lock-IsSound fresh mtx ne =
      let test : (fresh == null) ≡ false = ground arith in
      let node : ResourceLock = record { holder = null; lock = mtx; used = 0 } in
      rw test (
        record {
          vertices = s.vertices;
          waiting = λ p v e. elim (s.waiting p v e) [
            | inl idle ↦ inl idle
            | inr (l, held) ↦ inr (elim (ℕ_discrete fresh v.waitting) [
              | yes same ↦ (node, ground arith)
              | no other ↦ (l, ground arith)
            ])
          ];
          holders = λ p l e. ground (arith, s.holders p l);
          distinct = link_last-Distinct g.lock_list fresh s.distinct;
          locks = λ p i. elim (ℕ_discrete fresh p) [
            | yes same ↦ (ground arith, (node, ground arith))
            | no other ↦
                let (known, (l, e)) =
                  s.locks p (ground (arith, has-link_last g.lock_list fresh p)) in
                (known, (l, ground arith))
          ];
        },
        (ground (arith, has-link_last g.lock_list fresh fresh), (node, ground arith, refl)),
      )
