-- ===== src/Deadlock/Links.antt =====
-- The two linked lists: a node is added at the end once, and taken out once.
use personal_c_cpp_back_end.Base.{
  ◌≡◌, refl, true, false, List, [], ◌∷◌, ◌==◌, if◌then◌else◌, ℕ_discrete, arith,
}
use personal_c_cpp_back_end.Deadlock.{Ptr, has, link_last, unlink}
use personal_c_cpp_back_end.Deadlock.Waits.{Distinct}

pub has-link_last :
    (ps : List Ptr) (node p : Ptr)
    → has p (link_last ps node) ≡ (if p == node then true else has p ps)
unfolding link_last
has-link_last [] node p = ground arith
has-link_last (q ∷ ps) node p = ground (arith, has-link_last ps node p)

pub link_last-Distinct : (ps : List Ptr) (node : Ptr) → Distinct ps → Distinct (link_last ps node)
unfolding link_last
link_last-Distinct [] node d = (refl, tt)
link_last-Distinct (q ∷ ps) node d = elim (ℕ_discrete q node) [
  | yes same ↦ let test : (q == node) ≡ true = ground arith in rw test d
  | no other ↦
      let test : (q == node) ≡ false = ground arith in
      rw test (ground (arith, has-link_last ps node q), link_last-Distinct ps node d.1)
]

pub has-unlink :
    (ps : List Ptr) (node p : Ptr)
    → Distinct ps
    → has p (unlink ps node) ≡ (if p == node then false else has p ps)
unfolding unlink
has-unlink [] node p d = ground arith
has-unlink (q ∷ ps) node p d = ground (arith, d.0, has-unlink ps node p d.1)

pub unlink-Distinct : (ps : List Ptr) (node : Ptr) → Distinct ps → Distinct (unlink ps node)
unfolding unlink
unlink-Distinct [] node d = tt
unlink-Distinct (q ∷ ps) node d = elim (ℕ_discrete q node) [
  | yes same ↦ let test : (q == node) ≡ true = ground arith in rw test d.1
  | no other ↦
      let test : (q == node) ≡ false = ground arith in
      rw test (ground (arith, has-unlink ps node q d.1), unlink-Distinct ps node d.1)
]
