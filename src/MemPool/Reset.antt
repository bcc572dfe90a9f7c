-- ===== src/MemPool/Reset.antt =====
-- 8_mem_pool/MemPool.c: mp_reset_pool frees the memory of every bucket and empties every block.
use personal_c_cpp_back_end.Base.{
  ℕ, zero, suc, ◌+◌, ◌<◌, ◌≡◌, ◌≢◌, refl, sym, ap, ◌∙◌, inl, inr, true, false, Option, none, some,
  List, [], ◌∷◌, map, Returns, Returns-bind, length, ◌==◌, if◌then◌else◌, arith, subst, Bool-cases,
  Returns-mono,
}
use personal_c_cpp_back_end.MemPool.{
  Addr, null, Bucket, Block, Pool, sizeof_block, head_addr, update,
}
use personal_c_cpp_back_end.MemPool.Calls.{release, release_all, empty_block, mp_reset_pool}

-- From `p` on, the descriptors `qs` are linked, and the last of them holds NULL.
abbrev pub Links : (Addr → Option Bucket) → Addr → List Addr → Type 0
Links m p [] = p ≡ null
Links m p (q ∷ qs) = (p ≡ q) × (q ≢ null) × ((b : Bucket) × (m q ≡ some b) × Links m b.next qs)

abbrev pub NotIn : Addr → List Addr → Type 0
NotIn q [] = Unit
NotIn q (r ∷ rs) = (q ≢ r) × NotIn q rs

abbrev pub AreDistinct : List Addr → Type 0
AreDistinct [] = Unit
AreDistinct (q ∷ qs) = NotIn q qs × AreDistinct qs

-- `freed` and the memory of the descriptors, last first, where they have some.
abbrev pub with_memory : (Addr → Option Bucket) → List Addr → List Addr → List Addr
with_memory m [] freed = freed
with_memory m (q ∷ qs) freed = with_memory m qs (elim (m q) [
  | none ↦ freed
  | some b ↦ if b.start_of_bucket == null then freed else b.start_of_bucket ∷ freed
])

Links-update :
    (m : Addr → Option Bucket) (q : Addr) (o : Option Bucket) (p : Addr) (qs : List Addr)
    → NotIn q qs
    → Links m p qs
    → Links (update m q o) p qs
Links-update m q o p [] out h = h
Links-update m q o p (r ∷ rs) out h =
    let (b, e, rest) = h.2 in
    let other : (r == q) ≡ false = ground (arith, out.0) in
    (h.0, h.1, (b, rw other e, Links-update m q o b.next rs out.1 rest))

with_memory-update :
    (m : Addr → Option Bucket) (q : Addr) (o : Option Bucket) (qs freed : List Addr)
    → NotIn q qs
    → with_memory (update m q o) qs freed ≡ with_memory m qs freed
with_memory-update m q o [] freed out = refl
with_memory-update m q o (r ∷ rs) freed out =
    let other : (r == q) ≡ false = ground (arith, out.0) in
    rw other (with_memory-update m q o rs _ out.1)

release_all-frees :
    (fuel : ℕ) (pool : Pool) (p : Addr) (qs : List Addr)
    → Links pool.bucket p qs
    → AreDistinct qs
    → length qs < fuel
    → Returns (release_all fuel pool p) λ pool'.
      (pool'.freed ≡ with_memory pool.bucket qs pool.freed) × (pool'.blocks ≡ pool.blocks)
unfolding release_all release
release_all-frees zero pool p qs h d enough = absurd (omega (arith, enough))
release_all-frees (suc fuel) pool p [] h d enough =
    let test : (p == null) ≡ true = ground arith in rw test (refl, refl)
release_all-frees (suc fuel) pool p (q ∷ qs) h d enough =
    let (b, e, rest) = h.2 in
    let test : (p == null) ≡ false = ground (arith, h.0, h.1) in
    let here = ap pool.bucket h.0 ∙ e in
    elim (Bool-cases (b.start_of_bucket == null)) [
      | inl nothing ↦
          rw (test, here, e, nothing, here)
            (release_all-frees fuel pool b.next qs rest d.1 (omega (arith, enough)))
      | inr some_memory ↦
          let out = subst (λ r. NotIn r qs) (sym h.0) d.0 in
          let gone = some (record b { start_of_bucket = null }) in
          let pool' = record pool {
            bucket = update pool.bucket p gone;
            freed = b.start_of_bucket ∷ pool.freed;
          } in
          let rest' = Links-update pool.bucket p gone b.next qs out rest in
          let same : (p == p) ≡ true = ground arith in
          let freed =
            with_memory-update pool.bucket p gone qs (b.start_of_bucket ∷ pool.freed) out in
          rw (test, here, e, some_memory, same)
            (Returns-mono _ (release_all fuel pool' b.next)
              (release_all-frees fuel pool' b.next qs rest' d.1 (omega (arith, enough)))
              λ t f. (f.0 ∙ freed, f.1))
    ]

-- A block from which nothing is cut: its memory starts behind its descriptor.
abbrev pub Emptied : List Block → List Block → Type 0
Emptied [] [] = Unit {0}
Emptied [] (c ∷ cs) = ⊥
Emptied (b ∷ bs) [] = ⊥
Emptied (b ∷ bs) (c ∷ cs) =
    (c.self ≡ b.self)
    × (c.end_of_block ≡ b.end_of_block)
    × (c.start_of_rest ≡ b.self + sizeof_block)
    × (c.ref_counter ≡ 0)
    × (c.failed_time ≡ 0)
    × Emptied bs cs

map-empty_block : (bs : List Block) → Emptied bs (map empty_block bs)
unfolding empty_block
map-empty_block [] = tt
map-empty_block (b ∷ bs) = (refl, refl, refl, refl, refl, map-empty_block bs)

-- On a pool whose buckets are linked and distinct, with fuel for one round more than there are
-- buckets, mp_reset_pool frees the memory of each bucket once and nothing else, forgets the buckets,
-- gives every block, at its address and with its end, the whole memory behind its descriptor back, with
-- no reference and no failure counted, and starts again at the first block.
pub mp_reset_pool-frees :
    (fuel : ℕ) (pool : Pool) (qs : List Addr)
    → Links pool.bucket pool.first_bucket qs
    → AreDistinct qs
    → length qs < fuel
    → Returns (mp_reset_pool fuel pool) λ pool'.
      (pool'.freed ≡ with_memory pool.bucket qs pool.freed)
      × (pool'.first_bucket ≡ null)
      × Emptied pool.blocks pool'.blocks
      × (pool'.current_block ≡ head_addr pool.blocks)
unfolding mp_reset_pool
mp_reset_pool-frees fuel pool qs h d enough =
    Returns-bind _ (release_all fuel pool pool.first_bucket) _
      (release_all-frees fuel pool pool.first_bucket qs h d enough)
      λ t f. (
        f.0,
        refl,
        subst (λ bs. Emptied bs (map empty_block t.blocks)) f.1 (map-empty_block t.blocks),
        ap head_addr f.1,
      )
