-- ===== src/MemPool/Faults.antt =====
-- 8_mem_pool/MemPool.c: where malloc_a_piece leaves the blocks: a request that fits a block but not its
-- header, and a pool without a current block.
use personal_c_cpp_back_end.Base.{
  ap, ℕ, ◌+◌, ◌≤◌, ◌<◌, ◌≡◌, ◌≢◌, refl, Option, none, some, List, [], ◌∷◌, true, false, fault, ◌==◌,
  leb, Returns, arith,
}
use personal_c_cpp_back_end.MemPool.{
  Addr, null, Block, Bucket, Pool, sizeof_block, sizeof_piece, size_mod, new_block, cut, walk_cons,
  rest_block_space, from, walk, malloc_a_block, give, malloc_a_piece,
}
use personal_c_cpp_back_end.MemPool.Cuts.{AreBlocks}
use personal_c_cpp_back_end.MemPool.Calls.{mp_malloc}
use personal_c_cpp_back_end.MemPool.Walks.{
  EndsOpen, walk-current, walk_on, walk_nil, next_current, from-AreBlocks,
}

-- No block of the list has `need` bytes left.
abbrev pub AreFull : ℕ → List Block → Type 0
AreFull need [] = Unit
AreFull need (b ∷ bs) = (rest_block_space b < need) × AreFull need bs

walk-full :
    (need : ℕ) (current : Addr) (bs : List Block)
    → AreFull need bs
    → (walk need current bs).found ≡ none
unfolding walk_cons
walk-full need current [] full = rw (walk_nil need current) refl
walk-full need current (b ∷ bs) full =
    rw (walk_on need current b bs full.0) (walk-full need (next_current b bs current) bs full.1)

from-null : (n : ℕ) (bs : List Block) → AreBlocks n bs → from null bs ≡ []
unfolding from
from-null n [] w = refl
from-null n (b ∷ bs) w =
    let test : (b.self == null) ≡ false = ground (arith, w.0.given) in rw test (from-null n bs w.2)

-- Without a current block, a success of posix_memalign makes malloc_a_piece follow NULL.
pub malloc_a_piece-fault :
    (pool : Pool) (size : ℕ) (fresh : Addr)
    → AreBlocks pool.block_size pool.blocks
    → pool.current_block ≡ null
    → malloc_a_piece pool size (some fresh) ≡ fault
unfolding malloc_a_piece malloc_a_block
malloc_a_piece-fault pool size fresh w e =
    let none_left : from pool.current_block pool.blocks ≡ [] =
      rw e (from-null pool.block_size pool.blocks w) in
    let still : (walk (size + sizeof_piece) pool.current_block
          (from pool.current_block pool.blocks))
        ≡ record { blocks = []; current = null; found = none } =
      rw (none_left, e) (walk_nil (size + sizeof_piece) null) in
    let empty = ap (λ w. w.found) still in
    let test : ((walk (size + sizeof_piece) pool.current_block
            (from pool.current_block pool.blocks)).current
          == null)
        ≡ true =
      ground (arith, ap (λ w. w.current) still) in
    rw (empty, malloc_a_piece, malloc_a_block, test) refl

-- A request of at most the block size that leaves no room for the header, when no block has room, is
-- granted from a new block, and its piece ends behind that block.
pub mp_malloc-overrun :
    (fuel : ℕ) (pool : Pool) (size : ℕ) (fresh : Addr) (stale : Bucket) (big : Option Addr)
    → AreBlocks pool.block_size pool.blocks
    → pool.current_block ≢ null
    → EndsOpen (from pool.current_block pool.blocks)
    → AreFull (size + sizeof_piece) (from pool.current_block pool.blocks)
    → size ≢ 0
    → size ≤ pool.block_size
    → pool.block_size < size + sizeof_piece
    → Returns (mp_malloc fuel pool size (some fresh) stale big) λ (pool', r).
      (p : Addr) × (r ≡ some p) × ((new_block pool.block_size fresh).end_of_block < p + size)
unfolding mp_malloc malloc_a_piece malloc_a_block give new_block
mp_malloc-overrun fuel pool size fresh stale big w ne last full some_size le over =
    let need = size + sizeof_piece in
    let bs = from pool.current_block pool.blocks in
    let empty = walk-full need pool.current_block bs full in
    let kept =
      walk-current pool.block_size need pool.current_block bs ne (from-AreBlocks pool w) last in
    let t1 : (size == 0) ≡ false = ground (arith, some_size) in
    let t2 : leb size pool.block_size ≡ true = ground arith in
    let t3 : ((walk need pool.current_block bs).current == null) ≡ false = ground (arith, kept) in
    rw (t1, t2, empty, malloc_a_piece, malloc_a_block, t3)
      (fresh + sizeof_block + sizeof_piece, refl, omega arith)

-- The first byte behind the memory of a new block, and the end of the rest that the cut leaves there.
pub new_block-overrun :
    (n size : ℕ) (p : Addr)
    → n < size + sizeof_piece
    → size ≤ n
    → p + sizeof_block + n < size_mod
    → (cut (size + sizeof_piece) (new_block n p)).end_of_block
        < (cut (size + sizeof_piece) (new_block n p)).start_of_rest
      × size_mod ≤ rest_block_space (cut (size + sizeof_piece) (new_block n p)) + sizeof_piece
unfolding cut new_block rest_block_space
new_block-overrun n size p over le top = (omega arith, omega arith)
