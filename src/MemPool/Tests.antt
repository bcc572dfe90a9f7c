-- ===== src/MemPool/Tests.antt =====
-- 8_mem_pool/MemPool.c: runs of the pool, and the theorems at a pool with one block of 128 bytes.
use personal_c_cpp_back_end.Base.{
  ◌==◌, if◌then◌else◌, ◌≡◌, refl, true, false, Option, none, some, [], ◌∷◌, Run, ok, ◌>>=◌, arith,
  Returns, ◌+◌, ◌<◌,
}
use personal_c_cpp_back_end.MemPool.{
  head_addr, Addr, Block, Bucket, Pool, new_block, rest_block_space, from, malloc_a_piece,
}
use personal_c_cpp_back_end.MemPool.Reset.{with_memory, mp_reset_pool-frees, Emptied}
use personal_c_cpp_back_end.MemPool.Cuts.{AreBlocks}
use personal_c_cpp_back_end.MemPool.Calls.{
  mp_create_pool, mp_reset_pool, mp_malloc, mp_free, mp_destroy_pool,
}
use personal_c_cpp_back_end.MemPool.Piece.{IsPieceOrNull, malloc_a_piece-IsPiece}
use personal_c_cpp_back_end.MemPool.Faults.{mp_malloc-overrun}

-- A block of 128 bytes at 4128, of which all are left, and its pool at 4096.
abbrev first : Block
first = record {
  self = 4128;
  start_of_rest = 4160;
  end_of_block = 4288;
  failed_time = 0;
  ref_counter = 0;
}

abbrev pool : Pool
pool = record {
  block_size = 128;
  current_block = 4128;
  first_bucket = 0;
  auto_clear = true;
  blocks = first ∷ [];
  piece_block = λ p. 0;
  bucket = λ p. none;
  freed = [];
}

created : mp_create_pool 128 true (some 4096) ≡ some pool
unfolding mp_create_pool
created = refl

-- The memory of a piece before it holds a descriptor.
abbrev zeroed : Bucket
zeroed = record { next = 0; still_in_use = false; start_of_bucket = 0 }

abbrev result : Run (Pool × Option Addr) → Run (Option Addr)
result r = r >>= λ (pool', p). ok p

first_piece : result (mp_malloc 9 pool 16 none zeroed none) ≡ ok (some 4168)
unfolding mp_malloc malloc_a_piece
first_piece = refl

-- A bucket of 1000 bytes: its descriptor is a piece, and its memory is at 9984.
first_bucket : result (mp_malloc 9 pool 1000 none zeroed (some 9984)) ≡ ok (some 9984)
unfolding mp_malloc malloc_a_piece
first_bucket = refl

-- The bucket is freed, and the block of its descriptor is cleared.
abbrev bucket_freed : Run Pool
bucket_freed = mp_malloc 9 pool 1000 none zeroed (some 9984) >>= λ (pool', p). mp_free 9 pool' 9984

freed_bucket : (bucket_freed >>= λ p. ok p.freed) ≡ ok (9984 ∷ [])
unfolding mp_malloc malloc_a_piece mp_free
freed_bucket = refl

cleared_block : (bucket_freed >>= λ p. ok p.blocks) ≡ ok (first ∷ [])
unfolding mp_malloc malloc_a_piece mp_free
cleared_block = refl

destroyed :
    (mp_malloc 9 pool 1000 none zeroed (some 9984) >>= λ (pool', p). mp_destroy_pool 9 pool' 4096)
    ≡ ok (4096 ∷ 9984 ∷ [])
unfolding mp_malloc malloc_a_piece mp_destroy_pool
destroyed = refl

pool-AreBlocks : AreBlocks 128 (first ∷ [])
pool-AreBlocks = (
  record {
    given = ground arith;
    starts = omega arith;
    ends = omega arith;
    size = refl;
    top = omega arith;
  },
  tt,
  tt,
)

malloc_a_piece-IsPiece_example :
    Returns (malloc_a_piece pool 16 none) λ (pool', p). IsPieceOrNull pool 16 none pool' p
unfolding from
malloc_a_piece-IsPiece_example =
    malloc_a_piece-IsPiece pool 16 none pool-AreBlocks (omega arith) (ground arith) (omega arith)

-- The pool after its only block was given up.
abbrev given_up : Pool
given_up = record pool { current_block = 0; blocks = record first { failed_time = 4 } ∷ [] }

-- Four requests that posix_memalign fails lead there.
four_failures :
    (malloc_a_piece pool 128 none >>= λ (p1, r1). malloc_a_piece p1 128 none >>= λ (p2, r2).
    malloc_a_piece p2 128 none >>= λ (p3, r3). malloc_a_piece p3 128 none)
    ≡ ok (given_up, none)
unfolding malloc_a_piece
four_failures = refl

mp_malloc-overrun_example :
    Returns
      (mp_malloc 9 pool 128 (some 8192) zeroed none)
      λ (pool', r). (p : Addr) × (r ≡ some p) × ((new_block 128 8192).end_of_block < p + 128)
unfolding from rest_block_space
mp_malloc-overrun_example =
    mp_malloc-overrun 9 pool 128 8192 zeroed none pool-AreBlocks (ground arith) (omega arith)
      (omega arith, tt) (ground arith) (omega arith) (omega arith)

-- A pool with two buckets, the second of which holds no memory.
abbrev with_buckets : Pool
with_buckets = record pool {
  first_bucket = 4168;
  bucket = λ p.
      if p == 4168
      then some (record { next = 4200; still_in_use = true; start_of_bucket = 9984 })
      else if p == 4200
      then some zeroed
      else none;
}

mp_reset_pool-frees_example : Returns (mp_reset_pool 3 with_buckets) λ pool'.
    (pool'.freed ≡ with_memory with_buckets.bucket (4168 ∷ 4200 ∷ []) [])
    × (pool'.first_bucket ≡ 0)
    × Emptied with_buckets.blocks pool'.blocks
    × (pool'.current_block ≡ head_addr with_buckets.blocks)
mp_reset_pool-frees_example =
    mp_reset_pool-frees 3 with_buckets (4168 ∷ 4200 ∷ [])
      (
        refl,
        ground arith,
        (
          record { next = 4200; still_in_use = true; start_of_bucket = 9984 },
          refl,
          (refl, ground arith, (zeroed, refl, refl)),
        ),
      )
      ((ground arith, tt), (tt, tt)) (omega arith)
