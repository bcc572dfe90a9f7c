-- ===== src/MemPool/Calls.antt =====
-- 8_mem_pool/MemPool.c: the buckets and the functions that the user calls, on a pool that is not NULL.
-- The list of buckets goes through memory, so a walk along it has fuel.
use mathlib.Core.List.{reverse}
use personal_c_cpp_back_end.Base.{
  ℕ, zero, suc, ◌+◌, ◌-◌, Bool, true, false, Option, none, some, List, [], ◌∷◌, ◌++◌, map, Run, ok,
  fault, out_of_fuel, ◌>>=◌, deref, ◌&&◌, ◌^◌, ltb, leb, ◌==◌, if◌then◌else◌,
}
use personal_c_cpp_back_end.MemPool.{
  Addr, null, Block, Bucket, Pool, sizeof_block, sizeof_piece, sizeof_bucket, sizeof_pool,
  page_size, min_blk_size, increment, decrement, update, new_block, head_addr, before, from,
  malloc_a_piece,
}

-- A write to the block at `p`.
unfoldable pub set_block : Pool → Addr → (Block → Block) → Run Pool
set_block pool p f = elim (from p pool.blocks) [
  | [] ↦ fault
  | b ∷ bs ↦ ok (record pool { blocks = before p pool.blocks ++ f b ∷ bs })
]

-- A write to the bucket descriptor at `p`.
unfoldable pub set_bucket : Pool → Addr → (Bucket → Bucket) → Run Pool
set_bucket pool p f =
    deref (pool.bucket p) >>= λ b. ok (record pool { bucket = update pool.bucket p (some (f b)) })

-- piece->block of the piece in front of `p`
unfoldable pub block_of : Pool → Addr → Addr
block_of pool p = pool.piece_block (p - sizeof_piece)

-- The first loop of malloc_a_bucket: a descriptor without memory, or NULL and the last one.
unfoldable pub reusable_bucket : ℕ → Pool → (bucket prev : Addr) → Run (Addr × Addr)
reusable_bucket zero pool bucket prev = out_of_fuel
reusable_bucket (suc fuel) pool bucket prev =
    let look =
      (deref (pool.bucket bucket) >>= λ b.
      let rest = reusable_bucket fuel pool b.next bucket in
      if b.start_of_bucket == null then ok (bucket, bucket) else rest) in
    if bucket == null then ok (null, prev) else look

-- A new descriptor in a piece: `stale` is what the memory of the piece holds. `next` and
-- `start_of_bucket` are left as they are.
unfoldable pub new_bucket : Pool → Bucket → (bucket prev : Addr) → Run Pool
unfolding set_bucket
new_bucket pool stale bucket prev =
    let pool' = record pool {
      bucket = update pool.bucket bucket (some (record stale { still_in_use = false }));
    } in
    if prev == null
    then ok (record pool' { first_bucket = bucket })
    else set_bucket pool' prev (λ b. record b { next = bucket })

-- malloc_a_bucket from the choice of a descriptor on; `big` is what posix_memalign gives for `size`.
unfoldable pub fill_bucket : Pool → Addr → Option Addr → Run (Pool × Option Addr)
unfolding set_block set_bucket block_of
fill_bucket pool bucket none =
    set_block pool (block_of pool bucket) (λ b. record b { ref_counter = decrement b.ref_counter })
    >>= λ pool'. ok (pool', none)
fill_bucket pool bucket (some big) =
    set_bucket pool bucket (λ b. record b { start_of_bucket = big; still_in_use = true })
    >>= λ pool'. ok (pool', some big)

unfoldable pub malloc_a_bucket :
    (fuel : ℕ)
    → Pool
    → (fresh : Option Addr) → (stale : Bucket) → (big : Option Addr) → Run (Pool × Option Addr)
unfolding reusable_bucket new_bucket fill_bucket set_block block_of
malloc_a_bucket fuel pool fresh stale big = do
  (bucket, prev) ← reusable_bucket fuel pool pool.first_bucket pool.first_bucket
  let added =
      (malloc_a_piece pool sizeof_bucket fresh >>= λ (pool', piece). elim piece [
        | none ↦ ok (pool', none)
        | some p ↦ new_bucket pool' stale p prev >>= λ linked. fill_bucket linked p big
      ])
  let reused =
      (set_block pool (block_of pool bucket)
          (λ b. record b { ref_counter = increment b.ref_counter })
        >>= λ pool'. fill_bucket pool' bucket big)
  if bucket == null then added else reused

unfoldable pub mp_malloc :
    (fuel : ℕ)
    → Pool
    → (size : ℕ) → (fresh : Option Addr) → (stale : Bucket) → (big : Option Addr)
    → Run (Pool × Option Addr)
unfolding malloc_a_bucket
mp_malloc fuel pool size fresh stale big =
    if size == 0
    then ok (pool, none)
    else if leb size pool.block_size
    then malloc_a_piece pool size fresh
    else malloc_a_bucket fuel pool fresh stale big

-- mp_create_pool: `fresh` is what posix_memalign gives; the first block follows the pool.
unfoldable pub mp_create_pool : (size : ℕ) → (auto_clear : Bool) → Option Addr → Option Pool
unfolding new_block
mp_create_pool size auto_clear none = none
mp_create_pool size auto_clear (some fresh) =
    let block_size = if ltb size page_size then size else page_size in
    if ltb size min_blk_size
    then none
    else some (record {
      block_size = block_size;
      current_block = fresh + sizeof_pool;
      first_bucket = null;
      auto_clear = auto_clear;
      blocks = new_block block_size (fresh + sizeof_pool) ∷ [];
      piece_block = λ p. null;
      bucket = λ p. none;
      freed = [];
    })

-- find_bucket_with_addr from `bucket` on
unfoldable pub find_bucket : ℕ → Pool → (bucket addr : Addr) → Run Addr
find_bucket zero pool bucket addr = out_of_fuel
find_bucket (suc fuel) pool bucket addr =
    let look =
      (deref (pool.bucket bucket) >>= λ b.
      let rest = find_bucket fuel pool b.next addr in
      if b.start_of_bucket == addr then ok bucket else rest) in
    if bucket == null then ok null else look

-- free(bucket->start_of_bucket), unless it is NULL, and the field set to NULL.
unfoldable pub release : Pool → Addr → Run Pool
release pool bucket = deref (pool.bucket bucket) >>= λ b. ok (
    if b.start_of_bucket == null then pool else record pool {
      bucket = update pool.bucket bucket (some (record b { start_of_bucket = null }));
      freed = b.start_of_bucket ∷ pool.freed;
    })

-- The loop of clear_block.
unfoldable pub clear_buckets : ℕ → Pool → (block bucket prev : Addr) → Run Pool
unfolding release set_bucket block_of
clear_buckets zero pool block bucket prev = out_of_fuel
clear_buckets (suc fuel) pool block bucket prev =
    let next = (deref (pool.bucket bucket) >>= λ b. ok b.next) in
    let drop =
      (release pool bucket >>= λ pool'. next >>= λ n.
      if bucket == pool.first_bucket
      then clear_buckets fuel (record pool' { first_bucket = n }) block n n
      else (set_bucket pool' prev (λ b. record b { next = n }) >>= λ unlinked.
          clear_buckets fuel unlinked block n prev)) in
    let keep = (next >>= λ n. clear_buckets fuel pool block n bucket) in
    if bucket == null then ok pool else if block_of pool bucket == block then drop else keep

-- block->ref_counter = 0, failed_time = 0, and the rest is the whole block.
unfoldable pub empty_block : Block → Block
empty_block b = record b { ref_counter = 0; failed_time = 0; start_of_rest = b.self + sizeof_block }

-- An int is positive.
abbrev pub is_positive : ℕ → Bool
is_positive r = ltb 0 r && ltb r (2 ^ 31)

unfoldable pub clear_block : ℕ → Pool → Addr → Run Pool
unfolding clear_buckets set_block empty_block
clear_block fuel pool block = elim (from block pool.blocks) [
  | [] ↦ fault
  | b ∷ bs ↦
      (let cleared =
          (clear_buckets fuel pool block pool.first_bucket pool.first_bucket >>= λ pool'.
          set_block pool' block empty_block >>= λ emptied.
          ok (record emptied { current_block = head_addr emptied.blocks })) in
        if is_positive b.ref_counter then ok pool else cleared)
]

-- mp_free of an address that is not NULL.
unfoldable pub mp_free : ℕ → Pool → Addr → Run Pool
unfolding find_bucket release set_bucket set_block block_of clear_block
mp_free fuel pool addr = do
  bucket ← find_bucket fuel pool pool.first_bucket addr
  let in_bucket =
      (release pool bucket >>= λ pool'.
      set_bucket pool' bucket (λ b. record b { still_in_use = false }))
  pool' ← if bucket == null then ok pool else in_bucket
  let block = block_of pool (if bucket == null then addr else bucket)
  let counted =
      (set_block pool' block (λ b. record b { ref_counter = decrement b.ref_counter }) >>= λ less.
      if less.auto_clear then clear_block fuel less block else ok less)
  if block == null then ok pool' else counted

-- The first loop of mp_reset_pool.
unfoldable pub release_all : ℕ → Pool → Addr → Run Pool
unfolding release
release_all zero pool bucket = out_of_fuel
release_all (suc fuel) pool bucket =
    let one =
      (release pool bucket >>= λ pool'.
      deref (pool'.bucket bucket) >>= λ b. release_all fuel pool' b.next) in
    if bucket == null then ok pool else one

unfoldable pub mp_reset_pool : ℕ → Pool → Run Pool
unfolding release_all empty_block head_addr
mp_reset_pool fuel pool = release_all fuel pool pool.first_bucket >>= λ pool'. ok (record pool' {
  first_bucket = null;
  blocks = map empty_block pool'.blocks;
  current_block = head_addr pool'.blocks;
})

-- The addresses of the blocks behind the first one, and of the pool, that mp_destroy_pool frees, last
-- first, on top of what mp_reset_pool frees.
unfoldable pub mp_destroy_pool : ℕ → Pool → (self : Addr) → Run (List Addr)
unfolding mp_reset_pool
mp_destroy_pool fuel pool self = mp_reset_pool fuel pool >>= λ pool'. elim pool'.blocks [
  | [] ↦ fault
  | b ∷ bs ↦ ok (self ∷ reverse (map (λ c. c.self) bs) ++ pool'.freed)
]
