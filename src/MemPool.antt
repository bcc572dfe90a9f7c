-- ===== src/MemPool.antt =====
-- 8_mem_pool/MemPool.c: a pool of blocks from which pieces are cut, and buckets for requests that are
-- larger than a block. Addresses are numbers, and NULL is 0. The blocks stand in the order of their
-- links. What the code keeps inside the memory that it hands out is two functions of the address: the
-- header of a piece, which at first holds anything, and the descriptor of a bucket, where `none` is
-- memory that holds none.
pub mod Cuts
pub mod Walks
pub mod Piece
pub mod Calls
pub mod Reset
pub mod Faults
pub mod Tests
use personal_c_cpp_back_end.Base.{
  ℕ, zero, suc, ◌+◌, ◌-◌, ◌%◌, ◌^◌, Bool, true, false, ◌&&◌, Option, none, some, List, [], ◌∷◌,
  ◌++◌, map, Run, ok, fault, out_of_fuel, ◌>>=◌, ltb, leb, ◌==◌, if◌then◌else◌,
}

abbrev pub Addr : Type 0
Addr = ℕ

abbrev pub null : Addr
null = 0

-- struct _MP_BLOCK at address `self`. `ref_counter` is the bit pattern of an int.
pub record Block : Type 0 where
  pub self : Addr
  pub start_of_rest : Addr
  pub end_of_block : Addr
  pub failed_time : ℕ
  pub ref_counter : ℕ

-- struct _MP_BUCKET
pub record Bucket : Type 0 where
  pub next : Addr
  pub still_in_use : Bool
  pub start_of_bucket : Addr

-- struct _MP_POOL, the memory behind it, and the addresses that were given to free, last first.
pub record Pool : Type 0 where
  pub block_size : ℕ
  pub current_block : Addr
  pub first_bucket : Addr
  pub auto_clear : Bool
  pub blocks : List Block
  pub piece_block : Addr → Addr
  pub bucket : Addr → Option Bucket
  pub freed : List Addr

-- The sizes of the structs on a 64-bit machine.
abbrev pub sizeof_block : ℕ
sizeof_block = 32

abbrev pub sizeof_piece : ℕ
sizeof_piece = 8

abbrev pub sizeof_bucket : ℕ
sizeof_bucket = 24

abbrev pub sizeof_pool : ℕ
sizeof_pool = 32

abbrev pub max_block_fail_time : ℕ
max_block_fail_time = 4

abbrev pub page_size : ℕ
page_size = 4096

abbrev pub min_blk_size : ℕ
min_blk_size = 128

abbrev pub int_mod : ℕ
int_mod = 2 ^ 32

abbrev pub size_mod : ℕ
size_mod = 2 ^ 64

abbrev pub increment : ℕ → ℕ
increment r = (r + 1) % int_mod

abbrev pub decrement : ℕ → ℕ
decrement r = (r + int_mod - 1) % int_mod

abbrev pub update {ℓ} : {A : Type ℓ} → (Addr → A) → Addr → A → Addr → A
update f p v q = if q == p then v else f q

-- init_a_new_block
unfoldable pub new_block : ℕ → Addr → Block
new_block block_size self = record {
  self = self;
  start_of_rest = self + sizeof_block;
  end_of_block = self + sizeof_block + block_size;
  failed_time = 0;
  ref_counter = 0;
}

-- rest_block_space: the difference is a size_t.
unfoldable pub rest_block_space : Block → ℕ
rest_block_space b = (b.end_of_block + size_mod - b.start_of_rest) % size_mod

-- The address of the first block of a rest of the list: `block->next`.
unfoldable pub head_addr : List Block → Addr
head_addr [] = null
head_addr (b ∷ bs) = b.self

-- The blocks before `p`, and those from `p` on.
unfoldable pub before : Addr → List Block → List Block
before p [] = []
before p (b ∷ bs) = if b.self == p then [] else b ∷ before p bs

unfoldable pub from : Addr → List Block → List Block
from p [] = []
from p (b ∷ bs) = if b.self == p then b ∷ bs else from p bs

-- block->start_of_rest += real_piece_size; block->ref_counter++;
unfoldable pub cut : ℕ → Block → Block
cut need b = record b {
  start_of_rest = b.start_of_rest + need;
  ref_counter = increment b.ref_counter;
}

-- What the walk of malloc_a_piece leaves: the blocks, the current block, and the block from which it
-- cut a piece, as it was before.
pub record Walk : Type 0 where
  pub blocks : List Block
  pub current : Addr
  pub found : Option Block

unfoldable pub walk_cons : Block → Walk → Walk
walk_cons b w = record w { blocks = b ∷ w.blocks }

-- The while loop of malloc_a_piece.
unfoldable pub walk : ℕ → Addr → List Block → Walk
unfolding rest_block_space cut walk_cons head_addr
walk need current [] = record { blocks = []; current = current; found = none }
walk need current (b ∷ bs) =
    let failed = b.failed_time + 1 in
    let current' = if leb max_block_fail_time failed then head_addr bs else current in
    let rest = walk need current' bs in
    if leb need (rest_block_space b)
    then record { blocks = cut need b ∷ bs; current = current; found = some b }
    else walk_cons (record b { failed_time = failed }) rest

-- malloc_a_block: `fresh` is what posix_memalign gives. The new block is linked behind the last one,
-- which is looked for from the current block on.
unfoldable pub malloc_a_block : Pool → Option Addr → Run (Pool × Option Block)
unfolding new_block
malloc_a_block pool none = ok (pool, none)
malloc_a_block pool (some fresh) =
    if pool.current_block == null
    then fault
    else ok (
      record pool { blocks = pool.blocks ++ new_block pool.block_size fresh ∷ [] },
      some (new_block pool.block_size fresh),
    )

-- The piece at the start of the rest of `b`: its header is set, and the address behind it returned.
unfoldable pub give : Pool → Block → Pool × Addr
give pool b = (
  record pool { piece_block = update pool.piece_block b.start_of_rest b.self },
  b.start_of_rest + sizeof_piece,
)

-- The last block of the list, which is new, is cut without a test.
unfoldable pub cut_last : ℕ → List Block → List Block
unfolding cut
cut_last need [] = []
cut_last need (b ∷ []) = cut need b ∷ []
cut_last need (b ∷ c ∷ bs) = b ∷ cut_last need (c ∷ bs)

-- `none` is NULL.
unfoldable pub malloc_a_piece : Pool → ℕ → Option Addr → Run (Pool × Option Addr)
unfolding walk malloc_a_block give cut_last before from
malloc_a_piece pool size fresh =
    let need = size + sizeof_piece in
    let w = walk need pool.current_block (from pool.current_block pool.blocks) in
    let pool' = record pool {
      blocks = before pool.current_block pool.blocks ++ w.blocks;
      current_block = w.current;
    } in
    elim w.found [
      | some b ↦ (let (pool'', p) = give pool' b in ok (pool'', some p))
      | none ↦ malloc_a_block pool' fresh >>= λ (grown, made). elim made [
        | none ↦ ok (grown, none)
        | some b ↦
            (let (pool'', p) = give (record grown { blocks = cut_last need grown.blocks }) b in
              ok (pool'', some p))
      ]
    ]
