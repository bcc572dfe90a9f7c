-- ===== src/MemPool/Piece.antt =====
-- 8_mem_pool/MemPool.c: malloc_a_piece gives memory that was free, that lies in one block, and that is
-- not free afterwards.
use personal_c_cpp_back_end.Base.{
  ℕ, ◌+◌, ◌≤◌, ◌≡◌, ◌≢◌, refl, sym, ◌⊎◌, inl, inr, true, false, Option, none, some, List, [], ◌∷◌,
  ◌++◌, append_assoc, ◌==◌, Option-cases, Returns, arith, subst,
}
use personal_c_cpp_back_end.MemPool.{
  update, Addr, null, Block, Pool, sizeof_piece, new_block, cut, before, from, walk, cut_last,
  malloc_a_block, give, malloc_a_piece,
}
use personal_c_cpp_back_end.MemPool.Walks.{
  walk-Cuts, walk-grown-Cuts, walk-current, before-from, cut_last-append, AreBlocks-before,
  AreBlocks-behind, EndsOpen, from-AreBlocks,
}
use personal_c_cpp_back_end.MemPool.Cuts.{AreBlocks, Cuts, Cuts-append}

-- The memory from which a piece can be cut: that of the blocks, or that of one more block.
abbrev pub Available : Pool → Option Addr → List Block → Type 0
Available pool fresh bs =
    (bs ≡ pool.blocks)
    ⊎ ((p : Addr) × (fresh ≡ some p) × (bs ≡ pool.blocks ++ new_block pool.block_size p ∷ []))

-- The piece at `p` was cut from `b`, of the memory that was available, and its header names `b`.
pub record IsPiece (pool pool' : Pool) (size : ℕ) (fresh : Option Addr) (p : Addr) : Type 0 where
  pub from_blocks : List Block
  pub block : Block
  pub available : Available pool fresh from_blocks
  pub cuts : Cuts pool.block_size (size + sizeof_piece) from_blocks pool'.blocks block
  pub starts : p ≡ block.start_of_rest + sizeof_piece
  pub header : pool'.piece_block block.start_of_rest ≡ block.self

-- The blocks are sound, and so is the one that posix_memalign may give.
abbrev pub AreSound : Pool → Option Addr → Type 0
AreSound pool none = AreBlocks pool.block_size pool.blocks
AreSound pool (some p) = AreBlocks pool.block_size (pool.blocks ++ new_block pool.block_size p ∷ [])

AreSound-now :
    (pool : Pool) (fresh : Option Addr)
    → AreSound pool fresh
    → AreBlocks pool.block_size pool.blocks
AreSound-now pool none h = h
AreSound-now pool (some p) h = AreBlocks-before pool.block_size pool.blocks _ h

-- What malloc_a_piece returns is NULL, and then posix_memalign failed, or a piece.
abbrev pub IsPieceOrNull : Pool → ℕ → Option Addr → Pool → Option Addr → Type 0
IsPieceOrNull pool size fresh pool' none = fresh ≡ none
IsPieceOrNull pool size fresh pool' (some p) = IsPiece pool pool' size fresh p

before-from-AreBlocks :
    (n : ℕ) (p : Addr) (bs cs : List Block)
    → AreBlocks n (bs ++ cs)
    → AreBlocks n (before p bs ++ (from p bs ++ cs))
before-from-AreBlocks n p bs cs w =
    subst (λ xs. AreBlocks n xs) (append_assoc (before p bs) (from p bs) cs)
      (subst (λ xs. AreBlocks n (xs ++ cs)) (sym (before-from p bs)) w)

-- What the walk leaves of the blocks of a pool.
abbrev pub walked : Pool → ℕ → List Block
walked pool need =
    before pool.current_block pool.blocks
    ++ (walk need pool.current_block (from pool.current_block pool.blocks)).blocks

walked-Cuts :
    (pool : Pool) (need : ℕ) (b : Block)
    → AreBlocks pool.block_size pool.blocks
    → (walk need pool.current_block (from pool.current_block pool.blocks)).found ≡ some b
    → Cuts pool.block_size need pool.blocks (walked pool need) b
walked-Cuts pool need b w found =
    let n = pool.block_size in
    let back = before-from pool.current_block pool.blocks in
    let all = subst (λ xs. AreBlocks n xs) (sym back) w in
    let behind =
      AreBlocks-behind n (before pool.current_block pool.blocks)
        (from pool.current_block pool.blocks) all in
    subst (λ xs. Cuts n need xs (walked pool need) b) back
      (Cuts-append (before pool.current_block pool.blocks)
        (walk-Cuts n need pool.current_block _ b behind found) all)

grown-Cuts :
    (pool : Pool) (need : ℕ) (b : Block)
    → AreBlocks pool.block_size (pool.blocks ++ b ∷ [])
    → b.start_of_rest + need ≤ b.end_of_block
    → (walk need pool.current_block (from pool.current_block pool.blocks)).found ≡ none
    → Cuts pool.block_size need
        (pool.blocks ++ b ∷ [])
        (cut_last need (walked pool need ++ b ∷ []))
        b
grown-Cuts pool need b w fits found =
    let n = pool.block_size in
    let front = before pool.current_block pool.blocks in
    let rest = from pool.current_block pool.blocks in
    let all = before-from-AreBlocks n pool.current_block pool.blocks (b ∷ []) w in
    let behind = AreBlocks-behind n front (rest ++ b ∷ []) all in
    let left = (walk need pool.current_block rest).blocks in
    let h =
      Cuts-append front (walk-grown-Cuts n need pool.current_block rest b behind fits found) all in
    let h1 =
      subst (λ xs. Cuts n need xs (front ++ (left ++ cut need b ∷ [])) b)
        (sym (append_assoc front rest (b ∷ []))) h in
    let h2 =
      subst (λ xs. Cuts n need (xs ++ b ∷ []) (front ++ (left ++ cut need b ∷ [])) b)
        (before-from pool.current_block pool.blocks) h1 in
    let h3 =
      subst (λ xs. Cuts n need (pool.blocks ++ b ∷ []) xs b)
        (sym (append_assoc front left (cut need b ∷ []))) h2 in
    subst (λ xs. Cuts n need (pool.blocks ++ b ∷ []) xs b)
      (sym (cut_last-append need (front ++ left) b)) h3

update_self : (f : Addr → Addr) (a v : Addr) → update f a v a ≡ v
update_self f a v = let same : (a == a) ≡ true = ground arith in rw same refl

new_block_room :
    (n : ℕ) (p : Addr) (need : ℕ)
    → need ≤ n
    → (new_block n p).start_of_rest + need ≤ (new_block n p).end_of_block
unfolding new_block
new_block_room n p need le = omega arith

-- On a pool whose blocks lie apart, hold no piece past their ends and are apart from the memory that
-- posix_memalign may give, whose current block is not NULL, and whose last block has not failed so
-- often that one more failure gives it up, a request that fits an empty block gets a piece of memory
-- that was free, lies in one block, and is not free afterwards, all else being left free and the pool
-- sound. It gets NULL only if posix_memalign fails.
pub malloc_a_piece-IsPiece :
    (pool : Pool) (size : ℕ) (fresh : Option Addr)
    → AreSound pool fresh
    → size + sizeof_piece ≤ pool.block_size
    → pool.current_block ≢ null
    → EndsOpen (from pool.current_block pool.blocks)
    → Returns (malloc_a_piece pool size fresh) λ (pool', p). IsPieceOrNull pool size fresh pool' p
unfolding malloc_a_piece malloc_a_block give
malloc_a_piece-IsPiece pool size fresh sound fits ne last =
    elim (Option-cases
      (walk (size + sizeof_piece) pool.current_block (from pool.current_block pool.blocks)).found) [
        | inr (b, found) ↦
            rw (found, malloc_a_piece)
              (record {
                from_blocks = pool.blocks;
                block = b;
                available = inl refl;
                cuts =
                    walked-Cuts pool (size + sizeof_piece) b (AreSound-now pool fresh sound) found;
                starts = refl;
                header = update_self pool.piece_block b.start_of_rest b.self;
              })
        | inl empty ↦ elim (Option-cases fresh) [
          | inl e ↦ rw (empty, e, malloc_a_piece, malloc_a_block) refl
          | inr (p, e) ↦
              let b = new_block pool.block_size p in
              let w = subst (AreSound pool) e sound in
              let all = AreSound-now pool fresh sound in
              let kept =
                walk-current pool.block_size (size + sizeof_piece) pool.current_block
                  (from pool.current_block pool.blocks) ne (from-AreBlocks pool all) last in
              let test : ((walk (size + sizeof_piece) pool.current_block
                      (from pool.current_block pool.blocks)).current
                    == null)
                  ≡ false =
                ground (arith, kept) in
              rw (empty, e, malloc_a_piece, malloc_a_block, test)
                (record {
                  from_blocks = pool.blocks ++ b ∷ [];
                  block = b;
                  available = inr (p, refl, refl);
                  cuts =
                      grown-Cuts pool (size + sizeof_piece) b w
                        (new_block_room pool.block_size p (size + sizeof_piece) fits) empty;
                  starts = refl;
                  header = update_self pool.piece_block b.start_of_rest b.self;
                })
        ]
      ]
