-- ===== src/MemPool/Cuts.antt =====
-- 8_mem_pool/MemPool.c: the memory that the blocks of a pool have left, and what a cut takes of it.
use personal_c_cpp_back_end.Base.{
  ℕ, ◌+◌, ◌≤◌, ◌<◌, ◌≡◌, ◌≢◌, ◌⊎◌, inl, inr, List, [], ◌∷◌, ◌++◌, arith,
}
use personal_c_cpp_back_end.MemPool.{
  Addr, null, Block, sizeof_block, size_mod, cut, rest_block_space,
}

-- A block for `n` bytes, whose rest lies in it.
pub record IsBlock (n : ℕ) (b : Block) : Type 0 where
  pub given : b.self ≢ null
  pub starts : b.self + sizeof_block ≤ b.start_of_rest
  pub ends : b.start_of_rest ≤ b.end_of_block
  pub size : b.end_of_block ≡ b.self + sizeof_block + n
  pub top : b.end_of_block < size_mod

-- The block shares no memory with any of the list.
abbrev pub Apart : Block → List Block → Type 0
Apart b [] = Unit
Apart b (c ∷ cs) = ((b.end_of_block ≤ c.self) ⊎ (c.end_of_block ≤ b.self)) × Apart b cs

abbrev pub AreBlocks : ℕ → List Block → Type 0
AreBlocks n [] = Unit
AreBlocks n (b ∷ bs) = IsBlock n b × Apart b bs × AreBlocks n bs

-- The byte at `a` is in the rest of a block.
abbrev pub IsFree : List Block → Addr → Type 0
IsFree [] a = ⊥
IsFree (b ∷ bs) a = ((b.start_of_rest ≤ a) × (a < b.end_of_block)) ⊎ IsFree bs a

-- The byte at `a` is not one of the `need` bytes from `start` on.
abbrev pub Outside : Addr → ℕ → Addr → Type 0
Outside start need a = (a < start) ⊎ (start + need ≤ a)

-- From `bs` to `bs'`, `need` bytes at the start of the rest of `b` were taken, and nothing else.
pub record Cuts (n need : ℕ) (bs bs' : List Block) (b : Block) : Type 0 where
  pub block : IsBlock n b
  pub fits : b.start_of_rest + need ≤ b.end_of_block
  pub was_free : (a : Addr) → b.start_of_rest ≤ a → a < b.start_of_rest + need → IsFree bs a
  pub taken : (a : Addr) → IsFree bs' a → IsFree bs a × Outside b.start_of_rest need a
  pub kept : (a : Addr) → IsFree bs a → Outside b.start_of_rest need a → IsFree bs' a
  pub blocks : AreBlocks n bs'
  pub apart : (c : Block) → Apart c bs → Apart c bs'
  pub beside : (c : Block) → Apart c bs → (c.end_of_block ≤ b.self) ⊎ (b.end_of_block ≤ c.self)

-- The size_t difference is the length of the rest.
pub rest_block_space_lem :
    {n : ℕ} {b : Block} → IsBlock n b → b.start_of_rest + rest_block_space b ≡ b.end_of_block
unfolding rest_block_space
rest_block_space_lem h = omega (arith, h.ends, h.top)

outside-Apart :
    (n : ℕ) (b : Block) (cs : List Block) (a : Addr)
    → Apart b cs
    → AreBlocks n cs
    → IsFree cs a
    → (a < b.self) ⊎ (b.end_of_block ≤ a)
outside-Apart n b [] a h w free = elim free [ ]
outside-Apart n b (c ∷ cs) a h w (inl here) = elim h.0 [
  | inl le ↦ inr (omega (arith, w.0.starts, here.0, le))
  | inr le ↦ inl (omega (arith, here.1, le))
]
outside-Apart n b (c ∷ cs) a h w (inr there) = outside-Apart n b cs a h.1 w.2 there

-- The first block of a list is cut.
pub Cuts-here :
    {n need : ℕ} {b : Block} {bs : List Block}
    → AreBlocks n (b ∷ bs)
    → b.start_of_rest + need ≤ b.end_of_block
    → Cuts n need (b ∷ bs) (cut need b ∷ bs) b
unfolding cut
Cuts-here {n} {need} {b} {bs} w fits = record {
  block = w.0;
  fits = fits;
  was_free = λ a lo hi. inl (lo, omega (arith, fits, hi));
  taken = λ a free. elim free [
    | inl here ↦ (inl (omega (arith, here.0), here.1), inr here.0)
    | inr there ↦ (
      inr there,
      elim (outside-Apart n b bs a w.1 w.2 there) [
        | inl lt ↦ inl (omega (arith, w.0.starts, lt))
        | inr le ↦ inr (omega (arith, fits, le))
      ],
    )
  ];
  kept = λ a free out. elim free [
    | inl here ↦ elim out [
      | inl lt ↦ absurd (omega (arith, here.0, lt))
      | inr le ↦ inl (le, here.1)
    ]
    | inr there ↦ inr there
  ];
  blocks = (
    record {
      given = w.0.given;
      starts = omega (arith, w.0.starts);
      ends = fits;
      size = w.0.size;
      top = w.0.top;
    },
    w.1,
    w.2,
  );
  apart = λ c h. h;
  beside = λ c h. h.0;
}

-- A block of the rest of the list is cut, and the first one counts a failure at most.
pub Cuts-there :
    {n need : ℕ} {b c : Block} {bs bs' : List Block} (failed : ℕ)
    → Cuts n need bs bs' b
    → IsBlock n c
    → Apart c bs
    → Cuts n need (c ∷ bs) (record c { failed_time = failed } ∷ bs') b
Cuts-there {n} {need} {b} {c} {bs} {bs'} failed h w ap = record {
  block = h.block;
  fits = h.fits;
  was_free = λ a lo hi. inr (h.was_free a lo hi);
  taken = λ a free. elim free [
    | inl here ↦ (
      inl here,
      elim (h.beside c ap) [
        | inl le ↦ inl (omega (arith, here.1, le, h.block.starts))
        | inr le ↦ inr (omega (arith, here.0, le, h.fits, w.starts))
      ],
    )
    | inr there ↦ (inr (h.taken a there).0, (h.taken a there).1)
  ];
  kept = λ a free out. elim free [ inl here ↦ inl here | inr there ↦ inr (h.kept a there out) ];
  blocks = (
    record { given = w.given; starts = w.starts; ends = w.ends; size = w.size; top = w.top },
    h.apart c ap,
    h.blocks,
  );
  apart = λ d k. (k.0, h.apart d k.1);
  beside = λ d k. h.beside d k.1;
}

pub Cuts-append :
    {n need : ℕ} {b : Block} (cs : List Block) {bs bs' : List Block}
    → Cuts n need bs bs' b
    → AreBlocks n (cs ++ bs)
    → Cuts n need (cs ++ bs) (cs ++ bs') b
Cuts-append [] h w = h
Cuts-append (c ∷ cs) h w = Cuts-there c.failed_time (Cuts-append cs h w.2) w.0 w.1
