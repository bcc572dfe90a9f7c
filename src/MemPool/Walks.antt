-- ===== src/MemPool/Walks.antt =====
-- 8_mem_pool/MemPool.c: what the loop of malloc_a_piece does to the blocks, and where it leaves off.
use mathlib.Core.Option.{some-injective, none-ne-some}
use personal_c_cpp_back_end.Base.{
  subst, if◌then◌else◌, ℕ, ◌+◌, ◌≤◌, ◌<◌, ◌≡◌, ◌≢◌, refl, sym, ap, inl, inr, true, false, none,
  some, List, [], ◌∷◌, ◌++◌, leb, ◌==◌, Bool-cases, arith, subst, dec_le,
}
use personal_c_cpp_back_end.MemPool.{
  Pool, Addr, null, Block, Pool, max_block_fail_time, cut, rest_block_space, head_addr, before,
  from, walk, walk_cons, cut_last,
}
use personal_c_cpp_back_end.MemPool.Cuts.{
  AreBlocks, Apart, Cuts, Cuts-here, Cuts-there, rest_block_space_lem,
}

-- The block that `walk` starts at when it goes on.
pub next_current : Block → List Block → Addr → Addr
unfolding head_addr
next_current c bs current =
    if leb max_block_fail_time (c.failed_time + 1) then head_addr bs else current

pub walk_nil :
    (need : ℕ) (current : Addr)
    → walk need current [] ≡ record { blocks = []; current = current; found = none }
unfolding walk
walk_nil need current = refl

pub walk_here :
    (need : ℕ) (current : Addr) (c : Block) (bs : List Block)
    → need ≤ rest_block_space c
    → walk need current (c ∷ bs)
      ≡ record { blocks = cut need c ∷ bs; current = current; found = some c }
unfolding walk
walk_here need current c bs le =
    let test : leb need (rest_block_space c) ≡ true = ground arith in rw test refl

pub walk_on :
    (need : ℕ) (current : Addr) (c : Block) (bs : List Block)
    → rest_block_space c < need
    → walk need current (c ∷ bs)
      ≡ walk_cons
          (record c { failed_time = c.failed_time + 1 })
          (walk need (next_current c bs current) bs)
unfolding walk next_current
walk_on need current c bs gt =
    let test : leb need (rest_block_space c) ≡ false = ground arith in rw test refl

-- The walk found a block, and cut it.
pub walk-Cuts :
    (n need : ℕ) (current : Addr) (bs : List Block) (b : Block)
    → AreBlocks n bs
    → (walk need current bs).found ≡ some b
    → Cuts n need bs (walk need current bs).blocks b
unfolding walk_cons
walk-Cuts n need current [] b w found =
    absurd (none-ne-some b (rw (walk_nil need current) at found))
walk-Cuts n need current (c ∷ bs) b w found = elim (dec_le need (rest_block_space c)) [
  | yes le ↦
      let here = walk_here need current c bs le in
      let same : c ≡ b = some-injective c b (rw here at found) in
      rw (here, sym same) (Cuts-here w (omega (arith, rest_block_space_lem w.0, le)))
  | no gt ↦
      let on = walk_on need current c bs (omega (arith, gt)) in
      rw on (
        Cuts-there (c.failed_time + 1)
          (walk-Cuts n need (next_current c bs current) bs b w.2 (rw on at found)) w.0 w.1)
]

-- The walk found no block, and a new one behind the others is cut.
pub walk-grown-Cuts :
    (n need : ℕ) (current : Addr) (bs : List Block) (b : Block)
    → AreBlocks n (bs ++ b ∷ [])
    → b.start_of_rest + need ≤ b.end_of_block
    → (walk need current bs).found ≡ none
    → Cuts n need (bs ++ b ∷ []) ((walk need current bs).blocks ++ cut need b ∷ []) b
unfolding walk_cons
walk-grown-Cuts n need current [] b w fits found = rw (walk_nil need current) (Cuts-here w fits)
walk-grown-Cuts n need current (c ∷ bs) b w fits found = elim (dec_le need (rest_block_space c)) [
  | yes le ↦ absurd (none-ne-some c (sym (rw (walk_here need current c bs le) at found)))
  | no gt ↦
      let on = walk_on need current c bs (omega (arith, gt)) in
      rw on (
        Cuts-there (c.failed_time + 1)
          (walk-grown-Cuts n need (next_current c bs current) bs b w.2 fits (rw on at found)) w.0
          w.1)
]

Apart-before : (b : Block) (bs cs : List Block) → Apart b (bs ++ cs) → Apart b bs
Apart-before b [] cs h = tt
Apart-before b (c ∷ bs) cs h = (h.0, Apart-before b bs cs h.1)

pub AreBlocks-before : (n : ℕ) (bs cs : List Block) → AreBlocks n (bs ++ cs) → AreBlocks n bs
AreBlocks-before n [] cs w = tt
AreBlocks-before n (b ∷ bs) cs w = (w.0, Apart-before b bs cs w.1, AreBlocks-before n bs cs w.2)

pub AreBlocks-behind : (n : ℕ) (bs cs : List Block) → AreBlocks n (bs ++ cs) → AreBlocks n cs
AreBlocks-behind n [] cs w = w
AreBlocks-behind n (b ∷ bs) cs w = AreBlocks-behind n bs cs w.2

pub before-from : (p : Addr) (bs : List Block) → before p bs ++ from p bs ≡ bs
unfolding before from
before-from p [] = refl
before-from p (b ∷ bs) = elim (Bool-cases (b.self == p)) [
  | inl e ↦ rw e refl
  | inr e ↦ rw e (ap (λ cs. b ∷ cs) (before-from p bs))
]

pub cut_last-append :
    (need : ℕ) (bs : List Block) (b : Block) → cut_last need (bs ++ b ∷ []) ≡ bs ++ cut need b ∷ []
unfolding cut_last
cut_last-append need [] b = refl
cut_last-append need (c ∷ []) b = refl
cut_last-append need (c ∷ d ∷ bs) b = ap (λ cs. c ∷ cs) (cut_last-append need (d ∷ bs) b)

-- The list ends in a block that may fail once more without being given up.
abbrev pub EndsOpen : List Block → Type 0
EndsOpen [] = ⊥
EndsOpen (b ∷ []) = b.failed_time + 1 < max_block_fail_time
EndsOpen (b ∷ c ∷ bs) = EndsOpen (c ∷ bs)

next_current_ne :
    (b c : Block) (bs : List Block) (current : Addr)
    → current ≢ null
    → c.self ≢ null
    → next_current b (c ∷ bs) current ≢ null
unfolding next_current head_addr
next_current_ne b c bs current ne given =
    elim (Bool-cases (leb max_block_fail_time (b.failed_time + 1))) [
      | inl e ↦ rw e given
      | inr e ↦ rw e ne
    ]

pub walk-current :
    (n need : ℕ) (current : Addr) (bs : List Block)
    → current ≢ null
    → AreBlocks n bs
    → EndsOpen bs
    → (walk need current bs).current ≢ null
unfolding walk walk_cons head_addr next_current
walk-current n need current [] ne w last = elim last [ ]
walk-current n need current (b ∷ []) ne w last = elim (dec_le need (rest_block_space b)) [
  | yes le ↦ rw (walk_here need current b [] le) ne
  | no gt ↦
      let stays : leb max_block_fail_time (b.failed_time + 1) ≡ false = ground arith in
      rw (walk_on need current b [] (omega (arith, gt)), stays) ne
]
walk-current n need current (b ∷ c ∷ bs) ne w last = elim (dec_le need (rest_block_space b)) [
  | yes le ↦ rw (walk_here need current b (c ∷ bs) le) ne
  | no gt ↦ rw (walk_on need current b (c ∷ bs) (omega (arith, gt))) (
      walk-current n need (next_current b (c ∷ bs) current) (c ∷ bs)
        (next_current_ne b c bs current ne w.2.0.given) w.2 last)
]

pub from-AreBlocks :
    (pool : Pool)
    → AreBlocks pool.block_size pool.blocks
    → AreBlocks pool.block_size (from pool.current_block pool.blocks)
from-AreBlocks pool w =
    AreBlocks-behind pool.block_size (before pool.current_block pool.blocks)
      (from pool.current_block pool.blocks)
      (subst (λ xs. AreBlocks pool.block_size xs) (sym (before-from pool.current_block pool.blocks))
        w)
