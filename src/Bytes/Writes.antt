-- ===== src/Bytes/Writes.antt =====
-- A row of writes into one buffer, and what is read from it afterwards.
use personal_c_cpp_back_end.Base.{
  ℕ, zero, suc, ◌+◌, ◌≤◌, ◌≡◌, refl, ◌∙◌, ◌⊎◌, inl, inr, List, [], ◌∷◌, Run, ok, ◌>>=◌, length,
  arith,
}
use personal_c_cpp_back_end.Bytes.{
  slice, splice, store, store-ok, length-splice, slice-splice_same, slice-splice_before,
  slice-splice_after,
}

abbrev pub Writes : Type 0
Writes = List (ℕ × List ℕ)

-- The first write of the list is made first.
abbrev pub written : Writes → List ℕ → List ℕ
written [] s = s
written ((o, bs) ∷ ws) s = written ws (splice o bs s)

abbrev pub store_all : Writes → List ℕ → Run (List ℕ)
store_all [] s = ok s
store_all ((o, bs) ∷ ws) s = store o bs s >>= λ s'. store_all ws s'

-- Every write lies in a buffer of `size` bytes.
abbrev pub AllWithin : ℕ → Writes → Type 0
AllWithin size [] = Unit {0}
AllWithin size ((o, bs) ∷ ws) = (o + length bs ≤ size) × AllWithin size ws

-- No write touches the `n` bytes from `p` on.
abbrev pub AllApart : ℕ → ℕ → Writes → Type 0
AllApart p n [] = Unit {0}
AllApart p n ((o, bs) ∷ ws) = ((p + n ≤ o) ⊎ (o + length bs ≤ p)) × AllApart p n ws

pub store_all-written :
    (ws : Writes) (s : List ℕ) (size : ℕ)
    → length s ≡ size
    → AllWithin size ws
    → store_all ws s ≡ ok (written ws s)
store_all-written [] s size e h = refl
store_all-written ((o, bs) ∷ ws) s size e h =
    let room : o + length bs ≤ length s = omega (arith, h.0) in
    rw (store-ok o bs s room)
      (store_all-written ws (splice o bs s) size (length-splice o bs s room ∙ e) h.1)

pub length-written :
    (ws : Writes) (s : List ℕ) (size : ℕ)
    → length s ≡ size
    → AllWithin size ws
    → length (written ws s) ≡ size
length-written [] s size e h = e
length-written ((o, bs) ∷ ws) s size e h =
    let room : o + length bs ≤ length s = omega (arith, h.0) in
    length-written ws (splice o bs s) size (length-splice o bs s room ∙ e) h.1

pub slice-written_apart :
    (ws : Writes) (s : List ℕ) (size p n : ℕ)
    → length s ≡ size
    → AllWithin size ws
    → AllApart p n ws
    → slice p n (written ws s) ≡ slice p n s
slice-written_apart [] s size p n e h apart = refl
slice-written_apart ((o, bs) ∷ ws) s size p n e h apart =
    let room : o + length bs ≤ length s = omega (arith, h.0) in
    slice-written_apart ws (splice o bs s) size p n (length-splice o bs s room ∙ e) h.1 apart.1
    ∙ elim apart.0 [
      | inl before ↦ slice-splice_before o bs s room p n before
      | inr after ↦ slice-splice_after o bs s room p n after
    ]

-- The bytes of a write are there until a later write touches them.
pub slice-written_same :
    (p n : ℕ) (bs : List ℕ) (ws : Writes) (s : List ℕ) (size : ℕ)
    → length bs ≡ n
    → length s ≡ size
    → p + n ≤ size
    → AllWithin size ws
    → AllApart p n ws
    → slice p n (written ((p, bs) ∷ ws) s) ≡ bs
slice-written_same p n bs ws s size width e room h apart =
    let room' : p + length bs ≤ length s = omega arith in
    slice-written_apart ws (splice p bs s) size p n (length-splice p bs s room' ∙ e) h apart
    ∙ rw (← width) (slice-splice_same p bs s room')

-- Write number `k` puts `bs` at `p`, and no later one touches the `n` bytes there.
abbrev pub Final : ℕ → ℕ → ℕ → List ℕ → Writes → Type 0
Final k p n bs [] = ⊥
Final zero p n bs ((o, b) ∷ ws) = (o ≡ p) × (b ≡ bs) × AllApart p n ws
Final (suc k) p n bs (w ∷ ws) = Final k p n bs ws

pub slice-written-Final :
    (k p n : ℕ) (bs : List ℕ) (ws : Writes) (s : List ℕ) (size : ℕ)
    → length bs ≡ n
    → length s ≡ size
    → AllWithin size ws
    → Final k p n bs ws
    → slice p n (written ws s) ≡ bs
slice-written-Final k p n bs [] s size width e h f = elim f [ ]
slice-written-Final zero p n bs ((o, b) ∷ ws) s size width e h (at, same, apart) =
    let room : p + n ≤ size = rw (← at, ← width, ← same) h.0 in
    rw (at, same) (slice-written_same p n bs ws s size width e room h.1 apart)
slice-written-Final (suc k) p n bs ((o, b) ∷ ws) s size width e h f =
    let room : o + length b ≤ length s = omega (arith, h.0) in
    slice-written-Final k p n bs ws (splice o b s) size width (length-splice o b s room ∙ e) h.1 f
