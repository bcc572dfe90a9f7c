-- ===== src/BTree/Arrays.antt =====
-- 2_btree/btree.c: what the loops over the arrays of keys and children leave in them.
use personal_c_cpp_back_end.Base.{
  ℕ, zero, suc, ◌+◌, ◌≤◌, ◌<◌, ◌≡◌, refl, ◌∙◌, true, false, List, ok, Returns, Returns-mono, read,
  write, ltb, leb, length, get_or, set, length-set, get_or-set_self, get_or-set_ne, subst, arith,
  dec_le, ℕ_discrete,
}
use personal_c_cpp_back_end.BTree.{Ptr, open_gap, copy_up}

abbrev pub at : List ℕ → ℕ → ℕ
at xs i = get_or xs i 0

pub read-ok : (xs : List ℕ) (i : ℕ) → i < length xs → read xs i ≡ ok (at xs i)
read-ok xs i h = let test : ltb i (length xs) ≡ true = ground arith in rw test refl

pub write-ok : (xs : List ℕ) (i v : ℕ) → i < length xs → write xs i v ≡ ok (set xs i v)
write-ok xs i v h = let test : ltb i (length xs) ≡ true = ground arith in rw test refl

-- `ys` is `xs` with the part from the index `i` of `from` on copied to the `n` indices from `j` on.
pub record Copied (from xs ys : List ℕ) (n i j : ℕ) : Type 0 where
  pub same_length : length ys ≡ length xs
  pub copied : (m : ℕ) → m < n → at ys (j + m) ≡ at from (i + m)
  pub below : (m : ℕ) → m < j → at ys m ≡ at xs m
  pub above : (m : ℕ) → j + n ≤ m → at ys m ≡ at xs m

Copied-none : (from xs : List ℕ) (i j : ℕ) → Copied from xs xs 0 i j
Copied-none from xs i j = record {
  same_length = refl;
  copied = λ m h. elim h [ ];
  below = λ m h. refl;
  above = λ m h. refl;
}

Copied-cons_at :
    (from xs ys : List ℕ) (n i j : ℕ)
    → j < length xs
    → Copied from (set xs j (at from i)) ys n (i + 1) (j + 1)
    → (m : ℕ) → m < suc n
    → at ys (j + m) ≡ at from (i + m)
Copied-cons_at from xs ys n i j room c zero h =
    let e : j + 0 ≡ j = omega arith in
    let e' : i + 0 ≡ i = omega arith in
    rw (e, e') (c.below j (omega arith) ∙ get_or-set_self xs j (at from i) 0 room)
Copied-cons_at from xs ys n i j room c (suc m) h =
    let e : j + suc m ≡ j + 1 + m = omega arith in
    let e' : i + suc m ≡ i + 1 + m = omega arith in rw (e, e') (c.copied m (omega arith))

Copied-cons :
    (from xs ys : List ℕ) (n i j : ℕ)
    → j < length xs
    → Copied from (set xs j (at from i)) ys n (i + 1) (j + 1)
    → Copied from xs ys (suc n) i j
Copied-cons from xs ys n i j room c = record {
  same_length = c.same_length ∙ length-set xs j (at from i);
  copied = Copied-cons_at from xs ys n i j room c;
  below = λ m h. c.below m (omega arith) ∙ get_or-set_ne xs j m (at from i) 0 (omega arith);
  above = λ m h. c.above m (omega arith) ∙ get_or-set_ne xs j m (at from i) 0 (omega arith);
}

-- The copy loop, when all indices are in range.
pub copy_up-Copied :
    (rounds i j : ℕ) (from_keys : List ℕ) (from_children : List Ptr) (keys : List ℕ)
    (children : List Ptr)
    → i + rounds ≤ length from_keys
    → i + rounds < length from_children
    → j + rounds ≤ length keys
    → j + rounds < length children
    → Returns (copy_up rounds i j from_keys from_children keys children) λ (keys', children').
      Copied from_keys keys keys' rounds i j
      × Copied from_children children children' (suc rounds) i j
unfolding copy_up
copy_up-Copied zero i j fk fc keys children a b c d =
    rw (read-ok fc i (omega arith), write-ok children j (at fc i) (omega arith))
      (
        Copied-none fk keys i j,
        Copied-cons fc children _ 0 i j (omega arith) (Copied-none fc _ (i + 1) (j + 1)),
      )
copy_up-Copied (suc rounds) i j fk fc keys children a b c d =
    rw
      (
        read-ok fk i (omega arith),
        write-ok keys j (at fk i) (omega arith),
        read-ok fc i (omega arith),
        write-ok children j (at fc i) (omega arith),
      )
      (Returns-mono _
        (copy_up rounds (i + 1) (j + 1) fk fc (set keys j (at fk i)) (set children j (at fc i)))
        (copy_up-Copied rounds (i + 1) (j + 1) fk fc (set keys j (at fk i))
          (set children j (at fc i)) (omega arith) (omega arith)
          (omega (arith, length-set keys j (at fk i)))
          (omega (arith, length-set children j (at fc i))))
        λ (ks, cs) (hk, hc). (
          Copied-cons fk keys ks rounds i j (omega arith) hk,
          Copied-cons fc children cs (suc rounds) i j (omega arith) hc,
        ))

-- `ys` is `xs` with the entries from `n` to `i` moved one place up.
pub record Opened (xs ys : List ℕ) (n i : ℕ) : Type 0 where
  pub same_length : length ys ≡ length xs
  pub below : (m : ℕ) → m < n → at ys m ≡ at xs m
  pub moved : (m : ℕ) → n ≤ m → m < i → at ys (m + 1) ≡ at xs m
  pub above : (m : ℕ) → i < m → at ys m ≡ at xs m

Opened-none : (xs : List ℕ) (n : ℕ) → Opened xs xs n n
Opened-none xs n = record {
  same_length = refl;
  below = λ m h. refl;
  moved = λ m h k. absurd (omega (arith, h, k));
  above = λ m h. refl;
}

pub Opened-step :
    (xs ys : List ℕ) (n i : ℕ)
    → n ≤ i
    → i + 1 < length xs
    → Opened (set xs (i + 1) (at xs i)) ys n i
    → Opened xs ys n (suc i)
Opened-step xs ys n i le room o = record {
  same_length = o.same_length ∙ length-set xs (i + 1) (at xs i);
  below = λ m h. o.below m h ∙ get_or-set_ne xs (i + 1) m (at xs i) 0 (omega (arith, h, le));
  moved = λ m h k. elim (ℕ_discrete m i) [
    | yes e ↦ rw e (o.above (i + 1) (omega arith) ∙ get_or-set_self xs (i + 1) (at xs i) 0 room)
    | no ne ↦
        o.moved m h (omega (arith, k, ne))
        ∙ get_or-set_ne xs (i + 1) m (at xs i) 0 (omega (arith, k))
  ];
  above = λ m h.
      o.above m (omega (arith, h)) ∙ get_or-set_ne xs (i + 1) m (at xs i) 0 (omega (arith, h));
}

-- The loop that opens a gap at the index `n`, when all indices are in range.
pub open_gap-Opened :
    (i n : ℕ) (keys : List ℕ) (children : List Ptr)
    → n ≤ i
    → i < length keys
    → i + 1 < length children
    → Returns (open_gap i n keys children) λ (keys', children', gap).
      (gap ≡ n) × Opened keys keys' n i × Opened children children' (n + 1) (i + 1)
unfolding open_gap
open_gap-Opened zero n keys children le a b =
    let e : n ≡ 0 = omega arith in rw e (refl, Opened-none keys 0, Opened-none children 1)
open_gap-Opened (suc i) n keys children le a b = elim (dec_le n i) [
  | yes more ↦
      let test : leb n i ≡ true = ground arith in
      let ks = set keys (i + 1) (at keys i) in
      let cs = set children (i + 2) (at children (i + 1)) in
      rw
        (
          test,
          read-ok keys i (omega arith),
          write-ok keys (i + 1) (at keys i) (omega arith),
          read-ok children (i + 1) (omega arith),
          write-ok children (i + 2) (at children (i + 1)) (omega arith),
        )
        (Returns-mono _ (open_gap i n ks cs)
          (open_gap-Opened i n ks cs more (omega (arith, length-set keys (i + 1) (at keys i)))
            (omega (arith, length-set children (i + 2) (at children (i + 1)))))
          λ (ks', cs', gap) (e, hk, hc).
            let e2 : suc i + 1 ≡ suc (i + 1) = omega arith in
            let e3 : i + 2 ≡ i + 1 + 1 = omega arith in
            let hc' =
              subst (λ k. Opened (set children k (at children (i + 1))) cs' (n + 1) (i + 1)) e3
                hc in
            (
              e,
              Opened-step keys ks' n i more (omega arith) hk,
              rw e2 (Opened-step children cs' (n + 1) (i + 1) (omega arith) (omega arith) hc'),
            ))
  | no stop ↦
      let test : leb n i ≡ false = ground arith in
      let e : n ≡ suc i = omega (arith, stop, le) in
      rw (test, e) (refl, Opened-none keys (suc i), Opened-none children (suc i + 1))
]
