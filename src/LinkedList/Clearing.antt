-- ===== src/LinkedList/Clearing.antt =====
-- 0_kmp_and_linkedlist/linkedTest.cpp: what clearList frees.
use personal_c_cpp_back_end.Base.{
  ℕ, zero, suc, ◌+◌, ◌<◌, ◌≡◌, ◌≢◌, refl, sym, ◌∙◌, inl, inr, Bool-cases, none, some, List, [], ◌∷◌,
  ◌++◌, fault, Returns, Returns-mono, Returns-eq-ok, length, length-append, ◌==◌, arith,
}
use personal_c_cpp_back_end.LinkedList.{
  Ptr, null, LinkNode, Heap, update, clear_first, clear_second,
}
use personal_c_cpp_back_end.LinkedList.Lists.{MyLink, clear_list}
use personal_c_cpp_back_end.LinkedList.Chain.{
  Chain, NotIn, Distinct, Apart, Chain-Distinct, Chain-update, update_self, update_other, not_null,
}

-- No node of the list is left.
abbrev pub Freed : Heap → List Ptr → Type 0
Freed h [] = Unit {0}
Freed h (x ∷ xs) = (h x ≡ none) × Freed h xs

-- The first loop frees the nodes of a list that ends and leaves all others.
clear_first-Freed :
    (fuel : ℕ) (h : Heap) (p : Ptr) (ps : List Ptr)
    → Chain h p ps
    → Distinct ps
    → length ps < fuel
    → Returns (clear_first fuel h p) λ h'. Freed h' ps × ((q : Ptr) → NotIn q ps → h' q ≡ h q)
unfolding clear_first
clear_first-Freed zero h p ps c distinct enough = absurd (omega arith)
clear_first-Freed (suc fuel) h p [] c distinct enough = rw c (tt, λ q out. refl)
clear_first-Freed (suc fuel) h p (x ∷ xs) (e, ne, n, eq, c) (out, distinct) enough =
    let cut = update h x (some (record n { next = null })) in
    let h1 = update cut x none in
    let c1 = Chain-update cut n.next x none xs out (Chain-update h n.next x _ xs out c) in
    rw (e, not_null x ne, eq)
      (Returns-mono _ (clear_first fuel h1 n.next)
        (clear_first-Freed fuel h1 n.next xs c1 distinct (omega arith))
        λ h' (freed, others). (
          (others x out ∙ update_self cut x none, freed),
          λ q (other, out_q).
              others q out_q ∙ update_other cut x none q other ∙ update_other h x _ q other,
        ))

-- The nodes `qs` lead from `p` to `c`.
abbrev Leads : Heap → Ptr → List Ptr → Ptr → Type 0
Leads h p [] c = p ≡ c
Leads h p (x ∷ xs) c = (p ≡ x) × (x ≢ null) × (n : LinkNode) × (h x ≡ some n) × Leads h n.next xs c

Chain-Leads :
    (h : Heap) (p c : Ptr) (qs cs : List Ptr) → Chain h p (qs ++ (c ∷ cs)) → Leads h p qs c
Chain-Leads h p c [] cs d = d.0
Chain-Leads h p c (x ∷ xs) cs (e, ne, n, eq, d) = (e, ne, n, eq, Chain-Leads h n.next c xs cs d)

Leads-same :
    (h h' : Heap) (p c : Ptr) (qs ds : List Ptr)
    → Leads h p qs c
    → Apart qs ds
    → ((r : Ptr) → NotIn r ds → h' r ≡ h r)
    → Leads h' p qs c
Leads-same h h' p c [] ds d apart same = d
Leads-same h h' p c (x ∷ xs) ds (e, ne, n, eq, d) (out, apart) same =
    (e, ne, n, same x out ∙ eq, Leads-same h h' n.next c xs ds d apart same)

NotIn-append : (x : Ptr) (ps cs : List Ptr) → NotIn x ps → NotIn x cs → NotIn x (ps ++ cs)
NotIn-append x [] cs a b = b
NotIn-append x (y ∷ ys) cs (ne, a) b = (ne, NotIn-append x ys cs a b)

NotIn-parts : (x : Ptr) (ps cs : List Ptr) → NotIn x (ps ++ cs) → NotIn x ps × NotIn x cs
NotIn-parts x [] cs out = (tt, out)
NotIn-parts x (y ∷ ys) cs (ne, out) = let (a, b) = NotIn-parts x ys cs out in ((ne, a), b)

Apart-append : (qs ps cs : List Ptr) → Apart qs ps → Distinct (qs ++ cs) → Apart qs (ps ++ cs)
Apart-append [] ps cs a d = tt
Apart-append (x ∷ xs) ps cs (out, a) (here, d) =
    (NotIn-append x ps cs out (NotIn-parts x xs cs here).1, Apart-append xs ps cs a d)

Distinct-parts : (qs cs : List Ptr) → Distinct (qs ++ cs) → Distinct qs
Distinct-parts [] cs d = tt
Distinct-parts (x ∷ xs) cs (here, d) = ((NotIn-parts x xs cs here).0, Distinct-parts xs cs d)

-- The second loop stops at a node that was freed.
clear_second-fault :
    (fuel : ℕ) (h : Heap) (p c : Ptr) (qs : List Ptr)
    → Leads h p qs c
    → Distinct qs
    → c ≢ null
    → h c ≡ none
    → length qs < fuel
    → clear_second fuel h p ≡ fault
unfolding clear_second
clear_second-fault zero h p c qs d distinct ne gone enough = absurd (omega arith)
clear_second-fault (suc fuel) h p c [] d distinct ne gone enough = rw (d, not_null c ne, gone) refl
clear_second-fault (suc fuel) h p c (x ∷ xs) (e, nx, n, eq, d) (out, distinct) ne gone enough =
    rw (e, not_null x nx, eq)
      (clear_second-fault fuel (update h x none) n.next c xs
        (Leads-same h (update h x none) n.next c xs (x ∷ []) d (apart x xs out)
          (λ r o. update_other h x none r o.0))
        distinct ne still (omega arith))
  where
    apart : (y : Ptr) (ys : List Ptr) → NotIn y ys → Apart ys (y ∷ [])
    apart y [] o = tt
    apart y (z ∷ zs) (o, os) = (((λ same. o (sym same)), tt), apart y zs os)

    still : update h x none c ≡ none
    still = elim (Bool-cases (c == x)) [ inl same ↦ rw same refl | inr other ↦ rw other gone ]

-- Two lists that have the node `c` in common, and no node before it: the second loop uses `c` after the
-- first one freed it.
pub clear_list-crossed :
    (fuel : ℕ) (l : MyLink) (ps qs cs : List Ptr) (c : Ptr)
    → Chain l.heap l.head (ps ++ (c ∷ cs))
    → Chain l.heap l.head2 (qs ++ (c ∷ cs))
    → Apart qs ps
    → length ps + length cs + 1 < fuel
    → length qs < fuel
    → clear_list fuel l ≡ fault
unfolding clear_list
clear_list-crossed fuel l ps qs cs c d1 d2 apart enough1 enough2 =
    let whole = Chain-Distinct l.heap l.head2 (qs ++ (c ∷ cs)) d2 in
    let (h1, e, (freed, same)) = Returns-eq-ok _ (clear_first fuel l.heap l.head) (
      clear_first-Freed fuel l.heap l.head (ps ++ (c ∷ cs)) d1
        (Chain-Distinct l.heap l.head (ps ++ (c ∷ cs)) d1)
        (omega (arith, length-append ps (c ∷ cs)))) in
    let leads =
      Leads-same l.heap h1 l.head2 c qs (ps ++ (c ∷ cs)) (Chain-Leads l.heap l.head2 c qs cs d2)
        (Apart-append qs ps (c ∷ cs) apart whole) same in
    rw
      (
        e,
        clear_second-fault fuel h1 l.head2 c qs leads (Distinct-parts qs (c ∷ cs) whole)
            (shared l.heap l.head ps d1) (gone h1 ps freed) enough2,
      )
      refl
  where
    shared : (h : Heap) (p : Ptr) (xs : List Ptr) → Chain h p (xs ++ (c ∷ cs)) → c ≢ null
    shared h p [] d = d.1
    shared h p (x ∷ xs) (_, _, n, _, d) = shared h n.next xs d

    gone : (h : Heap) (xs : List Ptr) → Freed h (xs ++ (c ∷ cs)) → h c ≡ none
    gone h [] f = f.0
    gone h (x ∷ xs) f = gone h xs f.1
