-- ===== src/LinkedList/Chain.antt =====
-- 0_kmp_and_linkedlist/linkedTest.cpp: lists that end, as the lists of their nodes.
use personal_c_cpp_back_end.Base.{
  ℕ, zero, suc, ◌+◌, ◌<◌, ◌≡◌, ◌≢◌, refl, sym, ap, ◌∙◌, true, false, some, Option, List, [], ◌∷◌,
  ok, ◌==◌, length, drop, get_or, arith,
}
use personal_c_cpp_back_end.LinkedList.{Ptr, null, LinkNode, Heap, update, count_from, get_nth_node}

-- The list at `p` has the nodes at `ps` and then ends.
abbrev pub Chain : Heap → Ptr → List Ptr → Type 0
Chain h p [] = p ≡ null
Chain h p (q ∷ qs) = (p ≡ q) × (q ≢ null) × (n : LinkNode) × (h q ≡ some n) × Chain h n.next qs

abbrev pub head_of : List Ptr → Ptr
head_of ps = get_or ps 0 null

pub Chain-head : (h : Heap) (p : Ptr) (ps : List Ptr) → Chain h p ps → p ≡ head_of ps
Chain-head h p [] c = c
Chain-head h p (q ∷ qs) c = c.0

pub update_self : (h : Heap) (p : Ptr) (v : Option LinkNode) → update h p v p ≡ v
update_self h p v = let same : (p == p) ≡ true = ground arith in rw same refl

pub update_other :
    (h : Heap) (p : Ptr) (v : Option LinkNode) (q : Ptr) → q ≢ p → update h p v q ≡ h q
update_other h p v q ne = let other : (q == p) ≡ false = ground (arith, ne) in rw other refl

pub not_null : (p : Ptr) → p ≢ null → (p == null) ≡ false
not_null p ne = ground (arith, ne)

-- The count of a list that ends, with `cnt` nodes counted before it.
pub count_from-Chain :
    (fuel cnt : ℕ) (h : Heap) (p : Ptr) (ps : List Ptr)
    → Chain h p ps
    → length ps < fuel
    → count_from fuel cnt h p ≡ ok (cnt + length ps)
unfolding count_from
count_from-Chain zero cnt h p ps c enough = absurd (omega arith)
count_from-Chain (suc fuel) cnt h p [] c enough =
    let e : cnt + 0 ≡ cnt = omega arith in rw (c, e) refl
count_from-Chain (suc fuel) cnt h p (q ∷ qs) (e, ne, n, eq, c) enough =
    let sum : cnt + suc (length qs) ≡ cnt + 1 + length qs = omega arith in
    rw (e, not_null q ne, eq, sum) (count_from-Chain fuel (cnt + 1) h n.next qs c (omega arith))

-- After as many steps as the list allows, the rest of the list.
pub get_nth_node-Chain :
    (h : Heap) (p : Ptr) (ps : List Ptr) (n : ℕ)
    → Chain h p ps
    → (q : Ptr) × (get_nth_node h p n ≡ ok q) × Chain h q (drop n ps)
unfolding get_nth_node
get_nth_node-Chain h p ps zero c = (p, refl, c)
get_nth_node-Chain h p [] (suc n) c = rw c (null, refl, refl)
get_nth_node-Chain h p (q ∷ qs) (suc n) (e, ne, m, eq, c) =
    rw (e, not_null q ne, eq) (get_nth_node-Chain h m.next qs n c)

-- A start has one list only.
pub Chain-unique : (h : Heap) (p : Ptr) (ps qs : List Ptr) → Chain h p ps → Chain h p qs → ps ≡ qs
Chain-unique h p [] [] c d = refl
Chain-unique h p [] (q ∷ qs) c (e, ne, _, _, _) = absurd (ne (sym e ∙ c))
Chain-unique h p (x ∷ xs) [] (e, ne, _, _, _) d = absurd (ne (sym e ∙ d))
Chain-unique h p (x ∷ xs) (y ∷ ys) (e, ne, n, eq, c) (e', ne', m, eq', d) =
    let same : x ≡ y = sym e ∙ e' in
    let nodes : n ≡ m = cc in let rest = Chain-unique h n.next xs ys c (rw nodes d) in cc

abbrev pub NotIn : Ptr → List Ptr → Type 0
NotIn q [] = Unit {0}
NotIn q (x ∷ xs) = (q ≢ x) × NotIn q xs

abbrev pub Distinct : List Ptr → Type 0
Distinct [] = Unit {0}
Distinct (x ∷ xs) = NotIn x xs × Distinct xs

-- No node of a shorter list is the start of a longer one.
pub Chain-NotIn :
    (h : Heap) (p q : Ptr) (ps qs : List Ptr)
    → Chain h p ps
    → Chain h q qs
    → length ps < length qs
    → NotIn q ps
Chain-NotIn h p q [] qs c d less = tt
Chain-NotIn h p q (x ∷ xs) qs (e, ne, n, eq, c) d less = (
  (λ same.
      let lists = Chain-unique h q (x ∷ xs) qs (same, ne, n, eq, c) d in
      absurd (omega (arith, less, ap length lists))),
  Chain-NotIn h n.next q xs qs c d (omega arith),
)

pub Chain-Distinct : (h : Heap) (p : Ptr) (ps : List Ptr) → Chain h p ps → Distinct ps
Chain-Distinct h p [] c = tt
Chain-Distinct h p (x ∷ xs) (e, ne, n, eq, c) = (
  Chain-NotIn h n.next x xs (x ∷ xs) c (refl, ne, n, eq, c) (omega arith),
  Chain-Distinct h n.next xs c,
)

-- A write to another node leaves a list as it is.
pub Chain-update :
    (h : Heap) (p q : Ptr) (v : Option LinkNode) (ps : List Ptr)
    → NotIn q ps
    → Chain h p ps
    → Chain (update h q v) p ps
Chain-update h p q v [] out c = c
Chain-update h p q v (x ∷ xs) (other, out) (e, ne, n, eq, c) =
    (e, ne, n, update_other h q v x (λ s. other (sym s)) ∙ eq, Chain-update h n.next q v xs out c)

-- The lists have no node in common.
abbrev pub Apart : List Ptr → List Ptr → Type 0
Apart [] ys = Unit {0}
Apart (x ∷ xs) ys = NotIn x ys × Apart xs ys

pub Apart-nil : (xs : List Ptr) → Apart xs []
Apart-nil [] = tt
Apart-nil (x ∷ xs) = (tt, Apart-nil xs)

pub Apart-cons : (c : Ptr) (xs ys : List Ptr) → NotIn c xs → Apart xs ys → Apart xs (c ∷ ys)
Apart-cons c [] ys out a = tt
Apart-cons c (x ∷ xs) ys (ne, out) (here, a) = ((λ e. ne (sym e), here), Apart-cons c xs ys out a)
