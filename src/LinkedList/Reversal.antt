-- ===== src/LinkedList/Reversal.antt =====
-- 0_kmp_and_linkedlist/linkedTest.cpp: reverseList reverses the list of nodes.
use personal_c_cpp_back_end.Base.{
  ℕ, zero, suc, ◌<◌, ◌≡◌, refl, sym, ap, ◌∙◌, none, some, Option, List, [], ◌∷◌, Returns,
  Returns-mono, length, arith, ℕ_discrete,
}
use mathlib.Core.List.{reverse, reverse_aux}
use personal_c_cpp_back_end.LinkedList.{
  Ptr, null, LinkNode, Heap, update, reverse_from, reverse_list,
}
use personal_c_cpp_back_end.LinkedList.Chain.{
  Apart, Apart-nil, Apart-cons, Chain, Distinct, Chain-Distinct, Chain-update, update_self,
  update_other, not_null,
}

abbrev pub val_of : Option LinkNode → Option ℕ
val_of none = none
val_of (some n) = some n.val

abbrev pub val_at : Heap → Ptr → Option ℕ
val_at h p = val_of (h p)

-- A write of a node with the same value.
val_at-update :
    (h : Heap) (p : Ptr) (n : LinkNode) (r q : Ptr)
    → h p ≡ some n
    → val_at (update h p (some (record n { next = r }))) q ≡ val_at h q
val_at-update h p n r q e = elim (ℕ_discrete q p) [
  | yes same ↦
      rw same (ap val_of (update_self h p (some (record n { next = r }))) ∙ ap val_of (sym e))
  | no other ↦ ap val_of (update_other h p (some (record n { next = r })) q other)
]

reverse_from-Chain :
    (fuel : ℕ) (h : Heap) (prev current : Ptr) (done todo : List Ptr)
    → Chain h prev done
    → Chain h current todo
    → Distinct todo
    → Apart todo done
    → length todo < fuel
    → Returns
        (reverse_from fuel h prev current)
        λ (h', p'). Chain h' p' (reverse_aux todo done) × ((q : Ptr) → val_at h' q ≡ val_at h q)
unfolding reverse_from
reverse_from-Chain zero h prev current done todo d c distinct apart enough = absurd (omega arith)
reverse_from-Chain (suc fuel) h prev current done [] d c distinct apart enough = rw c (d, λ q. refl)
reverse_from-Chain (suc fuel) h prev current done (x ∷ xs) d (e, ne, n, eq, c) (out, distinct)
      (apart_x, apart) enough =
    let v = some (record n { next = prev }) in
    rw (e, not_null x ne, eq)
      (Returns-mono _ (reverse_from fuel (update h x v) x n.next)
        (reverse_from-Chain fuel (update h x v) x n.next (x ∷ done) xs
          (refl, ne, _, update_self h x v, Chain-update h prev x v done apart_x d)
          (Chain-update h n.next x v xs out c) distinct (Apart-cons x xs done out apart)
          (omega arith))
        λ (h', p') (r, vals). (r, λ q. vals q ∙ val_at-update h x n prev q eq))

-- For a list that ends, with one round more than it has nodes: the result has the nodes in reverse
-- order, and each node keeps its value.
pub reverse_list-reverse :
    (fuel : ℕ) (h : Heap) (p : Ptr) (ps : List Ptr)
    → Chain h p ps
    → length ps < fuel
    → Returns
        (reverse_list fuel h p)
        λ (h', p'). Chain h' p' (reverse ps) × ((q : Ptr) → val_at h' q ≡ val_at h q)
unfolding reverse_list
reverse_list-reverse fuel h p ps c enough =
    reverse_from-Chain fuel h null p [] ps refl c (Chain-Distinct h p ps c) (Apart-nil ps) enough
