-- ===== src/BTree/Leaf.antt =====
-- 2_btree/btree.c: insertion into a leaf that is not full.
use personal_c_cpp_back_end.Base.{
  ℕ, zero, suc, ◌+◌, ◌-◌, ◌≤◌, ◌<◌, ◌≡◌, refl, sym, ap, ◌∙◌, true, false, some, List, Returns,
  Returns-mono, Returns-bind, ltb, length, set, length-set, get_or-set_self, get_or-set_ne, arith,
  dec_lt, ℕ_discrete, subst,
}
use personal_c_cpp_back_end.BTree.{Ptr, Node, Tree, put}
use personal_c_cpp_back_end.BTree.Arrays.{at, read-ok, write-ok, Opened-step}
use personal_c_cpp_back_end.BTree.Insert.{insert_key, insert_notfull}

-- The first `n` entries do not fall.
abbrev pub IsSorted : List ℕ → ℕ → Type 0
IsSorted xs n = (m : ℕ) → m + 1 < n → at xs m ≤ at xs (m + 1)

-- `ys` is `xs` with `key` at the index `j`, and the entries from `j` to `i` one place up; `j` is behind
-- a key that is not greater, and all keys that moved are greater.
pub record Inserted (key : ℕ) (xs ys : List ℕ) (i : ℕ) : Type 0 where
  pub index : ℕ
  pub index_le : index ≤ i
  pub same_length : length ys ≡ length xs
  pub placed : at ys index ≡ key
  pub below : (m : ℕ) → m < index → at ys m ≡ at xs m
  pub moved : (m : ℕ) → index ≤ m → m < i → (at ys (m + 1) ≡ at xs m) × (key < at xs m)
  pub above : (m : ℕ) → i < m → at ys m ≡ at xs m
  pub behind : (m : ℕ) → m + 1 ≡ index → at xs m ≤ key

Inserted-here :
    (key : ℕ) (xs : List ℕ) (i : ℕ)
    → i < length xs
    → ((m : ℕ) → m + 1 ≡ i → at xs m ≤ key)
    → Inserted key xs (set xs i key) i
Inserted-here key xs i room behind = record {
  index = i;
  index_le = omega arith;
  same_length = length-set xs i key;
  placed = get_or-set_self xs i key 0 room;
  below = λ m h. get_or-set_ne xs i m key 0 (omega arith);
  moved = λ m h k. absurd (omega (arith, h, k));
  above = λ m h. get_or-set_ne xs i m key 0 (omega arith);
  behind = behind;
}

Inserted-step_greater :
    (key : ℕ) (xs ys : List ℕ) (i : ℕ) (o : Inserted key (set xs (i + 1) (at xs i)) ys i)
    → key < at xs i
    → (m : ℕ) → o.index ≤ m
    → m < suc i
    → key < at xs m
Inserted-step_greater key xs ys i o lt m h k = elim (ℕ_discrete m i) [
  | yes e ↦ rw e lt
  | no ne ↦
      let greater = (o.moved m h (omega (arith, k, ne))).1 in
      omega (arith, greater, get_or-set_ne xs (i + 1) m (at xs i) 0 (omega (arith, k)))
]

Inserted-step :
    (key : ℕ) (xs ys : List ℕ) (i : ℕ)
    → i + 1 < length xs
    → key < at xs i
    → Inserted key (set xs (i + 1) (at xs i)) ys i
    → Inserted key xs ys (suc i)
Inserted-step key xs ys i room lt o =
    let opened = Opened-step xs ys o.index i o.index_le room (record {
      same_length = o.same_length;
      below = o.below;
      moved = λ m h k. (o.moved m h k).0;
      above = o.above;
    }) in
    record {
      index = o.index;
      index_le = omega (arith, o.index_le);
      same_length = opened.same_length;
      placed = o.placed;
      below = opened.below;
      moved = λ m h k. (opened.moved m h k, Inserted-step_greater key xs ys i o lt m h k);
      above = opened.above;
      behind = λ m e. omega (
        arith,
        o.behind m e,
        o.index_le,
        get_or-set_ne xs (i + 1) m (at xs i) 0 (omega (arith, e, o.index_le)),
      );
    }

-- The keys before `i` are given, and there is room for one more.
pub insert_key-Inserted :
    (i key : ℕ) (keys : List ℕ)
    → i < length keys
    → Returns (insert_key i key keys) λ keys'. Inserted key keys keys' i
unfolding insert_key
insert_key-Inserted zero key keys room =
    rw (write-ok keys 0 key room) (Inserted-here key keys 0 room (λ m e. absurd (omega (arith, e))))
insert_key-Inserted (suc i) key keys room = elim (dec_lt key (at keys i)) [
  | yes lt ↦
      let test : ltb key (at keys i) ≡ true = ground arith in
      let keys' = set keys (i + 1) (at keys i) in
      rw (read-ok keys i (omega arith), test, write-ok keys (i + 1) (at keys i) (omega arith))
        (Returns-mono _ (insert_key i key keys')
          (insert_key-Inserted i key keys' (omega (arith, length-set keys (i + 1) (at keys i))))
          λ ys o. Inserted-step key keys ys i (omega arith) lt o)
  | no ge ↦
      let next : suc i ≡ i + 1 = omega arith in
      let test : ltb key (at keys i) ≡ false = ground arith in
      rw (read-ok keys i (omega arith), test, write-ok keys (i + 1) key (omega arith))
        (subst (λ k. Inserted key keys (set keys k key) (suc i)) next
          (Inserted-here key keys (suc i) room
            λ m e. let same : m ≡ i = omega (arith, e) in rw same (omega (arith, ge))))
]

-- Sorted keys stay sorted.
Inserted-IsSorted :
    (key : ℕ) (xs ys : List ℕ) (i : ℕ) → Inserted key xs ys i → IsSorted xs i → IsSorted ys (i + 1)
Inserted-IsSorted key xs ys i o sorted m h = elim (dec_lt m o.index) [
  | yes before ↦ elim (ℕ_discrete (m + 1) o.index) [
    | yes e ↦
        let here = ap (at ys) e ∙ o.placed in omega (arith, o.below m before, here, o.behind m e)
    | no ne ↦ omega (
      arith,
      o.below m before,
      o.below (m + 1) (omega (arith, before, ne)),
      sorted m (omega (arith, before, ne, o.index_le)),
    )
  ]
  | no after ↦
      let (up, greater) = o.moved m (omega (arith, after)) (omega (arith, h)) in
      elim (ℕ_discrete o.index m) [
        | yes e ↦ let here = ap (at ys) (sym e) ∙ o.placed in omega (arith, here, up, greater)
        | no ne ↦
            let back : m - 1 + 1 ≡ m = omega (arith, after, ne) in
            let (up', greater') =
              o.moved (m - 1) (omega (arith, after, ne)) (omega (arith, h, after, ne)) in
            let order = sorted (m - 1) (omega (arith, h, after, ne)) in
            omega (arith, up, up', order, ap (at ys) back, ap (at xs) back)
      ]
]

-- In an array of keys that is not full and does not fall, the new array has one key more, does not
-- fall, and is the old one with the key put in; nothing else of the tree changes.
pub insert_notfull_leaf :
    (fuel : ℕ) (t : Tree) (p : Ptr) (n : Node) (key : ℕ)
    → t.node p ≡ some n
    → n.is_leaf ≡ true
    → n.key_num < length n.keys
    → IsSorted n.keys n.key_num
    → Returns (insert_notfull (suc fuel) t p key) λ t'.
      (keys : List ℕ) × (t' ≡ put t p (record n { keys = keys; key_num = n.key_num + 1 }))
      × Inserted key n.keys keys n.key_num
      × IsSorted keys (n.key_num + 1)
unfolding insert_notfull
insert_notfull_leaf fuel t p n key e leaf room sorted =
    rw (e, leaf)
      (Returns-bind _ (insert_key n.key_num key n.keys) _
        (insert_key-Inserted n.key_num key n.keys room)
        λ keys o. (keys, refl, o, Inserted-IsSorted key n.keys keys n.key_num o sorted))
