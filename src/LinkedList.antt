-- ===== src/LinkedList.antt =====
-- 0_kmp_and_linkedlist/linkedTest.cpp: singly linked lists of nodes at addresses. An address without a
-- node is free, and NULL is 0. Counts do not overflow; an int that is negative acts as 0.
pub mod Lists
pub mod Chain
pub mod Loops
pub mod Crossings
pub mod Reversal
pub mod Clearing
pub mod Tests
use personal_c_cpp_back_end.Base.{
  ℕ, zero, suc, ◌+◌, ◌-◌, ◌*◌, Bool, true, false, ◌||◌, Option, none, some, List, [], ◌∷◌, Run, ok,
  fault, out_of_fuel, ◌>>=◌, deref, ltb, ◌==◌, if◌then◌else◌,
}

abbrev pub Ptr : Type 0
Ptr = ℕ

abbrev pub null : Ptr
null = 0

-- struct LinkNode
pub record LinkNode : Type 0 where
  pub val : ℕ
  pub next : Ptr

abbrev pub Heap : Type 0
Heap = Ptr → Option LinkNode

abbrev pub update : Heap → Ptr → Option LinkNode → Heap
update h p v q = if q == p then v else h q

-- h = h->next
abbrev pub next_of : Heap → Ptr → Run Ptr
next_of h p = deref (h p) >>= λ n. ok n.next

-- `cnt` nodes are counted so far.
unfoldable pub count_from : (fuel cnt : ℕ) → Heap → Ptr → Run ℕ
count_from zero cnt h p = out_of_fuel
count_from (suc fuel) cnt h p =
    let rest = (next_of h p >>= λ q. count_from fuel (cnt + 1) h q) in
    if p == null then ok cnt else rest

unfoldable pub count_list_node_num : ℕ → Heap → Ptr → Run ℕ
unfolding count_from
count_list_node_num fuel h p = count_from fuel 0 h p

-- The rounds left are n - i.
unfoldable pub get_nth_node : Heap → Ptr → (rounds : ℕ) → Run Ptr
get_nth_node h p zero = ok p
get_nth_node h p (suc rounds) =
    let rest = (next_of h p >>= λ q. get_nth_node h q rounds) in if p == null then ok p else rest

-- The loop of isListLooped.
unfoldable pub race : ℕ → Heap → (slow fast : Ptr) → Run Bool
race zero h slow fast = out_of_fuel
race (suc fuel) h slow fast =
    let rest = do
      slow' ← next_of h slow
      one ← next_of h fast
      fast' ← if one == null then ok one else next_of h one
      race fuel h slow' fast'
    in if (slow == null) || (fast == null) then ok false else if slow == fast then ok true else rest

unfoldable pub is_list_looped : ℕ → Heap → Ptr → Run Bool
unfolding race
is_list_looped fuel h p =
    if p == null then ok false else (next_of h p >>= λ fast. race fuel h p fast)

-- The loop of isListCrossed.
unfoldable pub meet : ℕ → Heap → Ptr → Ptr → Run Ptr
meet zero h p q = out_of_fuel
meet (suc fuel) h p q =
    let rest = (next_of h p >>= λ p'. next_of h q >>= λ q'. meet fuel h p' q') in
    if (p == null) || (q == null) then ok null else if p == q then ok p else rest

unfoldable pub is_list_crossed : ℕ → Heap → Ptr → Ptr → Run Ptr
unfolding count_list_node_num get_nth_node meet
is_list_crossed fuel h h1 h2 = do
  node_num1 ← count_list_node_num fuel h h1
  node_num2 ← count_list_node_num fuel h h2
  if ltb node_num2 node_num1
      then (get_nth_node h h1 (node_num1 - node_num2) >>= λ p. meet fuel h p h2)
      else (get_nth_node h h2 (node_num2 - node_num1) >>= λ q. meet fuel h h1 q)

-- The loop of rfindNodeNo.
unfoldable pub trail : ℕ → Heap → (tail p : Ptr) → Run Ptr
trail zero h tail p = out_of_fuel
trail (suc fuel) h tail p = do
  tail' ← next_of h tail
  let rest = (next_of h p >>= λ p'. trail fuel h tail' p')
  if tail' == null then ok p else rest

unfoldable pub rfind_node_no : ℕ → Heap → Ptr → (k : ℕ) → Run Ptr
unfolding get_nth_node trail
rfind_node_no fuel h p zero = ok null
rfind_node_no fuel h p (suc k) =
    get_nth_node h p k >>= λ tail. if tail == null then ok null else trail fuel h tail p

-- The loop of reverseList, with the new list so far.
unfoldable pub reverse_from : ℕ → Heap → (prev current : Ptr) → Run (Heap × Ptr)
reverse_from zero h prev current = out_of_fuel
reverse_from (suc fuel) h prev current =
    let rest = do
      n ← deref (h current)
      reverse_from fuel (update h current (some (record n { next = prev }))) current n.next
    in if current == null then ok (h, prev) else rest

unfoldable pub reverse_list : ℕ → Heap → Ptr → Run (Heap × Ptr)
unfolding reverse_from
reverse_list fuel h p = reverse_from fuel h null p

-- The first loop of clearList.
unfoldable pub clear_first : ℕ → Heap → Ptr → Run Heap
clear_first zero h p = out_of_fuel
clear_first (suc fuel) h p =
    let rest = do
      n ← deref (h p)
      let cut = update h p (some (record n { next = null }))
      clear_first fuel (update cut p none) n.next
    in if p == null then ok h else rest

-- The second loop of clearList.
unfoldable pub clear_second : ℕ → Heap → Ptr → Run Heap
clear_second zero h p = out_of_fuel
clear_second (suc fuel) h p =
    let rest = (next_of h p >>= λ q. clear_second fuel (update h p none) q) in
    if p == null then ok h else rest
