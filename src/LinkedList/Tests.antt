-- ===== src/LinkedList/Tests.antt =====
-- 0_kmp_and_linkedlist/linkedTest.cpp: the lists that the constructor makes.
use personal_c_cpp_back_end.Base.{
  ℕ, ◌+◌, ◌≡◌, refl, true, false, Option, none, some, List, [], ◌∷◌, Run, ok, fault, ◌>>=◌, arith,
  zero, suc, ◌<◌, Returns,
}
use mathlib.Core.List.{reverse}
use personal_c_cpp_back_end.LinkedList.{
  Ptr, LinkNode, Heap, update, is_list_looped, is_list_crossed, reverse_list, rfind_node_no,
}
use personal_c_cpp_back_end.LinkedList.Lists.{
  Mode, simple_list, loop_list, cross_list, MyLink, my_link, set_head, clear_list,
}
use personal_c_cpp_back_end.LinkedList.Chain.{Chain}
use personal_c_cpp_back_end.LinkedList.Reversal.{val_at, reverse_list-reverse}
use personal_c_cpp_back_end.LinkedList.Crossings.{is_list_crossed-first}
use personal_c_cpp_back_end.LinkedList.Clearing.{clear_list-crossed}
use personal_c_cpp_back_end.LinkedList.Loops.{after, Alive, Lasso, loops, is_list_looped-decides}

abbrev addresses : List Ptr
addresses =
    11 ∷ 12 ∷ 13 ∷ 14 ∷ 15 ∷ 16 ∷ 17 ∷ 18 ∷ 19 ∷ 20 ∷ 21 ∷ 22 ∷ 23 ∷ 24 ∷ 25 ∷ 26 ∷ 27 ∷ 28 ∷ []

abbrev made : Mode → Run MyLink
made mode = my_link (λ p. none) addresses mode

simple_looped : (made simple_list >>= λ l. is_list_looped 20 l.heap l.head) ≡ ok false
unfolding my_link is_list_looped
simple_looped = refl

loop_looped : (made loop_list >>= λ l. is_list_looped 20 l.heap l.head) ≡ ok true
unfolding my_link is_list_looped
loop_looped = refl

crossed : (made cross_list >>= λ l. is_list_crossed 20 l.heap l.head l.head2) ≡ ok 15
unfolding my_link is_list_crossed
crossed = refl

fourth_from_end : (made simple_list >>= λ l. rfind_node_no 20 l.heap l.head 4) ≡ ok 17
unfolding my_link rfind_node_no
fourth_from_end = refl

-- ml.setHead(ml.reverseList(ml.getHead())), and then the fourth node from the end
reversed_fourth :
    (made simple_list >>= λ l. reverse_list 20 l.heap l.head >>= λ (h, p).
    let l1 = set_head (record l { heap = h }) p in rfind_node_no 20 l1.heap l1.head 4)
    ≡ ok 14
unfolding my_link reverse_list set_head rfind_node_no
reversed_fourth = refl

-- The destructor on a list with a loop and on lists that cross.
loop_cleared : (made loop_list >>= clear_list 20) ≡ fault
unfolding my_link clear_list
loop_cleared = refl

cross_cleared : (made cross_list >>= clear_list 20) ≡ fault
unfolding my_link clear_list
cross_cleared = refl

abbrev link : ℕ → Ptr → Option LinkNode
link val next = some (record { val = val; next = next })

-- 31, 32 and 33 in a row, and 41 in front of 32.
abbrev crossing : Heap
crossing =
    update (update (update (update (λ p. none) 31 (link 1 32)) 32 (link 2 33)) 33 (link 3 0)) 41
      (link 4 32)

-- 31, and then 32 and 33 in a circle.
abbrev circle : Heap
circle = update (update (update (λ p. none) 31 (link 1 32)) 32 (link 2 33)) 33 (link 3 32)

shared-Chain : Chain crossing 32 (32 ∷ 33 ∷ [])
shared-Chain = (refl, omega arith, _, refl, (refl, omega arith, _, refl, refl))

first-Chain : Chain crossing 31 (31 ∷ 32 ∷ 33 ∷ [])
first-Chain = (refl, omega arith, _, refl, shared-Chain)

second-Chain : Chain crossing 41 (41 ∷ 32 ∷ 33 ∷ [])
second-Chain = (refl, omega arith, _, refl, shared-Chain)

reverse_list-reverse_example : Returns (reverse_list 4 crossing 31) λ (h', p').
    Chain h' p' (reverse (31 ∷ 32 ∷ 33 ∷ [])) × ((q : Ptr) → val_at h' q ≡ val_at crossing q)
reverse_list-reverse_example =
    reverse_list-reverse 4 crossing 31 (31 ∷ 32 ∷ 33 ∷ []) first-Chain (omega arith)

is_list_crossed-first_example : is_list_crossed 4 crossing 31 41 ≡ ok 32
is_list_crossed-first_example =
    is_list_crossed-first 4 crossing 31 41 (31 ∷ []) (41 ∷ []) (32 ∷ 33 ∷ []) first-Chain
      second-Chain ((omega arith, tt), tt) (omega arith) (omega arith)

abbrev crossing_lists : MyLink
crossing_lists = record { head = 31; head2 = 41; node_num = 10; heap = crossing; supply = [] }

clear_list-crossed_example : clear_list 5 crossing_lists ≡ fault
clear_list-crossed_example =
    clear_list-crossed 5 crossing_lists (31 ∷ []) (41 ∷ []) (33 ∷ []) 32 first-Chain second-Chain
      ((omega arith, tt), tt) (omega arith) (omega arith)

circle-Alive : (n : ℕ) → n < 1 + 2 → Alive circle (after circle 31 n)
circle-Alive zero lt = (omega arith, _, refl)
circle-Alive (suc zero) lt = (omega arith, _, refl)
circle-Alive (suc (suc zero)) lt = (omega arith, _, refl)
circle-Alive (suc (suc (suc n))) lt = absurd (omega arith)

circle-Lasso : Lasso circle 31 1 2
circle-Lasso = record { some_loop = omega arith; alive = circle-Alive; back = refl }

is_list_looped-decides_example : is_list_looped 3 circle 31 ≡ ok true
is_list_looped-decides_example =
    is_list_looped-decides 3 circle 31 true 3 (loops 1 2 circle-Lasso) (omega arith)
