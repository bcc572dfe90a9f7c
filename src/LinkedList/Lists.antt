-- ===== src/LinkedList/Lists.antt =====
-- 0_kmp_and_linkedlist/linkedTest.cpp: the class myLink, its constructor and its destructor.
use personal_c_cpp_back_end.Base.{
  ℕ, zero, suc, ◌+◌, ◌-◌, ◌*◌, some, List, [], ◌∷◌, Run, ok, fault, ◌>>=◌, deref,
}
use personal_c_cpp_back_end.LinkedList.{Ptr, null, Heap, update, next_of, clear_first, clear_second}

-- enum MODE
pub data Mode : Type 0 where
  simple_list : Mode
  loop_list : Mode
  cross_list : Mode

-- class myLink, with the nodes in memory and the addresses that `new` is going to return.
pub record MyLink : Type 0 where
  pub head : Ptr
  pub head2 : Ptr
  pub node_num : ℕ
  pub heap : Heap
  pub supply : List Ptr

unfoldable pub set_head : MyLink → Ptr → MyLink
set_head l p = record l { head = p }

unfoldable pub set_head2 : MyLink → Ptr → MyLink
set_head2 l p = record l { head2 = p }

-- new LinkNode, with val and a next that is nullptr
unfoldable pub new_link_node : MyLink → (val : ℕ) → Run (MyLink × Ptr)
new_link_node l val = elim l.supply [
  | [] ↦ fault
  | q ∷ qs ↦ ok (
    record l { heap = update l.heap q (some (record { val = val; next = null })); supply = qs },
    q,
  )
]

-- p->next = q
unfoldable pub set_next : MyLink → Ptr → Ptr → Run MyLink
set_next l p q = deref (l.heap p) >>= λ n.
    ok (record l { heap = update l.heap p (some (record n { next = q })) })

-- The loop that puts new nodes behind `p`; its end.
unfoldable pub append_nodes : MyLink → Ptr → (rounds i : ℕ) → Run (MyLink × Ptr)
unfolding new_link_node set_next
append_nodes l p zero i = ok (l, p)
append_nodes l p (suc rounds) i = do
  (l1, q) ← new_link_node l (i * 2)
  l2 ← set_next l1 p q
  append_nodes l2 q rounds (i + 1)

unfoldable pub build_simple_list : MyLink → Run MyLink
unfolding append_nodes
build_simple_list l = append_nodes l l.head (l.node_num - 1) 1 >>= λ (l1, p). ok l1

unfoldable pub build_loop_list : MyLink → Run MyLink
unfolding append_nodes set_next
build_loop_list l = do
  (l1, p) ← append_nodes l l.head (l.node_num - 1) 1
  one ← next_of l1.heap l1.head
  two ← next_of l1.heap one
  three ← next_of l1.heap two
  set_next l1 p three

unfoldable pub build_cross_list : MyLink → Run MyLink
unfolding build_simple_list new_link_node append_nodes set_next
build_cross_list l = do
  l1 ← build_simple_list l
  (l2, q) ← new_link_node l1 0
  (l3, p) ← append_nodes (record l2 { head2 = q }) q 7 1
  one ← next_of l3.heap l3.head
  two ← next_of l3.heap one
  three ← next_of l3.heap two
  four ← next_of l3.heap three
  set_next l3 p four

-- The constructor, on a memory and the addresses that `new` returns.
unfoldable pub my_link : Heap → List Ptr → Mode → Run MyLink
unfolding new_link_node build_simple_list build_loop_list build_cross_list
my_link heap supply mode = do
  let bare : MyLink = record {
    head = null;
    head2 = null;
    node_num = 10;
    heap = heap;
    supply = supply;
  }
  (l, p) ← new_link_node bare 0
  let l1 = record l { head = p }
  elim mode [
    | simple_list ↦ build_simple_list l1
    | loop_list ↦ build_loop_list l1
    | cross_list ↦ build_cross_list l1
  ]

unfoldable pub clear_list : ℕ → MyLink → Run MyLink
unfolding clear_first clear_second
clear_list fuel l = do
  heap ← clear_first fuel l.heap l.head
  heap' ← clear_second fuel heap l.head2
  ok (record l { head = null; head2 = null; heap = heap' })
