-- ===== src/ConnPool.antt =====
-- 6_connections_pool_for_mysql/ConnPool.cpp and ConnPool.h: a pool of connections. Every call holds
-- m_mutex but while it waits, so a call is one step, or two when it waits. A connection is a number;
-- which one newFreeConn makes and whether its init succeeds is given by the caller.
pub mod Counts
pub mod Leases
pub mod Tests
use personal_c_cpp_back_end.Base.{
  ℕ, zero, suc, ◌+◌, Bool, true, false, ◌||◌, not, List, [], ◌∷◌, ◌++◌, Run, ok, fault, ◌>>=◌, leb,
  ◌==◌, if◌then◌else◌,
}

-- class ConnPool
pub record ConnPool : Type 0 where
  pub min_conn : ℕ
  pub max_conn : ℕ
  pub cur_conn : ℕ
  pub free_list : List ℕ
  pub busy_list : List ℕ
  pub abort : Bool

-- What takeConn gives: a connection, nullptr, or nothing yet.
pub data Answer : Type 0 where
  taken : ℕ → Answer
  null_conn : Answer
  waits : Answer

-- The constructor with a maximum
unfoldable pub conn_pool : ℕ → ConnPool
conn_pool max_conn = record {
  min_conn = 2;
  max_conn = max_conn;
  cur_conn = 0;
  free_list = [];
  busy_list = [];
  abort = false;
}

abbrev pub is_empty : List ℕ → Bool
is_empty [] = true
is_empty (c ∷ cs) = false

-- m_free_list.emplace_back(pFreeConn); m_cur_conn++;
unfoldable pub add_free : ConnPool → ℕ → ConnPool
add_free p conn = record p { free_list = p.free_list ++ (conn ∷ []); cur_conn = p.cur_conn + 1 }

-- The loop of init, on the connections that newFreeConn makes and whether their init succeeds; false is
-- a return value that is not 0.
unfoldable pub init_from : (rounds : ℕ) → ConnPool → List (ℕ × Bool) → Run (ConnPool × Bool)
unfolding add_free
init_from zero p made = ok (p, true)
init_from (suc rounds) p [] = fault
init_from (suc rounds) p ((conn, good) ∷ made) =
    let rest = init_from rounds (add_free p conn) made in if good then rest else ok (p, false)

unfoldable pub init : ConnPool → List (ℕ × Bool) → Run (ConnPool × Bool)
unfolding init_from
init p made = init_from p.min_conn p made

-- The end of takeConn: the first free connection, if the pool goes on.
unfoldable pub take_front : ConnPool → Run (ConnPool × Answer)
take_front p =
    let front : Run (ConnPool × Answer) = elim p.free_list [
      | [] ↦ fault
      | c ∷ cs ↦ ok (record p { free_list = cs; busy_list = p.busy_list ++ (c ∷ []) }, taken c)
    ] in
    if p.abort then ok (p, null_conn) else front

-- takeConn up to the wait, with the connection that newFreeConn would make
unfoldable pub take_conn : ConnPool → (conn : ℕ) → (good : Bool) → Run (ConnPool × Answer)
unfolding add_free take_front
take_conn p conn good =
    let grown = if good then take_front (add_free p conn) else ok (p, null_conn) in
    if is_empty p.free_list
    then (if leb p.max_conn p.cur_conn then ok (p, waits) else grown)
    else take_front p

-- A caller that waits looks at the condition again, when it is woken or its time is over.
unfoldable pub wake : ConnPool → (expired : Bool) → Run (ConnPool × Answer)
unfolding take_front
wake p expired =
    if not (is_empty p.free_list) || p.abort
    then take_front p
    else ok (p, if expired then null_conn else waits)

abbrev pub is_in : ℕ → List ℕ → Bool
is_in c [] = false
is_in c (x ∷ xs) = if x == c then true else is_in c xs

-- list::remove
abbrev pub remove : ℕ → List ℕ → List ℕ
remove c [] = []
remove c (x ∷ xs) = if x == c then remove c xs else x ∷ remove c xs

unfoldable pub put_conn : ConnPool → ℕ → ConnPool
put_conn p c =
    if is_in c p.busy_list
    then record p { busy_list = remove c p.busy_list; free_list = p.free_list ++ (c ∷ []) }
    else p

-- The destructor, which deletes the connections of m_free_list
unfoldable pub destroy : ConnPool → ConnPool
destroy p = record p { abort = true; free_list = [] }
