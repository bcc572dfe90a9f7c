-- ===== src/ConnPool/Tests.antt =====
-- 6_connections_pool_for_mysql/ConnPool.cpp: calls on a pool, and the theorem at one of them.
use personal_c_cpp_back_end.Base.{ℕ, ◌≡◌, refl, Bool, true, false, List, [], ◌∷◌, ok, ◌>>=◌, arith}
use personal_c_cpp_back_end.ConnPool.{
  ConnPool, taken, conn_pool, init, take_conn, wake, put_conn, destroy,
}
use personal_c_cpp_back_end.ConnPool.Leases.{IsValid, History, starts, takes, History-IsValid}

abbrev made : List (ℕ × Bool)
made = (5, true) ∷ (6, true) ∷ []

abbrev a_pool : (max_conn cur_conn : ℕ) → List ℕ → List ℕ → Bool → ConnPool
a_pool max_conn cur_conn free busy abort = record {
  min_conn = 2;
  max_conn = max_conn;
  cur_conn = cur_conn;
  free_list = free;
  busy_list = busy;
  abort = abort;
}

-- At the maximum a caller waits, and gets the connection that is put back.
lent :
    (init (conn_pool 2) made >>= λ (p, _). take_conn p 7 true >>= λ (p1, _).
    take_conn p1 7 true >>= λ (p2, _).
    take_conn p2 7 true >>= λ (p3, a). wake (put_conn p3 6) false)
    ≡ ok (a_pool 2 2 [] (5 ∷ 6 ∷ []) false, taken 6)
unfolding conn_pool init take_conn wake put_conn
lent = refl

-- init makes two connections, also where one is the maximum.
above_maximum : init (conn_pool 1) made ≡ ok (a_pool 1 2 (5 ∷ 6 ∷ []) [] false, true)
unfolding conn_pool init
above_maximum = refl

-- The destructor leaves the connections that are lent.
destroyed : destroy (a_pool 2 2 (5 ∷ []) (6 ∷ []) false) ≡ a_pool 2 2 [] (6 ∷ []) true
unfolding destroy
destroyed = refl

a_History : History 3 (a_pool 3 2 (6 ∷ []) (5 ∷ []) false)
unfolding conn_pool init take_conn
a_History =
    takes (a_pool 3 2 (5 ∷ 6 ∷ []) [] false) _ 7 true (taken 5)
      (starts made _ true (omega arith) (refl, (refl, tt)) refl) refl refl

History-IsValid_example :
    IsValid (a_pool 3 2 (6 ∷ []) (5 ∷ []) false)
    × ((a_pool 3 2 (6 ∷ []) (5 ∷ []) false).max_conn ≡ 3)
History-IsValid_example =
    History-IsValid 3 (a_pool 3 2 (6 ∷ []) (5 ∷ []) false) (omega arith) a_History
