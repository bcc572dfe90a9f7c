-- ===== src/RedisConn/Tests.antt =====
-- 9_using_hiredis_api/RedisConn.cpp: a session with a server that knows two keys.
use personal_c_cpp_back_end.Base.{
  ◌≡◌, refl, true, false, none, some, [], ◌∷◌, ok, fault, ◌>>=◌, arith,
}
use personal_c_cpp_back_end.RedisConn.{
  pos, status, string, array, end, then_reply, auth, select, get_value, formatted, verbatim,
  RedisConn, Server, init, exchange_run, redis_command, free_reply_object, no_values,
}
use personal_c_cpp_back_end.RedisConn.Commands.{get, incr, mget}
use personal_c_cpp_back_end.RedisConn.Held.{
  no_calls, and_call, get_call, incr_call, Same, Calls-Same, init-held, mget-fault,
}

-- OK to AUTH and SELECT, the text 7 to GET, two elements to what is made at run time, else nothing.
abbrev server : Server
server sent (formatted auth args) = some (status (79 ∷ 75 ∷ []))
server sent (formatted select args) = some (status (79 ∷ 75 ∷ []))
server sent (formatted get_value args) = some (string (7 ∷ []))
server sent (formatted verb args) = none
server sent (verbatim s) =
    some (array (then_reply (string (7 ∷ [])) (then_reply (string (8 ∷ [])) end)))

abbrev closed : RedisConn
closed = record { has_context = false; sent = []; held = 0 }

abbrev open_conn : RedisConn
open_conn = record { has_context = true; sent = []; held = 0 }

Calls-Same_example : Same open_conn (incr server (get server open_conn (1 ∷ [])).0 (1 ∷ [])).0
Calls-Same_example =
    Calls-Same (and_call (and_call no_calls (get_call (1 ∷ []))) (incr_call (1 ∷ [])))

init-held_example :
    ((init server closed (some false) (pos 0) (65 ∷ [])).0.held ≡ 1)
    × ((init server closed (some false) (pos 0) (65 ∷ [])).0.has_context ≡ true)
init-held_example = init-held server closed (pos 0) 65 [] refl refl

-- The key is "a b".
mget-fault_example : mget server open_conn ((97 ∷ 32 ∷ 98 ∷ []) ∷ []) no_values ≡ fault
mget-fault_example =
    mget-fault server open_conn (97 ∷ 32 ∷ 98 ∷ []) [] no_values _ refl refl (ground arith)

two_keys :
    (mget server open_conn ((1 ∷ []) ∷ (2 ∷ []) ∷ []) no_values >>= λ (c, (values, b)).
    ok (values (2 ∷ [])))
    ≡ ok (some (8 ∷ []))
unfolding exchange_run redis_command free_reply_object
two_keys = refl
