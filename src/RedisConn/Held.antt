-- ===== src/RedisConn/Held.antt =====
-- 9_using_hiredis_api/RedisConn.cpp: which replies are freed.
use personal_c_cpp_back_end.Base.{
  ℕ, suc, ◌≡◌, ◌≢◌, refl, ◌∙◌, subst, Bool, true, false, Bool-cases, inl, inr, Option, none, some,
  List, [], ◌∷◌, Run, ok, fault, out_of_fuel, length, ◌<◌, ◌>>=◌, if◌then◌else◌, arith,
}
use personal_c_cpp_back_end.RedisConn.{
  Text, ℤ, Reply, Replies, array, end, then_reply, auth, text, Command, formatted, verbatim,
  RedisConn, Server, count_of, redis_command, free_reply_object, get_reply_status, Values,
  no_values, read_keyed, init, exchange, exchange_run,
}
use personal_c_cpp_back_end.RedisConn.Commands.{
  spaced, is_exists, del, del_all, flushdb, get, set, setex, setnx, mset, mget, incr, decr, lpush,
  rpush, lpop, rpop, llen, lrange, hget, hset, hdel, hget_all,
}

-- One call of a method that sends a command.
pub data Call (server : Server) (c : RedisConn) : RedisConn → Type 0 where
  is_exists_call : (key : Text) → Call server c (is_exists server c key).0
  del_call : (key : Text) → Call server c (del server c key).0
  del_all_call : (keys : List Text) → Call server c (del_all server c keys).0
  flushdb_call : Call server c (flushdb server c).0
  get_call : (key : Text) → Call server c (get server c key).0
  set_call : (key value : Text) → Call server c (set server c key value).0
  setex_call :
      (key : Text) (seconds : ℤ) (value : Text) → Call server c (setex server c key seconds value).0
  setnx_call : (key value : Text) → Call server c (setnx server c key value).0
  mset_call : (keys_values : List (Text × Text)) → Call server c (mset server c keys_values).0
  mget_call :
      {c' : RedisConn} {out : Values × Bool} (keys : List Text) (values : Values)
      → mget server c keys values ≡ ok (c', out)
      → Call server c c'
  incr_call : (key : Text) → Call server c (incr server c key).0
  decr_call : (key : Text) → Call server c (decr server c key).0
  lpush_call : (key value : Text) → Call server c (lpush server c key value).0
  rpush_call : (key value : Text) → Call server c (rpush server c key value).0
  lpop_call : (key : Text) → Call server c (lpop server c key).0
  rpop_call : (key : Text) → Call server c (rpop server c key).0
  llen_call : (key : Text) → Call server c (llen server c key).0
  lrange_call :
      (key : Text) (start last : ℤ) (values : List Text)
      → Call server c (lrange server c key start last values).0
  hget_call : (key field : Text) → Call server c (hget server c key field).0
  hset_call : (key field value : Text) → Call server c (hset server c key field value).0
  hdel_call : (key field : Text) → Call server c (hdel server c key field).0
  hget_all_call :
      {c' : RedisConn} {out : Values × Bool} (key : Text) (values : Values)
      → hget_all server c key values ≡ ok (c', out)
      → Call server c c'

pub data Calls (server : Server) (c : RedisConn) : RedisConn → Type 0 where
  no_calls : Calls server c c
  and_call : {c1 c2 : RedisConn} → Calls server c c1 → Call server c1 c2 → Calls server c c2

-- The replies that are held, and whether there is a context, are as before.
abbrev pub Same : RedisConn → RedisConn → Type 0
Same c c' = (c'.held ≡ c.held) × (c'.has_context ≡ c.has_context)

exchange-Same {ℓ} :
    {A : Type ℓ} (server : Server) (c : RedisConn) (command : Command) (missing : A)
    (read : Option Reply → A)
    → Same c (exchange server c command missing read).0
unfolding exchange redis_command free_reply_object
exchange-Same server c command missing read = elim (Bool-cases c.has_context) [
  | inl e ↦ rw e (omega arith, refl)
  | inr e ↦ rw e (refl, refl)
]

false_ne_true : false ≢ true
false_ne_true e = ground (arith, e)

-- The same of a run, if it returns.
abbrev IfSame {ℓ} : {A : Type ℓ} → RedisConn → Run (RedisConn × A) → Type 0
IfSame c (ok (c', a)) = Same c c'
IfSame c fault = Unit {0}
IfSame c out_of_fuel = Unit {0}

bind-IfSame {ℓ} :
    {A : Type ℓ} (c c1 : RedisConn) (m : Run A) → Same c c1 → IfSame c (m >>= λ a. ok (c1, a))
bind-IfSame c c1 (ok a) same = same
bind-IfSame c c1 fault same = tt
bind-IfSame c c1 out_of_fuel same = tt

choice-IfSame {ℓ} :
    {A : Type ℓ} (c : RedisConn) (b : Bool) (m : Run (RedisConn × A)) (missing : A)
    → IfSame c m
    → IfSame c (if b then m else ok (c, missing))
choice-IfSame c true m missing same = same
choice-IfSame c false m missing same = (refl, refl)

exchange_run-IfSame {ℓ} :
    {A : Type ℓ} (server : Server) (c : RedisConn) (command : Command) (missing : A)
    (read : Option Reply → Run A)
    → IfSame c (exchange_run server c command missing read)
unfolding exchange_run redis_command free_reply_object
exchange_run-IfSame server c command missing read =
    let reply = server c.sent command in
    choice-IfSame c c.has_context _ missing (bind-IfSame c _ (read reply) (omega arith, refl))

Call-Same : {server : Server} {c c' : RedisConn} → Call server c c' → Same c c'
Call-Same (is_exists_call key) = exchange-Same _ _ _ _ _
Call-Same (del_call key) = exchange-Same _ _ _ _ _
Call-Same (del_all_call keys) = exchange-Same _ _ _ _ _
Call-Same flushdb_call = exchange-Same _ _ _ _ _
Call-Same (get_call key) = exchange-Same _ _ _ _ _
Call-Same (set_call key value) = exchange-Same _ _ _ _ _
Call-Same (setex_call key seconds value) = exchange-Same _ _ _ _ _
Call-Same (setnx_call key value) = exchange-Same _ _ _ _ _
Call-Same (mset_call []) = (refl, refl)
Call-Same (mset_call (kv ∷ rest)) = exchange-Same _ _ _ _ _
Call-Same {server = server} {c = c} (mget_call [] values e) = subst (IfSame c) e (refl, refl)
Call-Same {server = server} {c = c} (mget_call (key ∷ rest) values e) =
    subst (IfSame c) e (exchange_run-IfSame server c _ _ _)
Call-Same (incr_call key) = exchange-Same _ _ _ _ _
Call-Same (decr_call key) = exchange-Same _ _ _ _ _
Call-Same (lpush_call key value) = exchange-Same _ _ _ _ _
Call-Same (rpush_call key value) = exchange-Same _ _ _ _ _
Call-Same (lpop_call key) = exchange-Same _ _ _ _ _
Call-Same (rpop_call key) = exchange-Same _ _ _ _ _
Call-Same (llen_call key) = exchange-Same _ _ _ _ _
Call-Same (lrange_call key start last values) = exchange-Same _ _ _ _ _
Call-Same (hget_call key field) = exchange-Same _ _ _ _ _
Call-Same (hset_call key field value) = exchange-Same _ _ _ _ _
Call-Same (hdel_call key field) = exchange-Same _ _ _ _ _
Call-Same {server = server} {c = c} (hget_all_call key values e) =
    subst (IfSame c) e (exchange_run-IfSame server c _ _ _)

-- Whatever the server answers, NULL included, a sequence of calls of the methods that send commands
-- frees every reply that it got, and leaves the connection open or closed as it was.
pub Calls-Same : {server : Server} {c c' : RedisConn} → Calls server c c' → Same c c'
Calls-Same no_calls = (refl, refl)
Calls-Same (and_call before call) =
    let (held, context) = Calls-Same before in
    let (held', context') = Call-Same call in (held' ∙ held, context' ∙ context)

count_answered : (reply : Option Reply) → get_reply_status reply ≡ true → count_of reply ≡ 1
count_answered none e = absurd (false_ne_true e)
count_answered (some r) e = refl

-- Init with a password that the server accepts returns with one reply more that is not freed, that to
-- AUTH, whether or not the database can be selected then. The context stays either way.
pub init-held :
    (server : Server) (c : RedisConn) (db_index : ℤ) (x : ℕ) (password : Text)
    → c.has_context ≡ false
    → get_reply_status (server c.sent (formatted auth (text (x ∷ password) ∷ []))) ≡ true
    → ((init server c (some false) db_index (x ∷ password)).0.held ≡ suc c.held)
      × ((init server c (some false) db_index (x ∷ password)).0.has_context ≡ true)
unfolding init redis_command free_reply_object
init-held server c db_index x password closed accepted =
    let one = count_answered (server c.sent (formatted auth (text (x ∷ password) ∷ []))) accepted in
    rw (closed, accepted) (omega (arith, one), refl)

abbrev pub count_replies : Replies → ℕ
count_replies end = 0
count_replies (then_reply r rest) = suc (count_replies rest)

read_keyed-fault :
    (es : Replies) (keys : List Text) (values : Values)
    → length keys < count_replies es
    → read_keyed es keys values ≡ fault
read_keyed-fault end keys values more = absurd (omega (arith, more))
read_keyed-fault (then_reply r rest) [] values more = refl
read_keyed-fault (then_reply r rest) (k ∷ keys) values more =
    read_keyed-fault rest keys _ (omega (arith, more))

-- When the server answers MGET with more elements than there are keys, as it does for a key with a
-- blank in it, since the keys stand unquoted in the command, mget reads behind the vector of the keys.
pub mget-fault :
    (server : Server) (c : RedisConn) (key : Text) (keys : List Text) (values : Values)
    (es : Replies)
    → c.has_context ≡ true
    → server c.sent (verbatim (77 ∷ 71 ∷ 69 ∷ 84 ∷ spaced (key ∷ keys))) ≡ some (array es)
    → length (key ∷ keys) < count_replies es
    → mget server c (key ∷ keys) values ≡ fault
unfolding exchange_run redis_command
mget-fault server c key keys values es there answer more =
    rw (there, answer, read_keyed-fault es (key ∷ keys) no_values more) refl
