-- ===== src/RedisConn.antt =====
-- 9_using_hiredis_api/RedisConn.cpp: a connection to a redis server by way of hiredis. The answers of
-- the server are a parameter. A connection counts the replies that hiredis allocated for it and that
-- were not freed. Strings are lists of bytes.
pub mod Commands
pub mod Held
pub mod Tests
use personal_c_cpp_back_end.Base.{
  ℕ, zero, suc, ◌+◌, ◌-◌, Bool, true, false, not, ◌&&◌, ◌||◌, Option, none, some, List, [], ◌∷◌,
  ◌++◌, map, Run, ok, fault, ◌>>=◌, ◌==◌, if◌then◌else◌,
}

abbrev pub Text : Type 0
Text = List ℕ

pub data ℤ : Type 0 where
  pos : ℕ → ℤ
  negsuc : ℕ → ℤ

-- redisReply, by its type: STATUS, ERROR, INTEGER, STRING, ARRAY or NIL.
mutual
  pub data Reply : Type 0 where
    status : Text → Reply
    error : Text → Reply
    integer : ℤ → Reply
    string : Text → Reply
    array : Replies → Reply
    nil : Reply

  pub data Replies : Type 0 where
    end : Replies
    then_reply : Reply → Replies → Replies

-- The formats that redisCommand is called with, and the arguments for their %s, %d and %ld.
pub data Verb : Type 0 where
  auth : Verb
  select : Verb
  exists : Verb
  del_one : Verb
  flush : Verb
  get_value : Verb
  set_value : Verb
  set_ex : Verb
  set_nx : Verb
  increment : Verb
  decrement : Verb
  push_left : Verb
  push_right : Verb
  pop_left : Verb
  pop_right : Verb
  length_of : Verb
  range : Verb
  get_field : Verb
  set_field : Verb
  del_field : Verb
  get_all : Verb

pub data Arg : Type 0 where
  text : Text → Arg
  number : ℤ → Arg

-- A command, or a string that is made at run time and is itself the format.
pub data Command : Type 0 where
  formatted : Verb → List Arg → Command
  verbatim : Text → Command

-- `m_pContext`, whether it is there, the commands that were sent, and the replies that are not freed.
pub record RedisConn : Type 0 where
  pub has_context : Bool
  pub sent : List Command
  pub held : ℕ

-- What the server answers to a command behind others; `none` is NULL, after an error.
abbrev pub Server : Type 0
Server = List Command → Command → Option Reply

-- redisCommand and freeReplyObject, which ignores NULL.
abbrev pub count_of : Option Reply → ℕ
count_of none = 0
count_of (some r) = 1

unfoldable pub redis_command : Server → RedisConn → Command → RedisConn × Option Reply
redis_command server c command =
    let reply = server c.sent command in
    (record c { sent = c.sent ++ command ∷ []; held = c.held + count_of reply }, reply)

unfoldable pub free_reply_object : RedisConn → Option Reply → RedisConn
free_reply_object c reply = record c { held = c.held - count_of reply }

-- The readers of a reply. `strncmp(str, "OK", 2)`:
abbrev pub begins_ok : Text → Bool
begins_ok (a ∷ b ∷ rest) = (a == 79) && (b == 75)
begins_ok (a ∷ []) = false
begins_ok [] = false

abbrev pub get_reply_status : Option Reply → Bool
get_reply_status (some (status s)) = begins_ok s
get_reply_status _ = false

abbrev pub get_reply_int : Option Reply → ℤ
get_reply_int (some (integer n)) = n
get_reply_int _ = pos 0

abbrev pub get_reply_string : Option Reply → Text
get_reply_string (some (string s)) = s
get_reply_string _ = []

abbrev pub is_nonzero : ℤ → Bool
is_nonzero (pos zero) = false
is_nonzero _ = true

-- map<string, string>, and its assignment.
abbrev pub same_text : Text → Text → Bool
same_text [] [] = true
same_text (a ∷ s) (b ∷ t) = let rest = same_text s t in (a == b) && rest
same_text _ _ = false

abbrev pub Values : Type 0
Values = Text → Option Text

abbrev pub no_values : Values
no_values key = none

abbrev pub assign : Values → Text → Text → Values
assign values key value k = if same_text k key then some value else values k

-- getReplyMap of a hash: keys and values in turn, two at a time.
abbrev pub read_pairs : Replies → Values → Run Values
read_pairs end values = ok values
read_pairs (then_reply k end) values = fault
read_pairs (then_reply k (then_reply v rest)) values =
    read_pairs rest (assign values (get_reply_string (some k)) (get_reply_string (some v)))

abbrev pub get_reply_pairs : Option Reply → Values → Run (Values × Bool)
get_reply_pairs (some (array es)) values = read_pairs es values >>= λ vs. ok (vs, true)
get_reply_pairs _ values = ok (values, false)

-- getReplyMap of mget: the i-th element belongs to the i-th key.
abbrev pub read_keyed : Replies → List Text → Values → Run Values
read_keyed end keys values = ok values
read_keyed (then_reply v rest) [] values = fault
read_keyed (then_reply v rest) (k ∷ keys) values =
    read_keyed rest keys (assign values k (get_reply_string (some v)))

abbrev pub get_reply_map : Option Reply → List Text → Values → Run (Values × Bool)
get_reply_map (some (array es)) keys values = read_keyed es keys values >>= λ vs. ok (vs, true)
get_reply_map _ keys values = ok (values, false)

abbrev pub read_list : Replies → List Text
read_list end = []
read_list (then_reply v rest) = get_reply_string (some v) ∷ read_list rest

-- getReplyStringList: a reply that is there clears the list.
abbrev pub get_reply_string_list : Option Reply → List Text → List Text × Bool
get_reply_string_list none values = (values, false)
get_reply_string_list (some (array es)) values = (read_list es, true)
get_reply_string_list (some _) values = ([], false)

abbrev pub de_init : RedisConn → RedisConn
de_init c = record c { has_context = false }

-- Init, where redisConnectWithTimeout gives NULL or a context, whose `err` is the Boolean.
unfoldable pub init :
    Server → RedisConn → Option Bool → (db_index : ℤ) → (password : Text) → RedisConn × Bool
unfolding redis_command free_reply_object
init server c context db_index password =
    let choose : RedisConn → RedisConn × Bool = λ c1.
      let (c2, reply) = redis_command server c1 (formatted select (number db_index ∷ [])) in
      (free_reply_object c2 reply, get_reply_status reply) in
    let opened = record c { has_context = true } in
    let start : RedisConn × Bool = elim password [
      | [] ↦ choose opened
      | x ∷ xs ↦
          let (c1, reply) = redis_command server opened (formatted auth (text (x ∷ xs) ∷ [])) in
          if get_reply_status reply
          then choose c1
          else (de_init (free_reply_object c1 reply), false)
    ] in
    let made : RedisConn × Bool = elim context [
      | none ↦ (c, false)
      | some err ↦ if err then (de_init opened, false) else start
    ] in
    if c.has_context then (c, false) else made

-- What the other methods do: send, read the reply, free it.
unfoldable pub exchange {ℓ} :
    {A : Type ℓ} → Server → RedisConn → Command → A → (Option Reply → A) → RedisConn × A
unfolding redis_command free_reply_object
exchange server c command missing read =
    let (c1, reply) = redis_command server c command in
    if c.has_context then (free_reply_object c1 reply, read reply) else (c, missing)

-- The same for a reader that may read outside an array.
unfoldable pub exchange_run {ℓ} :
    {A : Type ℓ} → Server → RedisConn → Command → A → (Option Reply → Run A) → Run (RedisConn × A)
unfolding redis_command free_reply_object
exchange_run server c command missing read =
    let (c1, reply) = redis_command server c command in
    let there = (read reply >>= λ a. ok (free_reply_object c1 reply, a)) in
    if c.has_context then there else ok (c, missing)
