-- ===== src/RedisConn/Commands.antt =====
-- 9_using_hiredis_api/RedisConn.cpp: the methods that send one command.
use personal_c_cpp_back_end.Base.{Bool, false, List, [], ◌∷◌, ◌++◌, Run, ok}
use personal_c_cpp_back_end.RedisConn.{
  Text, ℤ, pos, exists, del_one, flush, get_value, set_value, set_ex, set_nx, increment, decrement,
  push_left, push_right, pop_left, pop_right, length_of, range, get_field, set_field, del_field,
  get_all, text, number, formatted, verbatim, RedisConn, Server, get_reply_status, get_reply_int,
  get_reply_string, is_nonzero, Values, no_values, get_reply_pairs, get_reply_map,
  get_reply_string_list, exchange, exchange_run,
}

-- A blank and each of the texts.
abbrev pub spaced : List Text → Text
spaced [] = []
spaced (s ∷ rest) = 32 ∷ (s ++ spaced rest)

abbrev flattened : List (Text × Text) → List Text
flattened [] = []
flattened ((key, value) ∷ rest) = key ∷ value ∷ flattened rest

module _ (server : Server) (c : RedisConn) where
  abbrev pub is_exists : Text → RedisConn × Bool
  is_exists key =
      exchange server c (formatted exists (text key ∷ [])) false λ r. is_nonzero (get_reply_int r)

  abbrev pub del : Text → RedisConn × ℤ
  del key = exchange server c (formatted del_one (text key ∷ [])) (pos 0) get_reply_int

  -- The commands that are made at run time: DEL, MSET and MGET, and the keys.
  abbrev pub del_all : List Text → RedisConn × ℤ
  del_all keys = exchange server c (verbatim (68 ∷ 69 ∷ 76 ∷ spaced keys)) (pos 0) get_reply_int

  abbrev pub flushdb : RedisConn × Bool
  flushdb = exchange server c (formatted flush []) false get_reply_status

  abbrev pub get : Text → RedisConn × Text
  get key = exchange server c (formatted get_value (text key ∷ [])) [] get_reply_string

  abbrev pub set : Text → Text → RedisConn × Bool
  set key value =
      exchange server c (formatted set_value (text key ∷ text value ∷ [])) false get_reply_status

  abbrev pub setex : Text → (seconds : ℤ) → Text → RedisConn × Bool
  setex key seconds value =
      exchange server c (formatted set_ex (text key ∷ number seconds ∷ text value ∷ [])) false
        get_reply_status

  abbrev pub setnx : Text → Text → RedisConn × Bool
  setnx key value =
      exchange server c (formatted set_nx (text key ∷ text value ∷ [])) false
        λ r. is_nonzero (get_reply_int r)

  abbrev pub mset : List (Text × Text) → RedisConn × Bool
  mset [] = (c, false)
  mset (kv ∷ rest) =
      exchange server c (verbatim (77 ∷ 83 ∷ 69 ∷ 84 ∷ spaced (flattened (kv ∷ rest)))) false
        get_reply_status

  -- The values are cleared only if the command is sent.
  abbrev pub mget : List Text → Values → Run (RedisConn × (Values × Bool))
  mget [] values = ok (c, (values, false))
  mget (key ∷ rest) values =
      exchange_run server c (verbatim (77 ∷ 71 ∷ 69 ∷ 84 ∷ spaced (key ∷ rest))) (values, false)
        λ r. get_reply_map r (key ∷ rest) no_values

  abbrev pub incr : Text → RedisConn × ℤ
  incr key = exchange server c (formatted increment (text key ∷ [])) (pos 0) get_reply_int

  abbrev pub decr : Text → RedisConn × ℤ
  decr key = exchange server c (formatted decrement (text key ∷ [])) (pos 0) get_reply_int

  abbrev pub lpush : Text → Text → RedisConn × ℤ
  lpush key value =
      exchange server c (formatted push_left (text key ∷ text value ∷ [])) (pos 0) get_reply_int

  abbrev pub rpush : Text → Text → RedisConn × ℤ
  rpush key value =
      exchange server c (formatted push_right (text key ∷ text value ∷ [])) (pos 0) get_reply_int

  abbrev pub lpop : Text → RedisConn × Text
  lpop key = exchange server c (formatted pop_left (text key ∷ [])) [] get_reply_string

  abbrev pub rpop : Text → RedisConn × Text
  rpop key = exchange server c (formatted pop_right (text key ∷ [])) [] get_reply_string

  abbrev pub llen : Text → RedisConn × ℤ
  llen key = exchange server c (formatted length_of (text key ∷ [])) (pos 0) get_reply_int

  abbrev pub lrange : Text → (start last : ℤ) → List Text → RedisConn × (List Text × Bool)
  lrange key start last values =
      exchange server c (formatted range (text key ∷ number start ∷ number last ∷ []))
        (values, false) λ r. get_reply_string_list r values

  abbrev pub hget : Text → (field : Text) → RedisConn × Text
  hget key field =
      exchange server c (formatted get_field (text key ∷ text field ∷ [])) [] get_reply_string

  abbrev pub hset : Text → (field : Text) → Text → RedisConn × ℤ
  hset key field value =
      exchange server c (formatted set_field (text key ∷ text field ∷ text value ∷ [])) (pos 0)
        get_reply_int

  abbrev pub hdel : Text → (field : Text) → RedisConn × ℤ
  hdel key field =
      exchange server c (formatted del_field (text key ∷ text field ∷ [])) (pos 0) get_reply_int

  abbrev pub hget_all : Text → Values → Run (RedisConn × (Values × Bool))
  hget_all key values =
      exchange_run server c (formatted get_all (text key ∷ [])) (values, false)
        λ r. get_reply_pairs r no_values
