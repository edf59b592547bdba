-- ===== src/Redis/Client.antt =====
-- The in-memory double as a client: `dispatch`, `command` and `pipeline` of
-- src/redis/MockRedisClient.cpp. `SCAN` is not among the commands.
use Prim.Native.String.{◌++◌}
use sapo_engine.Prelude.{
  ℕ, zero, suc, String, Bool, false, ◌||◌, none, some, List, [], ◌∷◌, ◌++◌ as append, if◌then◌else◌,
  str_eq, length,
}
use sapo_engine.Prelude.Int.{ℤ, pos, ◌+ℤ◌}
use sapo_engine.Redis.Values.{RedisValue, error, status, integer, Outcome, RedisClient, ◌>>=◌}
use sapo_engine.Redis.Keyspace.{Mock}
use sapo_engine.Redis.Scripts.{at, evaluate, sapo_scripts}
use sapo_engine.Redis.Commands.{upper, exists_count, delete_each, ttl, expire, get, set}
use sapo_engine.Redis.Hashes.{hget, hmget, hset, hgetall, hdel}
use sapo_engine.Redis.SortedSets.{zadd_command, zrem_command, zcard, zscore}
use sapo_engine.Redis.Ranges.{zrange}

abbrev pub is_one_of : String → String → String → Bool
is_one_of verb a b = str_eq verb a || str_eq verb b

unfoldable pub dispatch : Mock → List String → Mock × RedisValue
unfolding upper exists_count delete_each ttl expire get set hget hmget hset hgetall hdel
    zadd_command zrem_command zcard zscore zrange evaluate
dispatch r [] = (r, error "ERR empty command")
dispatch r (word ∷ rest) =
    let verb = upper word in
    let args = word ∷ rest in
    if str_eq verb "PING"
    then (r, status (if str_eq (at args 1) "" then "PONG" else at args 1))
    else if is_one_of verb "AUTH" "SELECT"
    then (r, status "OK")
    else if str_eq verb "CLIENT"
    then (r, status "OK")
    else if is_one_of verb "FLUSHDB" "FLUSHALL"
    then (record r { entries = [] }, status "OK")
    else if str_eq verb "DBSIZE"
    then (r, integer (pos (length r.entries)))
    else if str_eq verb "EXISTS"
    then exists_count 0 r rest
    else if is_one_of verb "DEL" "UNLINK"
    then delete_each 0 r rest
    else if is_one_of verb "TTL" "PTTL"
    then ttl (str_eq verb "TTL") r args
    else if is_one_of verb "EXPIRE" "PEXPIRE"
    then expire (str_eq verb "EXPIRE") r args
    else if str_eq verb "GET"
    then get r args
    else if str_eq verb "SET"
    then set r args
    else if str_eq verb "HGET"
    then hget r args
    else if str_eq verb "HMGET"
    then hmget r args
    else if str_eq verb "HSET"
    then hset r args
    else if str_eq verb "HGETALL"
    then hgetall r args
    else if str_eq verb "HDEL"
    then hdel r args
    else if str_eq verb "ZADD"
    then zadd_command r args
    else if str_eq verb "ZREM"
    then zrem_command r args
    else if is_one_of verb "ZCARD" "ZCOUNT"
    then zcard r args
    else if str_eq verb "ZSCORE"
    then zscore r args
    else if is_one_of verb "ZRANGE" "ZREVRANGE"
    then zrange (str_eq verb "ZREVRANGE") r args
    else if is_one_of verb "EVAL" "EVALSHA"
    then evaluate r args
    else (r, error ("ERR unknown command '" ++ (verb ++ "' (MockRedisClient)")))

abbrev pub replied : Mock × RedisValue → Outcome Mock RedisValue
replied (r, reply) = (r, some reply)

unfoldable pub after_failures : ℕ → Mock → List String → Outcome Mock RedisValue
unfolding dispatch
after_failures zero r args = replied (dispatch r args)
after_failures (suc left) r args =
    (record r { failures_left = left }, some (error r.failure_message))

unfoldable pub command : Mock → List String → Outcome Mock RedisValue
unfolding after_failures
command r args =
    let r' = record r { recorded = append r.recorded (args ∷ []) } in
    if r.is_down then (r', none) else after_failures r.failures_left r' args

unfoldable pub pipeline : Mock → List (List String) → Outcome Mock (List RedisValue)
unfolding command
pipeline r [] = (r, some [])
pipeline r (args ∷ commands) =
    command r args >>= λ p. pipeline p.0 commands >>= λ q. (q.0, some (p.1 ∷ q.1))

abbrev pub mock_client : RedisClient Mock
mock_client = record { command = command; pipeline = pipeline }

unfoldable pub advance_time : Mock → ℤ → Mock
advance_time r milliseconds = record r { now_ms = r.now_ms +ℤ milliseconds }

-- What the constructor leaves.
abbrev pub new_mock : Mock
new_mock = record {
  entries = [];
  scripts = sapo_scripts;
  recorded = [];
  now_ms = pos 0;
  is_down = false;
  failures_left = 0;
  failure_message = "";
}
