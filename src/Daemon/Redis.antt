-- ===== src/Daemon/Redis.antt =====
-- src/redis.c and the calls of Redis: redis_get_hget_string.c, redis_get_int.c, redis_increment.c
-- and redis_set_hset_key_value.c. The server and its client library are third-party code and enter
-- as functions on the server's state; every command is the text that the source formats.
pub mod Actions
use signup_daemon.Prelude.{
  ℕ, ◌+◌, ◌-◌, Bool, true, false, not, ◌&&◌, ◌||◌, Option, none, some, List, [], ◌∷◌, ◌++◌, codes,
  ltb, leb, ◌==◌, if◌then◌else◌, length, take, drop,
}
use signup_daemon.Js.Strings.{Text, decimal}
use signup_daemon.Daemon.Hash.{same_start}
use signup_daemon.Daemon.Redis.Actions.*

-- `redisReply` by its type; `no_reply` is a null pointer.
pub data Reply : Type 0 where
  no_reply error nil status array : Reply
  string : Text → Reply
  number : ℕ → Reply

-- `redisConnectUnixWithTimeout`, `redisCommand` and `strtol` on the whole of a text, which fails where
-- the source finds a conversion error.
pub record Redis (S : Type 0) : Type 0 where
  pub connect : S → Bool × S
  pub command : Text → S → Reply × S
  pub strtol : Text → Option ℕ
  pub password : Text

-- The thread's `ctx` with `current_dbIdx`; `none` is a null context.
pub record Connection (S : Type 0) : Type 0 where
  pub database : Option ℕ
  pub server : S

abbrev pub is_status : Reply → Bool
is_status status = true
is_status _ = false

module _ {S : Type 0} (redis : Redis S) where
  -- `redisCommand`, which leaves the context alone.
  abbrev pub run_command : Text → Connection S → Reply × Connection S
  run_command text link =
      let (reply, server) = redis.command text link.server in
      (reply, record link { server = server })

  abbrev pub close : Connection S → Connection S
  close link = record link { database = none }

  abbrev pub after_connect : Bool × S → Bool × Connection S
  after_connect (done, server) = (done, record { database = none; server = server })

  abbrev pub after_select : ℕ → Reply × Connection S → Bool × Connection S
  after_select db (reply, link) =
      if is_status reply then (true, record link { database = some db }) else (false, close link)

  abbrev pub select : ℕ → Connection S → Bool × Connection S
  select db link = after_select db (run_command (codes "SELECT " ++ decimal db) link)

  abbrev pub authorised : ℕ → Reply × Connection S → Bool × Connection S
  authorised db (reply, link) = if is_status reply then select db link else (false, close link)

  abbrev pub after_open : ℕ → Bool × Connection S → Bool × Connection S
  after_open db (false, link) = (false, link)
  after_open db (true, link) = authorised db (run_command (codes "AUTH " ++ redis.password) link)

  abbrev pub with_context : ℕ → Option ℕ → Connection S → Bool × Connection S
  with_context db none link = after_open db (after_connect (redis.connect link.server))
  with_context db (some current) link = if current == db then (true, link) else select db link

  unfoldable pub redis_connect_thread : ℕ → Connection S → Bool × Connection S
  redis_connect_thread db link = with_context db link.database link

  -- The part that the calls share: the connection, with the code of its failure, and the command,
  -- with the code of a missing reply and that of an error.
  abbrev pub answered : ℕ → ℕ → Reply × Connection S → Result ℕ Reply × Connection S
  answered missing refused (no_reply, link) = (err missing, close link)
  answered missing refused (error, link) = (err refused, link)
  answered missing refused (reply, link) = (ok reply, link)

  abbrev pub ask_if : ℕ → ℕ → ℕ → Text → Bool × Connection S → Result ℕ Reply × Connection S
  ask_if lost missing refused text (false, link) = (err lost, link)
  ask_if lost missing refused text (true, link) = answered missing refused (run_command text link)

  unfoldable pub ask : ℕ → ℕ → ℕ → ℕ → Text → Action (Connection S) ℕ Reply
  unfolding redis_connect_thread
  ask lost missing refused db text link =
      ask_if lost missing refused text (redis_connect_thread db link)

  abbrev pub string_of_size : ℕ → Reply → Action (Connection S) ℕ Text
  string_of_size size (string s) = if length s == size then pure s else raise 125041
  string_of_size size _ = raise 125021

  -- `redis_get_hget_string`: a string of exactly the wanted length; `reply->str` is not null there.
  unfoldable pub redis_get_hget_string : ℕ → ℕ → Text → Action (Connection S) ℕ Text
  unfolding ask
  redis_get_hget_string db size text =
      ask 125001 125006 125011 db (take 1023 text) >>= string_of_size size

  abbrev as_long : Option ℕ → Action (Connection S) ℕ ℕ
  as_long none = raise 129036
  as_long (some n) = pure n

  abbrev pub long_of : Reply → Action (Connection S) ℕ ℕ
  long_of (number n) = pure n
  long_of (string s) = as_long (redis.strtol s)
  long_of _ = raise 129051

  unfoldable pub redis_get_int : ℕ → Text → Action (Connection S) ℕ ℕ
  unfolding ask
  redis_get_int db text = ask 129001 129008 129011 db (take 1023 text) >>= long_of

  -- `redis_increment`: the count after `INCR`; the answer of `EXPIRE` is dropped. The first connection
  -- is the one that the two calls find.
  abbrev pub lost_connection : ℕ → Bool × Connection S → Result ℕ Bool × Connection S
  lost_connection lost (true, link) = (ok true, link)
  lost_connection lost (false, link) = (err lost, link)

  abbrev pub connect_or : ℕ → ℕ → Action (Connection S) ℕ Bool
  connect_or lost db link = lost_connection lost (redis_connect_thread db link)

  unfoldable pub redis_increment : ℕ → ℕ → Text → Action (Connection S) ℕ ℕ
  unfolding redis_connect_thread redis_get_int
  redis_increment db ttl key = do
    connect_or 131001 db
    count ← redis_get_int db (codes "INCR " ++ take 1023 key)
    redis_get_int db (codes "EXPIRE " ++ take 1023 key ++ b' ' ∷ decimal ttl)
    pure count

  abbrev pub written : Reply → Action (Connection S) ℕ Bool
  written status = pure true
  written (number n) = pure true
  written _ = raise 135026

  abbrev pub expired : Reply → Action (Connection S) ℕ Bool
  expired (number n) = if n == 1 then pure true else raise 135018
  expired _ = raise 135018

  -- `redis_set_hset_key_value` for a `SET`, whose command gets the expiry at its end
  unfoldable pub redis_set : ℕ → ℕ → Text → Action (Connection S) ℕ Bool
  unfolding ask
  redis_set db ttl text =
      ask 135001 135008 135011 db (take 1023 (take 1023 text ++ codes " EX " ++ decimal ttl))
      >>= written

  -- From the command on: the `HSET`, and the `EXPIRE` that follows on the same connection.
  abbrev pub hset_and_expire : ℕ → ℕ → Text → Text → Action (Connection S) ℕ Bool
  hset_and_expire db ttl key command = do
    reply ← ask 135001 135008 135011 db command
    written reply
    answer ← (λ link.
        answered 135013 135015 (run_command (codes "EXPIRE " ++ key ++ b' ' ∷ decimal ttl) link))
    expired answer

  -- The same for an `HSET` of a key of fewer than 512 characters.
  unfoldable pub redis_hset : ℕ → ℕ → Text → Text → Action (Connection S) ℕ Bool
  unfolding ask
  redis_hset db ttl key fields =
      hset_and_expire db ttl key (take 1023 (codes "HSET " ++ key ++ b' ' ∷ fields))
