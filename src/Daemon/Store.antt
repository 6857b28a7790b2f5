-- ===== src/Daemon/Store.antt =====
-- Redis as a store: the entries of its databases, and what its documentation promises of the commands
-- that the daemon sends. Expiry times are left out: the promises are about the time before they pass.
pub mod Calls
pub mod Commands
pub mod Writes
use signup_daemon.Prelude.{
  ℕ, ◌+◌, ◌≤◌, ◌≡◌, Bool, true, false, not, ◌&&◌, Option, none, some, ◌++◌, ◌∷◌, codes, ◌==◌,
  if◌then◌else◌, all, ltb,
}
use signup_daemon.Js.Strings.{Text, is_empty, text_eq, decimal}
use signup_daemon.Daemon.Redis.{Redis, Reply, status, number, string}

-- A text, a count, or the record of a user with its hash and its salt.
pub data Entry : Type 0 where
  text : Text → Entry
  count : ℕ → Entry
  user : Text → Text → Entry

-- The entry of a key in a database.
abbrev pub Store : Type 0
Store = ℕ → Text → Option Entry

abbrev pub put : ℕ → Text → Entry → Store → Store
put db key entry st d k = if d == db && text_eq k key then some entry else st d k

abbrev pub known : Option Entry → ℕ
known none = 0
known (some e) = 1

-- The largest number that Redis counts to.
abbrev pub max_count : ℕ
max_count = 9223372036854775807

-- What `INCR` makes of an entry; it fails on a text that is no number, on a record and past the end.
abbrev pub next_count : Option Entry → Option ℕ
next_count none = some 1
next_count (some (count n)) = if ltb n max_count then some (n + 1) else none
next_count (some (text t)) = none
next_count (some (user h s)) = none

-- A record can be written where there is none of another type.
abbrev pub takes_user : Option Entry → Bool
takes_user none = true
takes_user (some (user h s)) = true
takes_user (some (text t)) = false
takes_user (some (count n)) = false

-- How many of the four fields are new.
abbrev pub new_fields : Option Entry → ℕ
new_fields none = 4
new_fields (some e) = 0

-- A text that stays one argument of a command: `redisCommand` splits at spaces, drops what is empty
-- between them, and reads `%`.
abbrev pub is_word_char : ℕ → Bool
is_word_char c = not (c == b' ') && not (c == b'%')

abbrev pub is_word : Text → Bool
is_word s = not (is_empty s) && all is_word_char s

-- A time to live that Redis takes: it is positive, and an `int`.
pub record IsExpiry (ttl : ℕ) : Type 0 where
  pub positive : 1 ≤ ttl
  pub small : ttl ≤ 2147483647

-- What a server holds, and the database that its connection has selected.
pub record View (S : Type 0) : Type 0 where
  pub store : S → Store
  pub current : S → ℕ

module _ {S : Type 0} (redis : Redis S) (view : View S) where
  -- The command is answered so, and leaves the server with these entries.
  pub record Answers (command : Text) (s : S) (reply : Reply) (after : Store) : Type 0 where
    pub to : S
    pub runs : redis.command command s ≡ (reply, to)
    pub holds : view.store to ≡ after
    pub same_database : view.current to ≡ view.current s

  -- The entry that the connection of a server sees.
  abbrev pub entry_at : S → Text → Option Entry
  entry_at s key = view.store s (view.current s) key

  pub record IsRedis : Type 0 where
    pub connects : (s : S) → (t : S) × (redis.connect s ≡ (true, t)) × (view.store t ≡ view.store s)
    pub authorises :
        (s : S)
        → (t : S) × (redis.command (codes "AUTH " ++ redis.password) s ≡ (status, t))
          × (view.store t ≡ view.store s)
    pub selects :
        (s : S) (db : ℕ)
        → db ≤ 15
        → (t : S) × (redis.command (codes "SELECT " ++ decimal db) s ≡ (status, t))
          × (view.store t ≡ view.store s)
          × (view.current t ≡ db)
    pub gets :
        (s : S) (key : Text) {t : Text}
        → is_word key ≡ true
        → entry_at s key ≡ some (text t)
        → Answers (codes "GET " ++ key) s (string t) (view.store s)
    pub hgets_hash :
        (s : S) (key : Text) {hash salt : Text}
        → is_word key ≡ true
        → entry_at s key ≡ some (user hash salt)
        → Answers (codes "HGET " ++ key ++ codes " hash") s (string hash) (view.store s)
    pub hgets_salt :
        (s : S) (key : Text) {hash salt : Text}
        → is_word key ≡ true
        → entry_at s key ≡ some (user hash salt)
        → Answers (codes "HGET " ++ key ++ codes " salt") s (string salt) (view.store s)
    pub tells :
        (s : S) (key : Text)
        → is_word key ≡ true
        → Answers (codes "EXISTS " ++ key) s (number (known (entry_at s key))) (view.store s)
    pub counts :
        (s : S) (key : Text) {n : ℕ}
        → is_word key ≡ true
        → next_count (entry_at s key) ≡ some n
        → Answers
            (codes "INCR " ++ key)
            s
            (number n)
            (put (view.current s) key (count n) (view.store s))
    pub expires :
        (s : S) (key : Text) (ttl : ℕ) {e : Entry}
        → is_word key ≡ true
        → entry_at s key ≡ some e
        → IsExpiry ttl
        → Answers (codes "EXPIRE " ++ key ++ b' ' ∷ decimal ttl) s (number 1) (view.store s)
    pub sets :
        (s : S) (key value : Text) (ttl : ℕ)
        → is_word key ≡ true
        → is_word value ≡ true
        → IsExpiry ttl
        → Answers
            (codes "SET " ++ key ++ b' ' ∷ value ++ codes " EX " ++ decimal ttl)
            s
            status
            (put (view.current s) key (text value) (view.store s))
    pub hsets :
        (s : S) (key hash salt : Text)
        → is_word key ≡ true
        → is_word hash ≡ true
        → is_word salt ≡ true
        → takes_user (entry_at s key) ≡ true
        → Answers
            (codes "HSET "
              ++ key
              ++ b' '
                ∷ (codes "hash "
                    ++ hash
                    ++ codes " salt "
                    ++ salt
                    ++ codes " level 0 status active"))
            s
            (number (new_fields (entry_at s key)))
            (put (view.current s) key (user hash salt) (view.store s))
