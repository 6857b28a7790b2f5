-- ===== src/Tests/Journeys.antt =====
-- Requests of one user on a Redis in memory.
use signup_daemon.Prelude.{
  ◌⊎◌, ℕ, ◌≡◌, refl, true, none, some, List, [], ◌∷◌, ◌++◌, codes, map, arith, ◌==◌, ◌&&◌,
}
use signup_daemon.Js.Strings.{Text, text_eq}
use signup_daemon.Messages.{Site, signup, login}
use signup_daemon.Daemon.{signup, login}
use signup_daemon.Daemon.Guards.{IsField}
use signup_daemon.Daemon.Redis.{Connection, redis_hset}
use signup_daemon.Daemon.Redis.Actions.{Result, ok, err}
use signup_daemon.Daemon.Handler.{Exchange, refuse_with}
use signup_daemon.Daemon.Store.{Store, Entry, text, count, put, next_count}
use signup_daemon.Daemon.Store.Calls.{IsAt, Yields}
use signup_daemon.Daemon.Store.Writes.{redis_hset-Yields}
use signup_daemon.Daemon.Accounts.{IsArgument}
use signup_daemon.Daemon.Accounts.Visits.{submits}
use signup_daemon.Daemon.Accounts.Journey.{visit}
use signup_daemon.Daemon.Accounts.Lockout.{attempts, from}
use signup_daemon.Daemon.Accounts.Runs.{attempts-Yields}
use signup_daemon.Tests.{user, sess, old_salt}
use signup_daemon.Tests.Server.{crypto, digest_hex}
use signup_daemon.Tests.Memory.{Memory, view, redis, memory}

abbrev nothing_stored : Store
nothing_stored d k = none

abbrev ip : Text
ip = codes "10.0.0.7"

abbrev pointer : Text
pointer = 0x90 ∷ 0x11 ∷ []

ip-IsArgument : IsArgument 15 ip
ip-IsArgument = record { word = refl; size = omega arith }

pub old_salt-IsField : IsField 32 old_salt
old_salt-IsField = record { size = refl; digits = refl; some_digit = refl }

abbrev no_cookie : Result ℕ Text
no_cookie = err 1

abbrev spare : Text × Text
spare = (sess, sess)

-- A thread without a connection, in front of these entries.
abbrev start : Store → Connection Memory
start st = record { database = none; server = record { current = 0; entries = st } }

start-IsAt : (st : Store) → IsAt view (start st) st
start-IsAt st = record { linked = λ db e. cc; holds = refl }

-- The store with the record of the user and an open session.
abbrev user_stored : Store
user_stored =
    put 1 (codes "login_sess:" ++ user ++ b':' ∷ sess) (text old_salt)
      (put 0 (codes "loginUser:" ++ user) (Entry.user digest_hex old_salt) nothing_stored)

abbrev tried_often : Store
tried_often = put 1 (codes "loginFailed:10.0.0.7:count") (count 10) user_stored

abbrev inputs : List Exchange
inputs =
    visit pointer pointer (submits Site.login user sess digest_hex) (ok old_salt) spare
    ∷ visit pointer pointer (submits Site.login user sess digest_hex) (err 1) spare
    ∷ []

attempts-Yields_example :
    (after : Store) × Yields view
      (attempts redis login crypto (map (from ip) inputs))
      (start tried_often)
      (ok (map (λ input. err (refuse_with (codes "22") 211021 111019)) inputs))
      after
    × (next_count (after 1 (codes "loginFailed:10.0.0.7:count")) ≡ some 13)
    × ((d : ℕ) (key : Text)
        → ((d == 1) && text_eq key (codes "loginFailed:10.0.0.7:count") ≡ true)
          ⊎ (after d key ≡ tried_often d key))
attempts-Yields_example =
    attempts-Yields redis view memory crypto login ip ip-IsArgument inputs 11 tried_often
      (start tried_often) refl (omega arith) (omega arith) (start-IsAt tried_often)

redis_hset-Yields_example :
    Yields view
      (redis_hset redis 0 60
        (codes "loginUser:" ++ user)
        (codes "hash " ++ digest_hex ++ codes " salt " ++ sess ++ codes " level 0 status active"))
      (start user_stored)
      (ok true)
      (put 0 (codes "loginUser:" ++ user) (Entry.user digest_hex sess) user_stored)
redis_hset-Yields_example =
    redis_hset-Yields redis view memory 0 60 (codes "loginUser:" ++ user) digest_hex sess
      user_stored (start user_stored) omega arith omega arith omega arith omega arith refl refl refl
      (record { positive = omega arith; small = omega arith }) refl (start-IsAt user_stored)
