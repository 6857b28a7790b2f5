-- ===== src/Daemon/Store/Writes.antt =====
-- The calls of Redis that change the store.
use signup_daemon.Prelude.{
  ℕ, ◌≤◌, ◌≡◌, refl, ◌∙◌, sym, ap, subst, true, some, ◌∷◌, ◌++◌, codes, arith, take, length,
  length-append,
}
use signup_daemon.Js.Strings.{Text, decimal, to_string}
use signup_daemon.Daemon.Redis.{
  Redis, Connection, status, number, ask, redis_get_int, redis_increment, redis_set, redis_hset,
  connect_or, written, hset_and_expire,
}
use signup_daemon.Daemon.Redis.Actions.{ok, ◌>>=◌}
use signup_daemon.Daemon.Agrees.{take-all}
use signup_daemon.Daemon.Store.{
  Store, View, text, count, user, Answers, IsRedis, put, next_count, takes_user, new_fields,
  is_word, IsExpiry,
}
use signup_daemon.Daemon.Store.Calls.{
  Yields, IsAt, Does, >>=-Does, pure-Does, IsOn-IsAt, redis_connect_thread-Connects,
}
use signup_daemon.Daemon.Store.Commands.{
  AnswersIn, ask-Does, ask-Asked, command-Asked, seen, written_to, incr-Does, expire-Does, put_self,
}

module _ {S : Type 0} (redis : Redis S) (view : View S) (good : IsRedis redis view) where
  pub connect_or-Does :
      (lost db : ℕ) (st : Store) → db ≤ 15 → Does view (connect_or redis lost db) st true st
  connect_or-Does lost db st small link at =
      let c = redis_connect_thread-Connects redis view good db link small at in
      record { to = c.to; runs = rw c.runs; stands = IsOn-IsAt redis view good c.to c.is_on }

  -- A count goes up by one.
  pub redis_increment-Does :
      (db : ℕ) (key : Text) (st : Store) {n : ℕ}
      → db ≤ 15
      → length key ≤ 900
      → is_word key ≡ true
      → next_count (st db key) ≡ some n
      → Does view (redis_increment redis db 3610 key) st n (put db key (count n) st)
  unfolding redis_increment to_string
  redis_increment-Does db key st {n} small short word at =
      let command = codes "EXPIRE " ++ key ++ b' ' ∷ decimal 3610 in
      let fits : length command ≤ 1023 =
        omega (arith, length-append (codes "EXPIRE " ++ key) (b' ' ∷ decimal 3610)) in
      let after = put db key (count n) st in
      rw (take-all 1023 key (omega arith)) (
        >>=-Does view (connect_or redis 131001 db) _ (connect_or-Does 131001 db st small) (
          >>=-Does view (redis_get_int redis db (codes "INCR " ++ key)) _
            (incr-Does redis view good db key st small short word at)
            (>>=-Does view (redis_get_int redis db command) _
              (expire-Does redis view good db key 3610 after small fits word
                (put_self db key (count n) st)
                (record { positive = omega arith; small = omega arith }))
              (pure-Does view n after))))

  -- A text is stored with its expiry.
  pub redis_set-Does :
      (db ttl : ℕ) (key value : Text) (st : Store)
      → db ≤ 15
      → length key ≤ 400
      → length value ≤ 400
      → length (decimal ttl) ≤ 100
      → is_word key ≡ true
      → is_word value ≡ true
      → IsExpiry ttl
      → Does view
          (redis_set redis db ttl (codes "SET " ++ key ++ b' ' ∷ value))
          st
          true
          (put db key (text value) st)
  unfolding redis_set
  redis_set-Does db ttl key value st small short_key short_value short_ttl word word' expiry =
      let plain = codes "SET " ++ key ++ b' ' ∷ value in
      let command = plain ++ codes " EX " ++ decimal ttl in
      let plain_size : length plain ≤ 810 =
        omega (arith, length-append (codes "SET " ++ key) (b' ' ∷ value)) in
      let size : length command ≤ 1023 = omega (
        arith,
        length-append (plain ++ codes " EX ") (decimal ttl),
        length-append plain (codes " EX "),
      ) in
      let after = put db key (text value) st in
      subst (λ c. Does view (ask redis 135001 135008 135011 db c >>= written redis) st true after)
        (sym (
          ap (λ t. take 1023 (t ++ codes " EX " ++ decimal ttl)) (take-all 1023 plain (omega arith))
          ∙ take-all 1023 command size))
        (>>=-Does view (ask redis 135001 135008 135011 db command) (written redis)
          (ask-Does redis view good 135001 135008 135011 db command status small refl (λ s c h.
            subst (Answers redis view command s status)
              (written_to redis view good s db key (text value) st c h)
              (good.sets s key value ttl word word' expiry)))
          (pure-Does view true after))

  -- The two commands on one connection.
  hset_and_expire-Does :
      (db ttl n : ℕ) (key command hash salt : Text) (st : Store)
      → db ≤ 15
      → is_word key ≡ true
      → IsExpiry ttl
      → AnswersIn redis view good db command st (number n) (put db key (user hash salt) st)
      → Does view
          (hset_and_expire redis db ttl key command)
          st
          true
          (put db key (user hash salt) st)
  unfolding ◌>>=◌
  hset_and_expire-Does db ttl n key command hash salt st small word expiry answers link at =
      let after = put db key (user hash salt) st in
      let one =
        ask-Asked redis view good 135001 135008 135011 db command (number n) small refl answers link
          at in
      let expire = codes "EXPIRE " ++ key ++ b' ' ∷ decimal ttl in
      let two =
        command-Asked redis view good 135013 135015 db expire (number 1) refl
          (λ s c h. subst (Answers redis view expire s (number 1)) h (
            good.expires s key ttl word
              (seen redis view good s db key after c h (put_self db key (user hash salt) st))
              expiry))
          one.to one.is_on in
      record {
        to = two.to;
        runs = rw one.runs (rw two.runs);
        stands = IsOn-IsAt redis view good two.to two.is_on;
      }

  pub redis_hset-Does :
      (db ttl : ℕ) (key hash salt : Text) (st : Store)
      → db ≤ 15
      → length key ≤ 400
      → length hash ≤ 100
      → length salt ≤ 100
      → is_word key ≡ true
      → is_word hash ≡ true
      → is_word salt ≡ true
      → IsExpiry ttl
      → takes_user (st db key) ≡ true
      → Does view
          (redis_hset redis db ttl key
            (codes "hash " ++ hash ++ codes " salt " ++ salt ++ codes " level 0 status active"))
          st
          true
          (put db key (user hash salt) st)
  unfolding redis_hset
  redis_hset-Does db ttl key hash salt st small short short_hash short_salt word word_hash word_salt
        expiry free =
      let fields =
        codes "hash " ++ hash ++ codes " salt " ++ salt ++ codes " level 0 status active" in
      let command = codes "HSET " ++ key ++ b' ' ∷ fields in
      let fields_size : length fields ≤ 300 = omega (
        arith,
        length-append (codes "hash " ++ hash ++ codes " salt " ++ salt)
            (codes " level 0 status active"),
        length-append (codes "hash " ++ hash ++ codes " salt ") salt,
        length-append (codes "hash " ++ hash) (codes " salt "),
      ) in
      let size : length command ≤ 1023 =
        omega (arith, length-append (codes "HSET " ++ key) (b' ' ∷ fields)) in
      let after = put db key (user hash salt) st in
      subst (λ c. Does view (hset_and_expire redis db ttl key c) st true after)
        (sym (take-all 1023 command size))
        (hset_and_expire-Does db ttl (new_fields (st db key)) key command hash salt st small word
          expiry
          (λ s c h.
            let same = seen redis view good s db key st c h refl in
            subst (λ n. Answers redis view command s (number n) after) (ap new_fields same)
              (subst (Answers redis view command s _)
                (written_to redis view good s db key (user hash salt) st c h)
                (good.hsets s key hash salt word word_hash word_salt (ap takes_user same ∙ free)))))

  -- The two commands of `redis_hset` replace the record of a user, and nothing else of the store: on a
  -- Redis that keeps its promises, from every connection that has selected what the thread takes for
  -- selected, for a database up to 15, where the key, the hash and the salt are not empty, have no
  -- space and no percent sign and fit their lengths, the time to live is one that Redis takes, and nothing but a
  -- record stands under the key.
  pub redis_hset-Yields :
      (db ttl : ℕ) (key hash salt : Text) (st : Store) (link : Connection S)
      → db ≤ 15
      → length key ≤ 400
      → length hash ≤ 100
      → length salt ≤ 100
      → is_word key ≡ true
      → is_word hash ≡ true
      → is_word salt ≡ true
      → IsExpiry ttl
      → takes_user (st db key) ≡ true
      → IsAt view link st
      → Yields view
          (redis_hset redis db ttl key
            (codes "hash " ++ hash ++ codes " salt " ++ salt ++ codes " level 0 status active"))
          link
          (ok true)
          (put db key (user hash salt) st)
  redis_hset-Yields db ttl key hash salt st link small short short_hash short_salt word word_hash
        word_salt expiry free at =
      redis_hset-Does db ttl key hash salt st small short short_hash short_salt word word_hash
        word_salt expiry free link at
