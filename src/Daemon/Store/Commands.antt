-- ===== src/Daemon/Store/Commands.antt =====
-- Each call of Redis that the daemon makes, as a change of the store.
use signup_daemon.Prelude.{
  ℕ, ◌≤◌, ◌≡◌, refl, ◌∙◌, ap, ap₂, subst, Bool, true, false, Option, some, ◌∷◌, ◌++◌, codes, ==_iff,
  arith, length, length-append,
}
use signup_daemon.Js.Strings.{Text, decimal}
use signup_daemon.Daemon.Redis.{
  Redis, Connection, Reply, no_reply, error, nil, status, array, string, number, run_command,
  answered, ask, redis_get_hget_string, redis_get_int, string_of_size, long_of,
}
use signup_daemon.Daemon.Redis.Actions.{Result, ok}
use signup_daemon.Js.Strings.Laws.{text_eq_refl}
use signup_daemon.Daemon.Agrees.{take-all}
use signup_daemon.Daemon.Store.{
  Store, View, Entry, text, count, user, Answers, IsRedis, entry_at, put, known, next_count,
  is_word, IsExpiry,
}
use signup_daemon.Daemon.Store.Calls.{
  IsAt, Does, >>=-Does, pure-Does, IsOn, IsOn-IsAt, redis_connect_thread-Connects,
}

abbrev is_answer : Reply → Bool
is_answer no_reply = false
is_answer error = false
is_answer _ = true

answered-ok :
    {S : Type 0} (redis : Redis S) (missing refused : ℕ) (reply : Reply) (link : Connection S)
    → is_answer reply ≡ true
    → answered redis missing refused (reply, link) ≡ (ok reply, link)
answered-ok redis missing refused no_reply link h = cc
answered-ok redis missing refused error link h = cc
answered-ok redis missing refused nil link h = refl
answered-ok redis missing refused status link h = refl
answered-ok redis missing refused array link h = refl
answered-ok redis missing refused (string t) link h = refl
answered-ok redis missing refused (number n) link h = refl

module _ {S : Type 0} (redis : Redis S) (view : View S) (good : IsRedis redis view) where
  -- In this database, with these entries, the command is answered so.
  abbrev pub AnswersIn : ℕ → Text → Store → Reply → Store → Type 0
  AnswersIn db command before reply after =
      (s : S)
      → view.current s ≡ db
      → view.store s ≡ before
      → Answers redis view command s reply after

  pub record Asked (db : ℕ) (m : Result ℕ Reply × Connection S) (reply : Reply) (after : Store)
      : Type 0 where
    pub to : Connection S
    pub runs : m ≡ (ok reply, to)
    pub is_on : IsOn redis view good db after to

  pub command-Asked :
      (missing refused db : ℕ) (command : Text) (reply : Reply) {before after : Store}
      → is_answer reply ≡ true
      → AnswersIn db command before reply after
      → (link : Connection S) → IsOn redis view good db before link
      → Asked db (answered redis missing refused (run_command redis command link)) reply after
  command-Asked missing refused db command reply h answers link on =
      let a = answers link.server on.chosen on.holds in
      record {
        to = record { database = link.database; server = a.to };
        runs = rw a.runs (answered-ok redis missing refused reply _ h);
        is_on = record {
          database = on.database;
          chosen = a.same_database ∙ on.chosen;
          holds = a.holds;
        };
      }

  pub ask-Asked :
      (lost missing refused db : ℕ) (command : Text) (reply : Reply) {before after : Store}
      → db ≤ 15
      → is_answer reply ≡ true
      → AnswersIn db command before reply after
      → (link : Connection S) → IsAt view link before
      → Asked db (ask redis lost missing refused db command link) reply after
  unfolding ask
  ask-Asked lost missing refused db command reply small h answers link at =
      let c = redis_connect_thread-Connects redis view good db link small at in
      let last = command-Asked missing refused db command reply h answers c.to c.is_on in
      record { to = last.to; runs = rw c.runs last.runs; is_on = last.is_on }

  pub ask-Does :
      (lost missing refused db : ℕ) (command : Text) (reply : Reply) {before after : Store}
      → db ≤ 15
      → is_answer reply ≡ true
      → AnswersIn db command before reply after
      → Does view (ask redis lost missing refused db command) before reply after
  ask-Does lost missing refused db command reply small h answers link at =
      let a = ask-Asked lost missing refused db command reply small h answers link at in
      record { to = a.to; runs = a.runs; stands = IsOn-IsAt redis view good a.to a.is_on }

  string_of_size-Does :
      (size : ℕ) (t : Text) (st : Store)
      → length t ≡ size
      → Does view (string_of_size redis size (string t)) st t st
  string_of_size-Does size t st h link at = record {
    to = link;
    runs = rw ((==_iff (length t) size).1 h);
    stands = at;
  }

  pub string-Does :
      (db size : ℕ) (command t : Text) {before after : Store}
      → db ≤ 15
      → length command ≤ 1023
      → length t ≡ size
      → AnswersIn db command before (string t) after
      → Does view (redis_get_hget_string redis db size command) before t after
  unfolding redis_get_hget_string
  string-Does db size command t {before} {after} small fits long answers =
      rw (take-all 1023 command fits) (
        >>=-Does view (ask redis 125001 125006 125011 db command) (string_of_size redis size)
          (ask-Does 125001 125006 125011 db command (string t) small refl answers)
          (string_of_size-Does size t after long))

  pub int-Does :
      (db : ℕ) (command : Text) (n : ℕ) {before after : Store}
      → db ≤ 15
      → length command ≤ 1023
      → AnswersIn db command before (number n) after
      → Does view (redis_get_int redis db command) before n after
  unfolding redis_get_int
  int-Does db command n {before} {after} small fits answers = rw (take-all 1023 command fits) (
      >>=-Does view (ask redis 129001 129008 129011 db command) (long_of redis)
        (ask-Does 129001 129008 129011 db command (number n) small refl answers)
        (pure-Does view n after))

pub put_self : (db : ℕ) (key : Text) (e : Entry) (st : Store) → put db key e st db key ≡ some e
put_self db key e st = rw ((==_iff db db).1 refl, text_eq_refl key)

module _ {S : Type 0} (redis : Redis S) (view : View S) (good : IsRedis redis view) where
  pub seen :
      (s : S) (db : ℕ) (key : Text) (st : Store) {e : Option Entry}
      → view.current s ≡ db
      → view.store s ≡ st
      → st db key ≡ e
      → entry_at redis view s key ≡ e
  seen s db key st c h e = ap (λ f. f (view.current s) key) h ∙ ap (λ d. st d key) c ∙ e

  pub written_to :
      (s : S) (db : ℕ) (key : Text) (e : Entry) (st : Store)
      → view.current s ≡ db
      → view.store s ≡ st
      → put (view.current s) key e (view.store s) ≡ put db key e st
  written_to s db key e st c h = ap₂ (λ d f. put d key e f) c h

  -- The text of a key.
  pub get-Does :
      (db : ℕ) (key t : Text) (st : Store)
      → db ≤ 15
      → length key ≤ 900
      → is_word key ≡ true
      → st db key ≡ some (text t)
      → Does view (redis_get_hget_string redis db (length t) (codes "GET " ++ key)) st t st
  get-Does db key t st small short word e =
      string-Does redis view good db (length t) (codes "GET " ++ key) t small (omega arith) refl
        (λ s c h.
          subst (Answers redis view (codes "GET " ++ key) s (string t)) h
            (good.gets s key word (seen s db key st c h e)))

  -- The two fields of a user.
  pub hget_hash-Does :
      (db : ℕ) (key hash salt : Text) (st : Store)
      → db ≤ 15
      → length key ≤ 900
      → is_word key ≡ true
      → st db key ≡ some (user hash salt)
      → Does view
          (redis_get_hget_string redis db (length hash) (codes "HGET " ++ key ++ codes " hash"))
          st
          hash
          st
  hget_hash-Does db key hash salt st small short word e =
      let command = codes "HGET " ++ key ++ codes " hash" in
      let fits : length command ≤ 1023 =
        omega (arith, length-append (codes "HGET " ++ key) (codes " hash")) in
      string-Does redis view good db (length hash) command hash small fits refl (λ s c h.
        subst (Answers redis view command s (string hash)) h
          (good.hgets_hash s key word (seen s db key st c h e)))

  pub hget_salt-Does :
      (db : ℕ) (key hash salt : Text) (st : Store)
      → db ≤ 15
      → length key ≤ 900
      → is_word key ≡ true
      → st db key ≡ some (user hash salt)
      → Does view
          (redis_get_hget_string redis db (length salt) (codes "HGET " ++ key ++ codes " salt"))
          st
          salt
          st
  hget_salt-Does db key hash salt st small short word e =
      let command = codes "HGET " ++ key ++ codes " salt" in
      let fits : length command ≤ 1023 =
        omega (arith, length-append (codes "HGET " ++ key) (codes " salt")) in
      string-Does redis view good db (length salt) command salt small fits refl (λ s c h.
        subst (Answers redis view command s (string salt)) h
          (good.hgets_salt s key word (seen s db key st c h e)))

  -- Whether a key is there.
  pub exists-Does :
      (db : ℕ) (key : Text) (st : Store) {e : Option Entry}
      → db ≤ 15
      → length key ≤ 900
      → is_word key ≡ true
      → st db key ≡ e
      → Does view (redis_get_int redis db (codes "EXISTS " ++ key)) st (known e) st
  exists-Does db key st {e} small short word at =
      int-Does redis view good db (codes "EXISTS " ++ key) (known e) small (omega arith) (λ s c h.
        subst (λ n. Answers redis view (codes "EXISTS " ++ key) s (number n) st)
          (ap known (seen s db key st c h at))
          (subst (Answers redis view (codes "EXISTS " ++ key) s _) h (good.tells s key word)))

  pub incr-Does :
      (db : ℕ) (key : Text) (st : Store) {n : ℕ}
      → db ≤ 15
      → length key ≤ 900
      → is_word key ≡ true
      → next_count (st db key) ≡ some n
      → Does view (redis_get_int redis db (codes "INCR " ++ key)) st n (put db key (count n) st)
  incr-Does db key st {n} small short word at =
      int-Does redis view good db (codes "INCR " ++ key) n small (omega arith) (λ s c h.
        subst (Answers redis view (codes "INCR " ++ key) s (number n))
          (written_to s db key (count n) st c h)
          (good.counts s key word (ap next_count (seen s db key st c h refl) ∙ at)))

  pub expire-Does :
      (db : ℕ) (key : Text) (ttl : ℕ) (st : Store) {e : Entry}
      → db ≤ 15
      → length (codes "EXPIRE " ++ key ++ b' ' ∷ decimal ttl) ≤ 1023
      → is_word key ≡ true
      → st db key ≡ some e
      → IsExpiry ttl
      → Does view (redis_get_int redis db (codes "EXPIRE " ++ key ++ b' ' ∷ decimal ttl)) st 1 st
  expire-Does db key ttl st small fits word at expiry =
      let command = codes "EXPIRE " ++ key ++ b' ' ∷ decimal ttl in
      int-Does redis view good db command 1 small fits (λ s c h.
        subst (Answers redis view command s (number 1)) h
          (good.expires s key ttl word (seen s db key st c h at) expiry))
