-- ===== src/Daemon/Accounts/Submits.antt =====
-- A submission with a hash, on both sites.
use signup_daemon.Prelude.{
  ℕ, if◌then◌else◌, ◌≡◌, refl, sym, subst, Bool, true, false, none, some, ◌++◌, codes, ◌==◌, arith,
  take, length,
}
use signup_daemon.Js.Strings.{Text, to_string}
use signup_daemon.Js.Strings.Laws.{text_eq_refl}
use signup_daemon.Daemon.{Kind, signup, login, post_type_str, db_idx_ip_count}
use signup_daemon.Daemon.Hash.{Crypto, same_start, calc_hash_for_login}
use signup_daemon.Daemon.Redis.{Redis, Connection, redis_get_hget_string}
use signup_daemon.Daemon.Redis.Actions.{Result, ok, err, pure, require, ◌>>◌}
use signup_daemon.Daemon.Handler.{
  Outcome, Exchange, refuse_request, refuse_with, with_code, user_key, session_key, login_salt,
  by_kind, cookie_of, submit,
}
use signup_daemon.Daemon.Store.{Store, View, text, user, IsRedis, put, known, takes_user}
use signup_daemon.Daemon.Store.Calls.{
  Ends, Does, Fails, >>=-Fails, require-Fails, >>=-Does, pure-Does, require-Does, or_raise-Does,
}
use signup_daemon.Daemon.Store.Commands.{get-Does, hget_hash-Does, hget_salt-Does, exists-Does}
use signup_daemon.Daemon.Store.Writes.{redis_set-Does, redis_hset-Does}
use signup_daemon.Daemon.Accounts.Requests.{passed, session-IsArgument, user-IsArgument}
use signup_daemon.Daemon.Accounts.{IsArgument, append-IsArgument, kind-IsArgument, kind_database}

-- What a login is answered for the result of `calc_hash_for_login`.
abbrev pub wrong_hash : ℕ → Outcome
wrong_hash rt = refuse_request 211121 (with_code (codes "54") rt ++ codes ":211121")

abbrev pub answer_to : ℕ → Result Outcome Outcome
answer_to rt = if rt == 0 then ok passed else err (wrong_hash rt)

module _ {S : Type 0} (redis : Redis S) (view : View S) (good : IsRedis redis view) where
  -- The session of a submission: it is stored, and the cookie repeats it.
  pub record HasSession (kind : Kind) (input : Exchange) (name sesv : Text) (st : Store)
      : Type 0 where
    pub saved : Text
    pub stored : st (db_idx_ip_count kind) (session_key redis kind name sesv) ≡ some (text saved)
    pub size : length saved ≡ 32
    pub repeated : input.cookie ≡ ok saved

  cookie_of-Does :
      (kind : Kind) (given : Result ℕ Text) (saved : Text) (st : Store)
      → given ≡ ok saved
      → Does view (cookie_of redis kind given) st saved st
  cookie_of-Does kind given saved st e =
      subst (λ c. Does view (cookie_of redis kind c) st saved st) (sym e) (pure-Does view saved st)

  read_of_size :
      (db n : ℕ) (command t : Text) (st : Store)
      → length t ≡ n
      → Does view (redis_get_hget_string redis db (length t) command) st t st
      → Does view (redis_get_hget_string redis db n command) st t st
  read_of_size db n command t st size does =
      subst (λ k. Does view (redis_get_hget_string redis db k command) st t st) size does

  -- A submission comes to what follows the look-up of the name.
  submit-Does :
      (kind : Kind) (crypto : Crypto) (input : Exchange) (name hash sesv : Text) (st : Store)
      {r : Result Outcome Outcome} {after : Store}
      → IsArgument 20 name
      → IsArgument 32 sesv
      → HasSession kind input name sesv st
      → Ends view
          (by_kind redis kind crypto kind input.ip_pointer name hash sesv
            (known (st 0 (post_type_str kind ++ codes "User:" ++ name))))
          st
          r
          after
      → Ends view (submit redis kind crypto input name hash sesv) st r after
  unfolding submit
  submit-Does kind crypto input name hash sesv st a b s rest =
      let key = session-IsArgument redis view good kind name sesv a b in
      let key_size = key.size in
      let asked =
        append-IsArgument 11 20 (post_type_str kind ++ codes "User:") name
          (append-IsArgument 6 5 (post_type_str kind) (codes "User:") (kind-IsArgument kind)
            (record { word = refl; size = omega arith }))
          a in
      let asked_size = asked.size in
      >>=-Does view _ _
        (or_raise-Does view _ (refuse_with (codes "34") 211061) (
          read_of_size (db_idx_ip_count kind) 32 (codes "GET " ++ session_key redis kind name sesv)
            s.saved st s.size
            (get-Does redis view good (db_idx_ip_count kind) (session_key redis kind name sesv)
              s.saved st (kind_database kind) (omega arith) key.word s.stored)))
        (>>=-Does view _ _
          (or_raise-Does view _ (refuse_with (codes "38") 211071)
            (cookie_of-Does kind input.cookie s.saved st s.repeated))
          (>>=-Does view _ _
            (require-Does view (same_start 33 s.saved s.saved) _ st
              (text_eq_refl (take 33 s.saved)))
            (>>=-Does view _ _
              (or_raise-Does view _ _ (
                exists-Does redis view good 0 (post_type_str kind ++ codes "User:" ++ name) st
                  (omega arith) (omega arith) asked.word refl))
              rest)))

  -- A sign-up under a name that is not looked up writes the record of the user, whatever stood there.
  pub signup-Does :
      (crypto : Crypto) (input : Exchange) (name hash sesv : Text) (st : Store)
      → IsArgument 20 name
      → IsArgument 64 hash
      → IsArgument 32 sesv
      → IsArgument 64 input.ip_pointer
      → HasSession signup input name sesv st
      → st 0 (codes "signupUser:" ++ name) ≡ none
      → takes_user (st 0 (codes "loginUser:" ++ name)) ≡ true
      → Does view (submit redis signup crypto input name hash sesv) st passed (
          put 0
            (codes "loginUser:" ++ name)
            (user hash sesv)
            (put 5 (codes "signupOK:" ++ input.ip_pointer) (text (codes "1")) st))
  unfolding to_string
  signup-Does crypto input name hash sesv st a h b p s unknown free =
      let key = user-IsArgument redis view good signup name a in
      let key_size = key.size in
      let hash_size = h.size in
      let sesv_size = b.size in
      let mark =
        append-IsArgument 9 64 (codes "signupOK:") input.ip_pointer
          (record { word = refl; size = omega arith }) p in
      let mark_size = mark.size in
      let marked = put 5 (codes "signupOK:" ++ input.ip_pointer) (text (codes "1")) st in
      let after = put 0 (codes "loginUser:" ++ name) (user hash sesv) marked in
      submit-Does signup crypto input name hash sesv st a b s (
        subst
          (λ e.
            Does view (by_kind redis signup crypto signup input.ip_pointer name hash sesv (known e))
              st passed after)
          (sym unknown)
          (>>=-Does view _ _ (pure-Does view true st) (
            >>=-Does view _ _
              (or_raise-Does view _ (refuse_with (codes "34") 211101) (
                redis_set-Does redis view good 5 3600 (codes "signupOK:" ++ input.ip_pointer)
                  (codes "1") st (omega arith) (omega arith) (omega arith) (omega arith) mark.word
                  refl (record { positive = omega arith; small = omega arith })))
              (>>=-Does view _ _
                (or_raise-Does view _ (refuse_with (codes "44") 211111) (
                  redis_hset-Does redis view good 0 2592000 (codes "loginUser:" ++ name) hash sesv
                    marked (omega arith) (omega arith) (omega arith) (omega arith) key.word h.word
                    b.word (record { positive = omega arith; small = omega arith }) free))
                (pure-Does view passed after)))))

  -- A test that decides between a response and a refusal.
  decided :
      (test : Bool) (e : Outcome) (st : Store)
      → Ends view
          (require {S = Connection S} test e >> pure passed)
          st
          (if test then ok passed else err e)
          st
  decided true e st =
      >>=-Does view _ _ (require-Does view true e st refl) (pure-Does view passed st)
  decided false e st = >>=-Fails view _ _ (require-Fails view false e st refl)

  -- A login is decided by the hash, and the store is as it was.
  pub login-Ends :
      (crypto : Crypto) (input : Exchange) (name hash sesv : Text) (st : Store) {stored salt : Text}
      → IsArgument 20 name
      → IsArgument 32 sesv
      → HasSession login input name sesv st
      → st 0 (codes "loginUser:" ++ name) ≡ some (user stored salt)
      → length stored ≡ 64
      → length salt ≡ 32
      → Ends view
          (submit redis login crypto input name hash sesv)
          st
          (answer_to (calc_hash_for_login crypto name sesv stored hash))
          st
  login-Ends crypto input name hash sesv st {stored} {salt} a b s there stored_size salt_size =
      let key = user-IsArgument redis view good login name a in
      let key_size = key.size in
      let rt = calc_hash_for_login crypto name sesv stored hash in
      submit-Does login crypto input name hash sesv st a b s (
        subst
          (λ e.
            Ends view (by_kind redis login crypto login input.ip_pointer name hash sesv (known e))
              st (answer_to rt) st)
          (sym there)
          (>>=-Does view _ _ (pure-Does view true st) (
            >>=-Does view _ _
              (or_raise-Does view _ _ (
                read_of_size 0 64 (codes "HGET " ++ user_key redis login name ++ codes " hash")
                  stored st stored_size
                  (hget_hash-Does redis view good 0 (codes "loginUser:" ++ name) stored salt st
                    (omega arith) (omega arith) key.word there)))
              (>>=-Does view _ _
                (or_raise-Does view _ _ (
                  read_of_size 0 32 (codes "HGET " ++ user_key redis login name ++ codes " salt")
                    salt st salt_size
                    (hget_salt-Does redis view good 0 (codes "loginUser:" ++ name) stored salt st
                      (omega arith) (omega arith) key.word there)))
                (>>=-Does view _ _ (pure-Does view rt st)
                  (decided (rt == 0) (wrong_hash rt) st))))))

  -- A login under a name without a record is refused.
  pub unknown-Fails :
      (crypto : Crypto) (input : Exchange) (name hash sesv : Text) (st : Store)
      → IsArgument 20 name
      → IsArgument 32 sesv
      → HasSession login input name sesv st
      → st 0 (codes "loginUser:" ++ name) ≡ none
      → Fails view
          (submit redis login crypto input name hash sesv)
          st
          (refuse_request 211120 (codes "29:211120"))
          st
  unknown-Fails crypto input name hash sesv st a b s missing =
      submit-Does login crypto input name hash sesv st a b s (
        subst
          (λ e.
            Fails view (by_kind redis login crypto login input.ip_pointer name hash sesv (known e))
              st (refuse_request 211120 (codes "29:211120")) st)
          (sym missing) (>>=-Fails view _ _ (require-Fails view false _ st refl)))

  -- The salt of a user is found for the session of a login.
  pub login_salt-Does :
      (name : Text) (st : Store) {hash salt : Text}
      → IsArgument 20 name
      → st 0 (codes "loginUser:" ++ name) ≡ some (user hash salt)
      → length salt ≡ 32
      → Does view (login_salt redis login login name) st (some salt) st
  login_salt-Does name st {hash} {salt} a there size =
      let key = user-IsArgument redis view good login name a in
      let key_size = key.size in
      >>=-Does view _ _
        (read_of_size 0 32 (codes "HGET " ++ user_key redis login name ++ codes " salt") salt st
          size
          (hget_salt-Does redis view good 0 (codes "loginUser:" ++ name) hash salt st (omega arith)
            (omega arith) key.word there))
        (pure-Does view (some salt) st)
