-- ===== src/Daemon/Accounts/Requests.antt =====
-- A request for a session, a sign-up and a login, each from the check of the address on.
use signup_daemon.Prelude.{refl, true, Option, [], ◌∷◌, ◌++◌, codes, arith}
use signup_daemon.Js.Strings.{Text, to_string}
use signup_daemon.Daemon.{Kind, post_type_str, db_idx_ip_count}
use signup_daemon.Daemon.Redis.{Redis, redis_set}
use signup_daemon.Daemon.Handler.{
  Outcome, plain, session, Exchange, user_key, session_key, login_salt, open_session,
  sess_handle_new_request,
}
use signup_daemon.Daemon.Store.{Store, View, text, IsRedis, put}
use signup_daemon.Daemon.Store.Calls.{Does, >>=-Does, pure-Does, or_raise-Does}
use signup_daemon.Daemon.Store.Writes.{redis_set-Does}
use signup_daemon.Daemon.Accounts.{IsArgument, append-IsArgument, kind-IsArgument, kind_database}

abbrev pub passed : Outcome
passed = record { code = 0; sent = plain ∷ [] }

module _ {S : Type 0} (redis : Redis S) (view : View S) (good : IsRedis redis view) where
  pub session-IsArgument :
      (kind : Kind) (name sesv : Text)
      → IsArgument 20 name
      → IsArgument 32 sesv
      → IsArgument 65 (session_key redis kind name sesv)
  session-IsArgument kind name sesv a b =
      append-IsArgument 32 33 (post_type_str kind ++ codes "_sess:" ++ name) (b':' ∷ sesv)
        (append-IsArgument 12 20 (post_type_str kind ++ codes "_sess:") name
          (append-IsArgument 6 6 (post_type_str kind) (codes "_sess:") (kind-IsArgument kind)
            (record { word = refl; size = omega arith }))
          a)
        (append-IsArgument 1 32 (b':' ∷ []) sesv (record { word = refl; size = omega arith }) b)

  pub user-IsArgument :
      (kind : Kind) (name : Text) → IsArgument 20 name → IsArgument 30 (user_key redis kind name)
  user-IsArgument kind name a =
      append-IsArgument 10 20 (codes "loginUser:") name (record { word = refl; size = omega arith })
        a

  -- The session is stored under the name and the new text.
  abbrev pub session_stored : Kind → Text → Exchange → Store → Store
  session_stored kind name input st =
      put (db_idx_ip_count kind) (session_key redis kind name input.signup_sesv)
        (text input.signup_sess) st

  module _ (kind : Kind) (name : Text) (input : Exchange) (a : IsArgument 20 name)
      (b : IsArgument 32 input.signup_sesv) (c : IsArgument 32 input.signup_sess) where
    set_session-Does :
        (st : Store)
        → Does view
            (redis_set redis (db_idx_ip_count kind) 300 (
              codes "SET "
              ++ session_key redis kind name input.signup_sesv
              ++ b' ' ∷ input.signup_sess))
            st
            true
            (session_stored kind name input st)
    unfolding to_string
    set_session-Does st =
        let key = session-IsArgument kind name input.signup_sesv a b in
        let key_size = key.size in
        let value_size = c.size in
        redis_set-Does redis view good (db_idx_ip_count kind) 300
          (session_key redis kind name input.signup_sesv) input.signup_sess st (kind_database kind)
          (omega arith) (omega arith) (omega arith) key.word c.word
          (record { positive = omega arith; small = omega arith })

    -- Whatever `login_salt` finds is sent with the session.
    pub open_session-Does :
        (st : Store) {salt : Option Text}
        → Does view
            (login_salt redis kind kind name)
            (session_stored kind name input st)
            salt
            (session_stored kind name input st)
        → Does view
            (open_session redis kind name input)
            st
            (record { code = 1; sent = session input.signup_sess input.signup_sesv salt ∷ [] })
            (session_stored kind name input st)
    unfolding sess_handle_new_request
    open_session-Does st {salt} found =
        let after = session_stored kind name input st in
        >>=-Does view _ _
          (or_raise-Does view _ (λ rt. record { code = 211051; sent = [] })
            (>>=-Does view _ _ (or_raise-Does view _ (λ rt. 161001) (set_session-Does st)) (
              >>=-Does view _ _ (or_raise-Does view _ (λ rt. 161010) found)
                (pure-Does view (session input.signup_sess input.signup_sesv salt) after))))
          (pure-Does view _ after)
