-- ===== src/Daemon/Accounts/Visits.antt =====
-- The two requests of a page, from the handler on: one that asks for a session, one with a hash.
use signup_daemon.Prelude.{ℕ, ◌≡◌, true, Option, none, some, [], ◌∷◌, ◌++◌, codes, length}
use signup_daemon.Js.Strings.{Text}
use signup_daemon.Js.Json.{number, text}
use signup_daemon.Messages.{Site, signup, login}
use signup_daemon.Validators.{is_valid_username}
use signup_daemon.Daemon.{Kind, signup, login}
use signup_daemon.Daemon.Guards.{IsField}
use signup_daemon.Daemon.Accepts.{loaded, members, parse-members, parse-first}
use signup_daemon.Daemon.Hash.{Crypto, calc_hash_for_login}
use signup_daemon.Daemon.Request.{Root, object}
use signup_daemon.Daemon.Redis.{Redis}
use signup_daemon.Daemon.Redis.Actions.{ok}
use signup_daemon.Daemon.Handler.{Outcome, session, Exchange, http_server_main_loop_handler}
use signup_daemon.Daemon.Store.{Store, View, text, user, IsRedis, put, takes_user}
use signup_daemon.Daemon.Store.Calls.{Ends, Does, pure-Does}
use signup_daemon.Daemon.Accounts.{IsArgument, IsField-IsArgument}
use signup_daemon.Daemon.Accounts.Requests.{passed, session_stored, open_session-Does}
use signup_daemon.Daemon.Accounts.Submits.{signup-Does, answer_to, login-Ends, login_salt-Does}
use signup_daemon.Daemon.Accounts.Protocol.{valid-IsArgument, counted, MayTry, handler-Does}

-- The body of the first request, as the JSON library tells it.
abbrev pub asks : Text → Root
asks name = object (loaded ((codes "ver", number 1) ∷ (codes "username", text name) ∷ []))

-- The body of the second.
abbrev pub submits : Site → Text → Text → Text → Root
submits site name sesv hash = object (loaded (members site name sesv hash))

abbrev pub opened : Exchange → Option Text → Outcome
opened input salt = record {
  code = 1;
  sent = session input.signup_sess input.signup_sesv salt ∷ [];
}

module _ {S : Type 0} (redis : Redis S) (view : View S) (good : IsRedis redis view)
    (crypto : Crypto) where
  -- A visit of an address that may try again, under a name that the form accepts.
  pub record Visits (kind : Kind) (name : Text) (input : Exchange) (root : Root) (n : ℕ)
      (st : Store) : Type 0 where
    pub valid : is_valid_username name ≡ (true, true)
    pub address : IsArgument 15 input.ip
    pub may_try : MayTry redis view good kind input.ip n st
    pub body : input.body ≡ some (some root)

  abbrev pub once_asked : Kind → Text → Exchange → ℕ → Store → Store
  once_asked kind name input n st =
      session_stored redis view good kind name input (counted redis view good kind input.ip n st)

  module _ (name : Text) (input : Exchange) (n : ℕ) (st : Store) where
    pub ask_signup-Does :
        Visits signup name input (asks name) n st
        → IsField 32 input.signup_sess
        → IsField 32 input.signup_sesv
        → Does view
            (http_server_main_loop_handler redis signup crypto input)
            st
            (opened input none)
            (once_asked signup name input n st)
    ask_signup-Does v sess sesv =
        handler-Does redis view good signup crypto input (some (asks name)) _ n st v.address
          v.may_try v.body (parse-first Site.signup v.valid)
          (open_session-Does redis view good signup name input (valid-IsArgument name v.valid)
            (IsField-IsArgument sesv) (IsField-IsArgument sess)
            (counted redis view good signup input.ip n st) (pure-Does view none _))

    pub ask_login-Does :
        {hash salt : Text}
        → Visits login name input (asks name) n st
        → IsField 32 input.signup_sess
        → IsField 32 input.signup_sesv
        → st 0 (codes "loginUser:" ++ name) ≡ some (user hash salt)
        → length salt ≡ 32
        → Does view
            (http_server_main_loop_handler redis login crypto input)
            st
            (opened input (some salt))
            (once_asked login name input n st)
    ask_login-Does {hash} {salt} v sess sesv there size =
        handler-Does redis view good login crypto input (some (asks name)) _ n st v.address
          v.may_try v.body (parse-first Site.login v.valid)
          (open_session-Does redis view good login name input (valid-IsArgument name v.valid)
            (IsField-IsArgument sesv) (IsField-IsArgument sess)
            (counted redis view good login input.ip n st)
            (login_salt-Does redis view good name (once_asked login name input n st)
              (valid-IsArgument name v.valid) there size))

    pub submit_signup-Does :
        {hash sesv saved : Text}
        → Visits signup name input (submits Site.signup name sesv hash) n st
        → IsField 64 hash
        → IsField 32 sesv
        → IsArgument 64 input.ip_pointer
        → st 5 (codes "signup_sess:" ++ name ++ b':' ∷ sesv) ≡ some (text saved)
        → length saved ≡ 32
        → input.cookie ≡ ok saved
        → st 0 (codes "signupUser:" ++ name) ≡ none
        → takes_user (st 0 (codes "loginUser:" ++ name)) ≡ true
        → Does view (http_server_main_loop_handler redis signup crypto input) st passed (
            put 0 (codes "loginUser:" ++ name) (user hash sesv) (
              put 5
                (codes "signupOK:" ++ input.ip_pointer)
                (text (codes "1"))
                (counted redis view good signup input.ip n st)))
    submit_signup-Does {hash} {sesv} {saved} v h s p stored size cookie unknown free =
        let now = counted redis view good signup input.ip n st in
        handler-Does redis view good signup crypto input (some (submits Site.signup name sesv hash))
          _ n st v.address v.may_try v.body (parse-members Site.signup v.valid s h)
          (signup-Does redis view good crypto input name hash sesv now
            (valid-IsArgument name v.valid) (IsField-IsArgument h) (IsField-IsArgument s) p
            (record { saved = saved; stored = stored; size = size; repeated = cookie }) unknown
            free)

    pub submit_login-Ends :
        {trying sesv saved stored salt : Text}
        → Visits login name input (submits Site.login name sesv trying) n st
        → IsField 64 trying
        → IsField 32 sesv
        → st 1 (codes "login_sess:" ++ name ++ b':' ∷ sesv) ≡ some (text saved)
        → length saved ≡ 32
        → input.cookie ≡ ok saved
        → st 0 (codes "loginUser:" ++ name) ≡ some (user stored salt)
        → length stored ≡ 64
        → length salt ≡ 32
        → Ends view
            (http_server_main_loop_handler redis login crypto input)
            st
            (answer_to (calc_hash_for_login crypto name sesv stored trying))
            (counted redis view good login input.ip n st)
    submit_login-Ends {trying} {sesv} {saved} v t s at size cookie there stored_size salt_size =
        let now = counted redis view good login input.ip n st in
        handler-Does redis view good login crypto input (some (submits Site.login name sesv trying))
          _ n st v.address v.may_try v.body (parse-members Site.login v.valid s t)
          (login-Ends redis view good crypto input name trying sesv now
            (valid-IsArgument name v.valid) (IsField-IsArgument s)
            (record { saved = saved; stored = at; size = size; repeated = cookie }) there
            stored_size salt_size)
