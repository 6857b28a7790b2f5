-- ===== src/Daemon/Accounts/Journey.antt =====
-- A user who signs up and then logs in: four requests, one after the other, on one store.
use signup_daemon.Prelude.{
  ℕ, if◌then◌else◌, ◌+◌, ◌≤◌, ◌≡◌, refl, subst, true, false, Option, none, some, List, [], ◌∷◌,
  ◌++◌, codes, arith, length,
}
use signup_daemon.Js.Strings.{Text, text_eq}
use signup_daemon.Messages.{Site, signup, login}
use signup_daemon.Validators.{is_valid_username}
use signup_daemon.Daemon.{Kind, signup, login}
use signup_daemon.Daemon.Accepts.{kind_of}
use signup_daemon.Daemon.Guards.{IsField}
use signup_daemon.Daemon.Hash.{Crypto, calc_hash_for_login}
use signup_daemon.Daemon.Request.{Root}
use signup_daemon.Daemon.Redis.{Redis, Connection}
use signup_daemon.Daemon.Redis.Actions.{Result, ok, err, Action, pure, ◌>>=◌}
use signup_daemon.Daemon.Handler.{
  Outcome, Exchange, too_many, session_key, http_server_main_loop_handler,
}
use signup_daemon.Daemon.Store.{Store, View, Entry, text, user, IsRedis, put, known, takes_user}
use signup_daemon.Daemon.Store.Calls.{Ends, Does, >>=-Does, pure-Does}
use signup_daemon.Daemon.Store.Commands.{put_self}
use signup_daemon.Daemon.Accounts.{IsArgument}
use signup_daemon.Daemon.Accounts.Requests.{passed, session_stored}
use signup_daemon.Daemon.Accounts.Submits.{answer_to}
use signup_daemon.Daemon.Accounts.Protocol.{counted, counted-next, MayTry}
use signup_daemon.Daemon.Accounts.Visits.{
  asks, submits, opened, ask_signup-Does, ask_login-Does, submit_signup-Does, submit_login-Ends,
}

-- A request with its cookie, and the two texts that the daemon would draw for a new session.
abbrev pub visit : Text → Text → Root → Result ℕ Text → Text × Text → Exchange
visit ip pointer root cookie (sess, sesv) = record {
  ip = ip;
  ip_pointer = pointer;
  body = some (some root);
  cookie = cookie;
  signup_sess = sess;
  signup_sesv = sesv;
}

login_few : (e : Option Entry) → too_many login (known e) ≡ false
login_few none = refl
login_few (some e) = refl

module _ (name ip pointer : Text) where
  -- The two requests of a page, with the texts of the first session.
  abbrev pub requests :
      Site → Text → Text → Text → Result ℕ Text → Text × Text → List (Kind × Exchange)
  requests site hash sess sesv cookie spare =
      (kind_of site, visit ip pointer (asks name) cookie (sess, sesv))
      ∷ (kind_of site, visit ip pointer (submits site name sesv hash) (ok sess) spare)
      ∷ []

  -- What they are answered.
  abbrev pub answers : Text → Text → Option Text → List Outcome
  answers sess sesv salt =
      opened (visit ip pointer (asks name) (err 0) (sess, sesv)) salt ∷ passed ∷ []

module _ {S : Type 0} (redis : Redis S) (crypto : Crypto) where
  -- The requests in the order in which they come, with the outcome of each.
  abbrev pub serve : List (Kind × Exchange) → Action (Connection S) Outcome (List Outcome)
  serve [] = pure []
  serve ((kind, input) ∷ rest) = http_server_main_loop_handler redis kind crypto input >>= λ out.
      serve rest >>= λ outs. pure (out ∷ outs)

module _ {S : Type 0} (redis : Redis S) (view : View S) (good : IsRedis redis view)
    (crypto : Crypto) where
  serve-Does :
      (kind : Kind) (input : Exchange) (rest : List (Kind × Exchange)) {st mid after : Store}
      {out : Outcome} {outs : List Outcome}
      → Does view (http_server_main_loop_handler redis kind crypto input) st out mid
      → Does view (serve redis crypto rest) mid outs after
      → Does view (serve redis crypto ((kind, input) ∷ rest)) st (out ∷ outs) after
  serve-Does kind input rest {outs = outs} first later =
      >>=-Does view _ _ first (>>=-Does view _ _ later (pure-Does view (_ ∷ outs) _))

  module _ (name ip pointer : Text) where
    -- The store after them, but for what the submission itself writes.
    abbrev pub tried_twice : ℕ → Store → Kind → Text → Text → Store
    tried_twice n st kind sess sesv = counted redis view good kind ip (n + 1) (
        session_stored redis view good kind name (visit ip pointer (asks name) (err 0) (sess, sesv))
          (counted redis view good kind ip n st))

    abbrev pub signed_up : ℕ → Store → Text → Text → Text → Store
    signed_up n st hash sess sesv = put 0 (codes "loginUser:" ++ name) (user hash sesv) (
        put 5 (codes "signupOK:" ++ pointer) (text (codes "1")) (tried_twice n st signup sess sesv))

  module _ (name ip pointer : Text) (n : ℕ) (st : Store)
      (valid : is_valid_username name ≡ (true, true)) (address : IsArgument 15 ip) where
    pub sign_up-Does :
        {hash sess sesv : Text} (cookie : Result ℕ Text) (spare : Text × Text)
        → IsField 64 hash
        → IsField 32 sess
        → IsField 32 sesv
        → IsArgument 64 pointer
        → MayTry redis view good signup ip n st
        → n + 1 ≤ 5
        → st 0 (codes "signupUser:" ++ name) ≡ none
        → takes_user (st 0 (codes "loginUser:" ++ name)) ≡ true
        → (rest : List (Kind × Exchange)) {outs : List Outcome} {after : Store}
        → Does view
            (serve redis crypto rest)
            (signed_up name ip pointer n st hash sess sesv)
            outs
            after
        → Does view
            (serve redis crypto
              (requests name ip pointer Site.signup hash sess sesv cookie spare ++ rest))
            st
            (answers name ip pointer sess sesv none ++ outs)
            after
    sign_up-Does {hash} {sess} {sesv} cookie spare h s t p may more unknown free rest later =
        let first = visit ip pointer (asks name) cookie (sess, sesv) in
        let second = visit ip pointer (submits Site.signup name sesv hash) (ok sess) spare in
        let once = counted redis view good signup ip n st in
        let mid = session_stored redis view good signup name first once in
        serve-Does signup first ((signup, second) ∷ rest)
          (ask_signup-Does redis view good crypto name first n st
            (record { valid = valid; address = address; may_try = may; body = refl }) s t)
          (serve-Does signup second rest
            (submit_signup-Does redis view good crypto name second (n + 1) mid
              (record {
                valid = valid;
                address = address;
                may_try = record {
                  few = may.few;
                  next = counted-next redis view good signup ip n st (omega arith);
                  below = more;
                };
                body = refl;
              })
              h t p (put_self 5 (session_key redis signup name sesv) (text sess) once) s.size refl
              unknown free)
            later)

    pub log_in-Does :
        {trying sess sesv stored salt : Text} (cookie : Result ℕ Text) (spare : Text × Text)
        → IsField 64 trying
        → IsField 32 sess
        → IsField 32 sesv
        → MayTry redis view good login ip n st
        → n + 1 ≤ 10
        → st 0 (codes "loginUser:" ++ name) ≡ some (user stored salt)
        → length stored ≡ 64
        → length salt ≡ 32
        → calc_hash_for_login crypto name sesv stored trying ≡ 0
        → Does view
            (serve redis crypto (requests name ip pointer Site.login trying sess sesv cookie spare))
            st
            (answers name ip pointer sess sesv (some salt))
            (tried_twice name ip pointer n st login sess sesv)
    log_in-Does {trying} {sess} {sesv} cookie spare h s t may more there stored_size salt_size
          right =
        let first = visit ip pointer (asks name) cookie (sess, sesv) in
        let second = visit ip pointer (submits Site.login name sesv trying) (ok sess) spare in
        let once = counted redis view good login ip n st in
        let mid = session_stored redis view good login name first once in
        serve-Does login first ((login, second) ∷ [])
          (ask_login-Does redis view good crypto name first n st
            (record { valid = valid; address = address; may_try = may; body = refl }) s t there
            salt_size)
          (serve-Does login second []
            (subst
              (λ rt.
                Ends view (http_server_main_loop_handler redis login crypto second) mid
                  (answer_to rt) (tried_twice name ip pointer n st login sess sesv))
              right
              (submit_login-Ends redis view good crypto name second (n + 1) mid
                (record {
                  valid = valid;
                  address = address;
                  may_try = record {
                    few = may.few;
                    next = counted-next redis view good login ip n st (omega arith);
                    below = more;
                  };
                  body = refl;
                })
                h t (put_self 1 (session_key redis login name sesv) (text sess) once) s.size refl
                there stored_size salt_size))
            (pure-Does view [] _))

  pub sign_up-log_in :
      (name ip pointer : Text) (n k : ℕ) (st : Store) {hash sess sesv trying sess' sesv' : Text}
      (cookie cookie' : Result ℕ Text) (spare spare' : Text × Text)
      → is_valid_username name ≡ (true, true)
      → IsArgument 15 ip
      → IsArgument 64 pointer
      → IsField 64 hash
      → IsField 32 sess
      → IsField 32 sesv
      → IsField 64 trying
      → IsField 32 sess'
      → IsField 32 sesv'
      → MayTry redis view good signup ip n st
      → n + 1 ≤ 5
      → MayTry redis view good login ip k st
      → k + 1 ≤ 10
      → st 0 (codes "signupUser:" ++ name) ≡ none
      → takes_user (st 0 (codes "loginUser:" ++ name)) ≡ true
      → calc_hash_for_login crypto name sesv' hash trying ≡ 0
      → (after : Store) × Does view
          (serve redis crypto (
            requests name ip pointer Site.signup hash sess sesv cookie spare
            ++ requests name ip pointer Site.login trying sess' sesv' cookie' spare'))
          st
          (answers name ip pointer sess sesv none
            ++ answers name ip pointer sess' sesv' (some sesv))
          after
        × ((other : Text)
            → after 0 (codes "loginUser:" ++ other) ≡ (
                if text_eq other name
                then some (user hash sesv)
                else st 0 (codes "loginUser:" ++ other)))
  sign_up-log_in name ip pointer n k st {hash} {sess} {sesv} {trying} {sess'} {sesv'} cookie cookie'
        spare spare' valid address p h s t h' s' t' may more may' more' unknown free right =
      let between = signed_up name ip pointer n st hash sess sesv in
      let now_known = put_self 0 (codes "loginUser:" ++ name) (user hash sesv) (
        put 5 (codes "signupOK:" ++ pointer) (text (codes "1"))
          (tried_twice name ip pointer n st signup sess sesv)) in
      (
        tried_twice name ip pointer k between login sess' sesv',
        sign_up-Does name ip pointer n st valid address cookie spare h s t p may more unknown free
            (requests name ip pointer Site.login trying sess' sesv' cookie' spare')
            (log_in-Does name ip pointer k between valid address cookie' spare' h' s' t'
              (record { few = login_few _; next = may'.next; below = may'.below }) more' now_known
              h.size t.size right),
        λ other. refl,
      )
