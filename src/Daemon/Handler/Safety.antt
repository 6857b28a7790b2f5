-- ===== src/Daemon/Handler/Safety.antt =====
-- When the daemon lets a request pass.
use signup_daemon.Prelude.{
  ℕ, ◌≡◌, refl, ◌∙◌, sym, subst, ap, true, Option, none, some, ◌++◌, codes, ==_iff, arith,
}
use signup_daemon.Js.Strings.{Text}
use signup_daemon.Daemon.{login, database_idx_salt_login}
use signup_daemon.Daemon.Request.{Root, SessionRequest, parse_session_json}
use signup_daemon.Daemon.Hash.{Crypto, same_start, calc_hash_for_login}
use signup_daemon.Daemon.Redis.{Redis, Connection, redis_get_hget_string, redis_get_int}
use signup_daemon.Daemon.Redis.Actions.{Result, ok, err, >>=-ok, or_raise-ok, require-ok, pure-ok}
use signup_daemon.Daemon.Handler.Limits.{IsWithin, redis_check_ip-IsWithin}
use signup_daemon.Daemon.Handler.{
  Outcome, Exchange, user_key, session_key, verify_user, cookie_of, open_session, dispatch, on_body,
  submit, http_server_main_loop_handler,
}

module _ {S : Type 0} (redis : Redis S) where
  -- What has happened when the hash of a user was tested and found right.
  pub record HasVerified (crypto : Crypto) (name passwd salt : Text) (from to : Connection S)
      : Type 0 where
    pub stored : Text
    pub before : Connection S
    pub found :
        redis_get_hget_string redis database_idx_salt_login 64
          (codes "HGET " ++ user_key redis login name ++ codes " hash")
          from
        ≡ (ok stored, before)
    pub passes : calc_hash_for_login crypto name salt stored passwd ≡ 0

  verify_user-HasVerified :
      (crypto : Crypto) (name passwd salt : Text) (from to : Connection S) {out : Outcome}
      → verify_user redis login crypto name passwd salt from ≡ (ok out, to)
      → HasVerified crypto name passwd salt from to
  verify_user-HasVerified crypto name passwd salt from to h =
      let (stored, l1, first, rest) = >>=-ok _ _ from h in
      let (salt2, l2, second, rest2) = >>=-ok _ _ l1 rest in
      let (rt, l3, third, rest3) = >>=-ok _ _ l2 rest2 in
      let (right, _) = require-ok _ _ l3 (>>=-ok _ _ l3 rest3).2 in
      record {
        stored = stored;
        before = l1;
        found = or_raise-ok _ _ from first;
        passes = (pure-ok _ l2 third).0 ∙ (==_iff rt 0).0 right;
      }

  -- What has happened when a submission of the login page was let through.
  pub record HasLoggedIn (crypto : Crypto) (input : Exchange) (name passwd salt : Text)
      (from to : Connection S) : Type 0 where
    pub saved : Text
    pub cookie : Text
    pub known_at : Connection S
    pub checked_at : Connection S
    pub session_read :
        redis_get_hget_string redis 1 32 (codes "GET " ++ session_key redis login name salt) from
        ≡ (ok saved, known_at)
    pub cookie_read : input.cookie ≡ ok cookie
    pub same_session : same_start 33 saved cookie ≡ true
    pub is_known :
        redis_get_int redis database_idx_salt_login (codes "EXISTS loginUser:" ++ name) known_at
        ≡ (ok 1, checked_at)
    pub verified : HasVerified crypto name passwd salt checked_at to

  cookie_of-ok :
      (c : Result ℕ Text) (s : Connection S) {text : Text} {t : Connection S}
      → cookie_of redis login c s ≡ (ok text, t)
      → (c ≡ ok text) × (s ≡ t)
  cookie_of-ok (ok text) s h = (cc, ap (λ r. r.1) h)
  cookie_of-ok (err rt) s h = cc

  abbrev as_known : Connection S → ℕ → Result ℕ ℕ × Connection S
  as_known link n = (ok n, link)

  submit-HasLoggedIn :
      (crypto : Crypto) (input : Exchange) (name passwd salt : Text) (from to : Connection S)
      {out : Outcome}
      → submit redis login crypto input name passwd salt from ≡ (ok out, to)
      → HasLoggedIn crypto input name passwd salt from to
  unfolding submit
  submit-HasLoggedIn crypto input name passwd salt from to h =
      let (saved, l1, first, rest1) = >>=-ok _ _ from h in
      let (cookie, l2, second, rest2) = >>=-ok _ _ l1 rest1 in
      let (_, l3, third, rest3) = >>=-ok _ _ l2 rest2 in
      let (known, l4, fourth, rest4) = >>=-ok _ _ l3 rest3 in
      let (_, l5, fifth, rest5) = >>=-ok _ _ l4 rest4 in
      let (given, same2) = cookie_of-ok input.cookie l1 (or_raise-ok _ _ l1 second) in
      let (same, same3) = require-ok _ _ l2 third in
      let (one, same5) = require-ok _ _ l4 fifth in
      let asked = or_raise-ok _ _ l3 fourth in
      record {
        saved = saved;
        cookie = cookie;
        known_at = l1;
        checked_at = l4;
        session_read = or_raise-ok _ _ from first;
        cookie_read = given;
        same_session = same;
        is_known =
            ap
              (λ l.
                redis_get_int redis database_idx_salt_login (codes "EXISTS loginUser:" ++ name) l)
              (same2 ∙ same3)
            ∙ asked
            ∙ ap (as_known l4) ((==_iff known 1).0 one);
        verified =
            subst (λ l. HasVerified crypto name passwd salt l to) (sym same5)
              (verify_user-HasVerified crypto name passwd salt l5 to rest5);
      }

  -- A request with these members was let through.
  pub record HasPassed (crypto : Crypto) (input : Exchange) (req : SessionRequest)
      (from to : Connection S) : Type 0 where
    pub name : Text
    pub hash : Text
    pub salt : Text
    pub has_name : req.username ≡ some name
    pub has_hash : req.passwd ≡ some hash
    pub has_salt : req.signup_salt ≡ some salt
    pub logged_in : HasLoggedIn crypto input name hash salt from to

  open_session-code :
      (name : Text) (input : Exchange) (from to : Connection S) {out : Outcome}
      → open_session redis login name input from ≡ (ok out, to)
      → out.code ≡ 1
  open_session-code name input from to h =
      let (answer, l1, _, rest) = >>=-ok _ _ from h in sym (ap (λ o. o.code) (pure-ok _ l1 rest).0)

  dispatch-HasPassed :
      (crypto : Crypto) (input : Exchange) (u p s : Option Text) (from to : Connection S)
      {out : Outcome}
      → dispatch redis login crypto input u p s from ≡ (ok out, to)
      → out.code ≡ 0
      → HasPassed crypto input (record { username = u; passwd = p; signup_salt = s }) from to
  dispatch-HasPassed crypto input none p s from to h done = cc
  dispatch-HasPassed crypto input (some name) none none from to {out} h done =
      let one : out.code ≡ 1 = open_session-code name input from to h in absurd (omega arith)
  dispatch-HasPassed crypto input (some name) (some hash) none from to h done = cc
  dispatch-HasPassed crypto input (some name) none (some salt) from to h done = cc
  dispatch-HasPassed crypto input (some name) (some hash) (some salt) from to h done = record {
    name = name;
    hash = hash;
    salt = salt;
    has_name = refl;
    has_hash = refl;
    has_salt = refl;
    logged_in = submit-HasLoggedIn crypto input name hash salt from to h;
  }

  -- A on_request body that was let through.
  pub record HasBody (crypto : Crypto) (input : Exchange) (from to : Connection S) : Type 0 where
    pub root : Option Root
    pub req : SessionRequest
    pub has_body : input.body ≡ some root
    pub parses : parse_session_json login root ≡ (0, req)
    pub passed : HasPassed crypto input req from to

  on_body-HasBody :
      (crypto : Crypto) (input : Exchange) (body : Option (Option Root)) (from to : Connection S)
      {out : Outcome}
      → input.body ≡ body
      → on_body redis login crypto input body from ≡ (ok out, to)
      → out.code ≡ 0
      → HasBody crypto input from to
  on_body-HasBody crypto input none from to e h done = cc
  on_body-HasBody crypto input (some root) from to e h done =
      let (rt, req) = parse_session_json login root in
      let (_, l1, guard, rest) = >>=-ok _ _ from h in
      let (fine, same) = require-ok _ _ from guard in
      record {
        root = root;
        req = (parse_session_json login root).1;
        has_body = e;
        parses = λ i. (
          (==_iff (parse_session_json login root).0 0).0 fine i,
          (parse_session_json login root).1,
        );
        passed =
            subst (λ l. HasPassed crypto input (parse_session_json login root).1 l to) (sym same)
              (dispatch-HasPassed crypto input _ _ _ l1 to rest done);
      }

  -- A login is answered with success only if everything was checked: `redis_check_ip` found the address
  -- within the limits of a login, at most six successes and, with this one, ten tries; then the body parses to a name, a hash and a session, Redis holds a text of 32 characters for that name
  -- and session which the cookie repeats, the user is known, and the daemon computes from the stored
  -- hash and the session the hash that was submitted. This holds whatever Redis answers.
  pub http_server_main_loop_handler-HasBody :
      (crypto : Crypto) (input : Exchange) (from to : Connection S) {out : Outcome}
      → http_server_main_loop_handler redis login crypto input from ≡ (ok out, to)
      → out.code ≡ 0
      → (limits : Connection S) × IsWithin redis login input.ip from limits
        × HasBody crypto input limits to
  unfolding http_server_main_loop_handler
  http_server_main_loop_handler-HasBody crypto input from to h done =
      let (_, limits, first, rest) = >>=-ok _ _ from h in
      (
        limits,
        redis_check_ip-IsWithin redis login input.ip from limits (or_raise-ok _ _ from first),
        on_body-HasBody crypto input input.body limits to refl rest done,
      )
