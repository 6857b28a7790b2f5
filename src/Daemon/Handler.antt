-- ===== src/Daemon/Handler.antt =====
-- src/redis_check_ip.c, src/sess_handle_new_request.c with src/send_response_sess.c, and
-- src/http_server_main_loop_handler.c: one request from the check of its address to the response.

pub mod Safety
pub mod Limits
use signup_daemon.Prelude.{
  ℕ, ◌+◌, Bool, true, false, not, ◌&&◌, ◌||◌, Option, none, some, List, [], ◌∷◌, ◌++◌, codes, ltb,
  ◌==◌, if◌then◌else◌,
}
use signup_daemon.Js.Strings.{Text, decimal}
use signup_daemon.Daemon.{
  Kind, signup, login, admin, post_type_str, db_idx_ip_count, database_idx_salt_login,
}
use signup_daemon.Daemon.Request.{Root, SessionRequest, parse_session_json}
use signup_daemon.Daemon.Hash.{Crypto, same_start, calc_hash_for_login}
use signup_daemon.Daemon.Redis.{
  Redis, Connection, redis_connect_thread, redis_get_hget_string, redis_get_int, redis_increment,
  redis_set, redis_hset, connect_or,
}
use signup_daemon.Daemon.Redis.Actions.{
  Result, ok, err, Action, pure, raise, require, ◌>>=◌, ◌>>◌, or_raise,
}

-- A response: 422 with its text, 200 without one, or 200 with the cookie `…_sess`, the member
-- `…_sess` and, at a login, the member `…_salt`.
pub data Sent : Type 0 where
  refusal : Text → Sent
  plain : Sent
  session : Text → Text → Option Text → Sent

-- The code that the handler returns and the responses that it has sent.
pub record Outcome : Type 0 where
  pub code : ℕ
  pub sent : List Sent

-- `send_response(…, 422, …); return code;`
abbrev pub refuse_request : ℕ → Text → Outcome
refuse_request code text = record { code = code; sent = refusal text ∷ [] }

abbrev pub with_code : Text → ℕ → Text
with_code text code = text ++ b':' ∷ decimal code

abbrev pub refuse_with : Text → ℕ → ℕ → Outcome
refuse_with text code rt = refuse_request code (with_code text rt)

-- What a request brings: the address of the client, the text that "%s" makes of the pointer to it,
-- the root of the body after the empty line (`none` where there is no such line), the result of
-- `cookie_extract`, and two new session texts.
pub record Exchange : Type 0 where
  pub ip : Text
  pub ip_pointer : Text
  pub body : Option (Option Root)
  pub cookie : Result ℕ Text
  pub signup_sess : Text
  pub signup_sesv : Text

-- More successes than an address may have within the hour.
abbrev pub too_many : Kind → ℕ → Bool
too_many signup n = not (n == 0)
too_many login n = ltb 6 n
too_many admin n = ltb 2 n

abbrev pub max_allow_failed : Kind → ℕ
max_allow_failed signup = 5
max_allow_failed login = 10
max_allow_failed admin = 2

module _ {S : Type 0} (redis : Redis S) (kind : Kind) where
  abbrev pub failed_key : Text → Text
  failed_key ip = post_type_str kind ++ codes "Failed:" ++ ip ++ codes ":count"

  abbrev pub judge : ℕ → ℕ → Action (Connection S) ℕ Bool
  judge done count = do
    require (not (too_many kind done)) 111011
    require (not (ltb (max_allow_failed kind) count)) 111019

  -- `redis_check_ip`: an error is the code that is returned.
  unfoldable pub redis_check_ip : Text → Action (Connection S) ℕ Bool
  unfolding redis_connect_thread redis_get_int redis_increment
  redis_check_ip ip = do
    connect_or redis 111001 (db_idx_ip_count kind)
    done ←
        redis_get_int redis (db_idx_ip_count kind)
          (codes "EXISTS " ++ post_type_str kind ++ codes "OK:" ++ ip)
    count ← redis_increment redis (db_idx_ip_count kind) 3610 (failed_key ip)
    judge done count

  abbrev pub user_key : Text → Text
  user_key name = codes "loginUser:" ++ name

  abbrev pub session_key : Text → Text → Text
  session_key name sesv = post_type_str kind ++ codes "_sess:" ++ name ++ b':' ∷ sesv

  abbrev pub login_salt : Kind → Text → Action (Connection S) ℕ (Option Text)
  login_salt login name =
      (redis_get_hget_string redis database_idx_salt_login 32
        (codes "HGET " ++ user_key name ++ codes " salt"))
      >>= λ salt. pure (some salt)
  login_salt _ name = pure none

  -- `sess_handle_new_request`: the response. The page gets 161001 or 161010 in no response at all.
  unfoldable pub sess_handle_new_request : Text → Exchange → Action (Connection S) ℕ Sent
  unfolding redis_set redis_get_hget_string
  sess_handle_new_request name input = do
    or_raise
        (redis_set redis (db_idx_ip_count kind) 300
          (codes "SET " ++ session_key name input.signup_sesv ++ b' ' ∷ input.signup_sess))
        (λ rt. 161001)
    salt ← or_raise (login_salt kind name) (λ rt. 161010)
    pure (session input.signup_sess input.signup_sesv salt)

  -- The record of a new user, once the name is free.
  abbrev pub create_user : Text → Text → Text → Text → Action (Connection S) Outcome Outcome
  create_user pointer name passwd salt = do
    or_raise
        (redis_set redis (db_idx_ip_count kind) 3600
          (codes "SET signupOK:" ++ pointer ++ codes " 1"))
        (refuse_with (codes "34") 211101)
    or_raise
        (redis_hset redis database_idx_salt_login 2592000 (user_key name)
          (codes "hash " ++ passwd ++ codes " salt " ++ salt ++ codes " level 0 status active"))
        (refuse_with (codes "44") 211111)
    pure (record { code = 0; sent = plain ∷ [] })

  -- The test of a login, once the name is known. The `salt` that is read is not used.
  abbrev pub verify_user : Crypto → Text → Text → Text → Action (Connection S) Outcome Outcome
  verify_user crypto name passwd salt = do
    hash ←
        or_raise
          (redis_get_hget_string redis database_idx_salt_login 64
            (codes "HGET " ++ user_key name ++ codes " hash"))
          (λ rt. refuse_request 211130 (codes "29:211130"))
    or_raise
        (redis_get_hget_string redis database_idx_salt_login 32
          (codes "HGET " ++ user_key name ++ codes " salt"))
        (λ rt. refuse_request 211140 (codes "29:211140"))
    rt ← pure (calc_hash_for_login crypto name salt hash passwd)
    require (rt == 0) (refuse_request 211121 (with_code (codes "54") rt ++ codes ":211121"))
    pure (record { code = 0; sent = plain ∷ [] })

  abbrev pub by_kind :
      Crypto → Kind → Text → Text → Text → Text → ℕ → Action (Connection S) Outcome Outcome
  by_kind crypto signup pointer name passwd salt known =
      require (not (known == 1)) (refuse_request 211100 (codes "29:211100"))
      >> create_user pointer name passwd salt
  by_kind crypto _ pointer name passwd salt known =
      require (known == 1) (refuse_request 211120 (codes "29:211120"))
      >> verify_user crypto name passwd salt

  abbrev pub cookie_of : Result ℕ Text → Action (Connection S) ℕ Text
  cookie_of (ok text) = pure text
  cookie_of (err rt) = raise rt

  -- A request with a hash and a salt.
  unfoldable pub submit :
      Crypto → Exchange → Text → Text → Text → Action (Connection S) Outcome Outcome
  unfolding redis_set redis_hset redis_get_int redis_get_hget_string calc_hash_for_login
  submit crypto input name passwd salt = do
    saved ←
        or_raise
          (redis_get_hget_string redis (db_idx_ip_count kind) 32
            (codes "GET " ++ session_key name salt))
          (refuse_with (codes "34") 211061)
    cookie ← or_raise (cookie_of input.cookie) (refuse_with (codes "38") 211071)
    require (same_start 33 saved cookie) (refuse_request 211081 (codes "39"))
    known ←
        or_raise
          (redis_get_int redis database_idx_salt_login
            (codes "EXISTS " ++ post_type_str kind ++ codes "User:" ++ name))
          (λ rt. refuse_request 211091 (with_code (codes "24") rt ++ codes ":-1"))
    by_kind crypto kind input.ip_pointer name passwd salt known

  abbrev pub open_session : Text → Exchange → Action (Connection S) Outcome Outcome
  open_session name input =
      or_raise (sess_handle_new_request name input) (λ rt. record { code = 211051; sent = [] })
      >>= λ answer. pure (record { code = 1; sent = answer ∷ [] })

  -- On the members of the request. After a parse that ends with 0 the name is there, and the hash and
  -- the salt are both there or both missing; the other cases are not reached.
  abbrev pub dispatch :
      Crypto
      → Exchange
      → Option Text
      → Option Text
      → Option Text
      → Action (Connection S) Outcome Outcome
  dispatch crypto input (some name) none none = open_session name input
  dispatch crypto input (some name) (some passwd) (some salt) = submit crypto input name passwd salt
  dispatch crypto input _ _ _ = raise (refuse_request 211041 [])

  abbrev pub on_request :
      Crypto → Exchange → ℕ × SessionRequest → Action (Connection S) Outcome Outcome
  on_request crypto input (rt, req) =
      require (rt == 0) (refuse_with (codes "30") 211041 rt)
      >> dispatch crypto input req.username req.passwd req.signup_salt

  abbrev pub on_body :
      Crypto → Exchange → Option (Option Root) → Action (Connection S) Outcome Outcome
  on_body crypto input none = raise (refuse_request 211031 (codes "24"))
  on_body crypto input (some root) = on_request crypto input (parse_session_json kind root)

  -- `http_server_main_loop_handler` on pointers that are not null
  unfoldable pub http_server_main_loop_handler :
      Crypto → Exchange → Action (Connection S) Outcome Outcome
  unfolding redis_check_ip sess_handle_new_request submit parse_session_json
  http_server_main_loop_handler crypto input =
      or_raise (redis_check_ip input.ip) (refuse_with (codes "22") 211021)
      >> on_body crypto input input.body
