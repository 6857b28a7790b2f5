-- ===== src/Daemon/Accounts.antt =====
-- What the requests of a sign-up and a login do to the store, where Redis keeps its promises.
pub mod Requests
pub mod Submits
pub mod Protocol
pub mod Visits
pub mod Journey
pub mod Lockout
pub mod Library
pub mod Runs
pub mod Posts
use signup_daemon.Prelude.{
  ℕ, ◌+◌, ◌≤◌, ◌<◌, Bool-cases, inl, inr, if◌then◌else◌, ◌≡◌, refl, ◌∙◌, sym, ap, subst, Bool, true,
  false, not, Option, none, some, [], ◌∷◌, ◌++◌, codes, ltb, ◌==◌, arith, length, length-append,
  all, all-append, &&_true,
}
use signup_daemon.Js.Strings.{is_empty, Text, decimal, to_string}
use signup_daemon.Daemon.{
  Kind, signup, login, admin, post_type_str, db_idx_ip_count, database_idx_salt_login,
}
use signup_daemon.Daemon.Guards.{IsField, is_low_hex}
use signup_daemon.Daemon.Hash.{Crypto, same_start, calc_hash_for_login}
use signup_daemon.Daemon.Request.{Root, SessionRequest, parse_session_json}
use signup_daemon.Daemon.Redis.{
  Redis, Connection, redis_get_hget_string, redis_get_int, redis_increment, redis_set, redis_hset,
  connect_or,
}
use signup_daemon.Daemon.Redis.Actions.{Result, ok, Action, pure, require, ◌>>=◌, ◌>>◌, or_raise}
use signup_daemon.Daemon.Handler.{
  Outcome, Sent, plain, session, Exchange, refuse_request, refuse_with, with_code, too_many,
  max_allow_failed, failed_key, user_key, session_key, judge, login_salt, create_user, verify_user,
  by_kind, cookie_of, submit, open_session, dispatch, on_request, on_body, redis_check_ip,
  sess_handle_new_request, http_server_main_loop_handler,
}
use signup_daemon.Daemon.Store.{
  Store, View, Entry, text, count, user, IsRedis, put, known, next_count, takes_user, is_word,
  is_word_char,
}
use signup_daemon.Daemon.Store.Calls.{
  Ends, Does, Fails, >>=-Does, >>=-Fails, pure-Does, require-Does, require-Fails, or_raise-Does,
}
use signup_daemon.Daemon.Store.Commands.{get-Does, hget_hash-Does, hget_salt-Does, exists-Does}
use signup_daemon.Daemon.Store.Writes.{
  connect_or-Does, redis_increment-Does, redis_set-Does, redis_hset-Does,
}

-- A text that is one argument of a command, of at most so many bytes.
pub record IsArgument (limit : ℕ) (s : Text) : Type 0 where
  pub word : is_word s ≡ true
  pub size : length s ≤ limit

kind_word : (kind : Kind) → is_word (post_type_str kind) ≡ true
kind_word signup = refl
kind_word login = refl
kind_word admin = refl

kind_size : (kind : Kind) → length (post_type_str kind) ≤ 6
kind_size signup = omega arith
kind_size login = omega arith
kind_size admin = omega arith

pub kind_database : (kind : Kind) → db_idx_ip_count kind ≤ 15
kind_database signup = omega arith
kind_database login = omega arith
kind_database admin = omega arith

append-word : (s t : Text) → is_word s ≡ true → is_word t ≡ true → is_word (s ++ t) ≡ true
append-word [] t a b = cc
append-word (c ∷ s) t a b =
    let (_, chars) = &&_true (not (is_empty t)) _ b in rw (all-append, a) chars

pub append-IsArgument :
    (m n : ℕ) (s t : Text) → IsArgument m s → IsArgument n t → IsArgument (m + n) (s ++ t)
append-IsArgument m n s t a b =
    let size_s = a.size in
    let size_t = b.size in
    record { word = append-word s t a.word b.word; size = omega (arith, length-append s t) }

pub kind-IsArgument : (kind : Kind) → IsArgument 6 (post_type_str kind)
kind-IsArgument kind = record { word = kind_word kind; size = kind_size kind }

-- A hexadecimal text is one argument.
hex_word_char : (c : ℕ) → is_low_hex c ≡ true → is_word_char c ≡ true
hex_word_char c h = ground arith

hex_word : (s : Text) → all is_low_hex s ≡ true → all is_word_char s ≡ true
hex_word [] h = refl
hex_word (c ∷ s) h =
    let (here, later) = &&_true _ _ h in rw (hex_word_char c here) (hex_word s later)

filled_word :
    (s : Text) → all is_word_char s ≡ true → all (λ c. c == b'0') s ≡ false → is_word s ≡ true
filled_word [] chars filled = cc
filled_word (c ∷ s) chars filled = chars

pub IsField-IsArgument : {len : ℕ} {s : Text} → IsField len s → IsArgument len s
IsField-IsArgument {len} {s} f =
    let same = f.size in
    record { word = filled_word s (hex_word s f.digits) f.some_digit; size = omega arith }

module _ {S : Type 0} (redis : Redis S) (view : View S) (good : IsRedis redis view) where
  module _ (kind : Kind) (ip : Text) (address : IsArgument 15 ip) where
    -- The key that marks a success of the address.
    abbrev pub done_key : Text
    done_key = post_type_str kind ++ codes "OK:" ++ ip

    abbrev db : ℕ
    db = db_idx_ip_count kind

    done-IsArgument : IsArgument 24 done_key
    done-IsArgument =
        append-IsArgument 9 15 (post_type_str kind ++ codes "OK:") ip
          (append-IsArgument 6 3 (post_type_str kind) (codes "OK:") (kind-IsArgument kind)
            (record { word = refl; size = omega arith }))
          address

    failed-IsArgument : IsArgument 34 (failed_key redis kind ip)
    failed-IsArgument =
        append-IsArgument 28 6 (post_type_str kind ++ codes "Failed:" ++ ip) (codes ":count")
          (append-IsArgument 13 15 (post_type_str kind ++ codes "Failed:") ip
            (append-IsArgument 6 7 (post_type_str kind) (codes "Failed:") (kind-IsArgument kind)
              (record { word = refl; size = omega arith }))
            address)
          (record { word = refl; size = omega arith })

    not_over : (a b : ℕ) → b ≤ a → not (ltb a b) ≡ true
    not_over a b h = ground arith

    -- One more try is counted, and then the limits decide.
    redis_check_ip-Ends :
        (st : Store) {n : ℕ} {r : Result ℕ Bool}
        → next_count (st db (failed_key redis kind ip)) ≡ some n
        → Ends view
            (judge redis kind (known (st db done_key)) n)
            (put db (failed_key redis kind ip) (count n) st)
            r
            (put db (failed_key redis kind ip) (count n) st)
        → Ends view
            (redis_check_ip redis kind ip)
            st
            r
            (put db (failed_key redis kind ip) (count n) st)
    unfolding redis_check_ip
    redis_check_ip-Ends st {n} next judged =
        let small = kind_database kind in
        let done = done-IsArgument in
        let failed = failed-IsArgument in
        let done_size = done.size in
        let failed_size = failed.size in
        >>=-Does view _ _ (connect_or-Does redis view good 111001 db st small) (
          >>=-Does view _ _
            (exists-Does redis view good db done_key st small (omega arith) done.word refl)
            (>>=-Does view _ _
              (redis_increment-Does redis view good db (failed_key redis kind ip) st small
                (omega arith) failed.word next)
              judged))

    -- An address within its limits goes on.
    pub redis_check_ip-Does :
        (st : Store) {n : ℕ}
        → too_many kind (known (st db done_key)) ≡ false
        → next_count (st db (failed_key redis kind ip)) ≡ some n
        → n ≤ max_allow_failed kind
        → Does view
            (redis_check_ip redis kind ip)
            st
            true
            (put db (failed_key redis kind ip) (count n) st)
    redis_check_ip-Does st {n} few next below =
        let after = put db (failed_key redis kind ip) (count n) st in
        redis_check_ip-Ends st next (
          >>=-Does view _ _
            (require-Does view (not (too_many kind (known (st db done_key)))) 111011 after (rw few))
            (require-Does view (not (ltb (max_allow_failed kind) n)) 111019 after
              (not_over (max_allow_failed kind) n below)))

    -- The code for an address with too many tries.
    abbrev pub over_limit : ℕ → ℕ
    over_limit done = if too_many kind done then 111011 else 111019

    over : (a b : ℕ) → a < b → not (ltb a b) ≡ false
    over a b h = ground arith

    limits-Fails :
        (many within : Bool) (st : Store)
        → within ≡ false
        → Fails view {E = ℕ}
            (require {S = Connection S} (not many) 111011 >> require within 111019)
            st
            (if many then 111011 else 111019)
            st
    limits-Fails true within st h =
        >>=-Fails view (require {E = ℕ} false 111011) _
          (require-Fails view {E = ℕ} false 111011 st refl)
    limits-Fails false within st h =
        >>=-Does view (require {E = ℕ} true 111011) _
          (require-Does view {E = ℕ} true 111011 st refl)
          (require-Fails view {E = ℕ} within 111019 st h)

    -- Past the limit of tries it is refused, and the try is counted all the same.
    pub redis_check_ip-Fails :
        (st : Store) {n : ℕ}
        → next_count (st db (failed_key redis kind ip)) ≡ some n
        → max_allow_failed kind < n
        → Fails view
            (redis_check_ip redis kind ip)
            st
            (over_limit (known (st db done_key)))
            (put db (failed_key redis kind ip) (count n) st)
    redis_check_ip-Fails st {n} next above = redis_check_ip-Ends st next (
        limits-Fails (too_many kind (known (st db done_key))) (not (ltb (max_allow_failed kind) n))
          (put db (failed_key redis kind ip) (count n) st) (over (max_allow_failed kind) n above))
