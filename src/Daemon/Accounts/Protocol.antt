-- ===== src/Daemon/Accounts/Protocol.antt =====
-- The four requests of a user who signs up and logs in, one after the other on one store.
use signup_daemon.Prelude.{
  ℕ, ◌+◌, ◌≤◌, ◌<◌, ◌≡◌, refl, ◌∙◌, sym, ap, subst, true, false, Option, some, [], ◌∷◌, ◌++◌, codes,
  arith, all, &&_true, length,
}
use signup_daemon.Js.Strings.{Text}
use signup_daemon.Validators.{is_name_char, is_valid_username}
use signup_daemon.Validators.Username.{HasForm-names, is_valid_username_iff}
use signup_daemon.Daemon.{Kind, post_type_str, db_idx_ip_count}
use signup_daemon.Daemon.Hash.{Crypto}
use signup_daemon.Daemon.Request.{Root, SessionRequest, parse_session_json}
use signup_daemon.Daemon.Redis.{Redis}
use signup_daemon.Daemon.Redis.Actions.{Result}
use signup_daemon.Daemon.Handler.{
  Outcome, Exchange, refuse_with, too_many, max_allow_failed, failed_key, dispatch, on_request,
  on_body, http_server_main_loop_handler,
}
use signup_daemon.Daemon.Store.{
  Store, View, count, IsRedis, put, known, next_count, max_count, is_word, is_word_char,
}
use signup_daemon.Daemon.Store.Commands.{put_self}
use signup_daemon.Daemon.Store.Calls.{Ends, >>=-Does, pure-Does, or_raise-Does}
use signup_daemon.Daemon.Accounts.{IsArgument, redis_check_ip-Does}

-- A name that the form accepts is one argument.
name_word_char : (c : ℕ) → is_name_char c ≡ true → is_word_char c ≡ true
name_word_char c h = ground arith

name_word : (s : Text) → all is_name_char s ≡ true → all is_word_char s ≡ true
name_word [] h = refl
name_word (c ∷ s) h =
    let (here, later) = &&_true _ _ h in rw (name_word_char c here) (name_word s later)

long_word : (s : Text) → all is_word_char s ≡ true → 8 ≤ length s → is_word s ≡ true
long_word [] chars long = absurd (omega arith)
long_word (c ∷ s) chars long = chars

pub valid-IsArgument : (name : Text) → is_valid_username name ≡ (true, true) → IsArgument 20 name
valid-IsArgument name valid =
    let (form, above, below) = (is_valid_username_iff name).0 valid in
    record { word = long_word name (name_word name (HasForm-names name form)) above; size = below }

counts_on : (n : ℕ) → n < max_count → next_count (some (count n)) ≡ some (n + 1)
counts_on n below = ground arith

module _ {S : Type 0} (redis : Redis S) (view : View S) (good : IsRedis redis view) where
  -- One more try of the address.
  abbrev pub counted : Kind → Text → ℕ → Store → Store
  counted kind ip n st = put (db_idx_ip_count kind) (failed_key redis kind ip) (count n) st

  -- The key of the tries of an address holds the number of the next one.
  pub counted-next :
      (kind : Kind) (ip : Text) (n : ℕ) (st : Store)
      → n < max_count
      → next_count (counted kind ip n st (db_idx_ip_count kind) (failed_key redis kind ip))
        ≡ some (n + 1)
  counted-next kind ip n st below =
      ap next_count (put_self (db_idx_ip_count kind) (failed_key redis kind ip) (count n) st)
      ∙ counts_on n below

  -- The address may go on with its n-th try.
  pub record MayTry (kind : Kind) (ip : Text) (n : ℕ) (st : Store) : Type 0 where
    pub few :
        too_many kind (known (st (db_idx_ip_count kind) (post_type_str kind ++ codes "OK:" ++ ip)))
        ≡ false
    pub next : next_count (st (db_idx_ip_count kind) (failed_key redis kind ip)) ≡ some n
    pub below : n ≤ max_allow_failed kind

  -- A request that parses comes to `dispatch`, with its try counted.
  pub handler-Does :
      (kind : Kind) (crypto : Crypto) (input : Exchange) (root : Option Root) (req : SessionRequest)
      (n : ℕ) (st : Store) {out : Result Outcome Outcome} {after : Store}
      → IsArgument 15 input.ip
      → MayTry kind input.ip n st
      → input.body ≡ some root
      → parse_session_json kind root ≡ (0, req)
      → Ends view
          (dispatch redis kind crypto input req.username req.passwd req.signup_salt)
          (counted kind input.ip n st)
          out
          after
      → Ends view (http_server_main_loop_handler redis kind crypto input) st out after
  unfolding http_server_main_loop_handler
  handler-Does kind crypto input root req n st {out} {after} address may e parses does =
      let now = counted kind input.ip n st in
      let on_req : Ends view (on_request redis kind crypto input (parse_session_json kind root)) now
          out after =
        subst (λ r. Ends view (on_request redis kind crypto input r) now out after) (sym parses)
          (>>=-Does view _ _ (pure-Does view true now) does) in
      >>=-Does view _ _
        (or_raise-Does view _ (refuse_with (codes "22") 211021)
          (redis_check_ip-Does redis view good kind input.ip address st may.few may.next may.below))
        (subst (λ b. Ends view (on_body redis kind crypto input b) now out after) (sym e) on_req)
