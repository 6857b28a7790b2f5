-- ===== src/Daemon/Handler/Limits.antt =====
-- The limits on the requests of one address.
use signup_daemon.Prelude.{ℕ, ◌≤◌, ◌≡◌, ◌∙◌, ap, Bool, true, false, not, ◌++◌, codes, ltb, arith}
use signup_daemon.Js.Strings.{Text}
use signup_daemon.Daemon.{Kind, signup, login, admin, post_type_str, db_idx_ip_count}
use signup_daemon.Daemon.Redis.{
  Redis, Connection, redis_connect_thread, lost_connection, redis_get_int, redis_increment,
}
use signup_daemon.Daemon.Redis.Actions.{Result, ok, >>=-ok, require-ok}
use signup_daemon.Daemon.Handler.{too_many, max_allow_failed, failed_key, redis_check_ip}

-- The successes and the tries that an address may have.
abbrev pub IsFew : Kind → ℕ → ℕ → Type 0
IsFew signup done count = (done ≡ 0) × (count ≤ 5)
IsFew login done count = (done ≤ 6) × (count ≤ 10)
IsFew admin done count = (done ≤ 2) × (count ≤ 2)

-- What was read of an address that may go on.
pub record IsWithin {S : Type 0} (redis : Redis S) (kind : Kind) (ip : Text)
    (from to : Connection S) : Type 0 where
  pub done : ℕ
  pub count : ℕ
  pub connected : Connection S
  pub counted : Connection S
  pub connects : redis_connect_thread redis (db_idx_ip_count kind) from ≡ (true, connected)
  pub done_read :
      redis_get_int redis
        (db_idx_ip_count kind)
        (codes "EXISTS " ++ post_type_str kind ++ codes "OK:" ++ ip)
        connected
      ≡ (ok done, counted)
  pub count_read :
      redis_increment redis (db_idx_ip_count kind) 3610 (failed_key redis kind ip) counted
      ≡ (ok count, to)
  pub is_few : IsFew kind done count

is_few :
    (kind : Kind) (done count : ℕ)
    → not (too_many kind done) ≡ true
    → not (ltb (max_allow_failed kind) count) ≡ true
    → IsFew kind done count
is_few signup done count few below = (ground arith, ground arith)
is_few login done count few below = (ground arith, ground arith)
is_few admin done count few below = (ground arith, ground arith)

connects :
    {S : Type 0} (redis : Redis S) (lost : ℕ) (r : Bool × Connection S) {b : Bool}
    {to : Connection S}
    → lost_connection redis lost r ≡ (ok b, to)
    → r ≡ (true, to)
connects redis lost (true, link) h = cc
connects redis lost (false, link) h = cc

abbrev as_counted : {S : Type 0} → ℕ → Connection S → Result ℕ ℕ × Connection S
as_counted count link = (ok count, link)

-- `redis_check_ip` lets an address go on only if Redis is reached and it is within the limits of its
-- kind: no success and at most 5 tries for a sign-up, at most 6 successes and 10 tries for a login, at
-- most 2 and 2 for the administration. The successes are what Redis answers to EXISTS on the key of the
-- address, and the tries are its answer to the increment of the count, with this one counted.
pub redis_check_ip-IsWithin :
    {S : Type 0} (redis : Redis S) (kind : Kind) (ip : Text) (from to : Connection S) {b : Bool}
    → redis_check_ip redis kind ip from ≡ (ok b, to)
    → IsWithin redis kind ip from to
unfolding redis_check_ip
redis_check_ip-IsWithin redis kind ip from to h =
    let (_, l1, first, rest1) = >>=-ok _ _ from h in
    let (done, l2, second, rest2) = >>=-ok _ _ l1 rest1 in
    let (count, l3, third, rest3) = >>=-ok _ _ l2 rest2 in
    let (_, l4, fourth, rest4) = >>=-ok _ _ l3 rest3 in
    let (few, same4) = require-ok _ _ l3 fourth in
    let (below, same5) = require-ok _ _ l4 rest4 in
    record {
      done = done;
      count = count;
      connected = l1;
      counted = l2;
      connects = connects redis 111001 _ first;
      done_read = second;
      count_read = third ∙ ap (as_counted count) (same4 ∙ same5);
      is_few = is_few kind done count few below;
    }
