-- ===== src/Daemon/Accounts/Lockout.antt =====
-- An address that has tried too often.
use signup_daemon.Prelude.{
  ℕ, ◌+◌, ◌<◌, ◌≤◌, ◌≡◌, refl, ◌∙◌, ap, subst, false, some, List, [], ◌∷◌, ◌++◌, codes, arith, map,
  length, ◌==◌, ◌&&◌,
}
use signup_daemon.Js.Strings.{Text, text_eq}
use signup_daemon.Daemon.{Kind, signup, login, admin, post_type_str, db_idx_ip_count}
use signup_daemon.Daemon.Hash.{Crypto}
use signup_daemon.Daemon.Redis.{Redis, Connection}
use signup_daemon.Daemon.Redis.Actions.{Result, ok, err, Action, pure, ◌>>=◌}
use signup_daemon.Daemon.Handler.{
  Outcome, Exchange, refuse_with, max_allow_failed, failed_key, http_server_main_loop_handler,
}
use signup_daemon.Daemon.Store.{
  Store, View, Entry, count, IsRedis, put, known, next_count, max_count,
}
use signup_daemon.Daemon.Store.Calls.{
  Ends, Does, Fails, >>=-Does, >>=-Fails, pure-Does, or_raise-Fails,
}
use signup_daemon.Daemon.Accounts.{IsArgument, done_key, over_limit, redis_check_ip-Fails}
use signup_daemon.Daemon.Accounts.Protocol.{counted, counted-next}

put_other :
    (db : ℕ) (key : Text) (e : Entry) (st : Store) (d : ℕ) (k : Text)
    → ((d == db) && text_eq k key) ≡ false
    → put db key e st d k ≡ st d k
put_other db key e st d k h = rw h

other_key :
    (kind : Kind) (ip : Text)
    → text_eq
        (post_type_str kind ++ codes "OK:" ++ ip)
        (post_type_str kind ++ codes "Failed:" ++ ip ++ codes ":count")
      ≡ false
other_key signup ip = refl
other_key login ip = refl
other_key admin ip = refl

-- An action with its result, whichever it is.
abbrev pub attempt : {S E F A : Type 0} → Action S E A → Action S F (Result E A)
attempt m s = let (r, t) = m s in (ok r, t)

abbrev pub from : Text → Exchange → Exchange
from ip input = record input { ip = ip }

module _ {S : Type 0} (redis : Redis S) (kind : Kind) (crypto : Crypto) where
  -- The requests in the order in which they come, with the result of each.
  abbrev pub attempts :
      List Exchange → Action (Connection S) Outcome (List (Result Outcome Outcome))
  attempts [] = pure []
  attempts (input ∷ rest) = attempt (http_server_main_loop_handler redis kind crypto input) >>= λ r.
      attempts rest >>= λ rs. pure (r ∷ rs)

module _ {S : Type 0} (redis : Redis S) (view : View S) (good : IsRedis redis view) where
  attempt-Does :
      {E F A : Type 0} (m : Action (Connection S) E A) {before after : Store} {r : Result E A}
      → Ends view m before r after
      → Does view (attempt {F = F} m) before r after
  attempt-Does m ends link at =
      let one = ends link at in record { to = one.to; runs = rw one.runs; stands = one.stands }

  module _ (kind : Kind) (crypto : Crypto) (ip : Text) (address : IsArgument 15 ip) where
    abbrev db : ℕ
    db = db_idx_ip_count kind

    -- The refusal of the address.
    abbrev pub refused : Store → Outcome
    refused st = refuse_with (codes "22") 211021 (
        over_limit redis view good kind ip address
          (known (st db (done_key redis view good kind ip address))))

    one-Fails :
        (input : Exchange) (n : ℕ) (st : Store)
        → next_count (st db (failed_key redis kind ip)) ≡ some n
        → max_allow_failed kind < n
        → Fails view
            (http_server_main_loop_handler redis kind crypto (from ip input))
            st
            (refused st)
            (counted redis view good kind ip n st)
    unfolding http_server_main_loop_handler
    one-Fails input n st next above = >>=-Fails view _ _ (
        or_raise-Fails view _ (refuse_with (codes "22") 211021)
          (redis_check_ip-Fails redis view good kind ip address st next above))

    done_other :
        (db == db) && text_eq (done_key redis view good kind ip address) (failed_key redis kind ip)
        ≡ false
    done_other = let other = other_key kind ip in ground arith

    refused-counted :
        (n : ℕ) (st : Store) → refused (counted redis view good kind ip n st) ≡ refused st
    refused-counted n st =
        ap
          (λ e.
            refuse_with (codes "22") 211021 (over_limit redis view good kind ip address (known e)))
          (put_other db (failed_key redis kind ip) (count n) st db
            (done_key redis view good kind ip address) done_other)

    pub attempts-Does :
        (inputs : List Exchange) (n : ℕ) (st : Store)
        → next_count (st db (failed_key redis kind ip)) ≡ some n
        → max_allow_failed kind < n
        → n + length inputs ≤ max_count
        → (after : Store) × Does view
            (attempts redis kind crypto (map (from ip) inputs))
            st
            (map (λ input. err (refused st)) inputs)
            after
          × (next_count (after db (failed_key redis kind ip)) ≡ some (n + length inputs))
          × ((d : ℕ) (key : Text)
              → ((d == db) && text_eq key (failed_key redis kind ip)) ≡ false
              → after d key ≡ st d key)
    attempts-Does [] n st next above room =
        (st, pure-Does view [] st, next ∙ ap some (omega arith), λ d key h. refl)
    attempts-Does (input ∷ inputs) n st next above room =
        let mid = counted redis view good kind ip n st in
        let (after, does, more, others) =
          attempts-Does inputs (n + 1) mid (counted-next redis view good kind ip n st (omega arith))
            (omega arith) (omega arith) in
        (
          after,
          >>=-Does view _ _ (attempt-Does _ (one-Fails input n st next above)) (
              >>=-Does view _ _
                (subst
                  (λ o.
                    Does view (attempts redis kind crypto (map (from ip) inputs)) mid
                      (map (λ input. err o) inputs) after)
                  (refused-counted n st) does)
                (pure-Does view (err (refused st) ∷ map (λ input. err (refused st)) inputs) after)),
          more ∙ ap some (omega arith),
          λ d key h. others d key h ∙ put_other db (failed_key redis kind ip) (count n) st d key h,
        )
