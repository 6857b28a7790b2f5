-- ===== src/Daemon/Accounts/Runs.antt =====
-- What a run of requests gives, from a connection that is as the thread takes it.
use signup_daemon.Prelude.{
  ℕ, ◌+◌, ◌≤◌, ◌<◌, ◌≡◌, true, some, List, ◌⊎◌, ◌&&◌, ◌==◌, map, length, Bool-cases, inl, inr,
}
use signup_daemon.Js.Strings.{Text, text_eq}
use signup_daemon.Messages.{signup, login}
use signup_daemon.Daemon.{Kind, signup, login, db_idx_ip_count}
use signup_daemon.Daemon.Hash.{Crypto}
use signup_daemon.Daemon.Redis.{Redis, Connection}
use signup_daemon.Daemon.Redis.Actions.{ok, err}
use signup_daemon.Daemon.Handler.{Exchange, max_allow_failed, failed_key}
use signup_daemon.Daemon.Store.{Store, View, IsRedis, next_count, max_count}
use signup_daemon.Daemon.Store.Calls.{IsAt, Yields}
use signup_daemon.Daemon.Accounts.{IsArgument}
use signup_daemon.Daemon.Accounts.Visits.{Visits}
use signup_daemon.Daemon.Accounts.Lockout.{attempts, from, refused, attempts-Does}

module _ {S : Type 0} (redis : Redis S) (view : View S) (good : IsRedis redis view)
    (crypto : Crypto) where
  -- An address past the limit of its tries is locked out: on a Redis that keeps its promises, from a
  -- connection that has selected what the thread takes for selected, every one of its next requests,
  -- whatever it holds, is refused with the code of the limit, each is counted as one more try, as
  -- long as Redis can count, and no other entry of the store changes.
  pub attempts-Yields :
      (kind : Kind) (ip : Text) (address : IsArgument 15 ip) (inputs : List Exchange) (n : ℕ)
      (st : Store) (link : Connection S)
      → next_count (st (db_idx_ip_count kind) (failed_key redis kind ip)) ≡ some n
      → max_allow_failed kind < n
      → n + length inputs ≤ max_count
      → IsAt view link st
      → (after : Store) × Yields view
          (attempts redis kind crypto (map (from ip) inputs))
          link
          (ok (map (λ input. err (refused redis view good kind crypto ip address st)) inputs))
          after
        × (next_count (after (db_idx_ip_count kind) (failed_key redis kind ip))
            ≡ some (n + length inputs))
        × ((d : ℕ) (key : Text)
            → ((d == db_idx_ip_count kind) && text_eq key (failed_key redis kind ip) ≡ true)
              ⊎ (after d key ≡ st d key))
  attempts-Yields kind ip address inputs n st link next above room at =
      let (after, does, more, others) =
        attempts-Does redis view good kind crypto ip address inputs n st next above room in
      (
        after,
        does link at,
        more,
        λ d key.
            elim (Bool-cases
              ((d == db_idx_ip_count kind) && text_eq key (failed_key redis kind ip))) [
                | inl same ↦ inl same
                | inr other ↦ inr (others d key other)
              ],
      )
