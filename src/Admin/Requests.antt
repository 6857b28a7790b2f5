-- ===== src/Admin/Requests.antt =====
-- `fetchWithTimeout`, `showError` and `hideError` of admin_html/main.js.
use signup_daemon.Prelude.{ℕ, ◌≤◌, ◌≡◌, refl, Bool, true, false, arith, ltb, if◌then◌else◌}
use signup_daemon.Js.Strings.{Text}
use signup_daemon.Admin.Api.{Answer, error}

-- What the network does with a request: the head of an answer, or an error, after some milliseconds,
-- or nothing at all.
pub data Delivery : Type 0 where
  settles : ℕ → Answer → Delivery
  hangs : Delivery

-- A promise that is settled, with the time, and whether the timer was cleared by then.
pub record Settled : Type 0 where
  pub time : ℕ
  pub outcome : Answer
  pub cleared : Bool

-- The rejection of a request that `controller.abort()` ends.
abbrev pub aborted : ℕ → Text → Settled
aborted timeout message = record { time = timeout; outcome = error message; cleared = true }

-- `fetchWithTimeout`, with the message of the browser's `AbortError`. The timer is set before the
-- request, so it comes first where both fall on one time.
unfoldable pub fetch_with_timeout : ℕ → Text → Delivery → Settled
fetch_with_timeout timeout message (settles time head) =
    if ltb time timeout
    then record { time = time; outcome = head; cleared = true }
    else aborted timeout message
fetch_with_timeout timeout message hangs = aborted timeout message

-- The elements `errorContainer`, `errorMessage` and `loadingStatus`.
pub record ErrorBox : Type 0 where
  pub shown : Bool
  pub message : Text
  pub loading_shown : Bool

unfoldable pub show_error : Text → ErrorBox → ErrorBox
show_error message box = record { shown = true; message = message; loading_shown = false }

unfoldable pub hide_error : ErrorBox → ErrorBox
hide_error box = record box { shown = false }

-- Whatever the network does, the promise is settled by the time limit, and the timer is cleared.
fetch_with_timeout-settles :
    (timeout : ℕ) (message : Text) (d : Delivery)
    → ((fetch_with_timeout timeout message d).time ≤ timeout)
      × ((fetch_with_timeout timeout message d).cleared ≡ true)
unfolding fetch_with_timeout
fetch_with_timeout-settles timeout message (settles time head) = ground arith
fetch_with_timeout-settles timeout message hangs = (omega arith, refl)
