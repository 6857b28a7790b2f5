-- ===== src/TestPage/Controls.antt =====
-- The controls of the test page: the inputs with their clear buttons, the buttons that generate a
-- session, the tabs, and what `argon2Ready` unlocks.
use signup_daemon.Prelude.{ℕ, ◌/◌, ◌≡◌, Bool, true, false, not, List, [], codes, length, all, ltb}
use signup_daemon.Js.Strings.{Text, is_empty}
use signup_daemon.PassHash.{hex_bytes}
use signup_daemon.PassHash.Hex.{IsHex, hex_bytes-IsHex}
use signup_daemon.TestPage.{Status}

-- An input and whether its clear button is shown.
pub record Input : Type 0 where
  pub value : Text
  pub clear_shown : Bool

-- Each clear button at the start, on `input` with the new value, and on its click.
unfoldable pub set_up_clear : Input → Input
set_up_clear i = record i { clear_shown = not (is_empty i.value) }

unfoldable pub on_input : Text → Input → Input
on_input value i = record { value = value; clear_shown = not (is_empty value) }

unfoldable pub on_clear : Input → Input
on_clear i = record { value = []; clear_shown = false }

-- `generateRandomHex(length)`; the argument is `crypto.getRandomValues` of an array of that size.
unfoldable pub generate_random_hex : (ℕ → List ℕ) → ℕ → Text
unfolding hex_bytes
generate_random_hex random length = hex_bytes (random (length / 2))

-- `generate-session` and `generate-login-session`, each with its input
unfoldable pub on_generate : (ℕ → List ℕ) → Input → Input
unfolding generate_random_hex
on_generate random i = record { value = generate_random_hex random 32; clear_shown = true }

pub data Tab : Type 0 where
  signup_tab login_tab : Tab

pub record Controls : Type 0 where
  pub status : Status
  pub active : Tab
  -- `disabled` of the two calculate buttons, and whether the two generate buttons are displayed
  pub calculate_disabled : Bool
  pub generate_displayed : Bool

-- The callback that is given to `argon2Ready`.
unfoldable pub on_ready : Controls → Controls
on_ready c = record c {
  status = record c.status { text = codes "Argon2 ready"; loading = false };
  calculate_disabled = false;
  generate_displayed = false;
}

-- The click on a tab.
unfoldable pub on_tab : Tab → Controls → Controls
on_tab tab c = record c { active = tab; status = record c.status { text = codes "." } }

-- `crypto.getRandomValues` fills an array with as many bytes as it has places.
abbrev pub IsRandom : (ℕ → List ℕ) → Type 0
IsRandom random = (n : ℕ) → (length (random n) ≡ n) × (all (λ b. ltb b 256) (random n) ≡ true)

-- A generated session has the form that the sites ask of one.
pub generate_random_hex-IsHex :
    (random : ℕ → List ℕ) → IsRandom random → IsHex 32 (generate_random_hex random 32)
unfolding generate_random_hex
generate_random_hex-IsHex random ok =
    let (size, bytes) = ok 16 in let hex = hex_bytes-IsHex (random 16) bytes in rw size at hex
