-- ===== src/Scripts/Placeholders.antt =====
-- signup_html/form_submit_utils.js and signup_html/form_submit_validation.js: functions that stand in
-- for those of utils.js and validators.js until these are loaded.
use signup_daemon.Prelude.{Bool, true, false, Option, none, List, [], ◌∷◌, codes}
use signup_daemon.Js.Strings.{Text}

abbrev pub placeholder_sha256 : Text → Text
placeholder_sha256 input = codes "0123456789abcdef"

-- `null`
abbrev pub placeholder_get_cookie : Text → Option Text
placeholder_get_cookie name = none

abbrev pub placeholder_current_language : Text
placeholder_current_language = codes "en"

-- The members of the object, whatever the language.
abbrev pub placeholder_messages : Text → List (Text × Text)
placeholder_messages lang =
    (codes "invalid_username_format", codes "Invalid username format")
    ∷ (codes "invalid_username_length", codes "Username length is invalid")
    ∷ (codes "password_too_short", codes "Password must be at least 14 characters")
    ∷ (codes "invalid_password_chars", codes "Password contains invalid characters")
    ∷ (codes "password_repeating_chars", codes "Password contains repeating characters")
    ∷ (codes "password_sequence_chars", codes "Password contains sequential characters")
    ∷ (codes "invalid_password", codes "Invalid password")
    ∷ (codes "too_more_tries", codes "Missing signup session")
    ∷ (codes "error_get_signup_session", codes "Error getting signup session")
    ∷ (codes "password_module_not_loaded", codes "Password module not loaded")
    ∷ (codes "password_calc_failed", codes "Password calculation failed")
    ∷ (codes "submit_btn", codes "Submit")
    ∷ (codes "success", codes "Registration successful! Redirecting to login page")
    ∷ (codes "success2", codes "Success!")
    ∷ (codes "error_status", codes "Error: status $status (code $extraCode)")
    ∷ []

abbrev pub placeholder_is_valid_username : Text → Bool × Bool
placeholder_is_valid_username username = (true, true)

abbrev pub placeholder_is_valid_password_chars : Text → Bool
placeholder_is_valid_password_chars password = true

abbrev pub placeholder_has_repeating_chars : Text → Bool
placeholder_has_repeating_chars password = false

abbrev pub placeholder_has_sequential_chars : Text → Bool
placeholder_has_sequential_chars password = false
