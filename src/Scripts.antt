-- ===== src/Scripts.antt =====
-- The scripts of signup_html/index.html and login_html/index.html in their order, with the functions
-- that each declares at the top, the placeholders of form_submit_utils.js and
-- form_submit_validation.js, and `getCookie` of form.js. A later declaration of a name replaces an
-- earlier one.
pub mod Placeholders
use signup_daemon.Prelude.{
  Bool, true, false, Option, none, some, List, [], ◌∷◌, ◌++◌, codes, if◌then◌else◌,
}
use Prim.Native.String.{String}
use signup_daemon.Js.Strings.{Text, text_eq, strip_prefix, split_at}
use signup_daemon.Messages.{Site, signup, login}

pub data Script : Type 0 where
  env form form_submit get_or_create_session form_submit_handle session_manager : Script
  form_submit_utils form_submit_validation lang password_input password password_listener : Script
  ui ui_listener ui_update utils validators load_argon2 calc_passhash cookie_get : Script

abbrev pub declared : Script → List String
declared env = []
declared form = "setupFormSubmit" ∷ "getCookie" ∷ "initializeArgon2" ∷ []
declared form_submit = "handleFormSubmit" ∷ []
declared get_or_create_session = "getOrAskForAtmpSession" ∷ []
declared form_submit_handle =
    "handleSignupSuccess" ∷ "handleSignupError" ∷ "validateFormInputs" ∷ []
declared session_manager =
    "handleSessionError" ∷ "jsonGetHex32" ∷ "jsonGetHexLen" ∷ "askForNewTmpSession" ∷ []
declared form_submit_utils = "sha256" ∷ "getCookie" ∷ "getCurrentLanguage" ∷ "getMessages" ∷ []
declared form_submit_validation =
    "isValidUsername" ∷ "isValidPasswordChars" ∷ "hasRepeatingChars" ∷ "hasSequentialChars" ∷ []
declared lang = []
declared password_input = "handlePasswordInput" ∷ []
declared password = "renderPassword" ∷ "placeCaretAtPosition" ∷ "initializePassword" ∷ []
declared password_listener = "setupPasswordListeners" ∷ []
declared ui = "applyLanguage" ∷ "placeCaretAtEnd" ∷ "initializeUI" ∷ []
declared ui_listener =
    "setupLanguageListener" ∷ "setupUsernameListener" ∷ "setupClearButtonListeners" ∷ []
declared ui_update =
    "updateStrength" ∷ "updatePasswordLabelLength" ∷ "updatePasswordPreview"
    ∷ "togglePasswordVisibility" ∷ []
declared utils = "sha256" ∷ "getCurrentLanguage" ∷ "getMessages" ∷ []
declared validators =
    "isValidUsername" ∷ "isValidPasswordChars" ∷ "hasRepeatingChars" ∷ "hasSequentialChars" ∷ []
declared load_argon2 = []
declared calc_passhash = "calc_passHash" ∷ "calc_passHash_ArgonSha256" ∷ []
declared cookie_get = "get_cookie_by_name" ∷ "get_cookie_md5_6" ∷ []

abbrev common : List Script
common =
    env ∷ form ∷ form_submit ∷ get_or_create_session ∷ form_submit_handle ∷ session_manager
    ∷ form_submit_utils ∷ form_submit_validation ∷ lang ∷ password_input ∷ password
    ∷ password_listener ∷ ui ∷ ui_listener ∷ ui_update ∷ utils ∷ validators ∷ load_argon2
    ∷ calc_passhash ∷ []

abbrev pub scripts : Site → List Script
scripts signup = common
scripts login = common ++ cookie_get ∷ []

abbrev pub declares : List String → Text → Bool
declares [] name = false
declares (d ∷ ds) name =
    let later = declares ds name in if text_eq (codes d) name then true else later

-- The last script that declares the name.
unfoldable pub in_force : List Script → Text → Option Script
in_force [] name = none
in_force (s ∷ rest) name = elim (in_force rest name) [
  | none ↦ if declares (declared s) name then some s else none
  | some later ↦ some later
]

-- `document.cookie.split(sep)`: the first piece and what follows the first separator.
abbrev cut : Text → Text → Text × Option Text
cut sep [] = ([], none)
cut sep (c ∷ s) =
    let (piece, rest) = cut sep s in
    elim (strip_prefix sep (c ∷ s)) [ none ↦ (c ∷ piece, rest) | some after ↦ ([], some after) ]

abbrev head_or : Text → List Text → Text
head_or default [] = default
head_or default (t ∷ ts) = t

-- The second of exactly two parts, up to the first `;`. Separators that overlap are not apart.
abbrev second_part_of : Text → Text × Option Text → Option Text
second_part_of sep (piece, none) = none
second_part_of sep (piece, some rest) = elim (cut sep rest).1 [
  | none ↦ some (head_or [] (split_at b';' rest))
  | some more ↦ none
]

-- `getCookie` of form.js on `document.cookie`
unfoldable pub get_cookie : Text → Text → Option Text
unfolding split_at
get_cookie cookies name =
    let sep = codes "; " ++ name ++ codes "=" in
    second_part_of sep (cut sep (codes "; " ++ cookies))
