-- ===== src/Tests/Typing.antt =====
-- A password typed into the field.
use signup_daemon.Prelude.{ℕ, ◌+◌, ◌-◌, ◌≡◌, refl, true, false, some, List, [], ◌∷◌, codes, arith}
use signup_daemon.Password.{Fields, insert_text, handle_password_input, initialize_password}
use signup_daemon.Password.Rendering.{IsShown, input, start, next, Reachable-IsShown}
use signup_daemon.Password.Keys.{
  Key, char, backspace, delete, paste, Browser, IsBrowser, Plain, Stands, press_all, plain_keys,
  plain_key,
}
use signup_daemon.Password.Typing.{press_all-Stands}
use signup_daemon.Tests.{messages}

abbrev pub fresh : Fields
fresh = record {
  real = [];
  credential = [];
  credential_real = [];
  shows = false;
  preview = [];
  label = [];
  strength = [];
  strength_class = [];
  selection = some (0, 0);
  focused = true;
}

abbrev typed : Fields
typed =
    handle_password_input messages (insert_text (codes "x"))
      (record (initialize_password messages fresh) {
        credential = codes "x";
        selection = some (1, 1);
      })

Reachable-IsShown_example : IsShown messages typed
Reachable-IsShown_example = Reachable-IsShown messages typed (
    next (initialize_password messages fresh) typed (start fresh) (
      input (initialize_password messages fresh) (insert_text (codes "x")) (codes "x")
        (some (1, 1))))

abbrev offset_after : Key → ℕ → ℕ
offset_after (char c) i = i + 1
offset_after backspace i = i - 1
offset_after _ i = i

abbrev browser : Browser
browser = record { content = λ k t i. t; offset = offset_after }

browser-IsBrowser : IsBrowser browser
browser-IsBrowser = record { forward = λ c i. refl; backward = λ i. omega arith }

abbrev empty : Plain
empty = record { text = []; caret = 0 }

fresh-Stands : Stands fresh empty
fresh-Stands = record {
  real = refl;
  selection = refl;
  focused = refl;
  inside = omega arith;
  credential = refl;
}

abbrev keys : List Key
keys = char b'a' ∷ paste (codes "bcd") ∷ backspace ∷ delete ∷ []

-- The four keys leave `abc`.
plain_keys-abc : plain_keys keys empty ≡ record { text = codes "abc"; caret = 3 }
unfolding plain_keys plain_key
plain_keys-abc = refl

press_all-Stands_example : Stands (press_all browser messages keys fresh) (plain_keys keys empty)
press_all-Stands_example =
    press_all-Stands messages browser keys fresh empty browser-IsBrowser fresh-Stands
