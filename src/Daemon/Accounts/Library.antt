-- ===== src/Daemon/Accounts/Library.antt =====
-- What the daemon relies on of its JSON library, for the bodies of the pages.
use signup_daemon.Prelude.{
  ℕ, ◌≡◌, refl, Bool, true, not, ◌&&◌, Option, some, List, [], ◌∷◌, codes, arith, all, leb, ltb,
  &&_true,
}
use signup_daemon.Js.Strings.{Text, text_eq}
use signup_daemon.Js.Json.{Scalar, number, text, nothing}
use signup_daemon.Js.Json.Read.{read_object}
use signup_daemon.Messages.{Site, signup, login}
use signup_daemon.Daemon.{signup, login}
use signup_daemon.Validators.{is_name_char}
use signup_daemon.Daemon.Accepts.{loaded, members}
use signup_daemon.Daemon.Guards.{is_low_hex}
use signup_daemon.Daemon.Request.{Root, object}

abbrev absent : Text → List (Text × Scalar) → Bool
absent key [] = true
absent key ((k, v) ∷ ms) = not (text_eq key k) && absent key ms

abbrev names_differ : List (Text × Scalar) → Bool
names_differ [] = true
names_differ ((k, v) ∷ ms) = absent k ms && names_differ ms

abbrev is_visible : ℕ → Bool
is_visible c = leb 0x20 c && ltb c 0x7f

abbrev is_small_value : Scalar → Bool
is_small_value (number n) = ltb n 2147483648
is_small_value (text s) = all is_visible s
is_small_value nothing = true

abbrev is_small : Text × Scalar → Bool
is_small (k, v) = all is_visible k && is_small_value v

-- The JSON library reads an object of visible ASCII texts, numbers of 31 bits and `null`, whose names
-- differ, as `read_object` does.
pub record ReadsObjects (json : Text → Option Root) : Type 0 where
  pub reads :
      (t : Text) {ms : List (Text × Scalar)}
      → read_object t ≡ some ms
      → names_differ ms ≡ true
      → all is_small ms ≡ true
      → json t ≡ some (object (loaded ms))

hex_visible_char : (c : ℕ) → is_low_hex c ≡ true → is_visible c ≡ true
hex_visible_char c h = ground arith

pub hex_visible : (s : Text) → all is_low_hex s ≡ true → all is_visible s ≡ true
hex_visible [] h = refl
hex_visible (c ∷ s) h =
    let (here, later) = &&_true (is_low_hex c) _ h in
    rw (hex_visible_char c here) (hex_visible s later)

name_visible_char : (c : ℕ) → is_name_char c ≡ true → is_visible c ≡ true
name_visible_char c h = ground arith

pub name_visible : (s : Text) → all is_name_char s ≡ true → all is_visible s ≡ true
name_visible [] h = refl
name_visible (c ∷ s) h =
    let (here, later) = &&_true (is_name_char c) _ h in
    rw (name_visible_char c here) (name_visible s later)

pub first_small :
    (name : Text)
    → all is_visible name ≡ true
    → all is_small ((codes "ver", number 1) ∷ (codes "username", text name) ∷ []) ≡ true
first_small name h = rw h

pub members_differ :
    (site : Site) (name salt hash : Text) → names_differ (members site name salt hash) ≡ true
members_differ signup name salt hash = refl
members_differ login name salt hash = refl

pub members_small :
    (site : Site) (name salt hash : Text)
    → all is_visible name ≡ true
    → all is_visible salt ≡ true
    → all is_visible hash ≡ true
    → all is_small (members site name salt hash) ≡ true
members_small signup name salt hash n s h = rw (n, s, h)
members_small login name salt hash n s h = rw (n, s, h)
