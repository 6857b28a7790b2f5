-- ===== src/Password/Keys.antt =====
-- The keys of the password field, and of a plain field that it is compared with.
use signup_daemon.Prelude.{
  ℕ, ◌+◌, ◌-◌, ◌≤◌, ◌≡◌, true, Option, none, some, List, [], ◌∷◌, ◌++◌, length, take, drop, ltb,
  if◌then◌else◌,
}
use signup_daemon.Js.Strings.{Text}
use signup_daemon.Messages.{Messages}
use signup_daemon.Password.{
  Fields, shown, insert_text, delete_backward, handle_password_input, handle_delete_key,
  handle_paste,
}

-- A plain field: its text and the caret.
pub record Plain : Type 0 where
  pub text : Text
  pub caret : ℕ

pub data Key : Type 0 where
  char : ℕ → Key
  backspace delete : Key
  paste : Text → Key

-- What the key does in a plain field.
unfoldable pub plain_key : Key → Plain → Plain
plain_key (char c) p = record {
  text = take p.caret p.text ++ c ∷ drop p.caret p.text;
  caret = p.caret + 1;
}
plain_key backspace p = record {
  text = take (p.caret - 1) p.text ++ drop p.caret p.text;
  caret = p.caret - 1;
}
plain_key delete p = record {
  text = take p.caret p.text ++ drop (p.caret + 1) p.text;
  caret = p.caret;
}
plain_key (paste s) p = record {
  text = take p.caret p.text ++ s ++ drop p.caret p.text;
  caret = p.caret + length s;
}

-- What the browser does for a character and for backspace before it fires the `input` event: the
-- content that it leaves, and the offset of the caret.
pub record Browser : Type 0 where
  pub content : Key → Text → ℕ → Text
  pub offset : Key → ℕ → ℕ

-- A character moves the caret behind it, and backspace moves it in front of what it removes.
pub record IsBrowser (b : Browser) : Type 0 where
  pub forward : (c i : ℕ) → b.offset (char c) i ≡ i + 1
  pub backward : (i : ℕ) → b.offset backspace (i + 1) ≡ i

abbrev pub caret_of : Option (ℕ × ℕ) → ℕ
caret_of none = 0
caret_of (some (start, end)) = start

-- The browser's part of a key.
abbrev pub touched : Browser → Key → Fields → Fields
touched b k f =
    let i = b.offset k (caret_of f.selection) in
    record f {
      credential = b.content k f.credential (caret_of f.selection);
      selection = some (i, i);
    }

-- A key pressed in the field. At the front backspace removes nothing, and there is no event.
unfoldable pub press : Browser → Messages → Key → Fields → Fields
press b msg (char c) f = handle_password_input msg (insert_text (c ∷ [])) (touched b (char c) f)
press b msg backspace f =
    let erased = handle_password_input msg delete_backward (touched b backspace f) in
    if ltb 0 (caret_of f.selection) then erased else f
press b msg delete f = handle_delete_key msg f
press b msg (paste s) f = handle_paste msg s f

unfoldable pub press_all : Browser → Messages → List Key → Fields → Fields
press_all b msg [] f = f
press_all b msg (k ∷ ks) f = press_all b msg ks (press b msg k f)

unfoldable pub plain_keys : List Key → Plain → Plain
plain_keys [] p = p
plain_keys (k ∷ ks) p = plain_keys ks (plain_key k p)

-- The field is in use, and holds the plain field's text with its caret, behind what it shows.
pub record Stands (f : Fields) (p : Plain) : Type 0 where
  pub real : f.real ≡ p.text
  pub selection : f.selection ≡ some (p.caret, p.caret)
  pub focused : f.focused ≡ true
  pub inside : p.caret ≤ length p.text
  pub credential : f.credential ≡ shown f.shows p.text
