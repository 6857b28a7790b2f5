-- ===== src/Validators/Chars.antt =====
-- What the test of a password's characters accepts.
use signup_daemon.Prelude.{
  ◌≤◌, ◌≡◌, refl, ◌∙◌, ap, true, ◌↔◌, none, [], ◌∷◌, ◌++◌, append-nil, length, all,
}
use signup_daemon.Js.Strings.{Text}
use signup_daemon.Js.Regex.{run, at_end}
use signup_daemon.Js.Regex.Splits.{match_at_least-split, match_at_least-join}
use signup_daemon.Validators.{is_password_char, is_valid_password_chars}
use signup_daemon.Validators.Username.{at_end_only}

-- The test passes exactly for texts that are not empty, all of characters from space to `}`.
pub is_valid_password_chars_iff :
    (p : Text)
    → (is_valid_password_chars p ≡ true) ↔ ((1 ≤ length p) × (all is_password_char p ≡ true))
unfolding is_valid_password_chars
is_valid_password_chars_iff p = (split, join)
  where
    split : is_valid_password_chars p ≡ true → (1 ≤ length p) × (all is_password_char p ≡ true)
    split h =
        let (s, long) = match_at_least-split 1 is_password_char (run (at_end ∷ []) none) p h in
        let whole : p ≡ s.front =
          s.joins ∙ ap (λ t. s.front ++ t) (at_end_only s.back s.goes_on) ∙ append-nil s.front in
        (rw whole long, ap (all is_password_char) whole ∙ s.inside)

    join : (1 ≤ length p) × (all is_password_char p ≡ true) → is_valid_password_chars p ≡ true
    join (long, inside) =
        rw (append-nil p) at
          (match_at_least-join 1 is_password_char (run (at_end ∷ []) none) p [] long inside refl)
