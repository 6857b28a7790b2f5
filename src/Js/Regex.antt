-- ===== src/Js/Regex.antt =====
-- The regular expressions of the pages (signup_html/validators.js and others) and the
-- backtracking matcher of ECMAScript for them: each piece is tried, longest repetition first, and
-- hands the rest of the text to what follows it.
pub mod Splits
use signup_daemon.Prelude.{
  ℕ, zero, suc, ◌≡◌, Bool, true, false, ◌&&◌, ◌||◌, Option, none, some, List, [], ◌∷◌, ==_iff, ◌==◌,
}
use signup_daemon.Js.Strings.{Text}

abbrev pub Class : Type 0
Class = ℕ → Bool

pub data Piece : Type 0 where
  -- `[class]`
  one : Class → Piece
  -- `[class]{n,}`, so `*` for 0 and `+` for 1
  at_least : ℕ → Class → Piece
  -- `[class]{lo,hi}`
  between : ℕ → ℕ → Class → Piece
  -- `(class)`, which captures a character
  group : Class → Piece
  -- `\1{n,}`
  again : ℕ → Piece
  -- `$`
  at_end : Piece

unfoldable pub match_at_least : ℕ → Class → (Text → Bool) → Text → Bool
match_at_least zero c k [] = k []
match_at_least (suc n) c k [] = false
match_at_least zero c k (x ∷ s) = (c x && match_at_least zero c k s) || k (x ∷ s)
match_at_least (suc n) c k (x ∷ s) = c x && match_at_least n c k s

unfoldable pub match_between : ℕ → ℕ → Class → (Text → Bool) → Text → Bool
match_between zero zero c k s = k s
match_between (suc lo) zero c k s = false
match_between zero (suc hi) c k [] = k []
match_between (suc lo) (suc hi) c k [] = false
match_between zero (suc hi) c k (x ∷ s) = (c x && match_between zero hi c k s) || k (x ∷ s)
match_between (suc lo) (suc hi) c k (x ∷ s) = c x && match_between lo hi c k s

-- The captured character is carried along; a reference to no capture matches the empty text.
unfoldable pub run : List Piece → Option ℕ → Text → Bool
unfolding match_at_least match_between
run [] cap s = true
run (one c ∷ ps) cap [] = false
run (one c ∷ ps) cap (x ∷ s) = c x && run ps cap s
run (at_least n c ∷ ps) cap s = match_at_least n c (run ps cap) s
run (between lo hi c ∷ ps) cap s = match_between lo hi c (run ps cap) s
run (group c ∷ ps) cap [] = false
run (group c ∷ ps) cap (x ∷ s) = c x && run ps (some x) s
run (again n ∷ ps) none s = run ps none s
run (again n ∷ ps) (some x) s = match_at_least n (λ y. y == x) (run ps (some x)) s
run (at_end ∷ ps) cap [] = run ps cap []
run (at_end ∷ ps) cap (x ∷ s) = false

-- `/^…/.test(s)`
unfoldable pub test_start : List Piece → Text → Bool
unfolding run
test_start ps s = run ps none s

-- `/…/.test(s)`
unfoldable pub test : List Piece → Text → Bool
unfolding run
test ps [] = run ps none []
test ps (x ∷ s) = run ps none (x ∷ s) || test ps s
