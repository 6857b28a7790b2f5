-- ===== src/Daemon/Redis/Actions.antt =====
-- Calls that change a state and end with a value or an error.
use signup_daemon.Prelude.{◌≡◌, refl, ap, Bool, true, false}

pub data Result (E A : Type 0) : Type 0 where
  ok : A → Result E A
  err : E → Result E A

abbrev pub Action : Type 0 → Type 0 → Type 0 → Type 0
Action S E A = S → Result E A × S

module _ {S E A : Type 0} where
  abbrev pub pure : A → Action S E A
  pure a s = (ok a, s)

  abbrev pub raise : E → Action S E A
  raise e s = (err e, s)

module _ {S E : Type 0} where
  -- `if (!test) return e;`
  abbrev pub require : Bool → E → Action S E Bool
  require true e s = (ok true, s)
  require false e s = (err e, s)

module _ {S E A B : Type 0} where
  abbrev continue : (A → Action S E B) → Result E A × S → Result E B × S
  continue f (ok a, s) = f a s
  continue f (err e, s) = (err e, s)

infixl 5 ◌>>=◌ ◌>>◌
unfoldable pub ◌>>=◌ : {S E A B : Type 0} → Action S E A → (A → Action S E B) → Action S E B
◌>>=◌ m f s = continue f (m s)

abbrev pub ◌>>◌ : {S E A B : Type 0} → Action S E A → Action S E B → Action S E B
m >> k = m >>= λ _. k

module _ {S E F A : Type 0} where
  abbrev renamed : (E → F) → Result E A × S → Result F A × S
  renamed f (ok a, s) = (ok a, s)
  renamed f (err e, s) = (err (f e), s)

  -- The error under another name.
  unfoldable pub or_raise : Action S E A → (E → F) → Action S F A
  or_raise m f s = renamed f (m s)

-- What a call that ended well has done: its first part ended well, then its second.
module _ {S E A B : Type 0} (m : Action S E A) (f : A → Action S E B) (s : S) where
  pub >>=-ok :
      {b : B} {t : S}
      → (m >>= f) s ≡ (ok b, t)
      → (a : A) × (mid : S) × (m s ≡ (ok a, mid)) × (f a mid ≡ (ok b, t))
  unfolding ◌>>=◌
  >>=-ok {b} {t} h = split (m s) refl h
    where
      split :
          (r : Result E A × S)
          → m s ≡ r
          → continue f r ≡ (ok b, t)
          → (a : A) × (mid : S) × (m s ≡ (ok a, mid)) × (f a mid ≡ (ok b, t))
      split (ok a, mid) e k = (a, mid, e, k)
      split (err x, mid) e k = cc

module _ {S E F A : Type 0} (m : Action S E A) (f : E → F) (s : S) where
  pub or_raise-ok : {a : A} {t : S} → or_raise m f s ≡ (ok a, t) → m s ≡ (ok a, t)
  unfolding or_raise
  or_raise-ok {a} {t} h = split (m s) h
    where
      split : (r : Result E A × S) → renamed f r ≡ (ok a, t) → r ≡ (ok a, t)
      split (ok b, mid) k = cc
      split (err x, mid) k = cc

-- A guard that was passed.
pub require-ok :
    {S E : Type 0} (test : Bool) (e : E) (s : S) {b : Bool} {t : S}
    → require test e s ≡ (ok b, t)
    → (test ≡ true) × (s ≡ t)
require-ok true e s h = (refl, ap (λ r. r.1) h)
require-ok false e s h = cc

pub pure-ok :
    {S E A : Type 0} (a : A) (s : S) {b : A} {t : S}
    → pure {E = E} a s ≡ (ok b, t)
    → (a ≡ b) × (s ≡ t)
pure-ok a s h = (cc, ap (λ r. r.1) h)
