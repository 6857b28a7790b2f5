-- ===== src/Tests/Order.antt =====
-- Which script's function a page calls.
use signup_daemon.Prelude.{◌≡◌, refl, none, some, [], ◌∷◌, map, codes}
use signup_daemon.Messages.{signup, login}
use signup_daemon.Scripts.{
  utils, validators, form_submit_utils, scripts, declared, in_force, get_cookie,
}

-- Of the placeholders only `getCookie` is called on the sign-up page.
placeholders_in_force :
    map (λ name. in_force (scripts signup) (codes name)) (declared form_submit_utils)
    ≡ some utils ∷ some form_submit_utils ∷ some utils ∷ some utils ∷ []
unfolding in_force
placeholders_in_force = refl

validation_in_force :
    map (λ name. in_force (scripts login) (codes name)) (declared validators)
    ≡ some validators ∷ some validators ∷ some validators ∷ some validators ∷ []
unfolding in_force
validation_in_force = refl

-- The replaced `getCookie` would find a value, and nothing where the name stands twice.
cookie_found : get_cookie (codes "a=1; MD5=0a1b2c; b=2") (codes "MD5") ≡ some (codes "0a1b2c")
unfolding get_cookie
cookie_found = refl

cookie_twice : get_cookie (codes "a=1; a=2") (codes "a") ≡ none
unfolding get_cookie
cookie_twice = refl
