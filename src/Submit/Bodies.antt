-- ===== src/Submit/Bodies.antt =====
-- What a receiver reads in the bodies of the requests.
use signup_daemon.Prelude.{◌≡◌, Option, some, [], ◌∷◌, codes}
use signup_daemon.Js.Strings.{Text}
use signup_daemon.Js.Json.{number, text}
use signup_daemon.Js.Json.Read.{read_object}
use signup_daemon.Js.Json.RoundTrip.{read_object-stringify}
use signup_daemon.Messages.{Site}
use signup_daemon.PassHash.{pass_json, scalar}
use signup_daemon.Session.{session_request}

-- Whatever characters the name, the session and the hash hold, the two bodies that a submission sends are
-- JSON objects, and a reader finds in them just the version 1 and these texts, unchanged (`null` where
-- there is no session), under their names and in their order.
pub read_object-pass_json :
    (site : Site) (name salt_name hash : Text) (salt : Option Text)
    → (read_object (session_request site name).body
        ≡ some ((codes "ver", number 1) ∷ (codes "username", text name) ∷ []))
      × (read_object (pass_json salt_name salt name hash)
          ≡ some (
              (codes "ver", number 1)
              ∷ (codes "username", text name)
              ∷ (salt_name, scalar salt)
              ∷ (codes "passwd", text hash)
              ∷ []))
read_object-pass_json site name salt_name hash salt = (
  read_object-stringify (codes "ver", number 1) ((codes "username", text name) ∷ []),
  read_object-stringify (codes "ver", number 1)
      ((codes "username", text name) ∷ (salt_name, scalar salt) ∷ (codes "passwd", text hash) ∷ []),
)
