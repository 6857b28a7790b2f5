-- ===== src/Daemon/Accepts.antt =====
-- What the daemon makes of the bodies that the pages post.
use signup_daemon.Prelude.{◌≡◌, true, some, List, [], ◌∷◌, ◌++◌, codes}
use signup_daemon.Js.Strings.{Text}
use signup_daemon.Js.Json.{Scalar, number, text, nothing}
use signup_daemon.Js.Json.Read.{read_object}
use signup_daemon.Messages.{Site, signup, login}
use signup_daemon.PassHash.{pass_json}
use signup_daemon.Session.{session_request}
use signup_daemon.Submit.Bodies.{read_object-pass_json}
use signup_daemon.Validators.{is_valid_username}
use signup_daemon.Daemon.{Kind, signup, login, post_type_str}
use signup_daemon.Daemon.Guards.{IsField, validate_hex_iff}
use signup_daemon.Daemon.Names.{accepted_name}
use signup_daemon.Daemon.Request.{
  Value, integer, string, other, object, SessionRequest, empty_request, parse_code,
  parse_session_json,
}

abbrev pub kind_of : Site → Kind
kind_of Site.signup = Kind.signup
kind_of Site.login = Kind.login

-- The name of the member that holds the session.
abbrev pub salt_name : Site → Text
salt_name site = post_type_str (kind_of site) ++ codes "_salt"

-- The values as the JSON library tells them.
abbrev pub loaded : List (Text × Scalar) → List (Text × Value)
loaded [] = []
loaded ((key, number n) ∷ rest) = (key, integer true n) ∷ loaded rest
loaded ((key, text s) ∷ rest) = (key, string s) ∷ loaded rest
loaded ((key, nothing) ∷ rest) = (key, other) ∷ loaded rest

abbrev pub full_request : Text → Text → Text → SessionRequest
full_request name salt hash = record {
  username = some name;
  passwd = some hash;
  signup_salt = some salt;
}

-- The four members of a submission.
abbrev pub members : Site → Text → Text → Text → List (Text × Scalar)
members site name salt hash =
    (codes "ver", number 1)
    ∷ (codes "username", text name)
    ∷ (salt_name site, text salt)
    ∷ (codes "passwd", text hash)
    ∷ []

pub parse-members :
    (site : Site) {name salt hash : Text}
    → is_valid_username name ≡ (true, true)
    → IsField 32 salt
    → IsField 64 hash
    → parse_session_json (kind_of site) (some (object (loaded (members site name salt hash))))
      ≡ (0, full_request name salt hash)
unfolding parse_session_json parse_code
parse-members signup {name} {salt} {hash} valid salt_ok hash_ok =
    let (same, accepted) = accepted_name name valid in
    let hash_passes = (validate_hex_iff 64 hash).1 hash_ok in
    let salt_passes = (validate_hex_iff 32 salt).1 salt_ok in
    rw (same, accepted, hash_passes, salt_passes)
parse-members login {name} {salt} {hash} valid salt_ok hash_ok =
    let (same, accepted) = accepted_name name valid in
    let hash_passes = (validate_hex_iff 64 hash).1 hash_ok in
    let salt_passes = (validate_hex_iff 32 salt).1 salt_ok in
    rw (same, accepted, hash_passes, salt_passes)

pub parse-first :
    (site : Site) {name : Text}
    → is_valid_username name ≡ (true, true)
    → parse_session_json
        (kind_of site)
        (some (object (loaded ((codes "ver", number 1) ∷ (codes "username", text name) ∷ []))))
      ≡ (0, record empty_request { username = some name })
unfolding parse_session_json parse_code
parse-first signup {name} valid =
    let (same, accepted) = accepted_name name valid in rw (same, accepted)
parse-first login {name} valid =
    let (same, accepted) = accepted_name name valid in rw (same, accepted)

-- The daemon accepts what the pages post: where the name passes the form and the session and the
-- hash are hexadecimal texts of their lengths, not all zero, the members that a reader finds in the two
-- bodies of a submission pass `parse_session_json`, and the request holds the very texts of the
-- page, without hash and session for the first body.
pub parse_session_json-accepts :
    (site : Site) {name salt hash : Text}
    → is_valid_username name ≡ (true, true)
    → IsField 32 salt
    → IsField 64 hash
    → (first second : List (Text × Scalar)) × (read_object (session_request site name).body
        ≡ some first)
      × (read_object (pass_json (salt_name site) (some salt) name hash) ≡ some second)
      × (parse_session_json (kind_of site) (some (object (loaded first)))
          ≡ (0, record empty_request { username = some name }))
      × (parse_session_json (kind_of site) (some (object (loaded second)))
          ≡ (0, full_request name salt hash))
parse_session_json-accepts site {name} {salt} {hash} valid salt_ok hash_ok =
    let (read_first, read_second) =
      read_object-pass_json site name (salt_name site) hash (some salt) in
    (
      _,
      _,
      read_first,
      read_second,
      parse-first site valid,
      parse-members site valid salt_ok hash_ok,
    )
