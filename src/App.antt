-- ===== src/App.antt =====
-- The globals of the pages' scripts with the page, and the world outside of them: the server, the
-- browser's functions and the user. Each handler is a function from the globals to a result and
-- the new globals; an `await` is the place where the world answers.
pub mod Frame
use signup_daemon.Prelude.{
  ℕ, suc, Bool, true, false, ◌&&◌, Option, none, some, List, [], ◌∷◌, ◌++◌, leb, codes, length,
}
use signup_daemon.Js.Strings.{Text}
use signup_daemon.Js.Json.{Json}
use signup_daemon.Messages.{Site, signup, login, Messages, get_messages}
use signup_daemon.Page.{Page}
use signup_daemon.Argon2.{Wasm, Heap}

pub record Request : Type 0 where
  pub url : Text
  pub body : Text

-- What a `fetch` comes to: it is rejected, or there is a response, whose text may not be readable.
pub data Fetched : Type 0 where
  rejected : Fetched
  response : (status : ℕ) → (headers : Text) → (body : Option Text) → Fetched

-- `response.ok`
abbrev pub is_ok : ℕ → Bool
is_ok status = leb 200 status && leb status 299

pub record World : Type 0 where
  -- the answer to the n-th request of the page, from 0
  pub fetch : ℕ → Request → Fetched
  -- what the user's typing makes of the password while the first answer is awaited
  pub typing : Text → Text
  -- `JSON.parse`; `none` is an exception
  pub json_parse : Text → Option Json
  -- `crypto.subtle.digest("SHA-256", …)`; `none` is an exception or a rejection
  pub digest : List ℕ → Option (List ℕ)
  -- the functions of the Argon2 module
  pub wasm : Wasm
  -- whether load_argon2.js has run, so that `argon2_calc` is a function
  pub argon2_there : Bool
  -- `document.cookie`
  pub cookies : Text

-- The variables of form_submit_session-manager.js; the status is kept as it is shown.
pub record SessionVars : Type 0 where
  pub body : Text
  pub status : Text
  pub header : Text
  pub json : Option Json

pub record App : Type 0 where
  pub page : Page
  -- the text of the element `identity`
  pub identity : Text
  -- the value of the language selector, if it is there
  pub language : Option Text
  -- `realUsername`, `realPassword`
  pub real_username : Text
  pub real_password : Text
  -- `argon2saltsalt`, if it is set
  pub argon2_salt : Option Text
  -- whether the Argon2 module is loaded, and its heap
  pub wasm_loaded : Bool
  pub heap : Heap
  pub session : SessionVars
  -- the requests made, oldest first
  pub requests : List Request

-- `getCurrentLanguage` of utils.js
abbrev pub current_language : Option Text → Text
current_language none = codes "en"
current_language (some lang) = lang

-- `getMessages(getCurrentLanguage())`
abbrev pub current_messages : Site → App → Messages
current_messages site app = get_messages (current_language app.language) site

abbrev pub on_page : (Page → Page) → App → App
on_page f app = record app { page = f app.page }

-- `await fetch(url, { method: "POST", …, body })`
unfoldable pub post : World → Request → App → Fetched × App
post world request app = (
  world.fetch (length app.requests) request,
  record app { requests = app.requests ++ request ∷ [] },
)
