-- ===== src/Argon2/Loader.antt =====
-- The loader of js/load_argon2.js: `argon2Ready`, `loadWasm` and `finishLoading`. The browser's answers
-- are steps; a callback is a number.
pub mod Steps
pub mod Success
use signup_daemon.Prelude.{
  ℕ, Bool, true, false, not, ◌||◌, Option, none, some, List, [], ◌∷◌, ◌++◌, ◌==◌, if◌then◌else◌,
}

-- What a load waits for: the answer to the request, the script, or the interval of 10 ms.
pub data Task : Type 0 where
  request script interval : Task

pub record Loader : Type 0 where
  -- `wasmLoaded`, `wasmLoading`, `readyCallback`
  pub loaded : Bool
  pub loading : Bool
  pub callback : Option ℕ
  -- the listeners that wait for the browser
  pub tasks : List Task
  -- the callbacks that were called, oldest first
  pub called : List ℕ

-- When the page starts.
abbrev pub initial : Loader
initial = record { loaded = false; loading = false; callback = none; tasks = []; called = [] }

abbrev pub wait_for : Task → Loader → Loader
wait_for t l = record l { tasks = l.tasks ++ t ∷ [] }

-- `loadWasm`; the argument is whether the browser has `WebAssembly`.
unfoldable pub load_wasm : Bool → Loader → Loader
load_wasm supported l =
    if l.loaded || l.loading
    then l
    else if not supported
    then record l { loading = false }
    else wait_for request (record l { loading = true })

-- `argon2Ready`
unfoldable pub argon2_ready : Bool → ℕ → Loader → Loader
unfolding load_wasm
argon2_ready supported callback l =
    if l.loaded
    then record l { called = l.called ++ callback ∷ [] }
    else let l' = record l { callback = some callback } in
      if not l'.loading then load_wasm supported l' else l'

abbrev call : Option ℕ → Loader → Loader
call none l = l
call (some callback) l = record l { called = l.called ++ callback ∷ []; callback = none }

unfoldable pub finish_loading : Loader → Loader
finish_loading l = call l.callback (record l { loaded = true; loading = false })

-- `xhr.onload` with its status
unfoldable pub on_load : ℕ → Loader → Loader
on_load status l =
    if status == 200 || status == 0 then wait_for script l else record l { loading = false }

-- `xhr.onerror`, `script.onerror`
unfoldable pub on_error : Loader → Loader
on_error l = record l { loading = false }

-- `script.onload` and the interval; the argument is whether the module has its function by then.
unfoldable pub on_script : Bool → Loader → Loader
unfolding finish_loading
on_script initialised l = if initialised then finish_loading l else wait_for interval l

-- `initializeArgon2` of form.js: the first argument is whether `argon2Ready` is there; callback 0 prints.
unfoldable pub initialize_argon2 : Bool → Bool → Loader → Loader
unfolding argon2_ready
initialize_argon2 there supported l = if there then argon2_ready supported 0 l else l
