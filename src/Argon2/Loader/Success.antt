-- ===== src/Argon2/Loader/Success.antt =====
-- A load of the Argon2 module that gets its answers.
use signup_daemon.Prelude.{
  ℕ, zero, suc, ◌≡◌, refl, ◌∙◌, ap, Bool, true, false, some, none, List, [], ◌∷◌, ◌++◌,
}
use signup_daemon.Argon2.Loader.{
  Loader, Task, request, script, interval, load_wasm, argon2_ready, finish_loading, on_load,
  on_script,
}

-- What the browser does: it answers the request with a status, or runs the listener of the script or
-- of the interval, when the module has its function or has not.
pub data Event : Type 0 where
  answers : ℕ → Event
  runs : Bool → Event

-- An event reaches the listener that waits for it, which is taken out; without one it is lost.
abbrev dispatch : Event → List Task → Loader → Loader
dispatch e [] l = l
dispatch (answers status) (request ∷ rest) l = on_load status (record l { tasks = rest })
dispatch (answers status) (script ∷ rest) l = l
dispatch (answers status) (interval ∷ rest) l = l
dispatch (runs initialised) (request ∷ rest) l = l
dispatch (runs initialised) (script ∷ rest) l = on_script initialised (record l { tasks = rest })
dispatch (runs initialised) (interval ∷ rest) l = on_script initialised (record l { tasks = rest })

abbrev pub run : List Event → Loader → Loader
run [] l = l
run (e ∷ es) l = run es (dispatch e l.tasks l)

-- The function is looked for this many times in vain, and then is there.
abbrev pub polled : ℕ → List Event
polled zero = runs true ∷ []
polled (suc n) = runs false ∷ polled n

module _ (callback : ℕ) (called : List ℕ) where
  abbrev waiting : Task → Loader
  waiting t = record {
    loaded = false;
    loading = true;
    callback = some callback;
    tasks = t ∷ [];
    called = called;
  }

  abbrev pub ended : Loader
  ended = record {
    loaded = true;
    loading = false;
    callback = none;
    tasks = [];
    called = called ++ callback ∷ [];
  }

  polls : (n : ℕ) → run (polled n) (waiting interval) ≡ ended
  unfolding on_script finish_loading
  polls zero = refl
  polls (suc n) = polls n

  after_request : (n : ℕ) → run (answers 200 ∷ polled n) (waiting request) ≡ ended
  unfolding on_load on_script finish_loading
  after_request zero = refl
  after_request (suc n) = polls n

argon2_ready-waits :
    (callback : ℕ) (l : Loader)
    → l.loaded ≡ false
    → l.loading ≡ false
    → l.tasks ≡ []
    → argon2_ready true callback l ≡ waiting callback l.called request
unfolding argon2_ready load_wasm
argon2_ready-waits callback l loaded loading idle = rw (loaded, loading, idle) refl

-- When no load runs, nothing waits and the browser has `WebAssembly`, a callback given to `argon2Ready`
-- is called, once, after the request is answered by 200 and the script's module has its function,
-- however often the function is looked for before that; then the module is loaded and nothing waits.
pub argon2_ready-loads :
    (callback n : ℕ) (l : Loader)
    → l.loaded ≡ false
    → l.loading ≡ false
    → l.tasks ≡ []
    → run (answers 200 ∷ polled n) (argon2_ready true callback l) ≡ record {
      loaded = true;
      loading = false;
      callback = none;
      tasks = [];
      called = l.called ++ callback ∷ [];
    }
argon2_ready-loads callback n l loaded loading idle =
    ap (run (answers 200 ∷ polled n)) (argon2_ready-waits callback l loaded loading idle)
    ∙ after_request callback l.called n
