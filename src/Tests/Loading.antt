-- ===== src/Tests/Loading.antt =====
-- A load that succeeds.
use signup_daemon.Prelude.{◌≡◌, refl, true, false, none, some, [], ◌∷◌}
use signup_daemon.Argon2.Loader.{Loader, request, script, initial, argon2_ready, on_load, on_script}
use signup_daemon.Argon2.Loader.Success.{answers, run, polled, argon2_ready-loads}
use signup_daemon.Argon2.Loader.Steps.{
  ready, loads, scripts, Reachable, start, next, Phase, Reachable-Phase,
}

-- The loader while it waits, and when the listener that waited is taken out.
abbrev loading_with : Loader
loading_with = record { loaded = false; loading = true; callback = some 1; tasks = []; called = [] }

abbrev at_request : Loader
at_request = record loading_with { tasks = request ∷ [] }

abbrev at_script : Loader
at_script = record loading_with { tasks = script ∷ [] }

abbrev loaded_one : Loader
loaded_one = record { loaded = true; loading = false; callback = none; tasks = []; called = 1 ∷ [] }

loaded_one-Reachable : Reachable true loaded_one
unfolding argon2_ready on_load on_script
loaded_one-Reachable =
    next at_script loaded_one
      (next at_request at_script (next initial at_request start (ready initial 1)) (
        loads at_request loading_with 200
          (record { before = []; after = []; waits = refl; gone = refl })))
      (scripts at_script loading_with true
        (record { before = []; after = []; waits = refl; gone = refl }))

Reachable-Phase_example : Phase loaded_one
Reachable-Phase_example = Reachable-Phase true loaded_one loaded_one-Reachable

argon2_ready-loads_example :
    run (answers 200 ∷ polled 3) (argon2_ready true 7 initial)
    ≡ record { loaded = true; loading = false; callback = none; tasks = []; called = 7 ∷ [] }
argon2_ready-loads_example = argon2_ready-loads 7 3 initial refl refl refl
