-- ===== src/Argon2/Loader/Steps.antt =====
-- The states that the loader of the Argon2 module can reach.
use signup_daemon.Prelude.{
  ℕ, ◌≡◌, refl, sym, ◌∙◌, ap, Bool, true, false, none, some, List, [], ◌∷◌, ◌++◌, Bool-cases, inl,
  inr, ◌||◌, ◌==◌,
}
use signup_daemon.Argon2.Loader.{
  Task, request, script, interval, Loader, initial, wait_for, load_wasm, argon2_ready,
  finish_loading, on_load, on_error, on_script,
}

-- A listener is run and waits no longer.
pub record Runs (t : Task) (l m : Loader) : Type 0 where
  pub before : List Task
  pub after : List Task
  pub waits : l.tasks ≡ before ++ t ∷ after
  pub gone : m ≡ record l { tasks = before ++ after }

-- A call of `argon2Ready`, or an answer of the browser to one of the listeners.
pub data Step (supported : Bool) : Loader → Loader → Type 0 where
  ready : (l : Loader) (callback : ℕ) → Step supported l (argon2_ready supported callback l)
  loads : (l m : Loader) (status : ℕ) → Runs request l m → Step supported l (on_load status m)
  fails : (l m : Loader) → Runs request l m → Step supported l (on_error m)
  scripts : (l m : Loader) (b : Bool) → Runs script l m → Step supported l (on_script b m)
  script_fails : (l m : Loader) → Runs script l m → Step supported l (on_error m)
  ticks : (l m : Loader) (b : Bool) → Runs interval l m → Step supported l (on_script b m)

pub data Reachable (supported : Bool) : Loader → Type 0 where
  start : Reachable supported initial
  next : (l m : Loader) → Reachable supported l → Step supported l m → Reachable supported m

-- No load runs; one load runs and waits for one thing, with a callback; or the module is there.
pub data Phase (l : Loader) : Type 0 where
  idle : l.loaded ≡ false → l.loading ≡ false → l.tasks ≡ [] → l.called ≡ [] → Phase l
  busy :
      (t : Task) (callback : ℕ)
      → l.loaded ≡ false
      → l.loading ≡ true
      → l.tasks ≡ t ∷ []
      → l.called ≡ []
      → l.callback ≡ some callback
      → Phase l
  done : l.loaded ≡ true → l.loading ≡ false → l.tasks ≡ [] → l.callback ≡ none → Phase l

no_task : (t : Task) (before after : List Task) → [] ≡ before ++ t ∷ after → ⊥
no_task t [] after h = cc
no_task t (x ∷ before) after h = cc

only_task :
    (s t : Task) (before after : List Task) → s ∷ [] ≡ before ++ t ∷ after → before ++ after ≡ []
only_task s t [] after h = cc
only_task s t (x ∷ before) after h =
    let rest : [] ≡ before ++ t ∷ after = cc in absurd (no_task t before after rest)

-- When a listener runs, the one load that runs has nothing else to wait for.
record Alone (m : Loader) : Type 0 where
  callback : ℕ
  loaded : m.loaded ≡ false
  loading : m.loading ≡ true
  tasks : m.tasks ≡ []
  called : m.called ≡ []
  callback_is : m.callback ≡ some callback

Runs-Alone : (t : Task) (l m : Loader) → Phase l → Runs t l m → Alone m
Runs-Alone t l m (idle _ _ none_left _) r =
    absurd (no_task t r.before r.after (sym none_left ∙ r.waits))
Runs-Alone t l m (done _ _ none_left _) r =
    absurd (no_task t r.before r.after (sym none_left ∙ r.waits))
Runs-Alone t l m (busy s callback loaded loading tasks called callback_is) r = rw (r.gone) (record {
  callback = callback;
  loaded = loaded;
  loading = loading;
  tasks = only_task s t r.before r.after (sym tasks ∙ r.waits);
  called = called;
  callback_is = callback_is;
})

on_error-Phase : (m : Loader) → Alone m → Phase (on_error m)
unfolding on_error
on_error-Phase m a = idle a.loaded refl a.tasks a.called

wait_for-Phase : (t : Task) (m : Loader) → Alone m → Phase (wait_for t m)
wait_for-Phase t m a =
    busy t a.callback a.loaded a.loading (ap (λ ts. ts ++ t ∷ []) a.tasks) a.called a.callback_is

on_load-Phase : (status : ℕ) (m : Loader) → Alone m → Phase (on_load status m)
unfolding on_load
on_load-Phase status m a = elim (Bool-cases (status == 200 || status == 0)) [
  | inl success ↦ rw success (wait_for-Phase script m a)
  | inr failure ↦ rw failure (idle a.loaded refl a.tasks a.called)
]

on_script-Phase : (b : Bool) (m : Loader) → Alone m → Phase (on_script b m)
unfolding on_script finish_loading
on_script-Phase true m a = rw (a.callback_is) (done refl refl a.tasks refl)
on_script-Phase false m a = wait_for-Phase interval m a

argon2_ready-Phase :
    (supported : Bool) (callback : ℕ) (l : Loader)
    → Phase l
    → Phase (argon2_ready supported callback l)
unfolding argon2_ready load_wasm
argon2_ready-Phase true callback l (idle loaded loading tasks called) =
    rw (loaded, loading)
      (busy request callback refl refl (ap (λ ts. ts ++ request ∷ []) tasks) called refl)
argon2_ready-Phase false callback l (idle loaded loading tasks called) =
    rw (loaded, loading) (idle refl refl tasks called)
argon2_ready-Phase supported callback l (busy t _ loaded loading tasks called _) =
    rw (loaded, loading) (busy t callback refl refl tasks called refl)
argon2_ready-Phase supported callback l (done loaded loading tasks none_waits) =
    rw loaded (done refl loading tasks none_waits)

Step-Phase : (supported : Bool) (l m : Loader) → Step supported l m → Phase l → Phase m
Step-Phase supported _ _ (ready l callback) p = argon2_ready-Phase supported callback l p
Step-Phase supported _ _ (loads l m status r) p = on_load-Phase status m (Runs-Alone _ l m p r)
Step-Phase supported _ _ (fails l m r) p = on_error-Phase m (Runs-Alone _ l m p r)
Step-Phase supported _ _ (scripts l m b r) p = on_script-Phase b m (Runs-Alone _ l m p r)
Step-Phase supported _ _ (script_fails l m r) p = on_error-Phase m (Runs-Alone _ l m p r)
Step-Phase supported _ _ (ticks l m b r) p = on_script-Phase b m (Runs-Alone _ l m p r)

-- After any sequence of calls of `argon2Ready` and answers of the browser, the loader is in one of
-- three phases: no load runs and no callback was called; one load runs, waits for one listener and has
-- a callback, and none was called; or the module is loaded, and no callback and no listener waits.
pub Reachable-Phase : (supported : Bool) (l : Loader) → Reachable supported l → Phase l
Reachable-Phase supported _ start = idle refl refl refl refl
Reachable-Phase supported _ (next l m r s) =
    Step-Phase supported l m s (Reachable-Phase supported l r)
