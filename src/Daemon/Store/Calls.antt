-- ===== src/Daemon/Store/Calls.antt =====
-- Calls of Redis that end well, as changes of the store.
use signup_daemon.Prelude.{
  ℕ, ◌≤◌, ◌≡◌, refl, ◌∙◌, sym, ap, Bool, true, false, Option, none, some, ◌==◌, ==_iff, Bool-cases,
  inl, inr,
}
use signup_daemon.Daemon.Redis.{Redis, Connection, select, with_context, redis_connect_thread}
use signup_daemon.Daemon.Redis.Actions.{Result, ok, err, Action, pure, require, ◌>>=◌, or_raise}
use signup_daemon.Daemon.Store.{Store, View, IsRedis}

module _ {S : Type 0} (view : View S) where
  -- The connection has chosen what the thread takes for chosen, and the server holds these entries.
  pub record IsAt (link : Connection S) (st : Store) : Type 0 where
    pub linked : (db : ℕ) → link.database ≡ some db → view.current link.server ≡ db
    pub holds : view.store link.server ≡ st

  pub record Yields {E A : Type 0} (m : Action (Connection S) E A) (link : Connection S)
      (r : Result E A) (after : Store) : Type 0 where
    pub to : Connection S
    pub runs : m link ≡ (r, to)
    pub stands : IsAt to after

  -- From these entries the call ends with this value or this error, and those entries.
  abbrev pub Ends : {E A : Type 0} → Action (Connection S) E A → Store → Result E A → Store → Type 0
  Ends m before r after = (link : Connection S) → IsAt link before → Yields m link r after

  abbrev pub Does : {E A : Type 0} → Action (Connection S) E A → Store → A → Store → Type 0
  Does m before a after = Ends m before (ok a) after

  abbrev pub Fails : {E A : Type 0} → Action (Connection S) E A → Store → E → Store → Type 0
  Fails m before e after = Ends m before (err e) after

  pub pure-Does : {E A : Type 0} (a : A) (st : Store) → Does (pure {E = E} a) st a st
  pure-Does a st link at = record { to = link; runs = refl; stands = at }

  pub require-Does :
      {E : Type 0} (test : Bool) (e : E) (st : Store)
      → test ≡ true
      → Does (require test e) st true st
  require-Does true e st h link at = record { to = link; runs = refl; stands = at }
  require-Does false e st h link at = cc

  pub require-Fails :
      {E : Type 0} (test : Bool) (e : E) (st : Store)
      → test ≡ false
      → Fails (require test e) st e st
  require-Fails true e st h link at = cc
  require-Fails false e st h link at = record { to = link; runs = refl; stands = at }

  module _ {E A B : Type 0} (m : Action (Connection S) E A)
      (f : A → Action (Connection S) E B) where
    pub >>=-Does :
        {before mid after : Store} {a : A} {r : Result E B}
        → Does m before a mid
        → Ends (f a) mid r after
        → Ends (m >>= f) before r after
    unfolding ◌>>=◌
    >>=-Does first second link at =
        let one = first link at in
        let two = second one.to one.stands in
        record { to = two.to; runs = rw one.runs two.runs; stands = two.stands }

    pub >>=-Fails :
        {before after : Store} {e : E} → Fails m before e after → Fails (m >>= f) before e after
    unfolding ◌>>=◌
    >>=-Fails first link at =
        let one = first link at in record { to = one.to; runs = rw one.runs; stands = one.stands }

  pub or_raise-Does :
      {E F A : Type 0} (m : Action (Connection S) E A) (f : E → F) {before after : Store} {a : A}
      → Does m before a after
      → Does (or_raise m f) before a after
  unfolding or_raise
  or_raise-Does m f does link at =
      let one = does link at in record { to = one.to; runs = rw one.runs; stands = one.stands }

  pub or_raise-Fails :
      {E F A : Type 0} (m : Action (Connection S) E A) (f : E → F) {before after : Store} {e : E}
      → Fails m before e after
      → Fails (or_raise m f) before (f e) after
  unfolding or_raise
  or_raise-Fails m f fails link at =
      let one = fails link at in record { to = one.to; runs = rw one.runs; stands = one.stands }

same_db : {a b : ℕ} → some a ≡ some b → a ≡ b
same_db h = cc

module _ {S : Type 0} (redis : Redis S) (view : View S) (good : IsRedis redis view) where
  -- A connection that has chosen the database.
  pub record IsOn (db : ℕ) (st : Store) (link : Connection S) : Type 0 where
    pub database : link.database ≡ some db
    pub chosen : view.current link.server ≡ db
    pub holds : view.store link.server ≡ st

  pub record Connects (db : ℕ) (st : Store) (m : Bool × Connection S) : Type 0 where
    pub to : Connection S
    pub runs : m ≡ (true, to)
    pub is_on : IsOn db st to

  select-Connects :
      (db : ℕ) (link : Connection S) {st : Store}
      → db ≤ 15
      → view.store link.server ≡ st
      → Connects db st (select redis db link)
  select-Connects db link small h =
      let (t, runs, same, now) = good.selects link.server db small in
      record {
        to = record { database = some db; server = t };
        runs = rw runs;
        is_on = record { database = refl; chosen = now; holds = same ∙ h };
      }

  open-Connects :
      (db : ℕ) (link : Connection S) {st : Store}
      → db ≤ 15
      → view.store link.server ≡ st
      → Connects db st (with_context redis db none link)
  open-Connects db link small h =
      let (t, runs, same) = good.connects link.server in
      let (u, passed, kept) = good.authorises t in
      let last =
        select-Connects db (record { database = none; server = u }) small (kept ∙ same ∙ h) in
      record { to = last.to; runs = rw (runs, passed) last.runs; is_on = last.is_on }

  context-Connects :
      (db : ℕ) (o : Option ℕ) (link : Connection S) {st : Store}
      → db ≤ 15
      → link.database ≡ o
      → ((d : ℕ) → o ≡ some d → view.current link.server ≡ d)
      → view.store link.server ≡ st
      → Connects db st (with_context redis db o link)
  context-Connects db none link small e linked h = open-Connects db link small h
  context-Connects db (some d) link small e linked h = elim (Bool-cases (d == db)) [
    | inl same ↦ record {
      to = link;
      runs = rw same;
      is_on = record {
        database = e ∙ ap some ((==_iff d db).0 same);
        chosen = linked d refl ∙ (==_iff d db).0 same;
        holds = h;
      };
    }
    | inr other ↦
        let last = select-Connects db link small h in
        record { to = last.to; runs = rw other last.runs; is_on = last.is_on }
  ]

  pub redis_connect_thread-Connects :
      (db : ℕ) (link : Connection S) {st : Store}
      → db ≤ 15
      → IsAt view link st
      → Connects db st (redis_connect_thread redis db link)
  unfolding redis_connect_thread
  redis_connect_thread-Connects db link small at =
      context-Connects db link.database link small refl at.linked at.holds

  pub IsOn-IsAt : {db : ℕ} {st : Store} (link : Connection S) → IsOn db st link → IsAt view link st
  IsOn-IsAt link on = record {
    linked = λ d e. on.chosen ∙ same_db (sym on.database ∙ e);
    holds = on.holds;
  }
