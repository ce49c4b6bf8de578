-- ===== src/Session/Life/Sleeps.antt =====
-- The step of the log in a life of the server is what `before_sleep` of src/server.c does to it.
use bytekv.Prelude.{◌≡◌, sym, ap, Option, none, some, arith, ◌+◌}
use bytekv.Command.Handlers.{State}
use bytekv.Server.{Expired, active_expire_cron}
use bytekv.Server.Loop.{
  Settings, System, SleepIo, set_clocks, housekeeping, expired_db, before_sleep,
}
use bytekv.Server.Run.{Unswept, unswept, no_store, active_expire_cron-Unswept}
use bytekv.Session.Life.{tick}

abbrev state_or : State → Option System → State
state_or st none = st
state_or st (some s) = s.st

after_sweep_tick :
    (cfg : Settings) (io : SleepIo) (s s' : System) (e : Expired)
    → let s₁ = record s { st = set_clocks io s.st; cronloops = s.cronloops + 1 } in
      Unswept s.st.db e
      → (elim (expired_db e) [ none ↦ none | some db ↦ some (housekeeping cfg io s₁ db) ]) ≡ some s'
      → s'.st ≡ tick cfg.aof io s.st
unfolding housekeeping tick set_clocks
after_sweep_tick cfg io s s' e unswept done = sym (ap (state_or s.st) done)
after_sweep_tick cfg io s s' e (no_store absent) done = ground (arith, absent, done)

-- The store, the log and the clock after `before_sleep` are those of a step `tick` in a life of the
-- server, where the sweep of expired keys leaves a store.
pub before_sleep-tick :
    (cfg : Settings) (io : SleepIo) (s s' : System)
    → before_sleep cfg io s ≡ some s'
    → s'.st ≡ tick cfg.aof io s.st
unfolding before_sleep
before_sleep-tick cfg io s s' done =
    after_sweep_tick cfg io s s'
      (active_expire_cron io.fuel cfg.expire io.now_realtime_ms io.clock io.draws io.now_ms s.st.db)
      (active_expire_cron-Unswept io.fuel cfg.expire io.now_realtime_ms io.clock io.draws io.now_ms
        s.st.db)
      done
