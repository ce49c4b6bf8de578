-- ===== src/Server/Run.antt =====
-- `el_run` of src/event_loop.c with the handlers of the server: the invariant, and the end.
use bytekv.Prelude.{
  ℕ, zero, suc, ◌+◌, ◌-◌, ◌*◌, ◌/◌, ◌≡◌, refl, ◌∙◌, sym, inl, inr, not, Bool, Bool-cases, Option,
  none, some, List, arith, ltb, if-both,
}
use bytekv.Prelude.Int.{ℤ}
use bytekv.Db.{Db}
use bytekv.Db.Sweep.{db_active_sweep, swept}
use bytekv.Aof.Writer.Diff.{IsSound}
use bytekv.Aof.Writer.Sound.{aof_cron-IsSound, aof_rewrite_cron-IsSound}
use bytekv.Server.{ExpireConfig, Expired, expired, expire_loop, active_expire_cron, sweep_nothing}
use bytekv.Server.Loop.{
  Settings, System, SleepIo, set_clocks, housekeeping, expired_db, before_sleep,
}
use bytekv.Server.Safe.{IsSafe}
use bytekv.Server.Conns.{client_timeouts_cron-AreSafe}

-- `db_active_sweep` leaves the store as it was, where it leaves one.
sweep_keeps :
    (db : Db) (sample_size : ℕ) (now : ℤ) (draws : List ℕ) (n : ℕ) (db' : Db)
    → db_active_sweep db sample_size now draws ≡ swept n db'
    → db' ≡ db
sweep_keeps db sample_size now draws n db' e = elim (sweep_nothing db sample_size now draws) [
  | inl same ↦ ground (arith, sym same ∙ e)
  | inr (inl bad) ↦ ground (arith, sym bad ∙ e)
  | inr (inr few) ↦ ground (arith, sym few ∙ e)
]

-- The sweep and its loop leave the store as it was, where they leave one.
pub data Unswept (db : Db) : Expired → Type 0 where
  unswept : Unswept db (expired db)
  no_store : {e : Expired} → expired_db e ≡ none → Unswept db e

expire_loop-Unswept :
    (fuel : ℕ) (cfg : ExpireConfig) (now : ℤ) (clock : ℕ → ℕ) (draws : ℕ → List ℕ)
    (start current : ℕ) (db : Db)
    → Unswept db (expire_loop fuel cfg now clock draws start current db)
unfolding expire_loop
expire_loop-Unswept zero cfg now clock draws start current db = no_store refl
expire_loop-Unswept (suc fuel) cfg now clock draws start current db =
    elim (Bool-cases (ltb (current - start) (1000 / cfg.hz / 4))) [
      | inr spent ↦ rw spent unswept
      | inl time ↦ elim (sweep_nothing db cfg.keys_per_round now (draws 0)) [
        | inr (inl bad) ↦ rw (time, bad) (no_store refl)
        | inr (inr few) ↦ rw (time, few) (no_store refl)
        | inl none_swept ↦ elim (Bool-cases (ltb (0 * 100 / cfg.keys_per_round) cfg.percent)) [
          | inl below ↦ rw (time, none_swept, below) unswept
          | inr above ↦
              rw (time, none_swept, above)
                (expire_loop-Unswept fuel cfg now (λ i. clock (suc i)) (λ i. draws (suc i)) start
                  (clock 0) db)
        ]
      ]
    ]

pub active_expire_cron-Unswept :
    (fuel : ℕ) (cfg : ExpireConfig) (now : ℤ) (clock : ℕ → ℕ) (draws : ℕ → List ℕ) (start : ℕ)
    (db : Db)
    → Unswept db (active_expire_cron fuel cfg now clock draws start db)
unfolding active_expire_cron
active_expire_cron-Unswept fuel cfg now clock draws start db =
    if-both (Unswept db) (not cfg.enabled) unswept
      (expire_loop-Unswept fuel cfg now clock draws start start db)

-- what `before_sleep` gives: nothing, or a safe server with the flag as it was
pub data Woken (stop : Bool) : Option System → Type 0 where
  no_store : Woken stop none
  woken : {s : System} → IsSafe s → s.stop ≡ stop → Woken stop (some s)

housekeeping-IsSafe :
    (cfg : Settings) (io : SleepIo) (s : System) → IsSafe s → IsSafe (housekeeping cfg io s s.st.db)
unfolding housekeeping
housekeeping-IsSafe cfg io s safe = record {
  db = safe.db;
  log =
      aof_rewrite_cron-IsSound cfg.aof io.cron _
        (aof_cron-IsSound cfg.aof io.flushed s.st.aof safe.log);
  clients =
      client_timeouts_cron-AreSafe cfg.timeout_s cfg.timeout_check_hz cfg.aof.hz io.now_ms
        s.last_timeouts_ms s.clients safe.clients;
}

after_sweep :
    (cfg : Settings) (io : SleepIo) (s : System) (e : Expired)
    → IsSafe s
    → Unswept s.st.db e
    → Woken s.stop (elim (expired_db e) [ none ↦ none | some db ↦ some (housekeeping cfg io s db) ])
after_sweep cfg io s e safe unswept =
    woken (housekeeping-IsSafe cfg io s safe) (unfold housekeeping in refl)
after_sweep cfg io s e safe (no_store absent) = rw absent no_store

pub before_sleep-Woken :
    (cfg : Settings) (io : SleepIo) (s : System) → IsSafe s → Woken s.stop (before_sleep cfg io s)
unfolding before_sleep set_clocks
before_sleep-Woken cfg io s safe =
    let s' = record s { st = set_clocks io s.st; cronloops = s.cronloops + 1 } in
    after_sweep cfg io s' _
      (record { db = safe.db; log = unfold IsSound in safe.log; clients = safe.clients })
      (active_expire_cron-Unswept io.fuel cfg.expire io.now_realtime_ms io.clock io.draws io.now_ms
        s.st.db)
