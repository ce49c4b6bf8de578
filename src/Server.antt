-- ===== src/Server.antt =====
-- `active_expire_cron` of src/server.c.
pub mod Signals
pub mod Loop
pub mod Safe
pub mod Conns
pub mod Run
pub mod Turns
pub mod Start
pub mod Boot
pub mod Main
pub mod Whole
use bytekv.Prelude.{
  ℕ, zero, suc, ◌-◌, ◌*◌, ◌/◌, ◌<◌, ◌≡◌, ◌⊎◌, inl, inr, Bool, true, not, Bool-cases, Option-cases,
  List, arith, ltb, ◌==◌, if◌then◌else◌, min,
}
use native.Mathlib.Nat.{zero-div}
use bytekv.Prelude.Int.{ℤ}
use bytekv.Db.{Db}
use bytekv.Db.Sweep.{
  swept, freed_read, drawing, db_active_sweep, db_active_sweep_outcome, pick, expired_among,
}

-- the settings that it reads
pub record ExpireConfig : Type 0 where
  pub enabled : Bool
  pub percent : ℕ
  pub keys_per_round : ℕ
  pub hz : ℕ

-- How it ends: with the store after it; with a read of freed memory; or, in the model alone, where the
-- random draws or the fuel run out.
pub data Expired : Type 0 where
  expired : Db → Expired
  faulted : Expired
  waiting : Expired
  out_of_fuel : Expired

-- the `while` loop, a round for each unit of fuel: `clock` and `draws` are for the rounds to come
unfoldable pub expire_loop : ℕ → ExpireConfig → ℤ → (ℕ → ℕ) → (ℕ → List ℕ) → ℕ → ℕ → Db → Expired
expire_loop zero cfg now clock draws start current db = out_of_fuel
expire_loop (suc fuel) cfg now clock draws start current db =
    if not (ltb (current - start) (1000 / cfg.hz / 4))
    then expired db
    else elim (db_active_sweep db cfg.keys_per_round now (draws 0)) [
      | freed_read ↦ faulted
      | drawing ↦ waiting
      | swept n db' ↦
          if ltb (n * 100 / cfg.keys_per_round) cfg.percent
          then expired db'
          else expire_loop fuel cfg now (λ i. clock (suc i)) (λ i. draws (suc i)) start (clock 0)
              db'
    ]

-- `start` is `server.now_ms`, and the clock does not go back behind it.
unfoldable pub active_expire_cron : ℕ → ExpireConfig → ℤ → (ℕ → ℕ) → (ℕ → List ℕ) → ℕ → Db → Expired
unfolding expire_loop
active_expire_cron fuel cfg now clock draws start db =
    if not cfg.enabled then expired db else expire_loop fuel cfg now clock draws start start db

pub sweep_nothing :
    (db : Db) (sample_size : ℕ) (now : ℤ) (draws : List ℕ)
    → let s = db_active_sweep db sample_size now draws in
      (s ≡ swept 0 db) ⊎ (s ≡ freed_read) ⊎ (s ≡ drawing)
sweep_nothing db sample_size now draws = elim (Bool-cases (db.expires.used == 0)) [
  | inl empty ↦ inl (unfold db_active_sweep in rw empty)
  | inr used ↦ elim (Option-cases (pick db.expires (min sample_size db.expires.used) draws)) [
    | inl few ↦
        inr
          (inr (rw (db_active_sweep_outcome db now sample_size draws (ground (arith, used)), few)))
    | inr (picks, drawn) ↦ elim (Bool-cases (expired_among db now picks)) [
      | inl old ↦ inr (
          inl (
            rw (
              db_active_sweep_outcome db now sample_size draws (ground (arith, used)),
              drawn,
              old,
            )))
      | inr fresh ↦ inl (
          rw
            (db_active_sweep_outcome db now sample_size draws (ground (arith, used)), drawn, fresh))
    ]
  ]
]

-- Where the threshold is positive, the first round is the last one: the store is as it was, or freed
-- memory is read, or the given draws do not fill the sample.
pub active_expire_cron_outcome :
    (fuel : ℕ) (cfg : ExpireConfig) (now : ℤ) (clock : ℕ → ℕ) (draws : ℕ → List ℕ) (start : ℕ)
    (db : Db)
    → 0 < cfg.percent
    → let e = active_expire_cron (suc fuel) cfg now clock draws start db in
      (e ≡ expired db) ⊎ (e ≡ faulted) ⊎ (e ≡ waiting)
unfolding active_expire_cron
active_expire_cron_outcome fuel cfg now clock draws start db positive =
    elim (Bool-cases cfg.enabled) [
      | inr off ↦ inl (rw off)
      | inl on ↦ elim (Bool-cases (ltb (start - start) (1000 / cfg.hz / 4))) [
        | inr spent ↦ inl (rw (on, spent))
        | inl time ↦ elim (sweep_nothing db cfg.keys_per_round now (draws 0)) [
          | inr (inl bad) ↦ inr (inl (rw (on, time, bad)))
          | inr (inr few) ↦ inr (inr (rw (on, time, few)))
          | inl none_swept ↦
              let below : ltb (0 * 100 / cfg.keys_per_round) cfg.percent ≡ true =
                ground (arith, zero-div cfg.keys_per_round, positive) in
              inl (rw (on, time, none_swept, below))
        ]
      ]
    ]
