-- ===== src/Aof/Writer/Backoff.antt =====
-- `aof_rewrite_record_failure` of src/aof.c: the delay before the next attempt.
use native.Mathlib.Nat.{pow-suc, one-le-pow}
use bytekv.Prelude.{ℕ, zero, suc, ◌+◌, ◌*◌, ◌^◌, ◌≤◌, ◌≡◌, refl, ap, arith, leb, if◌then◌else◌, min}
use bytekv.Prelude.Bits.{mul-pow-suc}
use bytekv.Aof.Writer.{Config, Server}
use bytekv.Aof.Writer.Rewrite.{backoff_loop, aof_rewrite_record_failure}

double-le : (n d : ℕ) → d * 2 ≤ d * 2 ^ suc n
double-le n d = grind (arith, pow-suc 2 n, one-le-pow n 2)

-- After at least one round the delay is doubled in each, and at most the ceiling.
backoff_loop_lem : (n max_ms d : ℕ) → backoff_loop (suc n) max_ms d ≡ min max_ms (d * 2 ^ suc n)
unfolding backoff_loop
backoff_loop_lem zero max_ms d = ground arith
backoff_loop_lem (suc n) max_ms d =
    let e : d * 2 * 2 ^ suc n ≡ d * 2 ^ suc (suc n) =
      omega (arith, mul-pow-suc d (suc n), mul-pow-suc d n) in
    ground (arith, backoff_loop_lem n max_ms (d * 2), double-le (suc n) d, e)

-- The delay after a number of failures in a row before this one: the base delay, also where it is above
-- the ceiling, and after that twice as long each time, up to the ceiling.
abbrev pub delay_after : ℕ → ℕ → ℕ → ℕ
delay_after streak max_ms base = if leb streak 0 then base else min max_ms (base * 2 ^ streak)

streak_delay :
    (streak max_ms base : ℕ) → backoff_loop streak max_ms base ≡ delay_after streak max_ms base
unfolding backoff_loop
streak_delay zero max_ms base = refl
streak_delay (suc n) max_ms base = ground (arith, backoff_loop_lem n max_ms base)

-- A failure of a rewrite is counted, and puts off the next attempt by the base delay where it is
-- the first after a success, also where that is above the ceiling, and otherwise by the base delay
-- doubled once for each failure in a row before it, up to the ceiling.
pub aof_rewrite_record_failure-delay :
    (cfg : Config) (s : Server)
    → let s' = aof_rewrite_record_failure cfg s in
      (s'.next_attempt_ms
        ≡ s.now_ms + delay_after s.failed_streak cfg.backoff_max_ms cfg.backoff_base_ms)
      × (s'.failed_streak ≡ suc s.failed_streak)
      × (s'.rewrites_failed ≡ suc s.rewrites_failed)
unfolding aof_rewrite_record_failure
aof_rewrite_record_failure-delay cfg s = (
  ap (λ (t : ℕ). s.now_ms + t)
      (streak_delay s.failed_streak cfg.backoff_max_ms cfg.backoff_base_ms),
  omega arith,
  omega arith,
)
