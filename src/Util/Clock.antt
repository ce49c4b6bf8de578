-- ===== src/Util/Clock.antt =====
-- `now_ms` and `realtime_ms` of src/util.c: the milliseconds of what `clock_gettime` gives.
use bytekv.Prelude.{ℕ, ◌+◌, ◌*◌, ◌/◌, ◌^◌, ◌≤◌, ◌<◌, ◌≡◌, ◌⊎◌, inl, inr, arith, ap, refl}
use bytekv.Prelude.Int.{ℤ, pos, negsuc, sub_ℕ, pos_part, neg_part, ◌+ℤ◌, ◌≤ℤ◌, ◌<ℤ◌, IsI64}

-- `struct timespec`; `tv_nsec` is never negative
pub record Timespec : Type 0 where
  pub tv_sec : ℤ
  pub tv_nsec : ℕ

-- `(int64_t)tp.tv_sec * 1000`
abbrev pub thousandfold : ℤ → ℤ
thousandfold a = sub_ℕ (pos_part a * 1000) (neg_part a * 1000)

-- both functions, on what their clocks give
unfoldable pub clock_ms : Timespec → ℤ
clock_ms tp = thousandfold tp.tv_sec +ℤ pos (tp.tv_nsec / 1000000)

-- the nanoseconds are below a second, as `clock_gettime` gives them
abbrev pub IsNormal : Timespec → Type 0
IsNormal tp = tp.tv_nsec < 1000000000

abbrev pub IsNotAfter : Timespec → Timespec → Type 0
IsNotAfter a b = (a.tv_sec <ℤ b.tv_sec) ⊎ ((a.tv_sec ≡ b.tv_sec) × (a.tv_nsec ≤ b.tv_nsec))

sub_ℕ_lem : (a b : ℕ) → pos_part (sub_ℕ a b) + b ≡ neg_part (sub_ℕ a b) + a
sub_ℕ_lem a b = ground arith

-- the parts of the result against those of the seconds
clock_ms_parts :
    (s : ℤ) (n : ℕ)
    → let ms = clock_ms (record { tv_sec = s; tv_nsec = n }) in
      pos_part ms + neg_part s * 1000 ≡ neg_part ms + (pos_part s * 1000 + n / 1000000)
unfolding clock_ms ◌+ℤ◌
clock_ms_parts s n =
    let a = thousandfold s in
    omega (
      arith,
      sub_ℕ_lem (pos_part s * 1000) (neg_part s * 1000),
      sub_ℕ_lem (pos_part a + n / 1000000) (neg_part a + 0),
    )

-- A later reading of a clock is not a smaller number of milliseconds.
pub clock_ms_monotone : (a b : Timespec) → IsNormal a → IsNotAfter a b → clock_ms a ≤ℤ clock_ms b
clock_ms_monotone a b normal (inl earlier) =
    omega
      (arith, clock_ms_parts a.tv_sec a.tv_nsec, clock_ms_parts b.tv_sec b.tv_nsec, normal, earlier)
clock_ms_monotone a b normal (inr (same, le)) = omega (
  arith,
  clock_ms_parts a.tv_sec a.tv_nsec,
  clock_ms_parts b.tv_sec b.tv_nsec,
  ap pos_part same,
  ap neg_part same,
  le,
)

both_zero : (a : ℤ) → (pos_part a ≡ 0) ⊎ (neg_part a ≡ 0)
both_zero (pos n) = inr refl
both_zero (negsuc n) = inl refl

-- The milliseconds fit an `int64_t` where the seconds are below 2 ^ 53 on both sides.
pub clock_ms-IsI64 :
    (tp : Timespec)
    → IsNormal tp
    → pos_part tp.tv_sec < 2 ^ 53
    → neg_part tp.tv_sec ≤ 2 ^ 53
    → IsI64 (clock_ms tp)
clock_ms-IsI64 tp normal above below = elim (both_zero (clock_ms tp)) [
  | inl e ↦ omega (arith, clock_ms_parts tp.tv_sec tp.tv_nsec, e, normal, above, below)
  | inr e ↦ omega (arith, clock_ms_parts tp.tv_sec tp.tv_nsec, e, normal, above, below)
]
