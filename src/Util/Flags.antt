-- ===== src/Util/Flags.antt =====
-- `set_non_blocking` and `open_aof` of src/util.c: what is done to a descriptor.
use bytekv.Prelude.{
  ℕ, zero, suc, ◌+◌, ◌*◌, ◌/◌, ◌%◌, ◌==◌, ◌≡◌, ◌≢◌, refl, ap, Bool, true, false, not, ◌&&◌, Option,
  none, some, arith, if◌then◌else◌,
}
use bytekv.Prelude.Bytes.{Bytes}

-- whether a flag is set
unfoldable pub has_flag : ℕ → ℕ → Bool
has_flag zero flags = flags % 2 == 1
has_flag (suc j) flags = has_flag j (flags / 2)

-- `flags | O_NONBLOCK`, where the constant is the flag `k` alone
unfoldable pub with_flag : ℕ → ℕ → ℕ
with_flag zero flags = flags / 2 * 2 + 1
with_flag (suc k) flags = with_flag k (flags / 2) * 2 + flags % 2

-- On the status flags of the descriptor, with the outcomes of the two calls of `fcntl`. The result is
-- whether the return value is 0, and the flags afterwards.
unfoldable pub set_non_blocking : ℕ → Bool → Bool → ℕ → Bool × ℕ
unfolding with_flag
set_non_blocking o_nonblock get_ok set_ok flags =
    if not get_ok
    then (false, flags)
    else if not set_ok
    then (false, flags)
    else (true, with_flag o_nonblock flags)

-- `none` is no path, or an `open` that fails
unfoldable pub open_aof : Option Bytes → (Bytes → Option ℕ) → Option ℕ
open_aof none opened = none
open_aof (some path) opened = opened path

has_flag-with_flag : (k flags : ℕ) → has_flag k (with_flag k flags) ≡ true
unfolding has_flag with_flag
has_flag-with_flag zero flags = ground arith
has_flag-with_flag (suc k) flags =
    let halved : (with_flag k (flags / 2) * 2 + flags % 2) / 2 ≡ with_flag k (flags / 2) =
      omega arith in
    rw halved (has_flag-with_flag k (flags / 2))

has_flag-other : (j k flags : ℕ) → j ≢ k → has_flag j (with_flag k flags) ≡ has_flag j flags
unfolding has_flag with_flag
has_flag-other zero zero flags other = elim (other refl) [ ]
has_flag-other zero (suc k) flags other =
    let low : (with_flag k (flags / 2) * 2 + flags % 2) % 2 ≡ flags % 2 = omega arith in
    ap (λ n. n == 1) low
has_flag-other (suc j) zero flags other =
    let halved : (flags / 2 * 2 + 1) / 2 ≡ flags / 2 = omega arith in ap (has_flag j) halved
has_flag-other (suc j) (suc k) flags other =
    let halved : (with_flag k (flags / 2) * 2 + flags % 2) / 2 ≡ with_flag k (flags / 2) =
      omega arith in
    rw halved (has_flag-other j k (flags / 2) (λ e. other (ap suc e)))

-- `set_non_blocking` returns 0 exactly where both calls succeed; then the flag is set. Every other
-- flag is as it was, whatever the calls do.
pub set_non_blocking_lem :
    (k : ℕ) (get_ok set_ok : Bool) (flags : ℕ)
    → let (done, after) = set_non_blocking k get_ok set_ok flags in
      (done ≡ (get_ok && set_ok))
      × (done ≡ true → has_flag k after ≡ true)
      × ((j : ℕ) → j ≢ k → has_flag j after ≡ has_flag j flags)
unfolding set_non_blocking
set_non_blocking_lem k false set_ok flags = (refl, λ e. ground (arith, e), λ j other. refl)
set_non_blocking_lem k true false flags = (refl, λ e. ground (arith, e), λ j other. refl)
set_non_blocking_lem k true true flags =
    (refl, λ e. has_flag-with_flag k flags, λ j other. has_flag-other j k flags other)
