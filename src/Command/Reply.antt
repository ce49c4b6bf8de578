-- ===== src/Command/Reply.antt =====
-- The reply buffer of src/command.c, and the times that commands give.
use bytekv.Prelude.{
  ℕ, ◌-◌, ◌≤◌, ◌<◌, ◌^◌, ◌≡◌, true, Option, none, some, [], ◌∷◌, ◌++◌, arith, ltb, ◌==◌,
  if◌then◌else◌, length, take, length-append, length-take,
}
use bytekv.Prelude.Bytes.{Bytes}
use bytekv.Prelude.Int.{ℤ, pos, ltb_ℤ}
use bytekv.Prelude.Text.{strtoll, decimal, strtoll-decimal}

-- `respbuf`; `out` is the first `len` bytes of `buf`
pub record RespBuf : Type 0 where
  pub cap : ℕ
  pub out : Bytes

unfoldable pub resp_add : RespBuf → Bytes → RespBuf
resp_add r s =
    let avail = r.cap - length r.out in
    record r { out = r.out ++ take (if ltb avail (length s) then avail else length s) s }

-- `s` is what the format gives; `vsnprintf` writes one byte less than there is room for, and a NUL.
unfoldable pub resp_addf : RespBuf → Bytes → RespBuf
resp_addf r s =
    let avail = r.cap - length r.out in
    if avail == 0
    then r
    else record r { out = r.out ++ take (if ltb (length s) avail then length s else avail - 1) s }

-- `len` stays within `cap`
abbrev pub InCap : ℕ → RespBuf → Type 0
InCap cap r = (r.cap ≡ cap) × (length r.out ≤ cap)

pub resp_add-InCap : (cap : ℕ) (r : RespBuf) (s : Bytes) → InCap cap r → InCap cap (resp_add r s)
unfolding resp_add
resp_add-InCap cap r s (e, h) =
    let avail = r.cap - length r.out in
    let n = if ltb avail (length s) then avail else length s in
    (e, ground (arith, length-append r.out (take n s), length-take n s))

pub resp_addf-InCap : (cap : ℕ) (r : RespBuf) (s : Bytes) → InCap cap r → InCap cap (resp_addf r s)
unfolding resp_addf
resp_addf-InCap cap r s (e, h) =
    let avail = r.cap - length r.out in
    let n = if ltb (length s) avail then length s else avail - 1 in
    ground (arith, length-append r.out (take n s), length-take n s)

-- `*end == '\0'` and `seconds > 0`
abbrev pub whole_positive : Option (ℤ × Bytes) → Option ℤ
whole_positive none = none
whole_positive (some (seconds, [])) = if ltb_ℤ (pos 0) seconds then some seconds else none
whole_positive (some (seconds, c ∷ s)) = none

unfoldable pub parse_seconds : Bytes → Option ℤ
parse_seconds s = whole_positive (strtoll s)

-- The decimal form of every positive `int64_t` is read as that number.
pub parse_seconds-decimal : (n : ℕ) → 0 < n → n < 2 ^ 63 → parse_seconds (decimal n) ≡ some (pos n)
unfolding parse_seconds
parse_seconds-decimal n some_seconds fits =
    let positive : ltb_ℤ (pos 0) (pos n) ≡ true = ground arith in
    rw (strtoll-decimal n some_seconds fits, positive)
