-- ===== src/Prelude/Text.antt =====
-- ASCII texts, and what the source uses of the C library on them: `isspace`, `strtoll` (which is
-- `strtol` where `long` has 64 bits), `strcasecmp` and the conversions `%d`, `%zu` and `PRId64`.
use Prim.Native.Char.{code}
use Prim.Native.String.{String}
use Prim.Native.Nat.{ℕ, zero, suc, ◌+◌, ◌-◌, ◌*◌, ◌/◌, ◌%◌, ◌^◌, ◌<◌, min}
use mathlib.Core.Path.{◌≡◌, refl, ◌∙◌}
use mathlib.Core.Logic.{◌⊎◌, inl, inr}
use native.Mathlib.Nat.{pow-suc}
use mathlib.Core.Bool.{Bool, true, false, ◌&&◌, ◌||◌}
use mathlib.Core.List.{[], ◌∷◌, map}
use mathlib.Core.Option.{Option, none, some}
use native.Mathlib.Omega.{arith}
use bytekv.Prelude.Tests.{leb, ◌==◌, if◌then◌else◌}
use bytekv.Prelude.Int.{ℤ, pos, negsuc}
use bytekv.Prelude.Bytes.{Bytes, str_eq}

abbrev pub codes : String → Bytes
codes String.[] = []
codes (String.◌∷◌ c s) = code c ∷ codes s

abbrev pub is_digit : ℕ → Bool
is_digit c = leb b'0' c && leb c b'9'

-- `isspace` of the C locale
abbrev pub is_space : ℕ → Bool
is_space c = c == 32 || (leb 9 c && leb c 13)

abbrev pub lower : ℕ → ℕ
lower c = if leb b'A' c && leb c b'Z' then c + 32 else c

-- `strcasecmp(a, b) == 0`
unfoldable pub str_case_eq : Bytes → Bytes → Bool
unfolding str_eq
str_case_eq a b = str_eq (map lower a) (map lower b)

unfoldable pub skip_space : Bytes → Bytes
skip_space [] = []
skip_space (c ∷ s) = let rest = skip_space s in if is_space c then rest else c ∷ s

-- whether there is a minus sign, and what stands behind the sign
abbrev pub sign : Bytes → Bool × Bytes
sign [] = (false, [])
sign (c ∷ s) = if c == b'-' then (true, s) else if c == b'+' then (false, s) else (false, c ∷ s)

-- the digits in front, on top of the value so far, and what stands behind them
unfoldable pub scan : ℕ → Bytes → ℕ × Bytes
scan n [] = (n, [])
scan n (c ∷ s) = let rest = scan (n * 10 + (c - b'0')) s in if is_digit c then rest else (n, c ∷ s)

-- the result saturates at `LLONG_MIN` and `LLONG_MAX`
abbrev pub clamp : Bool → ℕ → ℤ
clamp true zero = pos 0
clamp true (suc n) = negsuc (min n (2 ^ 63 - 1))
clamp false n = pos (min n (2 ^ 63 - 1))

abbrev pub starts_with_digit : Bytes → Bool
starts_with_digit [] = false
starts_with_digit (c ∷ s) = is_digit c

-- the value and what `end` points to; `none` where `end` is the start of the text
unfoldable pub strtoll : Bytes → Option (ℤ × Bytes)
unfolding scan skip_space
strtoll s =
    let (minus, t) = sign (skip_space s) in
    let (n, rest) = scan 0 t in if starts_with_digit t then some (clamp minus n, rest) else none

-- the decimal digits of a number below 10 ^ fuel, in front of a text
unfoldable pub digits : ℕ → ℕ → Bytes → Bytes
digits zero n out = out
digits (suc fuel) n out =
    let rest = digits fuel (n / 10) ((b'0' + n % 10) ∷ out) in if n == 0 then out else rest

-- a number below 2 ^ 64 has at most twenty digits
unfoldable pub decimal : ℕ → Bytes
decimal n = if n == 0 then b'0' ∷ [] else digits 20 n []

unfoldable pub decimal_ℤ : ℤ → Bytes
unfolding decimal
decimal_ℤ (pos n) = decimal n
decimal_ℤ (negsuc n) = b'-' ∷ decimal (suc n)

scan-digits : (fuel n : ℕ) (out : Bytes) → n < 10 ^ fuel → scan 0 (digits fuel n out) ≡ scan n out
unfolding scan digits
scan-digits zero n out h = let e : n ≡ 0 = omega arith in rw e
scan-digits (suc fuel) n out h =
    let small : n / 10 < 10 ^ fuel = omega (arith, pow-suc 10 fuel) in
    let whole : n / 10 * 10 + (b'0' + n % 10 - b'0') ≡ n = omega arith in
    let ih = scan-digits fuel (n / 10) ((b'0' + n % 10) ∷ out) small in ground (arith, ih, whole)

digits_start :
    (fuel n : ℕ) (out : Bytes)
    → n < 10 ^ fuel
    → (0 < n) ⊎ (starts_with_digit out ≡ true)
    → starts_with_digit (digits fuel n out) ≡ true
unfolding digits
digits_start zero n out h (inl some_digit) = absurd (omega arith)
digits_start zero n out h (inr starts) = starts
digits_start (suc fuel) n out h starts =
    let small : n / 10 < 10 ^ fuel = omega (arith, pow-suc 10 fuel) in
    let digit : starts_with_digit ((b'0' + n % 10) ∷ out) ≡ true = ground arith in
    ground (arith, digits_start fuel (n / 10) ((b'0' + n % 10) ∷ out) small (inr digit))

strtoll_digits :
    (t : Bytes)
    → starts_with_digit t ≡ true
    → strtoll t ≡ some (clamp false (scan 0 t).0, (scan 0 t).1)
unfolding strtoll skip_space
strtoll_digits [] h = ground arith
strtoll_digits (c ∷ s) h =
    let no_space : is_space c ≡ false = ground arith in
    let no_minus : (c == b'-') ≡ false = ground arith in
    let no_plus : (c == b'+') ≡ false = ground arith in rw (no_space, no_minus, no_plus, h)

-- The decimal form of a number that fits `int64_t` is read back as the number.
pub strtoll-decimal : (n : ℕ) → 0 < n → n < 2 ^ 63 → strtoll (decimal n) ≡ some (pos n, [])
unfolding decimal
strtoll-decimal n some_digit fits =
    let small : n < 10 ^ 20 = omega arith in
    let nonzero : (n == 0) ≡ false = ground arith in
    let starts = digits_start 20 n [] small (inl some_digit) in
    let whole : scan 0 (digits 20 n []) ≡ (n, []) =
      scan-digits 20 n [] small ∙ unfold scan in refl in
    rw (nonzero, strtoll_digits (digits 20 n []) starts, whole) (ground arith)
