-- ===== src/Prelude/Bytes.antt =====
-- Bytes and C strings as lists of numbers, and integers in network byte order.
use Prim.Native.Nat.{ℕ, zero, suc, ◌+◌, ◌*◌, ◌/◌, ◌%◌, ◌^◌, ◌<◌}
use mathlib.Core.Path.{◌≡◌, refl}
use mathlib.Core.Logic.{◌↔◌}
use mathlib.Core.Bool.{Bool, true, false, ◌&&◌}
use mathlib.Core.List.{List, [], ◌∷◌, ◌++◌}
use native.Mathlib.Omega.{arith}
use native.Mathlib.Nat.{pow-suc}
use bytekv.Prelude.Tests.{◌==◌, if◌then◌else◌}
use bytekv.Prelude.Lists.{length, length-append, take, drop, All}

abbrev pub Bytes : Type 0
Bytes = List ℕ

-- `strcmp(a, b) == 0`, on strings without their terminating NUL
unfoldable pub str_eq : Bytes → Bytes → Bool
str_eq [] [] = true
str_eq [] (b ∷ bs) = false
str_eq (a ∷ as₁) [] = false
str_eq (a ∷ as₁) (b ∷ bs) = a == b && str_eq as₁ bs

pub str_eq_iff : (a b : Bytes) → (str_eq a b ≡ true) ↔ (a ≡ b)
unfolding str_eq
str_eq_iff [] [] = ground arith
str_eq_iff [] (b ∷ bs) = ground arith
str_eq_iff (a ∷ r) [] = ground arith
str_eq_iff (a ∷ r) (b ∷ bs) = ground (arith, str_eq_iff r bs)

pub str_eq_refl : (a : Bytes) → str_eq a a ≡ true
str_eq_refl a = (str_eq_iff a a).1 refl

-- `n` bytes of a buffer from an offset on
abbrev pub slice : ℕ → ℕ → Bytes → Bytes
slice off n buf = take n (drop off buf)

-- `memcpy(buf + off, bytes, ...)` into a buffer that holds all of it
abbrev pub overlay : ℕ → Bytes → Bytes → Bytes
overlay off bytes buf = take off buf ++ (bytes ++ drop (off + length bytes) buf)

-- the C string in a buffer: the bytes before the first NUL
unfoldable pub c_str : Bytes → Bytes
c_str [] = []
c_str (b ∷ bs) = if b == 0 then [] else b ∷ c_str bs

-- An integer in network byte order, in `w` bytes: `htons`, `htonl` or `htobe64`, and a copy.
unfoldable pub be : ℕ → ℕ → Bytes
be zero n = []
be (suc w) n = be w (n / 256) ++ (n % 256 ∷ [])

-- the other way: a copy, and `ntohs`, `ntohl` or `be64toh`
abbrev pub be_from : ℕ → Bytes → ℕ
be_from acc [] = acc
be_from acc (b ∷ bs) = be_from (acc * 256 + b) bs

abbrev pub be_value : Bytes → ℕ
be_value = be_from 0

-- bytes proper
abbrev pub IsBytes : Bytes → Type 0
IsBytes = All (λ b. b < 256)

-- the bytes of a C string: none is NUL
abbrev pub IsText : Bytes → Type 0
IsText = All (λ b. (0 < b) × (b < 256))

be_from-append :
    (acc : ℕ) (xs : Bytes) (b : ℕ) → be_from acc (xs ++ (b ∷ [])) ≡ be_from acc xs * 256 + b
be_from-append acc [] b = refl
be_from-append acc (x ∷ xs) b = be_from-append (acc * 256 + x) xs b

-- Reading back a number that fits the width gives the number.
pub be_value-be : (w n : ℕ) → n < 256 ^ w → be_value (be w n) ≡ n
unfolding be
be_value-be zero n h = omega arith
be_value-be (suc w) n h = omega (
  arith,
  be_from-append 0 (be w (n / 256)) (n % 256),
  pow-suc 256 w,
  be_value-be w (n / 256) (omega (arith, pow-suc 256 w)),
)

pub length-be : (w n : ℕ) → length (be w n) ≡ w
unfolding be
length-be zero n = refl
length-be (suc w) n =
    omega (arith, length-append (be w (n / 256)) (n % 256 ∷ []), length-be w (n / 256))

pub append-IsBytes : (xs ys : Bytes) → IsBytes xs → IsBytes ys → IsBytes (xs ++ ys)
append-IsBytes [] ys p q = q
append-IsBytes (x ∷ xs) ys (h, p) q = (h, append-IsBytes xs ys p q)

pub be-IsBytes : (w n : ℕ) → IsBytes (be w n)
unfolding be
be-IsBytes zero n = tt
be-IsBytes (suc w) n =
    append-IsBytes (be w (n / 256)) (n % 256 ∷ []) (be-IsBytes w (n / 256)) (omega arith, tt)

pub IsText-IsBytes : (s : Bytes) → IsText s → IsBytes s
IsText-IsBytes [] h = tt
IsText-IsBytes (b ∷ s) ((p, q), h) = (q, IsText-IsBytes s h)

pub c_str-IsText : (s : Bytes) → IsText s → c_str s ≡ s
unfolding c_str
c_str-IsText [] h = refl
c_str-IsText (b ∷ s) ((p, q), h) = ground (arith, c_str-IsText s h)
