-- ===== src/Prelude/Bits.antt =====
-- `bit_and` and `bit_xor` at variables, from the digit recursion that the native operations mean.
use Prim.Native.Nat.{
  ℕ, zero, suc, ◌+◌, ◌-◌, ◌*◌, ◌/◌, ◌%◌, ◌^◌, ◌≤◌, ◌<◌, min, bit_and, bit_xor, digits, bitwise,
  bit_and-bitwise, bit_xor-bitwise, differ,
}
use mathlib.Core.Path.{◌≡◌, refl, ap, sym, ◌∙◌}
use native.Mathlib.Nat.{
  pow-suc, one-le-pow, div-add-mod, mod-lt, mod-eq_of_lt, mul-add-mod_self_left,
}
use native.Mathlib.Omega.{arith}

-- Fuel above the first operand is all the same.
module _ (rest : ℕ → ℕ) (op : ℕ → ℕ → ℕ) where
  fuel_irrelevant : (a b n m : ℕ) → a ≤ min n m → digits rest op n a b ≡ digits rest op m a b
  fuel_irrelevant zero b zero zero h = refl
  fuel_irrelevant zero b zero (suc m) h = refl
  fuel_irrelevant zero b (suc n) zero h = refl
  fuel_irrelevant zero b (suc n) (suc m) h = refl
  fuel_irrelevant (suc a) b zero m h = absurd (omega arith)
  fuel_irrelevant (suc a) b (suc n) zero h = absurd (omega arith)
  fuel_irrelevant (suc a) b (suc n) (suc m) h =
      let half : suc a / 2 ≤ min n m = omega arith in
      ap (λ t. t * 2 + op (suc a % 2) (b % 2)) (fuel_irrelevant (suc a / 2) (b / 2) n m half)

  bitwise_unroll :
      (a b : ℕ)
      → bitwise rest op (suc a) b ≡ bitwise rest op (suc a / 2) (b / 2) * 2 + op (suc a % 2) (b % 2)
  bitwise_unroll a b =
      omega (arith, fuel_irrelevant (suc a / 2) (b / 2) a (suc a / 2) (omega arith))

-- One equation for the lowest digit of each operation.
pub and_unroll : (a b : ℕ) → bit_and a b ≡ bit_and (a / 2) (b / 2) * 2 + min (a % 2) (b % 2)
and_unroll zero b = simp bit_and-bitwise (omega arith)
and_unroll (suc a) b = simp bit_and-bitwise (bitwise_unroll (λ _. 0) min a b)

differ_bits : (x y : ℕ) → x < 2 → y < 2 → differ x y ≡ (x + y) % 2
differ_bits zero y p q = omega arith
differ_bits (suc zero) zero p q = refl
differ_bits (suc zero) (suc zero) p q = refl
differ_bits (suc zero) (suc (suc y)) p q = absurd (omega arith)
differ_bits (suc (suc x)) y p q = absurd (omega arith)

xor_digits : (a b : ℕ) → bit_xor a b ≡ bit_xor (a / 2) (b / 2) * 2 + differ (a % 2) (b % 2)
xor_digits zero b = simp bit_xor-bitwise (omega arith)
xor_digits (suc a) b = simp bit_xor-bitwise (bitwise_unroll (λ y. y) differ a b)

pub xor_unroll : (a b : ℕ) → bit_xor a b ≡ bit_xor (a / 2) (b / 2) * 2 + (a + b) % 2
xor_unroll a b =
    omega (arith, xor_digits a b, differ_bits (a % 2) (b % 2) (omega arith) (omega arith))

and_le_fuel : (n a b : ℕ) → a ≤ n → bit_and a b ≤ b
and_le_fuel n zero b h = simp bit_and-bitwise (omega arith)
and_le_fuel zero (suc a) b h = absurd (omega arith)
and_le_fuel (suc n) (suc a) b h =
    omega (arith, and_unroll (suc a) b, and_le_fuel n (suc a / 2) (b / 2) (omega arith))

-- A mask bounds the result.
pub and_le : (a b : ℕ) → bit_and a b ≤ b
and_le a b = and_le_fuel a a b (omega arith)

-- The remainder by an even number, from that of the half.
double_mod : (m a : ℕ) → 0 < m → a / 2 % m * 2 + a % 2 ≡ a % (2 * m)
double_mod m a h =
    let c : ℕ = a / 2 % m * 2 + a % 2 in
    let parts : 2 * m * (a / 2 / m) + c ≡ a = grind (arith, div-add-mod (a / 2) m) in
    let small : c < 2 * m = omega (arith, mod-lt (a / 2) h) in
    sym (mod-eq_of_lt small)
    ∙ sym (mul-add-mod_self_left (2 * m) (a / 2 / m) c)
    ∙ ap (λ t. t % (2 * m)) parts

-- A mask of `k` ones is the remainder by `2 ^ k`.
pub and_mask : (k a : ℕ) → bit_and a (2 ^ k - 1) ≡ a % 2 ^ k
and_mask zero a = omega (arith, and_le a 0)
and_mask (suc k) a =
    let e : (2 ^ suc k - 1) / 2 ≡ 2 ^ k - 1 = omega (arith, pow-suc 2 k, one-le-pow k 2) in
    let twice : 2 * 2 ^ k ≡ 2 ^ suc k = omega (arith, pow-suc 2 k) in
    rw (and_unroll a (2 ^ suc k - 1), e, and_mask k (a / 2), ← twice)
      (omega (arith, one-le-pow k 2, double_mod (2 ^ k) a (one-le-pow k 2 (omega arith))))

pub xor_half : (a b : ℕ) → bit_xor a b / 2 ≡ bit_xor (a / 2) (b / 2)
xor_half a b = omega (arith, xor_unroll a b)

pub xor_low : (a b : ℕ) → bit_xor a b % 2 ≡ (a + b) % 2
xor_low a b = omega (arith, xor_unroll a b)

pub zero-xor : (b : ℕ) → bit_xor 0 b ≡ b
zero-xor b = simp bit_xor-bitwise

xor_comm_fuel : (n a b : ℕ) → a + b ≤ n → bit_xor a b ≡ bit_xor b a
xor_comm_fuel n zero zero h = refl
xor_comm_fuel zero zero (suc b) h = absurd (omega arith)
xor_comm_fuel zero (suc a) b h = absurd (omega arith)
xor_comm_fuel (suc n) zero (suc b) h = omega (
  arith,
  xor_unroll zero (suc b),
  xor_unroll (suc b) zero,
  xor_comm_fuel n zero (suc b / 2) (omega arith),
)
xor_comm_fuel (suc n) (suc a) b h = omega (
  arith,
  xor_unroll (suc a) b,
  xor_unroll b (suc a),
  xor_comm_fuel n (suc a / 2) (b / 2) (omega arith),
)

pub xor_comm : (a b : ℕ) → bit_xor a b ≡ bit_xor b a
xor_comm a b = xor_comm_fuel (a + b) a b (omega arith)

xor_assoc_fuel : (n a b c : ℕ) → a + b + c ≤ n → bit_xor (bit_xor a b) c ≡ bit_xor a (bit_xor b c)
xor_assoc_fuel n zero b c h = simp zero-xor
xor_assoc_fuel zero (suc a) b c h = absurd (omega arith)
xor_assoc_fuel (suc n) (suc a) b c h =
    let ih = xor_assoc_fuel n (suc a / 2) (b / 2) (c / 2) (omega arith) in
    rw (xor_unroll (bit_xor (suc a) b) c, xor_unroll (suc a) (bit_xor b c), xor_half, xor_half, ih)
      (omega (arith, xor_low (suc a) b, xor_low b c))

pub xor_assoc : (a b c : ℕ) → bit_xor (bit_xor a b) c ≡ bit_xor a (bit_xor b c)
xor_assoc a b c = xor_assoc_fuel (a + b + c) a b c (omega arith)

-- `^` of two `k`-bit words is a `k`-bit word.
pub xor_bound : (k a b : ℕ) → a < 2 ^ k → b < 2 ^ k → bit_xor a b < 2 ^ k
xor_bound zero a b p q = let e : a ≡ 0 = omega arith in rw (e, zero-xor) q
xor_bound (suc k) a b p q =
    let half =
      xor_bound k (a / 2) (b / 2) (omega (arith, pow-suc 2 k)) (omega (arith, pow-suc 2 k)) in
    omega (arith, xor_unroll a b, pow-suc 2 k)

pub xor-zero : (a : ℕ) → bit_xor a 0 ≡ a
xor-zero a = xor_comm a 0 ∙ zero-xor a

pub mul-pow-suc : (h k : ℕ) → h * 2 ^ suc k ≡ h * 2 ^ k * 2
mul-pow-suc h k = omega (arith, ap (λ (t : ℕ). h * t) (pow-suc 2 k))

-- `^` of numbers that share no digit is their sum.
pub xor_disjoint : (k h l : ℕ) → l < 2 ^ k → bit_xor (h * 2 ^ k) l ≡ h * 2 ^ k + l
xor_disjoint zero h l lt = let e : l ≡ 0 = omega arith in rw (e, xor-zero) (omega arith)
xor_disjoint (suc k) h l lt =
    let twice : h * 2 ^ suc k ≡ h * 2 ^ k * 2 = mul-pow-suc h k in
    let half : h * 2 ^ k * 2 / 2 ≡ h * 2 ^ k = omega arith in
    rw (twice, xor_unroll (h * 2 ^ k * 2) l, half)
      (omega (arith, xor_disjoint k h (l / 2) (omega (arith, pow-suc 2 k))))
