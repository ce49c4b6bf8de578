-- ===== src/Crc64/Reference.antt =====
-- src/crc64.c: the same CRC bit by bit, with the polynomial 0xad93d23594c935a9, reflected.
use bytekv.Prelude.{
  ℕ, zero, suc, ◌*◌, ◌/◌, ◌%◌, ◌^◌, ◌<◌, ◌≡◌, refl, sym, ap, ◌∙◌, Bool, true, ◌&&◌, Bool-cases, inl,
  inr, [], ◌∷◌, arith, ◌==◌, if◌then◌else◌, bit_xor, get_or, All,
}
use bytekv.Prelude.Bits.{
  xor_half, xor_low, xor_assoc, xor_bound, xor_disjoint, mul-pow-suc, xor_comm,
}
use bytekv.Prelude.Bytes.{Bytes}
use bytekv.Crc64.{crc64_tab, crc64_round, crc64}

-- the bits of 0xad93d23594c935a9 in the opposite order
abbrev pub reflected_poly : ℕ
reflected_poly = 0x95ac9329ac4bc9b5

-- one bit: shift right, and subtract the polynomial if a one went out
unfoldable pub bit_step : ℕ → ℕ
bit_step x = if x % 2 == 1 then bit_xor (x / 2) reflected_poly else x / 2

unfoldable pub bit_steps : ℕ → ℕ → ℕ
unfolding bit_step
bit_steps zero x = x
bit_steps (suc n) x = bit_steps n (bit_step x)

-- the whole message, the bits of each byte from the lowest on
unfoldable pub crc_bitwise : ℕ → Bytes → ℕ
crc_bitwise crc [] = crc
crc_bitwise crc (byte ∷ s) = crc_bitwise (bit_steps 8 (bit_xor crc byte)) s

-- two functions compared on the numbers below `n`
agree : (ℕ → ℕ) → (ℕ → ℕ) → ℕ → Bool
agree f g zero = true
agree f g (suc n) = f n == g n && agree f g n

agree_at : (f g : ℕ → ℕ) (n i : ℕ) → agree f g n ≡ true → i < n → f i ≡ g i
unfolding agree
agree_at f g zero i h lt = absurd (omega arith)
agree_at f g (suc n) i h lt = elim (Bool-cases (i == n)) [
  | inl e ↦ let same : i ≡ n = ground arith in rw same (ground arith)
  | inr ne ↦ agree_at f g n i (ground arith) (ground arith)
]

table_agrees : agree (λ i. get_or crc64_tab i 0) (bit_steps 8) 256 ≡ true
unfolding agree crc64_tab bit_steps
table_agrees = refl

-- Every entry of the table is its index after eight bits.
pub table-bit_steps : (i : ℕ) → i < 256 → get_or crc64_tab i 0 ≡ bit_steps 8 i
table-bit_steps i lt = agree_at (λ i. get_or crc64_tab i 0) (bit_steps 8) 256 i table_agrees lt

bit_step_high : (h l : ℕ) → bit_step (bit_xor (h * 2) l) ≡ bit_xor h (bit_step l)
unfolding bit_step
bit_step_high h l =
    let low : bit_xor (h * 2) l % 2 ≡ l % 2 = omega (arith, xor_low (h * 2) l) in
    let half : h * 2 / 2 ≡ h = omega arith in
    rw (low, xor_half, half) (ground (arith, xor_assoc h (l / 2) reflected_poly))

-- Bits above the ones that go out are carried along.
bit_steps_high : (n h l : ℕ) → bit_steps n (bit_xor (h * 2 ^ n) l) ≡ bit_xor h (bit_steps n l)
unfolding bit_steps
bit_steps_high zero h l = let e : h * 1 ≡ h = omega arith in rw e
bit_steps_high (suc n) h l =
    rw (mul-pow-suc h n, bit_step_high (h * 2 ^ n) l) (bit_steps_high n h (bit_step l))

-- A round of the table-driven loop takes in one byte, as eight bits do.
crc64_round_lem :
    (crc byte : ℕ) → byte < 256 → crc64_round crc byte ≡ bit_steps 8 (bit_xor crc byte)
unfolding crc64_round
crc64_round_lem crc byte lt =
    let hi : ℕ = crc / 256 in
    let lo : ℕ = crc % 256 in
    let parts : bit_xor (hi * 2 ^ 8) lo ≡ crc = xor_disjoint 8 hi lo (omega arith) ∙ omega arith in
    let small : bit_xor lo byte < 256 = xor_bound 8 lo byte (omega arith) lt in
    let whole : bit_steps 8 (bit_xor crc byte) ≡ bit_xor hi (bit_steps 8 (bit_xor lo byte)) =
      ap (λ t. bit_steps 8 (bit_xor t byte)) (sym parts)
      ∙ ap (bit_steps 8) (xor_assoc (hi * 2 ^ 8) lo byte)
      ∙ bit_steps_high 8 hi (bit_xor lo byte) in
    rw (whole, table-bit_steps (bit_xor lo byte) small) (xor_comm _ _)

-- On a list of bytes, from any register, the table-driven `crc64` is the CRC computed bit by bit
-- with the reflected polynomial.
pub crc64-crc_bitwise :
    (s : Bytes) (crc : ℕ) → All (λ b. b < 256) s → crc64 crc s ≡ crc_bitwise crc s
unfolding crc64 crc_bitwise
crc64-crc_bitwise [] crc h = refl
crc64-crc_bitwise (byte ∷ s) crc (lt, h) =
    rw (crc64_round_lem crc byte lt) (crc64-crc_bitwise s (bit_steps 8 (bit_xor crc byte)) h)

table_words : agree (λ i. get_or crc64_tab i 0 / 2 ^ 64) (λ i. 0) 256 ≡ true
unfolding agree crc64_tab
table_words = refl

-- The register stays a 64-bit word.
pub crc64-lt : (s : Bytes) (crc : ℕ) → All (λ b. b < 256) s → crc < 2 ^ 64 → crc64 crc s < 2 ^ 64
unfolding crc64
crc64-lt [] crc h lt = lt
crc64-lt (byte ∷ s) crc (b, h) lt = crc64-lt s (crc64_round crc byte) h round
  where
    i : ℕ
    i = bit_xor (crc % 256) byte

    entry : get_or crc64_tab i 0 < 2 ^ 64
    entry = omega (
      arith,
      agree_at (λ i. get_or crc64_tab i 0 / 2 ^ 64) (λ i. 0) 256 i table_words
          (xor_bound 8 (crc % 256) byte (omega arith) b),
    )

    round : crc64_round crc byte < 2 ^ 64
    round =
        unfold crc64_round in xor_bound 64 (get_or crc64_tab i 0) (crc / 256) entry (omega arith)
