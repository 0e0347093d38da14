-- ===== src/Utils/Codes.antt =====
-- Two numbers in one (`simple_hash_32`, `simple_hash_64` and back, src/lib/mmt_utils.h).
use Prim.Native.Nat.{bit_or}
use mmt_security.Prelude.{ℕ, ◌+◌, ◌*◌, ◌/◌, ◌^◌, ◌<◌, ◌≡◌, ap, ◌∙◌, arith}
use mmt_security.Prelude.Bits.{u16, u32, u64}
use mmt_security.Prelude.Digits.{or_sum}

-- The arguments are below 2 ^ 16.
unfoldable pub simple_hash_32 : ℕ → ℕ → ℕ
simple_hash_32 a b = bit_or (u32 (a * 2 ^ 16)) b

unfoldable pub simple_dehash_32 : ℕ → ℕ × ℕ
simple_dehash_32 val = (u16 (val / 2 ^ 16), u16 (u32 (val * 2 ^ 16) / 2 ^ 16))

-- The arguments are below 2 ^ 32.
unfoldable pub simple_hash_64 : ℕ → ℕ → ℕ
simple_hash_64 a b = bit_or (u64 (a * 2 ^ 32)) b

unfoldable pub simple_dehash_64 : ℕ → ℕ × ℕ
simple_dehash_64 val = (u32 (val / 2 ^ 32), u32 (u64 (val * 2 ^ 32) / 2 ^ 32))

simple_hash_32_sum : (a b : ℕ) → a < 2 ^ 16 → b < 2 ^ 16 → simple_hash_32 a b ≡ a * 2 ^ 16 + b
unfolding simple_hash_32
simple_hash_32_sum a b h k =
    let within : u32 (a * 2 ^ 16) ≡ a * 2 ^ 16 = omega arith in
    ap (λ (t : ℕ). bit_or t b) within ∙ or_sum 16 a b k

pub simple_hash_64_sum : (a b : ℕ) → a < 2 ^ 32 → b < 2 ^ 32 → simple_hash_64 a b ≡ a * 2 ^ 32 + b
unfolding simple_hash_64
simple_hash_64_sum a b h k =
    let within : u64 (a * 2 ^ 32) ≡ a * 2 ^ 32 = omega arith in
    ap (λ (t : ℕ). bit_or t b) within ∙ or_sum 32 a b k

-- Two numbers of 16 bits are decoded from their code of 32 bits.
simple_dehash_32-simple_hash_32 :
    (a b : ℕ) → a < 2 ^ 16 → b < 2 ^ 16 → simple_dehash_32 (simple_hash_32 a b) ≡ (a, b)
unfolding simple_dehash_32
simple_dehash_32-simple_hash_32 a b h k =
    let e = simple_hash_32_sum a b h k in
    let high : (simple_dehash_32 (simple_hash_32 a b)).0 ≡ a = omega (arith, e) in
    let low : (simple_dehash_32 (simple_hash_32 a b)).1 ≡ b = omega (arith, e) in
    λ i. (high i, low i)

-- Two numbers of 32 bits are decoded from their code of 64 bits, two of 16 bits from that of 32 bits.
pub simple_dehash-simple_hash :
    (a b c d : ℕ)
    → a < 2 ^ 32
    → b < 2 ^ 32
    → c < 2 ^ 16
    → d < 2 ^ 16
    → (simple_dehash_64 (simple_hash_64 a b) ≡ (a, b))
      × (simple_dehash_32 (simple_hash_32 c d) ≡ (c, d))
unfolding simple_dehash_64
simple_dehash-simple_hash a b c d h k l m =
    let e = simple_hash_64_sum a b h k in
    let high : (simple_dehash_64 (simple_hash_64 a b)).0 ≡ a = omega (arith, e) in
    let low : (simple_dehash_64 (simple_hash_64 a b)).1 ≡ b = omega (arith, e) in
    ((λ i. (high i, low i)), simple_dehash_32-simple_hash_32 c d l m)
