-- ===== src/Prelude/Digits.antt =====
-- Masks digit by digit: what the lowest digit of a conjunction or a disjunction is, and what is left.
use Prim.Native.Nat.{
  ℕ, zero, suc, ◌+◌, ◌*◌, ◌/◌, ◌%◌, ◌^◌, ◌≤◌, ◌<◌, min, max, bit_and, bit_or, digits, bitwise,
  bit_and-bitwise, bit_or-bitwise,
}
use mathlib.Core.Path.{◌≡◌, refl, ◌∙◌, sym, ap}
use mathlib.Core.Logic.{◌≢◌}
use native.Mathlib.Omega.{arith}
use native.Mathlib.Nat.{pow-suc}

module _ (rest : ℕ → ℕ) (both : ℕ → ℕ → ℕ) where
  -- Rounds beyond the number make no difference to its digits.
  rounds_enough :
      {n m : ℕ} (a b : ℕ) → a ≤ n → a ≤ m → digits rest both n a b ≡ digits rest both m a b
  rounds_enough {n = zero} {m = zero} a b h k = refl
  rounds_enough {n = zero} {m = suc m} zero b h k = refl
  rounds_enough {n = suc n} {m = zero} zero b h k = refl
  rounds_enough {n = suc n} {m = suc m} zero b h k = refl
  rounds_enough {n = zero} {m = suc m} (suc a) b h k = absurd (omega arith)
  rounds_enough {n = suc n} {m = zero} (suc a) b h k = absurd (omega arith)
  rounds_enough {n = suc n} {m = suc m} (suc a) b h k =
      ap (λ (t : ℕ). t * 2 + both (suc a % 2) (b % 2))
        (rounds_enough {n = n} {m = m} (suc a / 2) (b / 2) (omega arith) (omega arith))

  bitwise_halves :
      (a b : ℕ)
      → 0 < a
      → bitwise rest both a b ≡ bitwise rest both (a / 2) (b / 2) * 2 + both (a % 2) (b % 2)
  bitwise_halves zero b h = absurd (omega arith)
  bitwise_halves (suc a) b h =
      ap (λ (t : ℕ). t * 2 + both (suc a % 2) (b % 2))
        (rounds_enough {n = a} {m = suc a / 2} (suc a / 2) (b / 2) (omega arith) (omega arith))

pub and_digit : (a b : ℕ) → bit_and a b ≡ bit_and (a / 2) (b / 2) * 2 + min (a % 2) (b % 2)
and_digit zero b = omega (arith, bit_and-bitwise 0 b, bit_and-bitwise 0 (b / 2))
and_digit (suc a) b =
    bit_and-bitwise (suc a) b
    ∙ bitwise_halves (λ b. 0) min (suc a) b (omega arith)
    ∙ ap (λ (t : ℕ). t * 2 + min (suc a % 2) (b % 2)) (sym (bit_and-bitwise (suc a / 2) (b / 2)))

pub or_digit : (a b : ℕ) → bit_or a b ≡ bit_or (a / 2) (b / 2) * 2 + max (a % 2) (b % 2)
or_digit zero b = omega (arith, bit_or-bitwise 0 b, bit_or-bitwise 0 (b / 2))
or_digit (suc a) b =
    bit_or-bitwise (suc a) b
    ∙ bitwise_halves (λ b. b) max (suc a) b (omega arith)
    ∙ ap (λ (t : ℕ). t * 2 + max (suc a % 2) (b % 2)) (sym (bit_or-bitwise (suc a / 2) (b / 2)))

-- A mask that has nothing in common with a disjunction has nothing in common with its parts.
and-or_below :
    (n m a b : ℕ) → m ≤ n → bit_and m (bit_or a b) ≡ 0 → (bit_and m a ≡ 0) × (bit_and m b ≡ 0)
and-or_below n zero a b h e = (bit_and-bitwise 0 a, bit_and-bitwise 0 b)
and-or_below zero (suc m) a b h e = absurd (omega arith)
and-or_below (suc n) (suc m) a b h e =
    let half : bit_or a b / 2 ≡ bit_or (a / 2) (b / 2) = omega (arith, or_digit a b) in
    let high : bit_and (suc m / 2) (bit_or (a / 2) (b / 2)) ≡ 0 =
      ap (bit_and (suc m / 2)) (sym half) ∙ omega (arith, and_digit (suc m) (bit_or a b)) in
    let (x, y) = and-or_below n (suc m / 2) (a / 2) (b / 2) (omega arith) high in
    let low : min (suc m % 2) (bit_or a b % 2) ≡ 0 =
      omega (arith, and_digit (suc m) (bit_or a b)) in
    (
      omega (arith, and_digit (suc m) a, or_digit a b, low, x),
      omega (arith, and_digit (suc m) b, or_digit a b, low, y),
    )

pub and-or : (m a b : ℕ) → bit_and m (bit_or a b) ≡ 0 → (bit_and m a ≡ 0) × (bit_and m b ≡ 0)
and-or m a b e = and-or_below m m a b (omega arith) e

or_zero_below : (n q : ℕ) → q ≤ n → bit_or q 0 ≡ q
or_zero_below n zero h = refl
or_zero_below zero (suc q) h = absurd (omega arith)
or_zero_below (suc n) (suc q) h =
    omega (arith, or_digit (suc q) 0, or_zero_below n (suc q / 2) (omega arith))

or_zero : (q : ℕ) → bit_or q 0 ≡ q
or_zero q = or_zero_below q q (omega arith)

-- A disjunction is a sum if the one number ends in zeros where the other has its digits.
pub or_sum : (k q r : ℕ) → r < 2 ^ k → bit_or (q * 2 ^ k) r ≡ q * 2 ^ k + r
or_sum zero q r h = let z : r ≡ 0 = omega arith in rw (z, or_zero) (omega arith)
or_sum (suc k) q r h =
    let double : q * 2 ^ suc k ≡ (q * 2 ^ k) * 2 =
      omega (arith, ap (λ (t : ℕ). q * t) (pow-suc 2 k)) in
    let half : q * 2 ^ suc k / 2 ≡ q * 2 ^ k = omega (arith, double) in
    omega (
      arith,
      or_digit (q * 2 ^ suc k) r,
      ap (λ (t : ℕ). bit_or t (r / 2)) half,
      or_sum k q (r / 2) (omega (arith, pow-suc 2 k)),
      double,
    )

-- The digit of 2 ^ i.
abbrev pub bit : ℕ → ℕ → ℕ
bit n zero = n % 2
bit n (suc i) = bit (n / 2) i

pub bit-or : (a b i : ℕ) → bit (bit_or a b) i ≡ max (bit a i) (bit b i)
bit-or a b zero = omega (arith, or_digit a b)
bit-or a b (suc i) =
    let half : bit_or a b / 2 ≡ bit_or (a / 2) (b / 2) = omega (arith, or_digit a b) in
    ap (λ (n : ℕ). bit n i) half ∙ bit-or (a / 2) (b / 2) i

pub bit_zero : (i : ℕ) → bit 0 i ≡ 0
bit_zero zero = refl
bit_zero (suc i) = bit_zero i

pub bit_bound : (n i : ℕ) → bit n i < 2
bit_bound n zero = omega arith
bit_bound n (suc i) = bit_bound (n / 2) i

bit-power : (i : ℕ) → bit (2 ^ i) i ≡ 1
bit-power zero = refl
bit-power (suc i) =
    let half : 2 ^ suc i / 2 ≡ 2 ^ i = omega (arith, pow-suc 2 i) in
    ap (λ (n : ℕ). bit n i) half ∙ bit-power i

bit-power_ne : (i j : ℕ) → i ≢ j → bit (2 ^ i) j ≡ 0
bit-power_ne zero zero h = absurd (h refl)
bit-power_ne zero (suc j) h = bit_zero j
bit-power_ne (suc i) zero h = omega (arith, pow-suc 2 i)
bit-power_ne (suc i) (suc j) h =
    let half : 2 ^ suc i / 2 ≡ 2 ^ i = omega (arith, pow-suc 2 i) in
    ap (λ (n : ℕ). bit n j) half ∙ bit-power_ne i j (λ e. h (ap suc e))

-- Setting a digit sets it, and leaves the others.
pub bit-or_power : (n i : ℕ) → bit (bit_or n (2 ^ i)) i ≡ 1
bit-or_power n i = omega (arith, bit-or n (2 ^ i) i, bit-power i, bit_bound n i)

pub bit-or_power_ne : (n i j : ℕ) → i ≢ j → bit (bit_or n (2 ^ i)) j ≡ bit n j
bit-or_power_ne n i j h = omega (arith, bit-or n (2 ^ i) j, bit-power_ne i j h)
