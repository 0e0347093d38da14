-- ===== src/Flows/Bit.antt =====
-- A set of bytes as 256 bits (src/lib/mmt_bit.h).
use Prim.Native.Nat.{bit_and, bit_or}
use mmt_security.Prelude.{
  ℕ, zero, suc, ◌-◌, ◌/◌, ◌%◌, ◌^◌, ◌<◌, ◌≡◌, refl, List, [], ◌∷◌, Bool, true, false, ◌&&◌, ◌||◌,
  not, ◌==◌, ltb, arith, length, length-set, get_or, get_or-set_self, get_or-set_ne, set, replicate,
  All, All-set, All-replicate, ltb→lt, ==_iff, Bool-cases, if◌then◌else◌, sym, ◌∙◌, inl, inr,
}

-- `mmt_bit_t`: 32 bytes
abbrev pub Bits : Type 0
Bits = List ℕ

-- `mmt_bit_create`
abbrev pub no_bits : Bits
no_bits = replicate 32 0

-- The index is a byte, so that the access is within the 32 bytes.
unfoldable pub bit_set : Bits → ℕ → Bits
bit_set b index = set b (index / 8) (bit_or (get_or b (index / 8) 0) (2 ^ (index % 8)))

-- The complement is cut to the byte it is stored to.
unfoldable pub bit_clear : Bits → ℕ → Bits
bit_clear b index = set b (index / 8) (bit_and (get_or b (index / 8) 0) (255 - 2 ^ (index % 8)))

unfoldable pub bit_check : Bits → ℕ → Bool
bit_check b index = not (bit_and (get_or b (index / 8) 0) (2 ^ (index % 8)) == 0)

-- The 32 bytes are bytes.
pub record IsBits (b : Bits) : Type 0 where
  pub bytes : All (λ n. n < 256) b
  pub width : length b ≡ 32

-- A test that every number below a bound passes, found by running it on each.
passes : (ℕ → Bool) → ℕ → Bool
passes test zero = true
passes test (suc n) = if test n then passes test n else false

passes_at :
    (test : ℕ → Bool) (bound : ℕ) {k : ℕ} → k < bound → passes test bound ≡ true → test k ≡ true
unfolding passes
passes_at test zero small run = absurd (omega arith)
passes_at test (suc n) {k} small run = elim (Bool-cases (k == n)) [
  | inl q ↦ ground (arith, (==_iff k n).0 q)
  | inr q ↦ passes_at test n {k = k} (ground arith) (ground arith)
]

abbrev bit_of : ℕ → ℕ → Bool
bit_of x j = not (bit_and x (2 ^ j) == 0)

abbrev same : Bool → Bool → Bool
same true b = b
same false b = not b

same-eq : (a b : Bool) → same a b ≡ true → a ≡ b
same-eq true b h = ground arith
same-eq false b h = ground arith

-- What a write of one bit of a byte does to the others.
abbrev set_law : ℕ → ℕ → ℕ → Bool
set_law x i j =
    same (bit_of (bit_or x (2 ^ i)) j) (i == j || bit_of x j) && ltb (bit_or x (2 ^ i)) 256

abbrev clear_law : ℕ → ℕ → ℕ → Bool
clear_law x i j =
    same (bit_of (bit_and x (255 - 2 ^ i)) j) (not (i == j) && bit_of x j)
    && ltb (bit_and x (255 - 2 ^ i)) 256

set_table : passes (λ x. passes (λ i. passes (set_law x i) 8) 8) 256 ≡ true
unfolding passes
set_table = refl

clear_table : passes (λ x. passes (λ i. passes (clear_law x i) 8) 8) 256 ≡ true
unfolding passes
clear_table = refl

set_law-holds : (x i j : ℕ) → x < 256 → i < 8 → j < 8 → set_law x i j ≡ true
set_law-holds x i j p q r = passes_at (set_law x i) 8 {k = j} r (
    passes_at (λ i. passes (set_law x i) 8) 8 {k = i} q
      (passes_at (λ x. passes (λ i. passes (set_law x i) 8) 8) 256 {k = x} p set_table))

clear_law-holds : (x i j : ℕ) → x < 256 → i < 8 → j < 8 → clear_law x i j ≡ true
clear_law-holds x i j p q r = passes_at (clear_law x i) 8 {k = j} r (
    passes_at (λ i. passes (clear_law x i) 8) 8 {k = i} q
      (passes_at (λ x. passes (λ i. passes (clear_law x i) 8) 8) 256 {k = x} p clear_table))

and-both : (a b : Bool) → (a && b) ≡ true → (a ≡ true) × (b ≡ true)
and-both true b h = (refl, h)
and-both false b h = cc

or_bit :
    (x i j : ℕ) → x < 256 → i < 8 → j < 8 → bit_of (bit_or x (2 ^ i)) j ≡ (i == j || bit_of x j)
or_bit x i j p q r = same-eq _ _ (and-both _ _ (set_law-holds x i j p q r)).0

or_byte : (x i : ℕ) → x < 256 → i < 8 → bit_or x (2 ^ i) < 256
or_byte x i p q =
    ltb→lt _ _
      (and-both (same (bit_of (bit_or x (2 ^ i)) 0) (i == 0 || bit_of x 0)) _
        (set_law-holds x i 0 p q (omega arith))).1

clear_bit :
    (x i j : ℕ)
    → x < 256
    → i < 8
    → j < 8
    → bit_of (bit_and x (255 - 2 ^ i)) j ≡ (not (i == j) && bit_of x j)
clear_bit x i j p q r = same-eq _ _ (and-both _ _ (clear_law-holds x i j p q r)).0

clear_byte : (x i : ℕ) → x < 256 → i < 8 → bit_and x (255 - 2 ^ i) < 256
clear_byte x i p q =
    ltb→lt _ _
      (and-both (same (bit_of (bit_and x (255 - 2 ^ i)) 0) (not (i == 0) && bit_of x 0)) _
        (clear_law-holds x i 0 p q (omega arith))).1

get_or-byte : (b : Bits) (i : ℕ) → All (λ n. n < 256) b → get_or b i 0 < 256
get_or-byte [] i h = omega arith
get_or-byte (x ∷ b) zero h = h.0
get_or-byte (x ∷ b) (suc i) h = get_or-byte b i h.1

pub bit_set-IsBits : (b : Bits) (i : ℕ) → IsBits b → IsBits (bit_set b i)
unfolding bit_set
bit_set-IsBits b i h = record {
  bytes =
      All-set (λ n. n < 256) b (i / 8) _ h.bytes
        (or_byte _ (i % 8) (get_or-byte b (i / 8) h.bytes) (omega arith));
  width = length-set b (i / 8) _ ∙ h.width;
}

pub bit_clear-IsBits : (b : Bits) (i : ℕ) → IsBits b → IsBits (bit_clear b i)
unfolding bit_clear
bit_clear-IsBits b i h = record {
  bytes =
      All-set (λ n. n < 256) b (i / 8) _ h.bytes
        (clear_byte _ (i % 8) (get_or-byte b (i / 8) h.bytes) (omega arith));
  width = length-set b (i / 8) _ ∙ h.width;
}

pub no_bits-IsBits : IsBits no_bits
no_bits-IsBits = record { bytes = All-replicate (λ n. n < 256) 32 0 (omega arith); width = refl }

-- A write of a bit, to any byte that is a function of the old one.
get_or-write :
    (b : Bits) (i j : ℕ) (v : ℕ)
    → i / 8 < length b
    → get_or (set b (i / 8) v) (j / 8) 0 ≡ (if i / 8 == j / 8 then v else get_or b (j / 8) 0)
get_or-write b i j v h = elim (Bool-cases (i / 8 == j / 8)) [
  | inl e ↦ rw (e, sym ((==_iff _ _).0 e)) (get_or-set_self b (i / 8) v 0 h)
  | inr e ↦ rw e (get_or-set_ne b v 0 (ground arith))
]

==-quotients : (i j : ℕ) → (i / 8 == j / 8) ≡ true → (i == j) ≡ (i % 8 == j % 8)
==-quotients i j h = ground arith

==-quotients_ne : (i j : ℕ) → (i / 8 == j / 8) ≡ false → (i == j) ≡ false
==-quotients_ne i j h = ground arith

-- After setting the bit `i`, that bit is on and every other bit is as before.
pub bit_check-bit_set :
    (b : Bits) (i j : ℕ)
    → IsBits b
    → i < 256
    → bit_check (bit_set b i) j ≡ (i == j || bit_check b j)
unfolding bit_check bit_set
bit_check-bit_set b i j h small =
    rw (get_or-write b i j (bit_or (get_or b (i / 8) 0) (2 ^ (i % 8))) (omega (arith, h.width)))
      (elim (Bool-cases (i / 8 == j / 8)) [
        | inl e ↦
            rw (e, ==-quotients i j e, sym ((==_iff _ _).0 e))
              (or_bit (get_or b (i / 8) 0) (i % 8) (j % 8) (get_or-byte b (i / 8) h.bytes)
                (omega arith) (omega arith))
        | inr e ↦ rw (e, ==-quotients_ne i j e) refl
      ])

-- After clearing the bit `i`, that bit is off and every other bit is as before.
pub bit_check-bit_clear :
    (b : Bits) (i j : ℕ)
    → IsBits b
    → i < 256
    → bit_check (bit_clear b i) j ≡ (not (i == j) && bit_check b j)
unfolding bit_check bit_clear
bit_check-bit_clear b i j h small =
    rw
      (get_or-write b i j (bit_and (get_or b (i / 8) 0) (255 - 2 ^ (i % 8)))
        (omega (arith, h.width)))
      (elim (Bool-cases (i / 8 == j / 8)) [
        | inl e ↦
            rw (e, ==-quotients i j e, sym ((==_iff _ _).0 e))
              (clear_bit (get_or b (i / 8) 0) (i % 8) (j % 8) (get_or-byte b (i / 8) h.bytes)
                (omega arith) (omega arith))
        | inr e ↦ rw (e, ==-quotients_ne i j e) refl
      ])
