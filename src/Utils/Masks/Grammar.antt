-- ===== src/Utils/Masks/Grammar.antt =====
-- How a mask of numbers is written, and the reading of a number in it (`expand_number_range`).
use mmt_security.Prelude.{
  ℕ, zero, suc, ◌+◌, ◌-◌, ◌*◌, ◌^◌, ◌<◌, ◌≡◌, refl, ap, ◌∙◌, List, [], ◌∷◌, ◌++◌, true, false,
  arith, length, All,
}
use mmt_security.Prelude.Bits.{u32}
use mmt_security.Utils.Masks.{
  Text, is_digit, skip_digits, read_digits, read_signed, skip_spaces, atoi,
}

-- A part of a mask: a number, or the first and the last number of a range, in digits.
pub data Part : Type 0 where
  number : Text → Part
  range : Text → Text → Part

abbrev pub value : Text → ℕ
value ds = read_digits 0 ds

-- `n` numbers from `i` on.
abbrev pub count_up : ℕ → ℕ → List ℕ
count_up zero i = []
count_up (suc n) i = i ∷ count_up n (i + 1)

-- What a part stands for.
abbrev pub part_numbers : Part → List ℕ
part_numbers (number ds) = value ds ∷ []
part_numbers (range ds es) = value ds ∷ count_up (value es - value ds) (value ds + 1)

abbrev pub all_numbers : List Part → List ℕ
all_numbers [] = []
all_numbers (p ∷ ps) = part_numbers p ++ all_numbers ps

abbrev pub write_part : Part → Text
write_part (number ds) = ds
write_part (range ds es) = ds ++ b'-' ∷ es

-- The parts with commas between them.
abbrev pub write : List Part → Text
write [] = []
write (p ∷ []) = write_part p
write (p ∷ q ∷ ps) = write_part p ++ b',' ∷ write (q ∷ ps)

-- At least one digit, and nothing else; the number is one of 32 bits.
pub record IsNumber (ds : Text) : Type 0 where
  pub some_digit : 0 < length ds
  pub digits : All (λ c. is_digit c ≡ true) ds
  pub small : value ds < 2 ^ 32

-- A range has at least two numbers.
abbrev pub IsPart : Part → Type 0
IsPart (number ds) = IsNumber ds
IsPart (range ds es) = IsNumber ds × IsNumber es × (value ds < value es)

-- The text does not go on with a digit.
abbrev pub Ends : Text → Type 0
Ends [] = Unit
Ends (c ∷ cs) = is_digit c ≡ false

pub skip_digits-append :
    (ds t : Text) → All (λ c. is_digit c ≡ true) ds → Ends t → skip_digits (ds ++ t) ≡ t
unfolding skip_digits
skip_digits-append [] [] h e = refl
skip_digits-append [] (c ∷ t) h e = rw e refl
skip_digits-append (d ∷ ds) t h e = rw h.0 (skip_digits-append ds t h.1 e)

pub read_digits-append :
    (acc : ℕ) (ds t : Text)
    → All (λ c. is_digit c ≡ true) ds
    → Ends t
    → read_digits acc (ds ++ t) ≡ read_digits acc ds
unfolding read_digits
read_digits-append acc [] [] h e = refl
read_digits-append acc [] (c ∷ t) h e = rw e refl
read_digits-append acc (d ∷ ds) t h e =
    rw h.0 (read_digits-append (acc * 10 + (d - b'0')) ds t h.1 e)

atoi-digit : (c : ℕ) (cs : Text) → is_digit c ≡ true → atoi (c ∷ cs) ≡ u32 (read_digits 0 (c ∷ cs))
unfolding atoi read_signed skip_spaces
atoi-digit c cs h = ground arith

pub atoi-append : (ds t : Text) → IsNumber ds → Ends t → atoi (ds ++ t) ≡ value ds
atoi-append [] t n e = absurd (omega (arith, n.some_digit))
atoi-append (d ∷ ds) t n e =
    atoi-digit d (ds ++ t) n.digits.0
    ∙ ap u32 (read_digits-append 0 (d ∷ ds) t n.digits e)
    ∙ omega (arith, n.small)
