-- ===== src/Tests/Masks.antt =====
-- Masks, and the theorems about masks and codes at them.
use mmt_security.Prelude.{
  ◌≡◌, refl, none, some, List, [], ◌∷◌, ◌≤◌, arith, length, ok, All, Distinct,
}
use mmt_security.Utils.Search.{index_of}
use mmt_security.Utils.Masks.{
  Text, array_size, skip_digits, read_digits, atoi, add_number, expand_number_range, duplicated,
  get_special_rules_for_thread, take_group, get_rules_id_list_in_mask, add_numbers,
}
use mmt_security.Utils.Masks.Numbers.{Within, IsExpansion, expand_number_range-IsExpansion}
use mmt_security.Utils.Masks.Grammar.{number, range, Part, IsNumber, IsPart, all_numbers, write}
use mmt_security.Utils.Masks.Written.{expand_number_range-write}
use mmt_security.Utils.Masks.Groups.{
  Group, write_groups, given_to, get_special_rules_for_thread-write,
}

-- "3,10-12"
abbrev pub parts : List Part
parts = number (b'3' ∷ []) ∷ range (b'1' ∷ b'0' ∷ []) (b'1' ∷ b'2' ∷ []) ∷ []

abbrev three_and_range : Text
three_and_range = b'3' ∷ b',' ∷ b'1' ∷ b'0' ∷ b'-' ∷ b'1' ∷ b'2' ∷ []

program : Unit {0}
unfolding index_of skip_digits read_digits atoi add_number expand_number_range
    get_special_rules_for_thread take_group get_rules_id_list_in_mask add_numbers
program = tt

expanded : expand_number_range three_and_range ≡ ok (some (3 ∷ 10 ∷ 11 ∷ 12 ∷ []))
unfolding program
expanded = refl

-- "1,9,1-3": the range begins behind the last number of the array, which is not its own first number.
range_refused : expand_number_range (b'1' ∷ b',' ∷ b'9' ∷ b',' ∷ b'1' ∷ b'-' ∷ b'3' ∷ []) ≡ ok none
unfolding program
range_refused = refl

-- "(1:3)(2:7-8)"
listed :
    get_rules_id_list_in_mask
      (b'(' ∷ b'1' ∷ b':' ∷ b'3' ∷ b')' ∷ b'(' ∷ b'2' ∷ b':' ∷ b'7' ∷ b'-' ∷ b'8' ∷ b')' ∷ [])
    ≡ ok (some (3 ∷ 7 ∷ 8 ∷ []))
unfolding program
listed = refl

three-IsNumber : IsNumber (b'3' ∷ [])
unfolding read_digits
three-IsNumber = record { some_digit = omega arith; digits = (refl, tt); small = omega arith }

pub parts-IsPart : All IsPart parts
unfolding read_digits
parts-IsPart = (
  three-IsNumber,
  (
    (
      record { some_digit = omega arith; digits = (refl, (refl, tt)); small = omega arith },
      record { some_digit = omega arith; digits = (refl, (refl, tt)); small = omega arith },
      omega arith,
    ),
    tt,
  ),
)

pub parts-Distinct : Distinct (all_numbers parts)
unfolding read_digits
parts-Distinct = omega arith

pub few_parts : length (all_numbers parts) ≤ array_size
unfolding read_digits
few_parts = omega arith

expand_number_range-IsExpansion_example : Within (expand_number_range three_and_range) IsExpansion
expand_number_range-IsExpansion_example = expand_number_range-IsExpansion three_and_range

expand_number_range-write_example :
    expand_number_range (write parts) ≡ ok (duplicated (all_numbers parts))
expand_number_range-write_example =
    expand_number_range-write parts parts-IsPart parts-Distinct few_parts

-- "(3:3,10-12)"
abbrev pub groups : List Group
groups = (b'3' ∷ [], parts) ∷ []

get_special_rules_for_thread-write_example :
    get_special_rules_for_thread 3 (write_groups groups) ≡ ok (given_to 3 groups)
get_special_rules_for_thread-write_example =
    get_special_rules_for_thread-write 3 groups
      ((three-IsNumber, parts-IsPart, parts-Distinct, few_parts), tt) (tt, tt)
