-- ===== src/Utils/Masks.antt =====
-- Masks of numbers, such as "1-8,11-12,19", and masks of rules, such as "(1:10-13)(2:50)"
-- (`expand_number_range`, `get_special_rules_for_thread`, `get_rules_id_list_in_mask`,
-- src/lib/mmt_utils.h). A text is the list of its codes; its end stands for the zero byte.

pub mod Numbers
pub mod Grammar
pub mod Written
pub mod Groups
use mmt_security.Prelude.{
  ℕ, zero, suc, ◌+◌, ◌-◌, ◌*◌, ◌^◌, Option, none, some, List, [], ◌∷◌, ◌++◌, Bool, true, false, not,
  ◌&&◌, ◌||◌, ◌==◌, ltb, leb, if◌then◌else◌, length, get_or, Run, ok, fault, wild, halted,
  out_of_fuel, ◌>>=◌,
}
use mmt_security.Prelude.Bits.{u32}
use mmt_security.Utils.Search.{index_of}

abbrev pub Text : Type 0
Text = List ℕ

-- `isdigit`
abbrev pub is_digit : ℕ → Bool
is_digit c = leb b'0' c && leb c b'9'

-- `isspace`, in the C locale
abbrev pub is_space : ℕ → Bool
is_space c = c == 32 || (leb 9 c && leb c 13)

-- `while( isdigit( *cur ) ) cur ++`
unfoldable pub skip_digits : Text → Text
skip_digits [] = []
skip_digits (c ∷ cs) = if is_digit c then skip_digits cs else c ∷ cs

-- The number that the digits at the beginning make, behind those that make `acc`.
unfoldable pub read_digits : ℕ → Text → ℕ
read_digits acc [] = acc
read_digits acc (c ∷ cs) = if is_digit c then read_digits (acc * 10 + (c - b'0')) cs else acc

unfoldable pub read_signed : Text → ℕ
unfolding read_digits
read_signed [] = 0
read_signed (c ∷ cs) =
    if c == b'-'
    then u32 (2 ^ 32 - u32 (read_digits 0 cs))
    else if c == b'+'
    then u32 (read_digits 0 cs)
    else u32 (read_digits 0 (c ∷ cs))

unfoldable pub skip_spaces : Text → Text
skip_spaces [] = []
skip_spaces (c ∷ cs) = if is_space c then skip_spaces cs else c ∷ cs

-- `atoi`, cut to the `uint32_t` that it is stored to. C leaves open what it returns for a number out
-- of the range of `int`; here the digits are cut to 32 bits.
unfoldable pub atoi : Text → ℕ
unfolding read_signed skip_spaces
atoi text = read_signed (skip_spaces text)

-- The size of the array on the stack.
abbrev pub array_size : ℕ
array_size = 100000

-- `if( index_of( num, array, size ) == size ) array[ size ++ ] = num`
unfoldable pub add_number : List ℕ → ℕ → Run (List ℕ)
add_number array num =
    if index_of num array == length array
    then if ltb (length array) array_size then ok (array ++ num ∷ []) else fault wild
    else ok array

-- `for( ; i <= num; i++ )`, with `n` rounds left
unfoldable pub add_range : ℕ → ℕ → List ℕ → Run (List ℕ)
add_range zero i array = ok array
add_range (suc n) i array = do array' ← add_number array i; add_range n (i + 1) array'

-- How a text is read on: from an array and what is left of the text. `none` is an error in the mask.
abbrev pub Reading : Type 0
Reading = List ℕ → Text → Run (Option (List ℕ))

-- Behind a comma there must be more.
unfoldable pub after_comma : Reading → Reading
after_comma rest array [] = ok none
after_comma rest array (c ∷ cs) = rest array (c ∷ cs)

-- Behind a range: the end, or a comma.
unfoldable pub after_range : Reading → Reading
unfolding after_comma
after_range rest array [] = ok (some array)
after_range rest array (c ∷ cs) = if c == b',' then after_comma rest array cs else ok none

-- Behind the `-`: the range begins behind the last number of the array.
unfoldable pub second_number : Reading → Reading
unfolding add_range after_range
second_number rest array text =
    let num = atoi text in
    let i = u32 (get_or array (length array - 1) 0 + 1) in
    if ltb num i
    then ok none
    else do array' ← add_range (num + 1 - i) i array; after_range rest array' (skip_digits text)

-- Behind the first number.
unfoldable pub after_first : Reading → Reading
unfolding second_number after_range
after_first rest array [] = ok (some array)
after_first rest array (c ∷ cs) =
    if c == b'-' then second_number rest array cs else after_range rest array (c ∷ cs)

-- The loop over the mask, with fuel for its rounds.
unfoldable pub expand_from : ℕ → Reading
unfolding after_first
expand_from fuel array [] = ok (some array)
expand_from zero array (c ∷ cs) = fault out_of_fuel
expand_from (suc fuel) array (c ∷ cs) = if not (is_digit c) then ok none else do
  array' ← add_number array (atoi (c ∷ cs))
  after_first (expand_from fuel) array' (skip_digits cs)

-- `mmt_mem_dup` of the array: of an empty one it is the null pointer.
abbrev pub duplicated : List ℕ → Option (List ℕ)
duplicated [] = none
duplicated (n ∷ ns) = some (n ∷ ns)

abbrev pub result_of : Option (List ℕ) → Option (List ℕ)
result_of none = none
result_of (some array) = duplicated array

-- `expand_number_range`: `none` is the null pointer and the size 0.
unfoldable pub expand_number_range : Text → Run (Option (List ℕ))
unfolding expand_from
expand_number_range mask = do read ← expand_from (length mask) [] mask; ok (result_of read)

-- The characters of a range of rules.
abbrev pub is_of_range : ℕ → Bool
is_of_range c = c == b',' || c == b'-' || is_digit c

-- The text up to the next `)` and what stands behind it, if all is of a range.
unfoldable pub take_range : Text → Option (Text × Text)
take_range [] = none
take_range (c ∷ cs) =
    let rest = take_range cs in
    if c == b')'
    then some ([], cs)
    else if is_of_range c
    then elim rest [ none ↦ none | some (range, behind) ↦ some (c ∷ range, behind) ]
    else none

-- `( id : range )` at the beginning of a mask of rules: the id, the range and what is left.
unfoldable pub take_id : Text → Option (ℕ × Text × Text)
unfolding take_range
take_id [] = none
take_id (c ∷ cs) = if not (is_digit c) then none else elim (skip_digits cs) [
  | [] ↦ none
  | d ∷ ds ↦ if not (d == b':') then none else elim (take_range ds) [
    | none ↦ none
    | some (range, behind) ↦ some (u32 (read_digits 0 (c ∷ cs)), range, behind)
  ]
]

unfoldable pub take_group : Text → Option (ℕ × Text × Text)
unfolding take_id
take_group [] = none
take_group (c ∷ cs) = if c == b'(' then take_id cs else none

-- The loop of `get_special_rules_for_thread`; `found` is what `rule_range` points to.
unfoldable pub special_from : ℕ → ℕ → Option (List ℕ) → Text → Run (Option (List ℕ))
special_from fuel thread_id found [] = ok found
special_from zero thread_id found (c ∷ cs) = fault out_of_fuel
special_from (suc fuel) thread_id found (c ∷ cs) = elim (take_group (c ∷ cs)) [
  | none ↦ fault halted
  | some (id, range, behind) ↦ elim (id == thread_id) [
    | false ↦ special_from fuel thread_id found behind
    | true ↦ elim found [
      | some old ↦ fault halted
      | none ↦ do numbers ← expand_number_range range; special_from fuel thread_id numbers behind
    ]
  ]
]

unfoldable pub get_special_rules_for_thread : ℕ → Text → Run (Option (List ℕ))
unfolding special_from
get_special_rules_for_thread thread_id mask = special_from (length mask) thread_id none mask

-- The loop over the numbers of a range that adds those which are not there.
unfoldable pub add_numbers : List ℕ → List ℕ → Run (List ℕ)
add_numbers array [] = ok array
add_numbers array (n ∷ ns) = do array' ← add_number array n; add_numbers array' ns

abbrev pub numbers_of : Option (List ℕ) → List ℕ
numbers_of none = []
numbers_of (some ns) = ns

unfoldable pub rules_from : ℕ → List ℕ → Text → Run (Option (List ℕ))
rules_from fuel array [] = ok (some array)
rules_from zero array (c ∷ cs) = fault out_of_fuel
rules_from (suc fuel) array (c ∷ cs) = elim (take_group (c ∷ cs)) [
  | none ↦ ok none
  | some (id, range, behind) ↦ do
    numbers ← expand_number_range range
    array' ← add_numbers array (numbers_of numbers)
    rules_from fuel array' behind
]

-- `get_rules_id_list_in_mask`: `none` is the return at an error.
unfoldable pub get_rules_id_list_in_mask : Text → Run (Option (List ℕ))
unfolding rules_from
get_rules_id_list_in_mask mask = rules_from (length mask) [] mask
