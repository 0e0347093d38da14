-- ===== src/Utils/Masks/Numbers.antt =====
-- What every mask of numbers expands to (`expand_number_range`).
use mmt_security.Prelude.{
  ℕ, zero, suc, ◌+◌, ◌-◌, ◌≤◌, ◌≡◌, sym, ◌≢◌, inl, inr, Option, none, some, List, [], ◌∷◌, ◌++◌,
  true, false, not, ◌==◌, ltb, arith, length, length-append, get_or, Run, ok, fault, wild, halted,
  out_of_fuel, ◌>>=◌, Never, All, All-append, Distinct, Bool-cases, ltb→lt,
}
use mmt_security.Prelude.Bits.{u32}
use mmt_security.Utils.Search.{index_of, index_of-first}
use mmt_security.Utils.Masks.{
  Text, Reading, is_digit, skip_digits, atoi, array_size, add_number, add_range, after_comma,
  after_range, second_number, after_first, expand_from, expand_number_range, result_of,
}

-- The call ends in a value of which `P` holds, or in a write beyond the array; it does not run out of
-- fuel and does not halt.
abbrev pub Within {ℓ κ} : {A : Type ℓ} → Run A → (A → Type κ) → Type κ
Within (ok a) P = P a
Within (fault wild) P = Unit
Within (fault halted) P = Never
Within (fault out_of_fuel) P = Never

pub Within-bind {ℓ κ μ ν} :
    {A : Type ℓ} {B : Type κ} (r : Run A) (f : A → Run B) (P : A → Type μ) (Q : B → Type ν)
    → Within r P
    → ((a : A) → P a → Within (f a) Q)
    → Within (r >>= f) Q
Within-bind (ok a) f P Q h k = k a h
Within-bind (fault wild) f P Q h k = tt
Within-bind (fault halted) f P Q h k = elim h [ ]
Within-bind (fault out_of_fuel) f P Q h k = elim h [ ]

-- Different numbers, not more than the array holds.
abbrev pub IsArray : List ℕ → Type 0
IsArray array = Distinct array × (length array ≤ array_size)

abbrev pub IsExpansion : Option (List ℕ) → Type 0
IsExpansion none = Unit
IsExpansion (some array) = IsArray array

Distinct-append :
    (xs : List ℕ) (n : ℕ) → Distinct xs → All (λ x. x ≢ n) xs → Distinct (xs ++ n ∷ [])
Distinct-append [] n h k = (tt, tt)
Distinct-append (x ∷ xs) n h k =
    (All-append (λ y. y ≢ x) xs (n ∷ []) h.0 ((λ e. k.0 (sym e)), tt), Distinct-append xs n h.1 k.1)

pub add_number-IsArray :
    (array : List ℕ) (n : ℕ) → IsArray array → Within (add_number array n) IsArray
unfolding add_number
add_number-IsArray array n h = elim (index_of-first n array) [
  | inl (bound, _, _) ↦ let q : (index_of n array == length array) ≡ false = ground arith in rw q h
  | inr (e, new) ↦
      let q : (index_of n array == length array) ≡ true = ground arith in
      elim (Bool-cases (ltb (length array) array_size)) [
        | inl room ↦
            rw (q, room)
              (
                Distinct-append array n h.0 new,
                omega (arith, length-append array (n ∷ []), ltb→lt (length array) array_size room),
              )
        | inr full ↦ rw (q, full) tt
      ]
]

add_range-IsArray :
    (n i : ℕ) (array : List ℕ) → IsArray array → Within (add_range n i array) IsArray
unfolding add_range
add_range-IsArray zero i array h = h
add_range-IsArray (suc n) i array h =
    Within-bind (add_number array i) _ IsArray IsArray (add_number-IsArray array i h)
      (λ array' h'. add_range-IsArray n (i + 1) array' h')

length-skip_digits : (t : Text) → length (skip_digits t) ≤ length t
unfolding skip_digits
length-skip_digits [] = omega arith
length-skip_digits (c ∷ cs) = ground (arith, length-skip_digits cs)

-- Reading on does well for texts of some length.
abbrev DoesWell : ℕ → Reading → Type 0
DoesWell n rest =
    (array : List ℕ) (t : Text) → length t ≤ n → IsArray array → Within (rest array t) IsExpansion

module _ (n : ℕ) (rest : Reading) (well : DoesWell n rest) (array : List ℕ) where
  after_range-within :
      (t : Text) → length t ≤ n → IsArray array → Within (after_range rest array t) IsExpansion
  unfolding after_range after_comma
  after_range-within [] h a = a
  after_range-within (c ∷ []) h a = ground arith
  after_range-within (c ∷ d ∷ cs) h a = elim (Bool-cases (c == b',')) [
    | inl q ↦ rw q (well array (d ∷ cs) (omega arith) a)
    | inr q ↦ rw q tt
  ]

module _ (n : ℕ) (rest : Reading) (well : DoesWell n rest) where
  second_number-within :
      (array : List ℕ) (t : Text)
      → length t ≤ n
      → IsArray array
      → Within (second_number rest array t) IsExpansion
  unfolding second_number
  second_number-within array t h a =
      let i = u32 (get_or array (length array - 1) 0 + 1) in
      elim (Bool-cases (ltb (atoi t) i)) [
        | inl q ↦ rw q tt
        | inr q ↦ rw q (
            Within-bind (add_range (atoi t + 1 - i) i array) _ IsArray IsExpansion
              (add_range-IsArray (atoi t + 1 - i) i array a)
              (λ array' a'.
                after_range-within n rest well array' (skip_digits t)
                  (omega (arith, length-skip_digits t)) a'))
      ]

  after_first-within :
      (array : List ℕ) (t : Text)
      → length t ≤ n
      → IsArray array
      → Within (after_first rest array t) IsExpansion
  unfolding after_first
  after_first-within array [] h a = a
  after_first-within array (c ∷ cs) h a = elim (Bool-cases (c == b'-')) [
    | inl q ↦ rw q (second_number-within array cs (omega arith) a)
    | inr q ↦ rw q (after_range-within n rest well array (c ∷ cs) h a)
  ]

expand_from-within : (fuel : ℕ) → DoesWell fuel (expand_from fuel)
unfolding expand_from
expand_from-within fuel array [] h a = a
expand_from-within zero array (c ∷ cs) h a = absurd (omega arith)
expand_from-within (suc fuel) array (c ∷ cs) h a = elim (Bool-cases (not (is_digit c))) [
  | inl q ↦ rw q tt
  | inr q ↦ rw q (
      Within-bind (add_number array (atoi (c ∷ cs))) _ IsArray IsExpansion
        (add_number-IsArray array (atoi (c ∷ cs)) a)
        (λ array' a'.
          after_first-within fuel (expand_from fuel) (expand_from-within fuel) array'
            (skip_digits cs) (omega (arith, length-skip_digits cs)) a'))
]

duplicated_lem : (read : Option (List ℕ)) → IsExpansion read → IsExpansion (result_of read)
duplicated_lem none h = tt
duplicated_lem (some []) h = tt
duplicated_lem (some (n ∷ ns)) h = h

-- Whatever the text, expanding it ends, unless it writes beyond the array: with an error, or with an
-- array of at most as many numbers as it has room for, in which no number stands twice.
pub expand_number_range-IsExpansion : (mask : Text) → Within (expand_number_range mask) IsExpansion
unfolding expand_number_range
expand_number_range-IsExpansion mask =
    Within-bind (expand_from (length mask) [] mask) _ IsExpansion IsExpansion
      (expand_from-within (length mask) [] mask (omega arith) (tt, omega arith))
      (λ read h. duplicated_lem read h)
