-- ===== src/Utils/Sorting.antt =====
-- Sorting an array in ascending order (`asc_sort_array_uint64_t` of src/lib/mmt_utils.h).
use mmt_security.Prelude.{
  ℕ, zero, suc, ◌+◌, ◌<◌, ◌≤◌, ◌≡◌, refl, List, [], ◌∷◌, ltb, ◌==◌, if◌then◌else◌, arith, length,
  All, Bool-cases, inl, inr, ap,
}

-- The loop over `j`: the elements after `array[ i ]`, with what stands in `array[ i ]` at each
-- round. It returns what stands there at last, and the elements after it.
unfoldable pub sort_pass : ℕ → List ℕ → ℕ × List ℕ
sort_pass x [] = (x, [])
sort_pass x (y ∷ ys) =
    let here = if ltb y x then y else x in
    let there = if ltb y x then x else y in let rest = sort_pass here ys in (rest.0, there ∷ rest.1)

-- The loop over `i`, with `n` elements left.
unfoldable pub sort_from : ℕ → List ℕ → List ℕ
unfolding sort_pass
sort_from zero xs = xs
sort_from (suc n) [] = []
sort_from (suc n) (x ∷ xs) = let r = sort_pass x xs in r.0 ∷ sort_from n r.1

unfoldable pub asc_sort_array : List ℕ → List ℕ
unfolding sort_from
asc_sort_array xs = sort_from (length xs) xs

-- How often a number stands in a list.
unfoldable pub count : ℕ → List ℕ → ℕ
count v [] = 0
count v (x ∷ xs) = (if x == v then 1 else 0) + count v xs

-- Every element is at most all those after it.
abbrev pub IsSorted : List ℕ → Type 0
IsSorted [] = Unit
IsSorted (x ∷ xs) = All (λ y. x ≤ y) xs × IsSorted xs

lower :
    (x y : ℕ)
    → ((if ltb y x then y else x) ≤ x) × ((if ltb y x then y else x) ≤ (if ltb y x then x else y))
lower x y = (ground arith, ground arith)

sort_pass-least :
    (x : ℕ) (xs : List ℕ)
    → ((sort_pass x xs).0 ≤ x) × All (λ y. (sort_pass x xs).0 ≤ y) (sort_pass x xs).1
unfolding sort_pass
sort_pass-least x [] = (omega arith, tt)
sort_pass-least x (y ∷ ys) =
    let (p, r) = sort_pass-least (if ltb y x then y else x) ys in
    (omega (arith, p, (lower x y).0), (omega (arith, p, (lower x y).1), r))

sort_pass-count :
    (v x : ℕ) (xs : List ℕ) → count v ((sort_pass x xs).0 ∷ (sort_pass x xs).1) ≡ count v (x ∷ xs)
unfolding sort_pass count
sort_pass-count v x [] = refl
sort_pass-count v x (y ∷ ys) = elim (Bool-cases (ltb y x)) [
  | inl q ↦ rw q (omega (arith, sort_pass-count v y ys))
  | inr q ↦ rw q (omega (arith, sort_pass-count v x ys))
]

sort_pass-length : (x : ℕ) (xs : List ℕ) → length (sort_pass x xs).1 ≡ length xs
unfolding sort_pass
sort_pass-length x [] = refl
sort_pass-length x (y ∷ ys) = ap suc (sort_pass-length (if ltb y x then y else x) ys)

sort_from-count : (n v : ℕ) (xs : List ℕ) → length xs ≤ n → count v (sort_from n xs) ≡ count v xs
unfolding sort_from count
sort_from-count zero v xs h = refl
sort_from-count (suc n) v [] h = refl
sort_from-count (suc n) v (x ∷ xs) h = omega (
  arith,
  sort_from-count n v (sort_pass x xs).1 (omega (arith, sort_pass-length x xs)),
  sort_pass-count v x xs,
)

All-count : (m v : ℕ) (xs : List ℕ) → All (λ y. m ≤ y) xs → 0 < count v xs → m ≤ v
unfolding count
All-count m v [] h pos = absurd (omega arith)
All-count m v (x ∷ xs) h pos = elim (Bool-cases (x == v)) [
  | inl q ↦ ground (arith, h.0)
  | inr q ↦ All-count m v xs h.1 (ground arith)
]

count-All : (m : ℕ) (xs : List ℕ) → ((v : ℕ) → 0 < count v xs → m ≤ v) → All (λ y. m ≤ y) xs
unfolding count
count-All m [] h = tt
count-All m (x ∷ xs) h = (h x (ground arith), count-All m xs (λ v pos. h v (omega arith)))

sort_from-IsSorted : (n : ℕ) (xs : List ℕ) → length xs ≤ n → IsSorted (sort_from n xs)
unfolding sort_from
sort_from-IsSorted zero [] h = tt
sort_from-IsSorted zero (x ∷ xs) h = absurd (omega arith)
sort_from-IsSorted (suc n) [] h = tt
sort_from-IsSorted (suc n) (x ∷ xs) h = (
  count-All (sort_pass x xs).0 (sort_from n (sort_pass x xs).1) (λ v pos.
      All-count (sort_pass x xs).0 v (sort_pass x xs).1 (sort_pass-least x xs).1 (
        omega
          (arith, sort_from-count n v (sort_pass x xs).1 (omega (arith, sort_pass-length x xs))))),
  sort_from-IsSorted n (sort_pass x xs).1 (omega (arith, sort_pass-length x xs)),
)

-- The array is sorted afterwards, and holds each number as often as before.
pub asc_sort_array-IsSorted :
    (xs : List ℕ)
    → IsSorted (asc_sort_array xs) × ((v : ℕ) → count v (asc_sort_array xs) ≡ count v xs)
unfolding asc_sort_array
asc_sort_array-IsSorted xs = (
  sort_from-IsSorted (length xs) xs (omega arith),
  λ v. sort_from-count (length xs) v xs (omega arith),
)
