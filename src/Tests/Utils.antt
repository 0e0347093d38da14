-- ===== src/Tests/Utils.antt =====
-- Runs of the routines of Utils.
use mmt_security.Prelude.{zero, suc, arith, Ensures, fault, wild, ℕ, ◌≡◌, refl, List, [], ◌∷◌}
use mmt_security.Utils.Search.{index_of, find_byte}
use mmt_security.Utils.BinarySearch.{Ascending, IsSearched, binary_search, binary_search-IsSearched}
use mmt_security.Utils.Sorting.{asc_sort_array}

searched : index_of 7 (5 ∷ 7 ∷ 7 ∷ []) ≡ 1
unfolding index_of
searched = refl

missed : index_of 9 (5 ∷ 7 ∷ 7 ∷ []) ≡ 3
unfolding index_of
missed = refl

byte_found : find_byte 7 (5 ∷ 7 ∷ 7 ∷ []) ≡ 2
unfolding find_byte
byte_found = refl

sorted : asc_sort_array (5 ∷ 3 ∷ 9 ∷ 3 ∷ []) ≡ 3 ∷ 3 ∷ 5 ∷ 9 ∷ []
unfolding asc_sort_array
sorted = refl

abbrev five_seven : List ℕ
five_seven = 5 ∷ 7 ∷ []

five_seven-Ascending : Ascending five_seven
five_seven-Ascending zero zero x y p h k = let e : 5 ≡ x = cc in let f : 5 ≡ y = cc in omega arith
five_seven-Ascending zero (suc zero) x y p h k =
    let e : 5 ≡ x = cc in let f : 7 ≡ y = cc in omega arith
five_seven-Ascending zero (suc (suc j)) x y p h k = cc
five_seven-Ascending (suc zero) zero x y p h k = absurd (omega arith)
five_seven-Ascending (suc zero) (suc zero) x y p h k =
    let e : 7 ≡ x = cc in let f : 7 ≡ y = cc in omega arith
five_seven-Ascending (suc zero) (suc (suc j)) x y p h k = cc
five_seven-Ascending (suc (suc i)) j x y p h k = cc

binary_search-IsSearched_example : Ensures (binary_search five_seven 6) (IsSearched five_seven 6)
binary_search-IsSearched_example =
    binary_search-IsSearched five_seven 6 five_seven-Ascending (omega arith)
      (λ x h. let e : 5 ≡ x = cc in omega arith) (omega arith)

-- A key below the first element makes the upper bound wrap around.
below_first : binary_search five_seven 3 ≡ fault wild
unfolding binary_search
below_first = refl

searched_empty : binary_search [] 3 ≡ fault wild
unfolding binary_search
searched_empty = refl
