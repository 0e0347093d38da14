-- ===== src/Utils/BinarySearch.antt =====
-- Searching a sorted array (`binary_search_uint64_t` of src/lib/mmt_utils.h).
use mmt_security.Prelude.{
  get_elem?-bound, ℕ, zero, suc, ◌+◌, ◌-◌, ◌/◌, ◌^◌, ◌≤◌, ◌<◌, ◌≡◌, ◌≢◌, refl, ◌∙◌, ap, ◌⊎◌, inl,
  inr, some, List, false, ltb, leb, ◌==◌, if◌then◌else◌, arith, length, get_elem?, get_elem?-in,
  Run, ok, fault, out_of_fuel, ◌>>=◌, at, Ensures, Bool-cases, ==_iff, ltb→lt, leb→le,
}
use mmt_security.Prelude.Bits.{u64}

-- The loop. Its fuel is one more than the number of elements at first, and bounds its rounds.
unfoldable pub search_from : ℕ → List ℕ → ℕ → ℕ → ℕ → Run ℕ
search_from zero array key low high = fault out_of_fuel
search_from (suc k) array key low high =
    let mid = u64 (low + high) / 2 in
    if leb low high
    then (do
      x ← at array mid
      let above = search_from k array key (u64 (mid + 1)) high
      let below = search_from k array key low (u64 (mid + (2 ^ 64 - 1)))
      if ltb x key then above else if x == key then ok mid else below)
    else ok (length array)

unfoldable pub binary_search : List ℕ → ℕ → Run ℕ
unfolding search_from
binary_search array key =
    search_from (length array + 1) array key 0 (u64 (length array + (2 ^ 64 - 1)))

-- The array is sorted in ascending order.
abbrev pub Ascending : List ℕ → Type 0
Ascending array =
    (i j x y : ℕ) → i ≤ j → get_elem? array i ≡ some x → get_elem? array j ≡ some y → x ≤ y

-- What a search yields: the index of the key, or the size if the key is nowhere.
abbrev pub IsSearched : List ℕ → ℕ → ℕ → Type 0
IsSearched array key i =
    (get_elem? array i ≡ some key)
    ⊎ ((i ≡ length array) × ((j x : ℕ) → get_elem? array j ≡ some x → x ≢ key))

-- The elements before `low` are less than the key, those after `high` greater.
record Between (array : List ℕ) (key low high : ℕ) : Type 0 where
  less : (j x : ℕ) → j < low → get_elem? array j ≡ some x → x < key
  more : (j x : ℕ) → high < j → get_elem? array j ≡ some x → key < x

module _ (array : List ℕ) (key : ℕ) (sorted : Ascending array) (small : length array < 2 ^ 63)
    (first : (x : ℕ) → get_elem? array 0 ≡ some x → x ≤ key) where
  search_from-IsSearched :
      (k low high : ℕ)
      → high < length array
      → low ≤ high + 1
      → high + 1 < low + k
      → Between array key low high
      → Ensures (search_from k array key low high) (IsSearched array key)
  unfolding search_from
  search_from-IsSearched zero low high bound order fuel b = absurd (omega arith)
  search_from-IsSearched (suc k) low high bound order fuel b = elim (Bool-cases (leb low high)) [
    | inr q ↦ rw q (inr (refl, λ j x here same. outside j x here same q))
    | inl q ↦
        let le : low ≤ high = leb→le low high q in
        let mid = u64 (low + high) / 2 in
        let near : (low ≤ mid) × (mid ≤ high) = (omega arith, omega arith) in
        let (x, here) = get_elem?-in array mid (omega (arith, near.1)) in
        rw (q, here)
          (elim (Bool-cases (ltb x key)) [
            | inl r ↦
                let up : u64 (mid + 1) ≡ mid + 1 = omega (arith, near.1) in
                rw (r, up)
                  (search_from-IsSearched k (mid + 1) high bound (omega (arith, near.1))
                    (omega (arith, near.0))
                    (record {
                      less = λ j y before p.
                          let le : y ≤ x = sorted j mid y x (omega arith) p here in ground arith;
                      more = b.more;
                    }))
            | inr r ↦ elim (Bool-cases (x == key)) [
              | inl s ↦ rw (r, s) (inl (here ∙ ap some ((==_iff x key).0 s)))
              | inr s ↦
                  let gt : key < x = ground arith in
                  let inner : 0 < mid = positive mid x here gt in
                  let down : u64 (mid + (2 ^ 64 - 1)) ≡ mid - 1 = omega (arith, near.1) in
                  rw (r, s, down)
                    (search_from-IsSearched k low (mid - 1) (omega (arith, near.1))
                      (omega (arith, near.0)) (omega (arith, near.1))
                      (record {
                        less = b.less;
                        more = λ j y after p.
                            let le : x ≤ y = sorted mid j x y (omega arith) here p in omega arith;
                      }))
            ]
          ])
  ]
    where
      outside : (j x : ℕ) → get_elem? array j ≡ some x → x ≡ key → leb low high ≡ false → ⊥
      outside j x here same q = elim (Bool-cases (ltb high j)) [
        | inl r ↦ let gt = b.more j x (ltb→lt high j r) here in omega arith
        | inr r ↦ let lt = b.less j x (ground arith) here in omega arith
      ]

      positive : (mid x : ℕ) → get_elem? array mid ≡ some x → key < x → 0 < mid
      positive zero x here gt = let le = first x here in absurd (omega arith)
      positive (suc mid) x here gt = omega arith

  -- On a sorted array that is not empty, and whose first element is not greater than the key, the
  -- search ends within the bounds of the array and yields the index of the key, or the size of the
  -- array if the key is not in it.
  pub binary_search-IsSearched :
      0 < length array → Ensures (binary_search array key) (IsSearched array key)
  unfolding binary_search
  binary_search-IsSearched filled =
      let high : u64 (length array + (2 ^ 64 - 1)) ≡ length array - 1 = omega arith in
      rw high (
        search_from-IsSearched (length array + 1) 0 (length array - 1) (omega arith) (omega arith)
          (omega arith)
          (record {
            less = λ j x before p. absurd (omega arith);
            more = λ j x after p. absurd (omega (arith, get_elem?-bound array j p));
          }))
