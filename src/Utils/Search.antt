-- ===== src/Utils/Search.antt =====
-- Searching arrays (`find_byte`, `index_of` of src/lib/mmt_utils.h).
use mmt_security.Prelude.{
  ℕ, zero, suc, ◌+◌, ◌<◌, ◌≡◌, ◌≢◌, refl, ◌⊎◌, inl, inr, some, List, [], ◌∷◌, ◌==◌, if◌then◌else◌,
  arith, length, get_elem?, All, Bool-cases, ==_iff,
}

-- `index_of`: the loop stops at the value, or at the end of the array.
unfoldable pub index_of : ℕ → List ℕ → ℕ
index_of val [] = 0
index_of val (x ∷ xs) = let rest = index_of val xs in if x == val then 0 else suc rest

-- `find_byte`: one more than the index of the byte, or 0.
unfoldable pub find_byte_from : ℕ → List ℕ → ℕ → ℕ
find_byte_from search [] i = 0
find_byte_from search (x ∷ xs) i =
    let rest = find_byte_from search xs (i + 1) in if x == search then i + 1 else rest

unfoldable pub find_byte : ℕ → List ℕ → ℕ
unfolding find_byte_from
find_byte search xs = find_byte_from search xs 0

-- The index is that of the first item that equals the value, or the size of the array if none does.
pub index_of-first :
    (val : ℕ) (xs : List ℕ)
    → ((index_of val xs < length xs)
        × (get_elem? xs (index_of val xs) ≡ some val)
        × ((j : ℕ) → j < index_of val xs → get_elem? xs j ≢ some val))
      ⊎ ((index_of val xs ≡ length xs) × All (λ x. x ≢ val) xs)
unfolding index_of
index_of-first val [] = inr (refl, tt)
index_of-first val (x ∷ xs) = elim (Bool-cases (x == val)) [
  | inl q ↦
      let e : x ≡ val = (==_iff x val).0 q in
      inl (rw q (omega arith), rw (q, e) refl, λ j small. absurd (ground arith))
  | inr q ↦ elim (index_of-first val xs) [
    | inl (bound, here, earlier) ↦
        inl (rw q (omega arith), rw q here, λ j small. before j small earlier)
    | inr (e, out) ↦ inr (rw q (omega arith), (ground arith, out))
  ]
]
  where
    before :
        (j : ℕ)
        → j < index_of val (x ∷ xs)
        → ((j : ℕ) → j < index_of val xs → get_elem? xs j ≢ some val)
        → get_elem? (x ∷ xs) j ≢ some val
    before zero small earlier = λ k. ground arith
    before (suc j) small earlier = earlier j (ground arith)
