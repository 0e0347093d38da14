-- ===== src/Flows/FlowSet/Pigeonhole.antt =====
-- Numbers below a bound that a list leaves out, for the slots of a flow set.
use mmt_security.Prelude.{
  ℕ, zero, suc, ◌<◌, ◌≡◌, ◌≢◌, List, [], ◌∷◌, Bool, true, false, ◌==◌, if◌then◌else◌, arith, length,
  All, Bool-cases, inl, inr,
}

stands : ℕ → List ℕ → Bool
stands v [] = false
stands v (x ∷ xs) = if x == v then true else stands v xs

without : ℕ → List ℕ → List ℕ
without v [] = []
without v (x ∷ xs) = if x == v then xs else x ∷ without v xs

stands-All : (v : ℕ) (xs : List ℕ) → stands v xs ≡ false → All (λ x. x ≢ v) xs
unfolding stands
stands-All v [] h = tt
stands-All v (x ∷ xs) h = (ground arith, stands-All v xs (ground arith))

length-without :
    (v : ℕ) (xs : List ℕ) → stands v xs ≡ true → suc (length (without v xs)) ≡ length xs
unfolding stands without
length-without v [] h = cc
length-without v (x ∷ xs) h = ground (arith, length-without v xs)

without-All :
    (u v : ℕ) (xs : List ℕ) → u ≢ v → All (λ x. x ≢ u) (without v xs) → All (λ x. x ≢ u) xs
unfolding without
without-All u v [] ne h = tt
without-All u v (x ∷ xs) ne h = elim (Bool-cases (x == v)) [
  | inl q ↦ (ground arith, ground arith)
  | inr q ↦
      let rest : (x ≢ u) × All (λ x. x ≢ u) (without v xs) = ground arith in
      (rest.0, without-All u v xs ne rest.1)
]

pub left_out : (n : ℕ) (xs : List ℕ) → length xs < n → (v : ℕ) × (v < n) × All (λ x. x ≢ v) xs
left_out zero xs h = absurd (omega arith)
left_out (suc n) xs h = elim (Bool-cases (stands n xs)) [
  | inr q ↦ (n, omega arith, stands-All n xs q)
  | inl q ↦
      let (v, small, out) = left_out n (without n xs) (omega (arith, length-without n xs q)) in
      (v, omega arith, without-All v n xs (omega arith) out)
]
