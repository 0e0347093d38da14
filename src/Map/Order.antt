-- ===== src/Map/Order.antt =====
-- What the map asks of a function of comparison, and the comparisons of mmt_map_t.h.
use Prim.Native.Nat.{Ordering}
use mmt_security.Prelude.{ℕ, ◌≡◌, ◌==◌, ltb, if◌then◌else◌, arith}
use mmt_security.Map.{Comparison}

pub record IsOrder {ℓ} {K : Type ℓ} (cmp : Comparison K) : Type ℓ where
  pub same : (a : K) → cmp a a ≡ Ordering.eq
  pub gt_of_lt : (a b : K) → cmp a b ≡ Ordering.lt → cmp b a ≡ Ordering.gt
  pub lt_of_gt : (a b : K) → cmp a b ≡ Ordering.gt → cmp b a ≡ Ordering.lt
  pub trans : (a b c : K) → cmp a b ≡ Ordering.lt → cmp b c ≡ Ordering.lt → cmp a c ≡ Ordering.lt
  pub respects : (a b c : K) → cmp a b ≡ Ordering.eq → cmp a c ≡ cmp b c
  pub eq_of_eq : (a b : K) → cmp a b ≡ Ordering.eq → cmp b a ≡ Ordering.eq

-- `compare_uint64_t` and `compare_uint32_t`
unfoldable pub compare_uint64_t : Comparison ℕ
compare_uint64_t a b = if a == b then Ordering.eq else if ltb b a then Ordering.gt else Ordering.lt

pub compare_uint64_t-IsOrder : IsOrder compare_uint64_t
unfolding compare_uint64_t
compare_uint64_t-IsOrder = ground arith
