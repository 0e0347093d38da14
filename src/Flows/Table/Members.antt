-- ===== src/Flows/Table/Members.antt =====
-- `mmt_set_add` and `mmt_set_check` (src/lib/mmt_set.h) together.
use native.Mathlib.Nat.{mod-lt}
use mmt_security.Prelude.{
  ℕ, ◌+◌, ◌-◌, ◌%◌, ◌<◌, ◌≡◌, ◌≢◌, refl, ◌∙◌, ◌==◌, some, false, if◌then◌else◌, arith, set, length,
  length-set, get_elem?, get_elem?-set_self, ltb, lt→ltb, Run, ok, fault, Ensures, inl, inr, ◌⊎◌,
}
use mmt_security.Prelude.Bits.{u32}
use mmt_security.Flows.Queue.{wrap}
use mmt_security.Flows.Table.{
  Table, Probed, slot, vacant, found, exhausted, empty_value, probe, first_index, set_add,
  set_check, hash_element_value,
}
use mmt_security.Flows.Table.Probe.{
  IsTable, Stops, probe-Stops, probe-write, probe-fill, probe-ends,
}

-- The start of the loop over the slots.
start : Table → ℕ → ℕ
start t elem = u32 (hash_element_value elem % t.size)

start_in : (t : Table) (elem : ℕ) → IsTable t → start t elem < t.size
unfolding start
start_in t elem h =
    let small = mod-lt (hash_element_value elem) {m = t.size} h.filled in omega (arith, h.narrow)

first_index-start : (t : Table) (elem : ℕ) → IsTable t → first_index t elem ≡ ok (start t elem)
unfolding start first_index
first_index-start t elem h = let e : (t.size == 0) ≡ false = ground (arith, h.filled) in rw e refl

-- An addition that succeeded: the element is in the slot `i`, where it was before or where the
-- slot was vacant, and is found there from now on.
pub record Added (t : Table) (elem : ℕ) (t' : Table) (i : ℕ) : Type 0 where
  pub index_in : i < t.size
  pub here : get_elem? t'.slots i ≡ some elem
  pub table : IsTable t'
  pub same_size : t'.size ≡ t.size
  pub others :
      (t' ≡ t)
      ⊎ ((get_elem? t.slots i ≡ some empty_value) × (t' ≡ record t { slots = set t.slots i elem }))
  pub checked : set_check t' elem ≡ ok (slot i)

set_check-found :
    (t : Table) (elem i : ℕ)
    → IsTable t
    → elem ≢ empty_value
    → probe t elem (start t elem) t.size ≡ ok (found i)
    → set_check t elem ≡ ok (slot i)
unfolding set_check
set_check-found t elem i h proper e =
    let q : (elem == empty_value) ≡ false = ground arith in
    rw (q, first_index-start t elem h, e) refl

found-check :
    (t : Table) (elem : ℕ) {i : ℕ}
    → IsTable t
    → elem ≢ empty_value
    → set_check t elem ≡ ok (slot i)
    → probe t elem (start t elem) t.size ≡ ok (found i)
unfolding set_check
found-check t elem h proper e = ground (arith, first_index-start t elem h)

module _ (t : Table) (elem : ℕ) (h : IsTable t) (proper : elem ≢ empty_value) where
  added :
      (p : Probed)
      → probe t elem (start t elem) t.size ≡ ok p
      → Stops t elem p
      → p ≢ exhausted
      → Ensures (set_add t elem) (λ r. (i : ℕ) × (r.0 ≡ slot i) × Added t elem r.1 i)
  unfolding set_add
  added exhausted e s more = absurd (more refl)
  added (found i) e s more =
      let q : (elem == empty_value) ≡ false = ground arith in
      rw (q, first_index-start t elem h, e)
        (
          i,
          refl,
          record {
            index_in = s.0;
            here = s.1;
            table = h;
            same_size = refl;
            others = inl refl;
            checked = set_check-found t elem i h proper e;
          },
        )
  added (vacant i) e s more =
      let q : (elem == empty_value) ≡ false = ground arith in
      let bound : i < length t.slots = omega (arith, s.0, h.width) in
      let table : IsTable (record t { slots = set t.slots i elem }) = record {
        narrow = h.narrow;
        filled = h.filled;
        width = length-set t.slots i elem ∙ h.width;
      } in
      rw (q, first_index-start t elem h, e, lt→ltb i (length t.slots) bound)
        (
          i,
          refl,
          record {
            index_in = s.0;
            here = get_elem?-set_self t.slots i elem bound;
            table = table;
            same_size = refl;
            others = inr (s.1, refl);
            checked =
                set_check-found (record t { slots = set t.slots i elem }) elem i table proper
                  (unfold start in
                    probe-fill t elem (start t elem) t.size h (start_in t elem h) proper e);
          },
        )

  -- A table with a vacant slot takes any number but the one that marks vacant slots: the addition
  -- returns the slot that holds it, writes at most that slot, which was vacant, and a check then
  -- finds the number there.
  pub set_add-Added :
      (v : ℕ)
      → v < t.size
      → get_elem? t.slots v ≡ some empty_value
      → Ensures (set_add t elem) (λ r. (i : ℕ) × (r.0 ≡ slot i) × Added t elem r.1 i)
  set_add-Added v near gap =
      let s = start t elem in
      let small = start_in t elem h in
      let d = if ltb v s then v + t.size - s else v - s in
      let there : wrap t.size (s + d) ≡ v = ground arith in
      let ends =
        probe-ends t elem s t.size d h small (ground arith) (ground arith) (rw there gap) in
      let stops = probe-Stops t elem s t.size h small in
      split (probe t elem s t.size) refl stops ends
    where
      split :
          (r : Run Probed)
          → probe t elem (start t elem) t.size ≡ r
          → Ensures r (Stops t elem)
          → Ensures r (λ p. p ≢ exhausted)
          → Ensures (set_add t elem) (λ r. (i : ℕ) × (r.0 ≡ slot i) × Added t elem r.1 i)
      split (ok p) e a b = added p e a b
      split (fault f) e a b = elim a [ ]

-- What a check finds is still found there after any addition to the table.
pub set_check-set_add :
    (t t' : Table) (elem other i : ℕ) {j : ℕ}
    → IsTable t
    → Added t elem t' i
    → other ≢ empty_value
    → set_check t other ≡ ok (slot j)
    → set_check t' other ≡ ok (slot j)
set_check-set_add t t' elem other i {j} h a proper e = elim a.others [
  | inl same ↦ rw same e
  | inr (gap, same) ↦
      let here = found-check t other h proper e in
      rw same (
        set_check-found (record t { slots = set t.slots i elem }) other j
          (record {
            narrow = h.narrow;
            filled = h.filled;
            width = length-set t.slots i elem ∙ h.width;
          })
          proper
          (unfold start in
            probe-write t other (start t other) t.size i elem h (start_in t other h) gap here))
]
