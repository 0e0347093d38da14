-- ===== src/Flows/Table/Probe.antt =====
-- The loop over the slots of a table (src/lib/mmt_set.h).
use mmt_security.Prelude.{
  ℕ, zero, suc, ◌+◌, ◌^◌, ◌%◌, ◌<◌, ◌≡◌, ◌≢◌, sym, ◌∙◌, ◌==◌, some, arith, set, length, get_elem?,
  get_elem?-set_self, get_elem?-set_ne, get_elem?-in, ok, Ensures, Bool-cases, inl, inr, ap,
  Ensures-use,
}
use mmt_security.Prelude.Bits.{u32}
use mmt_security.Flows.Queue.{wrap, next-wrap}
use mmt_security.Flows.Table.{Table, Probed, vacant, found, exhausted, empty_value, probe}

pub record IsTable (t : Table) : Type 0 where
  pub narrow : t.size < 2 ^ 32
  pub filled : 0 < t.size
  pub width : length t.slots ≡ t.size

-- What is in the slot at which the loop stops.
abbrev pub Stops : Table → ℕ → Probed → Type 0
Stops t elem (vacant i) = (i < t.size) × (get_elem? t.slots i ≡ some empty_value)
Stops t elem (found i) = (i < t.size) × (get_elem? t.slots i ≡ some elem)
Stops t elem exhausted = Unit

pub probe-Stops :
    (t : Table) (elem index left : ℕ)
    → IsTable t
    → index < t.size
    → Ensures (probe t elem index left) (Stops t elem)
unfolding probe
probe-Stops t elem index zero h small = tt
probe-Stops t elem index (suc left) h small =
    let (e, here) = get_elem?-in t.slots index (omega (arith, h.width)) in
    rw here (elim (Bool-cases (e == empty_value)) [
      | inl q ↦ rw q (small, here ∙ ground arith)
      | inr q ↦ rw q (elim (Bool-cases (e == elem)) [
        | inl r ↦ rw r (small, here ∙ ground arith)
        | inr r ↦ rw r (
            probe-Stops t elem (u32 (index + 1) % t.size) left h
              (ground (arith, next-wrap index t.size small h.narrow)))
      ])
    ])

-- A write to a vacant slot, elsewhere than where the loop stopped, keeps where it found something.
pub probe-write :
    (t : Table) (elem index left j v : ℕ) {i : ℕ}
    → IsTable t
    → index < t.size
    → get_elem? t.slots j ≡ some empty_value
    → probe t elem index left ≡ ok (found i)
    → probe (record t { slots = set t.slots j v }) elem index left ≡ ok (found i)
unfolding probe
probe-write t elem index zero j v h small gap e = cc
probe-write t elem index (suc left) j v {i} h small gap e =
    let (x, here) = get_elem?-in t.slots index (omega (arith, h.width)) in
    elim (Bool-cases (x == empty_value)) [
      | inl q ↦ absurd (ground arith)
      | inr q ↦
          let apart : j ≢ index = λ k. ground (arith, ap (get_elem? t.slots) k) in
          let same : get_elem? (set t.slots j v) index ≡ some x =
            get_elem?-set_ne t.slots v apart ∙ here in
          rw (same, q)
            (elim (Bool-cases (x == elem)) [
              | inl r ↦ rw r (ground arith)
              | inr r ↦
                  let later : probe t elem (u32 (index + 1) % t.size) left ≡ ok (found i) =
                    ground arith in
                  rw r (
                    probe-write t elem (u32 (index + 1) % t.size) left j v h
                      (ground (arith, next-wrap index t.size small h.narrow)) gap later)
            ])
    ]

-- Once the vacant slot at which the loop stopped holds the element, the loop finds it there.
pub probe-fill :
    (t : Table) (elem index left : ℕ) {i : ℕ}
    → IsTable t
    → index < t.size
    → elem ≢ empty_value
    → probe t elem index left ≡ ok (vacant i)
    → probe (record t { slots = set t.slots i elem }) elem index left ≡ ok (found i)
unfolding probe
probe-fill t elem index zero h small proper e = cc
probe-fill t elem index (suc left) {i} h small proper e =
    let (x, here) = get_elem?-in t.slots index (omega (arith, h.width)) in
    elim (Bool-cases (x == empty_value)) [
      | inl q ↦
          let at_index : index ≡ i = ground arith in
          let same : get_elem? (set t.slots i elem) index ≡ some elem =
            rw at_index (get_elem?-set_self t.slots i elem (omega (arith, h.width, at_index))) in
          rw same (ground arith)
      | inr q ↦ elim (Bool-cases (x == elem)) [
        | inl r ↦ absurd (ground arith)
        | inr r ↦
            let later : probe t elem (u32 (index + 1) % t.size) left ≡ ok (vacant i) =
              ground arith in
            let stops : Stops t elem (vacant i) =
              Ensures-use (probe t elem (u32 (index + 1) % t.size) left) (Stops t elem)
                (probe-Stops t elem (u32 (index + 1) % t.size) left h
                  (ground (arith, next-wrap index t.size small h.narrow)))
                later in
            let apart : i ≢ index = λ k. ground (arith, ap (get_elem? t.slots) k) in
            let same : get_elem? (set t.slots i elem) index ≡ some x =
              get_elem?-set_ne t.slots elem apart ∙ here in
            rw (same, q, r)
              (probe-fill t elem (u32 (index + 1) % t.size) left h
                (ground (arith, next-wrap index t.size small h.narrow)) proper later)
      ]
    ]

-- The loop stops before it has used up its rounds if one of the slots to come is vacant.
pub probe-ends :
    (t : Table) (elem index left d : ℕ)
    → IsTable t
    → index < t.size
    → d < t.size
    → d < left
    → get_elem? t.slots (wrap t.size (index + d)) ≡ some empty_value
    → Ensures (probe t elem index left) (λ p. p ≢ exhausted)
unfolding probe
probe-ends t elem index zero d h small near more gap = absurd (omega arith)
probe-ends t elem index (suc left) zero h small near more gap =
    let same : wrap t.size (index + 0) ≡ index = ground arith in
    let here : get_elem? t.slots index ≡ some empty_value = rw (sym same) gap in rw here (λ k. cc)
probe-ends t elem index (suc left) (suc d) h small near more gap =
    let (x, here) = get_elem?-in t.slots index (omega (arith, h.width)) in
    let step = next-wrap index t.size small h.narrow in
    let same : wrap t.size (wrap t.size (index + 1) + d) ≡ wrap t.size (index + suc d) =
      ground arith in
    rw here (elim (Bool-cases (x == empty_value)) [
      | inl q ↦ rw q (λ k. cc)
      | inr q ↦ rw q (elim (Bool-cases (x == elem)) [
        | inl r ↦ rw r (λ k. cc)
        | inr r ↦
            rw (r, step)
              (probe-ends t elem (wrap t.size (index + 1)) left d h (ground arith) (omega arith)
                (omega arith) (rw same gap))
      ])
    ])
