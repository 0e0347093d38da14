-- ===== src/Flows/FlowSet/Adding.antt =====
-- Adding a number to a flow set and checking for it (`mmt_set_ex_add`, `mmt_set_ex_check`).
use mmt_security.Prelude.{
  ℕ, ◌+◌, ◌-◌, ◌^◌, ◌<◌, ◌≡◌, ◌≢◌, refl, sym, ◌∙◌, ◌==◌, Option, none, some, List, [], ◌∷◌, ◌++◌,
  true, false, if◌then◌else◌, arith, length, get_elem?, get_elem?-in, get_elem?-set-cases, ok,
  Ensures, Ensures-bind, Ensures-map, Bool-cases, ==_iff, inl, inr, ap, All, All-get, All-append,
  replicate, length-replicate, All-replicate,
}
use mmt_security.Prelude.Bits.{u32}
use mmt_security.Flows.Filter.{filter64_add, filter64_create}
use mmt_security.Flows.Filter.Members.{
  IsFilter, filter64_add-IsFilter, filter64_check-filter64_add, filter64_create-IsFilter,
}
use mmt_security.Flows.Ring.{Ring, ring_is_full, ring_enqueue}
use mmt_security.Flows.Queue.{
  Holds, ring_is_full-length, ring_enqueue-Enqueued, Enqueued, ring_create-Holds,
}
use mmt_security.Flows.Table.{Table, slot, empty_value, set_add, set_check, set_create}
use mmt_security.Flows.Table.Members.{Added, set_add-Added}
use mmt_security.Flows.FlowSet.{
  FlowSet, remove_oldest, nb_to_rm, remember, set_ex_add, set_ex_check, set_ex_create,
}
use mmt_security.Flows.FlowSet.Pigeonhole.{left_out}
use mmt_security.Flows.FlowSet.Present.{
  IsFlowSet, Stands, Stands-append, Stands-last, Kept, remove_oldest-Kept,
}

-- The invariant, with room for one more index in the ring.
abbrev HasRoom : FlowSet → FlowSet → Type 0
HasRoom s s' = (ys : List ℕ) × IsFlowSet s' ys × (length ys + 1 < s'.ring.size)

make_room :
    (s : FlowSet) (xs : List ℕ)
    → IsFlowSet s xs
    → Ensures (if ring_is_full s.ring then remove_oldest (nb_to_rm s) 0 s else ok s) (HasRoom s)
make_room s xs h =
    let (full, _) = ring_is_full-length s.ring h.ring in
    elim (Bool-cases (ring_is_full s.ring)) [
      | inr q ↦
          let other : length xs + 1 ≢ s.ring.size = λ e. ground (arith, full.1 e) in
          rw q (xs, h, omega (arith, h.ring.room))
      | inl q ↦ rw q (
          Ensures-map (remove_oldest (nb_to_rm s) 0 s) (Kept (length xs - nb_to_rm s) s) (HasRoom s)
            (remove_oldest-Kept (nb_to_rm s) 0 s xs h (omega (arith, h.several)))
            (λ s' (ys, k, short, same).
              let some_go : 0 < nb_to_rm s = ground arith in
              (ys, k, omega (arith, full.0 q, k.same_size, h.same_size, h.several))))
    ]

-- A number that no index of the ring points to is the index of a vacant slot.
vacant_slot :
    (s : FlowSet) (ys : List ℕ) (v : ℕ)
    → IsFlowSet s ys
    → v < s.set.size
    → All (λ x. x ≢ v) ys
    → get_elem? s.set.slots v ≡ some empty_value
vacant_slot s ys v h small out =
    let (e, here) = get_elem?-in s.set.slots v (omega (arith, h.table.width)) in
    elim (Bool-cases (e == empty_value)) [
      | inl q ↦ here ∙ ap some ((==_iff e empty_value).0 q)
      | inr q ↦
          let (k, there) = h.kept v here (ground arith) in
          absurd (All-get (λ x. x ≢ v) ys k out there refl)
    ]

-- The set once the element is in the slot `i` of the table.
abbrev with_slot : FlowSet → ℕ → Table → Ring ℕ → FlowSet
with_slot s elem t r = record s { set = t; ring = r; filter = filter64_add s.filter elem }

with_slot-IsFlowSet :
    (s : FlowSet) (ys : List ℕ) (elem i : ℕ) (t : Table) (r : Ring ℕ)
    → IsFlowSet s ys
    → Added s.set elem t i
    → r.size ≡ s.ring.size
    → Holds r (ys ++ (i ∷ []))
    → IsFlowSet (with_slot s elem t r) (ys ++ (i ∷ []))
with_slot-IsFlowSet s ys elem i t r h a size holds = record {
  table = a.table;
  ring = holds;
  same_size = size ∙ h.same_size ∙ sym a.same_size;
  several = rw a.same_size h.several;
  indices =
      rw a.same_size (All-append (λ j. j < s.set.size) ys (i ∷ []) h.indices (a.index_in, tt));
  kept = λ j {e} p ne. kept j e p ne;
  filter = filter64_add-IsFilter s.filter elem h.filter;
}
  where
    kept : (j e : ℕ) → get_elem? t.slots j ≡ some e → e ≢ empty_value → Stands j (ys ++ (i ∷ []))
    kept j e p ne = elim a.others [
      | inl same ↦
          Stands-append j ys (i ∷ []) (h.kept j (sym (ap (λ u. get_elem? u.slots j) same) ∙ p) ne)
      | inr (gap, same) ↦
          elim (get_elem?-set-cases s.set.slots i j elem
            (sym (ap (λ u. get_elem? u.slots j) same) ∙ p)) [
              | inl (e₁, _) ↦ rw e₁ (Stands-last i ys)
              | inr (_, old) ↦ Stands-append j ys (i ∷ []) (h.kept j old ne)
            ]
    ]

found_in :
    (s : FlowSet) (elem i : ℕ) (t : Table) (r : Ring ℕ)
    → IsFilter s.filter
    → set_check t elem ≡ ok (slot i)
    → set_ex_check (with_slot s elem t r) elem ≡ ok true
unfolding set_ex_check
found_in s elem i t r f e = rw ((filter64_check-filter64_add s.filter elem elem f).0, e) refl

-- What adding leaves: the invariant, and a set in which the number is found.
abbrev pub IsPresent : ℕ → FlowSet → Type 0
IsPresent elem s = ((ys : List ℕ) × IsFlowSet s ys) × (set_ex_check s elem ≡ ok true)

remember-IsPresent :
    (s : FlowSet) (ys : List ℕ) (elem i : ℕ) (t : Table)
    → IsFlowSet s ys
    → length ys + 1 < s.ring.size
    → Added s.set elem t i
    → Ensures (remember (record s { set = t }) elem (slot i)) (IsPresent elem)
unfolding remember
remember-IsPresent s ys elem i t h room a =
    let same : u32 i ≡ i = omega (arith, a.index_in, h.table.narrow) in
    rw same (
      Ensures-bind (ring_enqueue s.ring i) _ (Enqueued s.ring ys i) (IsPresent elem)
        (ring_enqueue-Enqueued s.ring ys i h.ring)
        (λ (b, r) _ p.
          let (_, size, holds) = p.1 room in
          (
            (ys ++ (i ∷ []), with_slot-IsFlowSet s ys elem i t r h a size holds),
            found_in s elem i t r h.filter a.checked,
          )))

-- Adding a number, but the one that marks vacant slots, to a flow set of at least two slots
-- succeeds, keeps the invariant, and a check then finds the number, whatever had to be removed.
pub set_ex_add-IsPresent :
    (s : FlowSet) (xs : List ℕ) (elem : ℕ)
    → IsFlowSet s xs
    → elem ≢ empty_value
    → Ensures (set_ex_add s elem) (λ r. (r.0 ≡ true) × IsPresent elem r.1)
unfolding set_ex_add
set_ex_add-IsPresent s xs elem h proper =
    let q : (elem == empty_value) ≡ false = ground arith in
    rw q (
      Ensures-bind (if ring_is_full s.ring then remove_oldest (nb_to_rm s) 0 s else ok s) _
        (HasRoom s) (λ r. (r.0 ≡ true) × IsPresent elem r.1) (make_room s xs h)
        (λ s' _ (ys, k, room).
          let (v, small, out) = left_out s'.set.size ys (omega (arith, k.same_size)) in
          Ensures-bind (set_add s'.set elem) _
            (λ r. (i : ℕ) × (r.0 ≡ slot i) × Added s'.set elem r.1 i)
            (λ r. (r.0 ≡ true) × IsPresent elem r.1)
            (set_add-Added s'.set elem k.table proper v small (vacant_slot s' ys v k small out))
            (λ (place, t) _ (i, e, a). rw e (
              Ensures-bind (remember (record s' { set = t }) elem (slot i)) _ (IsPresent elem)
                (λ r. (r.0 ≡ true) × IsPresent elem r.1)
                (remember-IsPresent s' ys elem i t k room a) (λ s'' _ p. (refl, p))))))

abbrev created : ℕ → Ring ℕ → FlowSet
created size ring = record {
  set = record { size = size; slots = replicate size empty_value };
  ring = ring;
  filter = filter64_create;
}

-- A set that is created has nothing in it, and the invariant holds, for at least two slots.
pub set_ex_create-IsFlowSet :
    (size : ℕ) (memory : List ℕ)
    → 1 < size
    → size < 2 ^ 32
    → length memory ≡ size
    → (s : FlowSet) × (set_ex_create size (some memory) ≡ some s) × IsFlowSet s []
unfolding set_ex_create set_create
set_ex_create-IsFlowSet size memory several small width =
    let (r, e, same, holds) = ring_create-Holds size memory (omega arith) small width in
    (
      created size r,
      ap
          (λ o. elim o as (λ _. Option FlowSet) [
            | none ↦ none
            | some ring ↦ some (created size ring)
          ])
          e,
      record {
        table = record {
          narrow = small;
          filled = omega arith;
          width = length-replicate size empty_value;
        };
        ring = holds;
        same_size = same;
        several = several;
        indices = tt;
        kept = λ i {e} p ne. absurd (
            ne (
              All-get (λ x. x ≡ empty_value) (replicate size empty_value) i
                (All-replicate (λ x. x ≡ empty_value) size empty_value refl) p));
        filter = filter64_create-IsFilter;
      },
    )

-- The number that marks vacant slots is refused.
pub set_ex_add-empty : (s : FlowSet) → set_ex_add s empty_value ≡ ok (false, s)
unfolding set_ex_add
set_ex_add-empty s = refl
