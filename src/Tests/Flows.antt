-- ===== src/Tests/Flows.antt =====
-- Runs of the flow set and its parts, and the theorems about them at concrete inputs.
use mmt_security.Prelude.{
  ℕ, zero, suc, ◌+◌, ◌≡◌, refl, arith, some, List, [], ◌∷◌, true, false, get_elem?, ok, Ensures,
  ◌≢◌, inr,
}
use mmt_security.Flows.Bit.{bit_set, bit_clear, bit_check}
use mmt_security.Flows.Filter.{
  filter64_create, filter64_add, filter64_check, filter64_rm, filter32_create, filter32_add,
  filter32_check, filter32_rm,
}
use mmt_security.Flows.Filter.Members.{filter64_create-IsFilter, filter64_rm_hides}
use mmt_security.Flows.Ring.{
  Ring, ring_create, ring_enqueue, ring_dequeue, ring_is_full, ring_is_empty, ring_reset,
}
use mmt_security.Flows.Queue.{Holds, wrap}
use mmt_security.Flows.Table.{
  Table, slot, enoent, empty_value, set_add, set_check, set_create, set_empty_slot, probe,
  first_index, hash_element_value,
}
use mmt_security.Flows.Table.Probe.{IsTable}
use mmt_security.Flows.Table.Members.{Added, set_add-Added}
use mmt_security.Flows.FlowSet.{
  FlowSet, set_ex_create, set_ex_add, set_ex_check, take_oldest, remove_oldest, remember,
}
use mmt_security.Flows.FlowSet.Present.{IsFlowSet}
use mmt_security.Flows.FlowSet.Adding.{IsPresent, set_ex_add-IsPresent}

program : Unit {0}
unfolding bit_set bit_clear bit_check filter64_create filter64_add filter64_check filter64_rm
    filter32_create filter32_add filter32_check filter32_rm ring_create ring_enqueue ring_dequeue
    ring_is_full ring_is_empty ring_reset set_add set_check set_create set_empty_slot probe
    first_index hash_element_value set_ex_create set_ex_add set_ex_check take_oldest remove_oldest
    remember
program = tt

filter64_rm_hides_example : filter64_check (filter64_rm filter64_create 261) 5 ≡ false
filter64_rm_hides_example = filter64_rm_hides filter64_create 261 5 filter64_create-IsFilter refl

-- The flows 5 and 261 have their lowest byte in common: removing one hides the other.
lost_member :
    filter64_check (filter64_rm (filter64_add (filter64_add filter64_create 5) 261) 261) 5 ≡ false
unfolding program
lost_member = refl

abbrev two_of_three : Ring ℕ
two_of_three = record { head = 2; tail = 0; size = 4; buffer = 8 ∷ 9 ∷ 0 ∷ 0 ∷ [] }

two_of_three-Holds : Holds two_of_three (8 ∷ 9 ∷ [])
two_of_three-Holds = record {
  narrow = omega arith;
  tail_in = omega arith;
  width = refl;
  room = omega arith;
  head_at = refl;
  slots = slots;
}
  where
    slots :
        (k : ℕ) {a : ℕ}
        → get_elem? (8 ∷ 9 ∷ []) k ≡ some a
        → get_elem? two_of_three.buffer (wrap 4 (0 + k)) ≡ some a
    slots zero h = h
    slots (suc zero) h = h
    slots (suc (suc k)) h = cc

abbrev empty_table : Table
empty_table = record { size = 3; slots = empty_value ∷ empty_value ∷ empty_value ∷ [] }

empty_table-IsTable : IsTable empty_table
empty_table-IsTable = record { narrow = omega arith; filled = omega arith; width = refl }

set_add-Added_example :
    Ensures (set_add empty_table 5) (λ r. (i : ℕ) × (r.0 ≡ slot i) × Added empty_table 5 r.1 i)
set_add-Added_example =
    set_add-Added empty_table 5 empty_table-IsTable (omega arith) 0 (omega arith) refl

-- The number 5 starts at the slot 2, and so does 7, which goes on to the slot 0.
abbrev with_five : Table
with_five = record { size = 3; slots = empty_value ∷ empty_value ∷ 5 ∷ [] }

abbrev with_both : Table
with_both = record { size = 3; slots = 7 ∷ empty_value ∷ 5 ∷ [] }

Added-seven : Added with_five 7 with_both 0
unfolding program
Added-seven = record {
  index_in = omega arith;
  here = refl;
  table = record { narrow = omega arith; filled = omega arith; width = refl };
  same_size = refl;
  others = inr (refl, refl);
  checked = refl;
}

five_there : set_check with_five 5 ≡ ok (slot 2)
unfolding program
five_there = refl

-- Emptying the slot of 5 hides 7, which stands behind it.
hidden_behind :
    set_check (record { size = 3; slots = 7 ∷ empty_value ∷ empty_value ∷ [] }) 7 ≡ ok enoent
unfolding program
hidden_behind = refl

abbrev ring_memory : List ℕ
ring_memory = 0 ∷ 0 ∷ 0 ∷ []

-- A flow set that was just created.
abbrev pub fresh : FlowSet
fresh = record {
  set = record { size = 3; slots = empty_value ∷ empty_value ∷ empty_value ∷ [] };
  ring = record { head = 0; tail = 0; size = 3; buffer = 0 ∷ 0 ∷ 0 ∷ [] };
  filter = filter64_create;
}

pub fresh-IsFlowSet : IsFlowSet fresh []
fresh-IsFlowSet = record {
  table = record { narrow = omega arith; filled = omega arith; width = refl };
  ring = record {
    narrow = omega arith;
    tail_in = omega arith;
    width = refl;
    room = omega arith;
    head_at = refl;
    slots = λ k h. cc;
  };
  same_size = refl;
  several = omega arith;
  indices = tt;
  kept = kept;
  filter = filter64_create-IsFilter;
}
  where
    kept :
        (i : ℕ) {e : ℕ}
        → get_elem? fresh.set.slots i ≡ some e
        → e ≢ empty_value
        → (k : ℕ) × (get_elem? [] k ≡ some i)
    kept zero h ne = absurd (ne (cc))
    kept (suc zero) h ne = absurd (ne (cc))
    kept (suc (suc zero)) h ne = absurd (ne (cc))
    kept (suc (suc (suc i))) h ne = cc

set_ex_add-IsPresent_example : Ensures (set_ex_add fresh 5) (λ r. (r.0 ≡ true) × IsPresent 5 r.1)
set_ex_add-IsPresent_example = set_ex_add-IsPresent fresh [] 5 fresh-IsFlowSet (omega arith)
