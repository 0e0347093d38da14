-- ===== src/Flows/FlowSet.antt =====
-- A set of bounded size that forgets its oldest members (src/lib/mmt_set_uint64.h).
pub mod Pigeonhole
pub mod Present
pub mod Adding
use mmt_security.Prelude.{
  ℕ, zero, suc, ◌/◌, ◌^◌, ◌==◌, ltb, Option, none, some, List, Bool, true, false, not,
  if◌then◌else◌, Run, ok, ◌>>=◌, at,
}
use mmt_security.Prelude.Bits.{u32}
use mmt_security.Flows.Ring.{Ring, ring_create, ring_is_full, ring_enqueue, ring_dequeue}
use mmt_security.Flows.Filter.{Filter64, filter64_create, filter64_add, filter64_check, filter64_rm}
use mmt_security.Flows.Table.{
  Table, Place, slot, einval, enospc, enoent, empty_value, set_create, set_add, set_check,
  set_empty_slot,
}

-- `mmt_set_ex_t`
pub record FlowSet : Type 0 where
  pub set : Table
  pub ring : Ring ℕ
  pub filter : Filter64

-- `memory` is what the allocation of the ring returns; those of the set and of the filter succeed.
unfoldable pub set_ex_create : ℕ → Option (List ℕ) → Option FlowSet
set_ex_create size memory = elim (ring_create size memory) [
  | none ↦ none
  | some ring ↦ some (record { set = set_create size; ring = ring; filter = filter64_create })
]

-- The index of the oldest element, or the one of before if the ring is empty.
unfoldable pub take_oldest : ℕ → FlowSet → Run (ℕ × FlowSet)
take_oldest index s = do
  d ← ring_dequeue s.ring
  elim d [ none ↦ ok (index, s) | some (i, r) ↦ ok (i, record s { ring = r }) ]

-- The loop that removes the oldest elements.
unfoldable pub remove_oldest : ℕ → ℕ → FlowSet → Run FlowSet
remove_oldest zero index s = ok s
remove_oldest (suc nb_to_rm) index s = do
  (i, s') ← take_oldest index s
  oldest_elem ← at s'.set.slots i
  (_, set') ← set_empty_slot s'.set i
  remove_oldest nb_to_rm i (record s' { filter = filter64_rm s'.filter oldest_elem; set = set' })

-- One, or a sixteenth of the size.
abbrev pub nb_to_rm : FlowSet → ℕ
nb_to_rm s = if ltb 16 s.ring.size then s.ring.size / 2 ^ 4 else 1

-- What follows the addition to the table.
unfoldable pub remember : FlowSet → ℕ → Place → Run FlowSet
remember s elem (slot index) = do
  (_, ring') ← ring_enqueue s.ring (u32 index)
  ok (record s { ring = ring'; filter = filter64_add s.filter elem })
remember s elem _ = ok s

unfoldable pub set_ex_add : FlowSet → ℕ → Run (Bool × FlowSet)
set_ex_add s elem = if elem == empty_value then ok (false, s) else do
  s' ← if ring_is_full s.ring then remove_oldest (nb_to_rm s) 0 s else ok s
  (place, set') ← set_add s'.set elem
  s'' ← remember (record s' { set = set' }) elem place
  ok (true, s'')

abbrev pub is_slot : Place → Bool
is_slot (slot _) = true
is_slot _ = false

unfoldable pub set_ex_check : FlowSet → ℕ → Run Bool
set_ex_check s elem =
    if not (filter64_check s.filter elem)
    then ok false
    else do p ← set_check s.set elem; ok (is_slot p)
