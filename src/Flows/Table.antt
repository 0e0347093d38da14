-- ===== src/Flows/Table.antt =====
-- A set of numbers in a table with open addressing (src/lib/mmt_set.h), for 64-bit numbers.
pub mod Probe
pub mod Members
use mmt_security.Prelude.{
  ℕ, zero, suc, ◌+◌, ◌-◌, ◌*◌, ◌/◌, ◌%◌, ◌^◌, ◌==◌, Option, none, some, List, Bool, true, false,
  if◌then◌else◌, set, length, ltb, not, replicate, Run, ok, fault, wild, ◌>>=◌, at,
}
use mmt_security.Prelude.Bits.{u32, u64}

-- `MMT_SET_ELEMENT_EMPTY_VALUE`
abbrev pub empty_value : ℕ
empty_value = 2 ^ 64 - 1

-- `mmt_set_t`, without the field `count`, which is set to 0 and never changed after that
pub record Table : Type 0 where
  pub size : ℕ
  pub slots : List ℕ

-- The `int64_t` that the operations return: the index of a slot, or a negative error.
pub data Place : Type 0 where
  slot : ℕ → Place
  einval enospc enoent : Place

-- `MMT_SET_HASH_ELEMENT_VALUE`
unfoldable pub hash_element_value : ℕ → ℕ
hash_element_value i = u64 (i * 2654435761) / 2 ^ 8

unfoldable pub set_create : ℕ → Table
set_create size = record { size = size; slots = replicate size empty_value }

-- Where the loop over the slots stops.
pub data Probed : Type 0 where
  vacant found : ℕ → Probed
  exhausted : Probed

-- The loop that `mmt_set_add` and `mmt_set_check` share, at `index` with `left` rounds to go: the
-- difference of the size and the counter.
unfoldable pub probe : Table → ℕ → ℕ → ℕ → Run Probed
probe t elem index zero = ok exhausted
probe t elem index (suc left) = do
  e ← at t.slots index
  let rest = probe t elem (u32 (index + 1) % t.size) left
  if e == empty_value then ok (vacant index) else if e == elem then ok (found index) else rest

-- A remainder by zero is a fault.
unfoldable pub first_index : Table → ℕ → Run ℕ
first_index t elem = if t.size == 0 then fault wild else ok (u32 (hash_element_value elem % t.size))

unfoldable pub set_add : Table → ℕ → Run (Place × Table)
set_add t elem = if elem == empty_value then ok (einval, t) else do
  index ← first_index t elem
  p ← probe t elem index t.size
  elim p [
    | found i ↦ ok (slot i, t)
    | exhausted ↦ ok (enospc, t)
    | vacant i ↦
        if ltb i (length t.slots)
        then ok (slot i, record t { slots = set t.slots i elem })
        else fault wild
  ]

unfoldable pub set_check : Table → ℕ → Run Place
set_check t elem = if elem == empty_value then ok einval else do
  index ← first_index t elem
  p ← probe t elem index t.size
  elim p [ found i ↦ ok (slot i) | exhausted ↦ ok enoent | vacant i ↦ ok enoent ]

unfoldable pub set_empty_slot : Table → ℕ → Run (Bool × Table)
set_empty_slot t i =
    if not (ltb i t.size)
    then ok (false, t)
    else if ltb i (length t.slots)
    then ok (true, record t { slots = set t.slots i empty_value })
    else fault wild
