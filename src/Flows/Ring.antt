-- ===== src/Flows/Ring.antt =====
-- A ring buffer (src/lib/mmt_ring.h).
use mmt_security.Prelude.{
  ℕ, ◌+◌, ◌%◌, ◌==◌, Option, none, some, List, Bool, true, false, if◌then◌else◌, set, length, ltb,
  Run, ok, fault, wild, ◌>>=◌, at,
}
use mmt_security.Prelude.Bits.{u32}

-- `mmt_ring_t`
pub record Ring {ℓ} (A : Type ℓ) : Type ℓ where
  pub head : ℕ
  pub tail : ℕ
  pub size : ℕ
  pub buffer : List A

module _ {ℓ} {A : Type ℓ} where
  -- `memory` is what `malloc` returns: `none`, or elements that are not initialised.
  unfoldable pub ring_create : ℕ → Option (List A) → Option (Ring A)
  ring_create size memory = if size == 0 then none else elim memory [
    | none ↦ none
    | some buffer ↦ some (record { head = 0; tail = 0; size = size; buffer = buffer })
  ]

  -- The position after the head.
  abbrev pub next_pos : Ring A → ℕ
  next_pos r = u32 (r.head + 1) % r.size

  unfoldable pub ring_is_full : Ring A → Bool
  ring_is_full r = next_pos r == r.tail

  unfoldable pub ring_is_empty : Ring A → Bool
  ring_is_empty r = r.head == r.tail

  unfoldable pub ring_enqueue : Ring A → A → Run (Bool × Ring A)
  ring_enqueue r elem =
      if next_pos r == r.tail
      then ok (false, r)
      else if ltb r.head (length r.buffer)
      then ok (true, record r { buffer = set r.buffer r.head elem; head = next_pos r })
      else fault wild

  -- The element and the ring without it, or `none` for `false`.
  unfoldable pub ring_dequeue : Ring A → Run (Option (A × Ring A))
  ring_dequeue r = if r.head == r.tail then ok none else do
    elem ← at r.buffer r.tail
    ok (some (elem, record r { tail = u32 (r.tail + 1) % r.size }))

  unfoldable pub ring_reset : Ring A → Ring A
  ring_reset r = record r { head = 0; tail = 0 }
