-- ===== src/Spsc.antt =====
-- The ring between two threads, one that pushes and one that pops (src/lib/lock_free_spsc_ring.h,
-- src/lib/lock_free_spsc_ring.c). Each function is cut where the other thread may run in between:
-- before and after its accesses to what the threads share.
pub mod Steps
pub mod Fifo
pub mod Checks
pub mod Traces
use mmt_security.Prelude.{
  ℕ, zero, suc, ◌+◌, ◌-◌, ◌%◌, ◌==◌, Option, none, some, List, [], ◌∷◌, Bool, true, false, not,
  ◌&&◌, if◌then◌else◌, set, length, ltb, leb, Run, ok, fault, wild, ◌>>=◌, at,
}
use mmt_security.Prelude.Bits.{u32}

-- `lock_free_spsc_ring_t`
pub record Spsc {ℓ} (A : Type ℓ) : Type ℓ where
  pub head : ℕ
  pub tail : ℕ
  pub cached_head : ℕ
  pub cached_tail : ℕ
  pub size : ℕ
  pub buffer : List A

module _ {ℓ} {A : Type ℓ} where
  -- `memory` is what the allocation returns, not initialised.
  unfoldable pub ring_init : ℕ → List A → Spsc A
  ring_init size memory = record {
    head = 0;
    tail = 0;
    cached_head = 0;
    cached_tail = 0;
    size = size;
    buffer = memory;
  }

  -- The test `( h + 2 ) % q->_size == q->_cached_tail`
  abbrev pub at_limit : Spsc A → Bool
  at_limit q = u32 (q.head + 2) % q.size == q.cached_tail

  abbrev pub load_tail : Spsc A → Spsc A
  load_tail q = record q { cached_tail = q.tail }

  -- The two tests of a push: whether there is room, after the tail was loaded if need be.
  unfoldable pub push_check : Spsc A → Bool × Spsc A
  push_check q = if not (at_limit q) then (true, q) else (not (at_limit (load_tail q)), load_tail q)

  -- `q->_data[ h ] = val`
  unfoldable pub push_write : Spsc A → A → Run (Spsc A)
  push_write q val =
      if ltb q.head (length q.buffer)
      then ok (record q { buffer = set q.buffer q.head val })
      else fault wild

  unfoldable pub push_publish : Spsc A → Spsc A
  push_publish q = record q { head = u32 (q.head + 1) % q.size }

  -- `ring_push`: `false` is `RING_FULL`
  unfoldable pub ring_push : Spsc A → A → Run (Bool × Spsc A)
  unfolding push_check push_write push_publish
  ring_push q val =
      let (room, q') = push_check q in
      if not room then ok (false, q') else do q'' ← push_write q' val; ok (true, push_publish q'')

  -- The two tests of a pop: whether there is an element, after the head was loaded if need be.
  unfoldable pub pop_check : Spsc A → Bool × Spsc A
  pop_check q =
      if not (q.cached_head == q.tail)
      then (true, q)
      else (not (q.head == q.tail), record q { cached_head = q.head })

  unfoldable pub pop_read : Spsc A → Run A
  pop_read q = at q.buffer q.tail

  unfoldable pub pop_release : Spsc A → Spsc A
  pop_release q = record q { tail = u32 (q.tail + 1) % q.size }

  -- `ring_pop`: `none` is `RING_EMPTY`
  unfoldable pub ring_pop : Spsc A → Run (Option A × Spsc A)
  unfolding pop_check pop_read pop_release
  ring_pop q =
      let (some_left, q') = pop_check q in
      if not some_left then ok (none, q') else do val ← pop_read q'; ok (some val, pop_release q')

  -- The loop of `ring_push_burst`, at index `i`: the position `h + i` is not cut to the size. It
  -- returns the index at which it stops.
  unfoldable pub push_from : Spsc A → ℕ → List A → Run (ℕ × Spsc A)
  push_from q i [] = ok (i, q)
  push_from q i (x ∷ xs) =
      if u32 (q.head + i + 1) % q.size == q.cached_tail
      then ok (i, q)
      else if ltb (u32 (q.head + i)) (length q.buffer)
      then push_from (record q { buffer = set q.buffer (u32 (q.head + i)) x }) (i + 1) xs
      else fault wild

  -- `ring_push_burst`: `none` is `RING_FULL`, a number that of the elements not pushed.
  unfoldable pub ring_push_burst : Spsc A → List A → Run (Option ℕ × Spsc A)
  unfolding push_check push_from
  ring_push_burst q xs =
      let (room, q') = push_check q in
      if not room then ok (none, q') else do
        (i, q'') ← push_from q' 0 xs
        ok (some (length xs - i), record q'' { head = u32 (q''.head + i) % q''.size })

  -- The `memcpy` of `n` elements from `t` on.
  unfoldable pub copy_from : List A → ℕ → ℕ → Run (List A)
  copy_from buffer t zero = ok []
  copy_from buffer t (suc n) = do x ← at buffer t; xs ← copy_from buffer (t + 1) n; ok (x ∷ xs)

  -- How many elements stand in one piece from the tail on.
  abbrev pub piece : Spsc A → ℕ
  piece q = if ltb q.tail q.cached_head then q.cached_head - q.tail else q.size - q.tail

  -- `ring_pop_burst`
  unfoldable pub ring_pop_burst : Spsc A → ℕ → Run (List A × Spsc A)
  unfolding pop_check copy_from
  ring_pop_burst q limit =
      let (some_left, q') = pop_check q in
      if not some_left then ok ([], q') else do
        let n = if ltb limit (piece q') then limit else piece q'
        xs ← copy_from q'.buffer q'.tail n
        ok (xs, record q' { tail = u32 (q'.tail + n) % q'.size })
