-- ===== src/Smp/Lanes.antt =====
-- The messages on their way to the threads (`mmt_smp_sec_process`, `_process_one_thread`): the thread
-- that gives them and those that take them run at the same time.
use mmt_security.Prelude.{
  ℕ, zero, suc, ◌+◌, ◌%◌, ◌<◌, ◌≡◌, Option, some, List, [], ◌∷◌, ◌++◌, Bool, true, false,
  if◌then◌else◌, length, get_elem?, get_or, set, replicate,
}
use mmt_security.Message.{Message}
use mmt_security.Smp.{concerns}

-- The 64 digits of the `uint64_t` mask, the lowest first. A shift by 64 or more, which C leaves open,
-- is one by what is left modulo 64, as on x86.
abbrev pub Mask : Type 0
Mask = List Bool

-- `BIT_CHECK`
abbrev pub mask_bit_check : Mask → ℕ → Bool
mask_bit_check mask i = get_or mask (i % 64) false

-- `BIT_CLEAR`
abbrev pub mask_bit_clear : Mask → ℕ → Mask
mask_bit_clear mask i = set mask (i % 64) false

-- The digits of `2 ^ n - 1`, `k` of them.
unfoldable pub ones : ℕ → ℕ → Mask
ones zero n = []
ones (suc k) zero = false ∷ ones k zero
ones (suc k) (suc n) = true ∷ ones k n

-- `(1LL << n) - 1`; the signed overflow at 63 is taken to wrap around, as on x86.
abbrev pub first_bits : ℕ → Mask
first_bits n = ones 64 (n % 64)

-- What leads to one thread: the mask of its handler, the room of its ring and what the ring holds.
-- `taken` is all that the thread has popped, kept to state what it gets.
pub record Lane : Type 0 where
  pub hash : ℕ
  pub room : ℕ
  pub queue : List (Option Message)
  pub taken : List (Option Message)

-- `current` is the message of the present or the last call of `mmt_smp_sec_process`, `mask` its mask,
-- and `given` holds the messages of all calls so far; a null message is `none`.
pub record Lanes : Type 0 where
  pub lanes : List Lane
  pub mask : Mask
  pub current : Option Message
  pub given : List (Option Message)

-- The loop over the threads from thread `i` on that clears the bits of those that the message does not
-- concern.
unfoldable pub clear_unconcerned : ℕ → Option Message → List Lane → Mask → Mask
clear_unconcerned i x [] mask = mask
clear_unconcerned i x (l ∷ ls) mask =
    clear_unconcerned (i + 1) x ls (if concerns l.hash x then mask else mask_bit_clear mask i)

-- The mask before the loop over the rings.
unfoldable pub mask_for : Option Message → List Lane → Mask
unfolding clear_unconcerned
mask_for x ls = clear_unconcerned 0 x ls (first_bits (length ls))

-- A call of `mmt_smp_sec_process` begins once the one before has returned, that is, with the mask 0.
-- Then, in any order, each ring whose bit is set takes the message if it has room, and each thread pops
-- some of what its ring holds.
pub data Step : Lanes → Lanes → Type 0 where
  give :
      (s : Lanes) (x : Option Message)
      → s.mask ≡ replicate 64 false
      → Step s (record s { mask = mask_for x s.lanes; current = x; given = s.given ++ x ∷ [] })
  push :
      (s : Lanes) (i : ℕ) (l : Lane)
      → get_elem? s.lanes i ≡ some l
      → mask_bit_check s.mask i ≡ true
      → length l.queue < l.room
      → Step s (record s {
        lanes = set s.lanes i (record l { queue = l.queue ++ s.current ∷ [] });
        mask = mask_bit_clear s.mask i;
      })
  pop :
      (s : Lanes) (i : ℕ) (l : Lane) (burst rest : List (Option Message))
      → get_elem? s.lanes i ≡ some l
      → l.queue ≡ burst ++ rest
      → Step s
          (record s { lanes = set s.lanes i (record l { queue = rest; taken = l.taken ++ burst }) })

pub data Reachable (s : Lanes) : Lanes → Type 0 where
  here : Reachable s s
  next : {t u : Lanes} → Reachable s t → Step t u → Reachable s u

-- Before the first message: nothing is on the way, and there are fewer threads than bits.
pub record IsStart (s : Lanes) : Type 0 where
  pub few : length s.lanes < 64
  pub zero_mask : s.mask ≡ replicate 64 false
  pub none_given : s.given ≡ []
  pub empty : (i : ℕ) (l : Lane) → get_elem? s.lanes i ≡ some l → (l.queue ≡ []) × (l.taken ≡ [])
