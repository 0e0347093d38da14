-- ===== src/Engine/Ids.antt =====
-- Which id a new instance gets (`_find_an_available_id`).
use mmt_security.Prelude.{
  ℕ, zero, suc, ◌+◌, ◌-◌, ◌≤◌, ◌<◌, ◌≡◌, refl, some, List, [], ◌∷◌, arith, length, get_elem?, Run,
  ok, fault, halted, ◌>>=◌, get_elem?-in, if◌then◌else◌,
}
use native.Mathlib.Decide.{dec_le}
use mmt_security.Prelude.Bits.{u16}
use mmt_security.Engine.Store.{Engine}
use mmt_security.Engine.Reset.{find_available, find_an_available_id, is_nil}

-- The class `id` exists and has no instance.
abbrev pub IsFree : List (List ℕ) → ℕ → Type 0
IsFree by_id id = get_elem? by_id id ≡ some []

-- `n` classes from `i` on are taken.
abbrev pub AllTaken : List (List ℕ) → ℕ → ℕ → Type 0
AllTaken by_id i n = (j : ℕ) → i ≤ j → j < i + n → ¬ (IsFree by_id j)

-- What the loop over `n` ids from `i` on finds.
abbrev Found : List (List ℕ) → ℕ → ℕ → Run ℕ → Type 0
Found by_id i n (ok k) = (i ≤ k) × (k < i + n) × IsFree by_id k × AllTaken by_id i (k - i)
Found by_id i n (fault f) = (f ≡ halted) × AllTaken by_id i n

taken-step :
    (by_id : List (List ℕ)) (i n k : ℕ)
    → n ≡ suc k
    → ¬ (IsFree by_id i)
    → AllTaken by_id (i + 1) k
    → AllTaken by_id i n
taken-step by_id i n k e busy rest j p q = elim (dec_le j i) [
  | yes r ↦ let same : j ≡ i = omega arith in rw same busy
  | no r ↦ rest j (omega arith) (omega arith)
]

Found-step :
    (by_id : List (List ℕ)) (i n : ℕ) (r : Run ℕ)
    → ¬ (IsFree by_id i)
    → Found by_id (i + 1) n r
    → Found by_id i (suc n) r
Found-step by_id i n (ok k) busy (p, q, free, taken) = (
  omega arith,
  omega arith,
  free,
  taken-step by_id i (k - i) (k - (i + 1)) (omega arith) busy taken,
)
Found-step by_id i n (fault f) busy (e, taken) = (e, taken-step by_id i (suc n) n refl busy taken)

Found-split :
    (by_id : List (List ℕ)) (i n : ℕ) (l : List ℕ)
    → get_elem? by_id i ≡ some l
    → Found by_id (i + 1) n (find_available by_id (i + 1) n)
    → Found by_id i (suc n) (if is_nil l then ok i else find_available by_id (i + 1) n)
Found-split by_id i n [] e rest = (omega arith, omega arith, e, λ j p q. absurd (omega arith))
Found-split by_id i n (a ∷ l) e rest = Found-step by_id i n _ (λ free. cc) rest

find_available-Found :
    (by_id : List (List ℕ)) (i n : ℕ)
    → i + n ≤ length by_id
    → Found by_id i n (find_available by_id i n)
unfolding find_available
find_available-Found by_id i zero h = (refl, λ j p q. absurd (omega arith))
find_available-Found by_id i (suc n) h =
    let (l, e) = get_elem?-in by_id i (omega arith) in
    rw e (Found-split by_id i n l e (find_available-Found by_id (i + 1) n (omega arith)))

-- What the search for an id yields: the first free id that is not below the one to try first, cut to
-- 16 bits, and that id is the one to try first from now on; or a halt, if no such id is free.
abbrev pub GivesId : Engine → Run (ℕ × Engine) → Type 0
GivesId e (ok (id, e')) =
    (e.avail_fsm_id ≤ e'.avail_fsm_id)
    × (e'.avail_fsm_id < e.max_instances_size)
    × IsFree e.fsm_by_instance_id e'.avail_fsm_id
    × AllTaken e.fsm_by_instance_id e.avail_fsm_id (e'.avail_fsm_id - e.avail_fsm_id)
    × (id ≡ u16 e'.avail_fsm_id)
    × (e' ≡ record e { avail_fsm_id = e'.avail_fsm_id })
GivesId e (fault f) =
    (f ≡ halted)
    × AllTaken e.fsm_by_instance_id e.avail_fsm_id (e.max_instances_size - e.avail_fsm_id)

-- With one list for each id, and the id to try first not above their number, the engine finds the
-- first free id from the one to try first on, remembers it, and gives it cut to 16 bits; it halts
-- exactly if there is none. So with more than 2 ^ 16 ids an instance may join a class in use.
pub find_an_available_id-GivesId :
    (e : Engine)
    → e.max_instances_size ≡ length e.fsm_by_instance_id
    → e.avail_fsm_id ≤ e.max_instances_size
    → GivesId e (find_an_available_id e)
unfolding find_an_available_id
find_an_available_id-GivesId e sized start =
    gives
      (find_available e.fsm_by_instance_id e.avail_fsm_id (e.max_instances_size - e.avail_fsm_id))
      (find_available-Found e.fsm_by_instance_id e.avail_fsm_id
        (e.max_instances_size - e.avail_fsm_id) (omega arith))
  where
    gives :
        (r : Run ℕ)
        → Found e.fsm_by_instance_id e.avail_fsm_id (e.max_instances_size - e.avail_fsm_id) r
        → GivesId e (r >>= λ i. ok (u16 i, record e { avail_fsm_id = i }))
    gives (fault f) h = h
    gives (ok i) (p, q, free, taken) = (p, omega arith, free, taken, refl, refl)

AllTaken-halts :
    (by_id : List (List ℕ)) (i n : ℕ)
    → i + n ≤ length by_id
    → AllTaken by_id i n
    → find_available by_id i n ≡ fault halted
AllTaken-halts by_id i n h taken =
    halts (find_available by_id i n) (find_available-Found by_id i n h)
  where
    halts : (r : Run ℕ) → Found by_id i n r → r ≡ fault halted
    halts (fault f) (e, _) = rw e
    halts (ok k) (p, q, free, _) = absurd (taken k p q free)

-- A free id is overlooked if it lies below the one to try first: with all others taken, the engine
-- halts for want of an id although it has a free one.
pub free_id_overlooked :
    (e : Engine) (j : ℕ)
    → e.max_instances_size ≡ length e.fsm_by_instance_id
    → e.avail_fsm_id ≤ e.max_instances_size
    → j < e.avail_fsm_id
    → IsFree e.fsm_by_instance_id j
    → AllTaken e.fsm_by_instance_id e.avail_fsm_id (e.max_instances_size - e.avail_fsm_id)
    → find_an_available_id e ≡ fault halted
unfolding find_an_available_id
free_id_overlooked e j sized start below free taken = rw (
    AllTaken-halts e.fsm_by_instance_id e.avail_fsm_id (e.max_instances_size - e.avail_fsm_id)
      (omega arith) taken)
