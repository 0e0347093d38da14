-- ===== src/Spsc/Checks.antt =====
-- The tests, the write and the read of the threads of a ring (src/lib/lock_free_spsc_ring.h).
use mmt_security.Prelude.{
  ℕ, ◌+◌, ◌<◌, ◌≡◌, refl, sym, ap, ◌==◌, some, List, [], ◌∷◌, ◌++◌, Bool, true, false, not, arith,
  set, length, get_elem?, lt→ltb, ok, Bool-cases, inl, inr,
}
use mmt_security.Flows.Queue.{wrap}
use mmt_security.Spsc.{Spsc, push_check, push_write, pop_check, pop_read, at_limit, load_tail}
use mmt_security.Spsc.Fifo.{Holds, loaded, not_at_limit}

module _ {A : Type 0} where
  pub append_assoc : (xs ys zs : List A) → (xs ++ ys) ++ zs ≡ xs ++ (ys ++ zs)
  append_assoc [] ys zs = refl
  append_assoc (x ∷ xs) ys zs = ap (λ l. x ∷ l) (append_assoc xs ys zs)

  -- What a test for room yields, the copy of the tail being up to date if need be.
  abbrev pub RoomChecked : Spsc A → List A → ℕ → Bool × Spsc A → Type 0
  RoomChecked q xs seen r =
      (behind : ℕ) × Holds r.1 xs behind seen × (r.0 ≡ true → behind + length xs + 2 < r.1.size)

  pub push_check-RoomChecked :
      (q : Spsc A) {xs : List A} {behind seen : ℕ}
      → Holds q xs behind seen
      → RoomChecked q xs seen (push_check q)
  unfolding push_check
  push_check-RoomChecked q {xs} {behind} h = elim (Bool-cases (at_limit q)) [
    | inr free ↦ rw free (behind, h, λ _. not_at_limit q h free)
    | inl full ↦ rw full (
      0,
      loaded q h,
      λ e. not_at_limit (load_tail q) (loaded q h) (not-true (at_limit (load_tail q)) e),
    )
  ]
    where
      not-true : (b : Bool) → not b ≡ true → b ≡ false
      not-true true e = cc
      not-true false e = refl

  -- What a test for an element yields.
  abbrev pub LeftChecked : Spsc A → List A → ℕ → Bool × Spsc A → Type 0
  LeftChecked q xs behind r =
      (seen : ℕ) × Holds r.1 xs behind seen
      × (r.0 ≡ true → 0 < seen)
      × (r.1.size ≡ q.size)
      × (r.1.buffer ≡ q.buffer)
      × (r.1.head ≡ q.head)

  refreshed :
      (q : Spsc A) {xs : List A} {behind seen : ℕ}
      → Holds q xs behind seen
      → Holds (record q { cached_head = q.head }) xs behind (length xs)
  refreshed q h = record {
    narrow = h.narrow;
    width = h.width;
    copy_in = h.copy_in;
    room = h.room;
    within = omega arith;
    tail_at = h.tail_at;
    head_at = h.head_at;
    copy_at = h.head_at;
    slots = λ k p. h.slots k p;
  }

  pub pop_check-LeftChecked :
      (q : Spsc A) {xs : List A} {behind seen : ℕ}
      → Holds q xs behind seen
      → LeftChecked q xs behind (pop_check q)
  unfolding pop_check
  pop_check-LeftChecked q {xs} {behind} {seen} h = elim (Bool-cases (q.cached_head == q.tail)) [
    | inr some_seen ↦ rw some_seen (
      seen,
      h,
      λ _. ground (arith, h.copy_at, h.tail_at, h.copy_in, h.room, h.within),
      refl,
      refl,
      refl,
    )
    | inl none_seen ↦ rw none_seen (
      length xs,
      refreshed q h,
      λ e. ground (arith, h.head_at, h.tail_at, h.copy_in, h.room, e),
      refl,
      refl,
      refl,
    )
  ]

  abbrev pub stored_at : Spsc A → A → Spsc A
  stored_at q val = record q { buffer = set q.buffer q.head val }

  pub push_write-ok :
      (q : Spsc A) {xs : List A} {behind seen : ℕ} (val : A)
      → Holds q xs behind seen
      → push_write q val ≡ ok (stored_at q val)
  unfolding push_write
  push_write-ok q val h =
      rw (lt→ltb q.head (length q.buffer) (ground (arith, h.head_at, h.copy_in, h.room, h.width)))
        refl

  pub ok-injective : {q q' : Spsc A} → ok q ≡ ok q' → q ≡ q'
  ok-injective e = cc

  pub read_first :
      (q : Spsc A) (xs : List A) {behind seen : ℕ} (val : A)
      → Holds q xs behind seen
      → 0 < seen
      → pop_read q ≡ ok val
      → get_elem? xs 0 ≡ some val
  unfolding pop_read
  read_first q [] val h pos e = absurd (omega (arith, h.within))
  read_first q (x ∷ xs) {behind} val h pos e =
      let at_tail : wrap q.size (q.cached_tail + (behind + 0)) ≡ q.tail =
        ground (arith, h.tail_at) in
      let there : get_elem? q.buffer q.tail ≡ some x = rw (sym at_tail) (h.slots 0 refl) in cc
