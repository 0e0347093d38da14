-- ===== src/Flows/Queue.antt =====
-- The ring of src/lib/mmt_ring.h, seen as a queue of elements.
use native.Mathlib.Nat.{mod_self, mod-eq_of_lt}
use mmt_security.Prelude.{
  ℕ, zero, suc, ◌+◌, ◌-◌, ◌^◌, ◌%◌, ◌<◌, ◌≡◌, ◌≢◌, refl, sym, ◌∙◌, ◌==◌, Option, none, some, List,
  [], ◌∷◌, ◌++◌, Bool, true, false, if◌then◌else◌, arith, set, length, length-set, length-append,
  get_elem?, get_elem?-set_self, get_elem?-set_ne, ltb, Ensures, Bool-cases, lt→ltb, Never, inl,
  inr, ltb→lt, ◌↔◌, ◌⊎◌, ap,
}
use mmt_security.Prelude.Bits.{u32}
use mmt_security.Flows.Ring.{
  Ring, ring_create, ring_is_full, ring_is_empty, ring_enqueue, ring_dequeue, ring_reset, next_pos,
}

-- The position `i` of a buffer of `size` elements, for an `i` that is at most one round ahead.
abbrev pub wrap : ℕ → ℕ → ℕ
wrap size i = if ltb i size then i else i - size

-- The ring holds the queue `xs`, its oldest element first: fewer elements than its size, from the
-- tail on.
pub record Holds {ℓ} {A : Type ℓ} (r : Ring A) (xs : List A) : Type ℓ where
  pub narrow : r.size < 2 ^ 32
  pub tail_in : r.tail < r.size
  pub width : length r.buffer ≡ r.size
  pub room : length xs < r.size
  pub head_at : r.head ≡ wrap r.size (r.tail + length xs)
  pub slots :
      (k : ℕ) {a : A}
      → get_elem? xs k ≡ some a
      → get_elem? r.buffer (wrap r.size (r.tail + k)) ≡ some a

u32-small : (i : ℕ) → i < 2 ^ 32 → u32 i ≡ i
u32-small i h = omega arith

pub next-wrap : (i n : ℕ) → i < n → n < 2 ^ 32 → u32 (i + 1) % n ≡ wrap n (i + 1)
next-wrap i n h small = rw (u32-small (i + 1) (omega arith)) (elim (Bool-cases (ltb (i + 1) n)) [
  | inl q ↦ rw q (mod-eq_of_lt (ltb→lt _ _ q))
  | inr q ↦ let e : i + 1 ≡ n = ground arith in rw (q, e) (mod_self n ∙ omega arith)
])

module _ {ℓ} {A : Type ℓ} where
  pub get_elem?-append :
      (xs : List A) (x : A) (k : ℕ) {a : A}
      → get_elem? (xs ++ (x ∷ [])) k ≡ some a
      → (get_elem? xs k ≡ some a) ⊎ ((k ≡ length xs) × (x ≡ a))
  get_elem?-append [] x zero h = inr (refl, cc)
  get_elem?-append [] x (suc k) h = cc
  get_elem?-append (y ∷ xs) x zero h = inl h
  get_elem?-append (y ∷ xs) x (suc k) h = elim (get_elem?-append xs x k h) [
    | inl e ↦ inl e
    | inr (e, d) ↦ inr (ap suc e, d)
  ]

  pub get_elem?-bound : (xs : List A) (k : ℕ) {a : A} → get_elem? xs k ≡ some a → k < length xs
  get_elem?-bound [] k h = cc
  get_elem?-bound (x ∷ xs) zero h = omega arith
  get_elem?-bound (x ∷ xs) (suc k) h = omega (arith, get_elem?-bound xs k h)

  head_in : (r : Ring A) {xs : List A} → Holds r xs → r.head < r.size
  head_in r h = ground (arith, h.head_at, h.tail_in, h.room)

  next_pos-wrap :
      (r : Ring A) {xs : List A} → Holds r xs → next_pos r ≡ wrap r.size (r.tail + (length xs + 1))
  next_pos-wrap r h =
      ground (arith, next-wrap r.head r.size (head_in r h) h.narrow, h.head_at, h.tail_in, h.room)

  -- The ring is full when it holds one element less than its size, and empty when it holds none.
  pub ring_is_full-length :
      (r : Ring A) {xs : List A}
      → Holds r xs
      → ((ring_is_full r ≡ true) ↔ (length xs + 1 ≡ r.size))
        × ((ring_is_empty r ≡ true) ↔ (length xs ≡ 0))
  unfolding ring_is_full ring_is_empty
  ring_is_full-length r {xs} h = ground (arith, next_pos-wrap r h, h.head_at, h.tail_in, h.room)

  -- What an enqueue makes of a ring that holds `xs`: a full ring refuses the element and is left as
  -- it is, any other takes it as the newest.
  abbrev pub Enqueued : Ring A → List A → A → Bool × Ring A → Type ℓ
  Enqueued r xs x (b, r') =
      (length xs + 1 ≡ r.size → (b ≡ false) × (r' ≡ r))
      × (length xs + 1 < r.size → (b ≡ true) × (r'.size ≡ r.size) × Holds r' (xs ++ (x ∷ [])))

  enqueued :
      (r : Ring A) {xs : List A} (x : A)
      → Holds r xs
      → length xs + 1 < r.size
      → Holds (record r { buffer = set r.buffer r.head x; head = next_pos r }) (xs ++ (x ∷ []))
  enqueued r {xs} x h room = record {
    narrow = h.narrow;
    tail_in = h.tail_in;
    width = length-set r.buffer r.head x ∙ h.width;
    room = omega (arith, length-append xs (x ∷ []));
    head_at = rw (length-append xs (x ∷ [])) (next_pos-wrap r h);
    slots = slots;
  }
    where
      slots :
          (k : ℕ) {a : A}
          → get_elem? (xs ++ (x ∷ [])) k ≡ some a
          → get_elem? (set r.buffer r.head x) (wrap r.size (r.tail + k)) ≡ some a
      slots k e = elim (get_elem?-append xs x k e) [
        | inl old ↦
            let apart : r.head ≢ wrap r.size (r.tail + k) =
              ground (arith, h.head_at, h.tail_in, h.room, get_elem?-bound xs k old) in
            get_elem?-set_ne r.buffer x apart ∙ h.slots k old
        | inr (e₁, e₂) ↦
            rw (e₁, sym h.head_at, sym e₂)
              (get_elem?-set_self r.buffer r.head x (omega (arith, h.width, head_in r h)))
      ]

  -- Enqueueing follows the queue: it refuses the element exactly when the ring is full, and never
  -- writes out of the buffer.
  pub ring_enqueue-Enqueued :
      (r : Ring A) (xs : List A) (x : A) → Holds r xs → Ensures (ring_enqueue r x) (Enqueued r xs x)
  unfolding ring_enqueue
  ring_enqueue-Enqueued r xs x h = elim (Bool-cases (next_pos r == r.tail)) [
    | inl q ↦ rw q (
      λ _. (refl, refl),
      λ less. absurd (ground (arith, next_pos-wrap r h, h.head_at, h.tail_in, h.room)),
    )
    | inr q ↦
        rw (q, lt→ltb r.head (length r.buffer) (omega (arith, head_in r h, h.width)))
          (
            λ full. absurd (ground (arith, next_pos-wrap r h, h.head_at, h.tail_in, h.room)),
            λ less. (refl, refl, enqueued r x h less),
          )
  ]

  -- What a dequeue makes of a ring that holds `xs`: nothing of an empty one, and the oldest element
  -- of any other, which then holds the rest.
  abbrev pub Dequeued : Ring A → List A → Option (A × Ring A) → Type ℓ
  Dequeued r [] o = o ≡ none
  Dequeued r (x ∷ xs) none = Never
  Dequeued r (x ∷ xs) (some (a, r')) = (a ≡ x) × (r'.size ≡ r.size) × Holds r' xs

  dequeued :
      (r : Ring A) {x : A} {xs : List A}
      → Holds r (x ∷ xs)
      → Holds (record r { tail = u32 (r.tail + 1) % r.size }) xs
  dequeued r {x} {xs} h =
      let e = next-wrap r.tail r.size h.tail_in h.narrow in
      rw e (record {
        narrow = h.narrow;
        tail_in = ground (arith, h.tail_in);
        width = h.width;
        room = omega (arith, h.room);
        head_at = ground (arith, h.head_at, h.tail_in, h.room);
        slots = λ k p.
            let same : wrap r.size (wrap r.size (r.tail + 1) + k) ≡ wrap r.size (r.tail + suc k) =
              ground (arith, h.tail_in, h.room, get_elem?-bound xs k p) in
            rw same (h.slots (suc k) p);
      })

  -- Dequeueing follows the queue: it takes the oldest element unless the ring is empty, and never
  -- reads out of the buffer.
  pub ring_dequeue-Dequeued :
      (r : Ring A) (xs : List A) → Holds r xs → Ensures (ring_dequeue r) (Dequeued r xs)
  unfolding ring_dequeue
  ring_dequeue-Dequeued r [] h =
      let e : (r.head == r.tail) ≡ true = ground (arith, h.head_at, h.tail_in) in rw e refl
  ring_dequeue-Dequeued r (x ∷ xs) h =
      let e : (r.head == r.tail) ≡ false = ground (arith, h.head_at, h.tail_in, h.room) in
      let there : wrap r.size (r.tail + 0) ≡ r.tail = ground (arith, h.tail_in) in
      let first : get_elem? r.buffer r.tail ≡ some x = rw (sym there) (h.slots 0 refl) in
      rw (e, first) (refl, refl, dequeued r h)

  -- A ring that is created or reset holds nothing.
  pub ring_create-Holds :
      (size : ℕ) (memory : List A)
      → 0 < size
      → size < 2 ^ 32
      → length memory ≡ size
      → (r : Ring A) × (ring_create size (some memory) ≡ some r) × (r.size ≡ size) × Holds r []
  unfolding ring_create
  ring_create-Holds size memory pos small width =
      let e : (size == 0) ≡ false = ground arith in
      (
        record { head = 0; tail = 0; size = size; buffer = memory },
        rw e refl,
        refl,
        record {
          narrow = small;
          tail_in = pos;
          width = width;
          room = pos;
          head_at = ground arith;
          slots = λ k p. cc;
        },
      )

  pub ring_reset-Holds : (r : Ring A) {xs : List A} → Holds r xs → Holds (ring_reset r) []
  unfolding ring_reset
  ring_reset-Holds r h = record {
    narrow = h.narrow;
    tail_in = omega (arith, h.tail_in);
    width = h.width;
    room = omega (arith, h.tail_in);
    head_at = ground (arith, h.tail_in);
    slots = λ k p. cc;
  }
