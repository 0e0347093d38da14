-- ===== src/Spsc/Fifo.antt =====
-- What a ring between two threads holds (src/lib/lock_free_spsc_ring.h).
use native.Mathlib.Nat.{mod-eq_of_lt, mod-eq-sub-mod}
use mmt_security.Prelude.{
  ℕ, suc, ◌+◌, ◌-◌, ◌^◌, ◌%◌, ◌≤◌, ◌<◌, ◌≡◌, ◌≢◌, sym, ◌∙◌, ◌==◌, some, List, [], ◌∷◌, ◌++◌, false,
  arith, set, length, length-set, length-append, get_elem?, get_elem?-set_self, get_elem?-set_ne,
  ltb, ltb→lt, Bool-cases, inl, inr,
}
use mmt_security.Prelude.Bits.{u32}
use mmt_security.Flows.Queue.{wrap, get_elem?-append, get_elem?-bound}
use mmt_security.Spsc.{Spsc, push_publish, pop_release}

mod-wrap : (i n : ℕ) → i < n + n → i % n ≡ wrap n i
mod-wrap i n h = elim (Bool-cases (ltb i n)) [
  | inl q ↦ rw q (mod-eq_of_lt (ltb→lt i n q))
  | inr q ↦
      let le : n ≤ i = ground arith in
      rw q (mod-eq-sub-mod {n = i} {m = n} le ∙ mod-eq_of_lt {n = i - n} {m = n} (omega arith))
]

module _ {ℓ} {A : Type ℓ} where
  -- The elements `xs` stand in the ring from the tail on. The copies of the positions lag behind:
  -- the tail is `behind` ahead of its copy, and the copy of the head `seen` ahead of the tail.
  pub record Holds (q : Spsc A) (xs : List A) (behind seen : ℕ) : Type ℓ where
    pub narrow : q.size + 1 < 2 ^ 32
    pub width : length q.buffer ≡ q.size
    pub copy_in : q.cached_tail < q.size
    pub room : behind + length xs + 1 < q.size
    pub within : seen ≤ length xs
    pub tail_at : q.tail ≡ wrap q.size (q.cached_tail + behind)
    pub head_at : q.head ≡ wrap q.size (q.cached_tail + (behind + length xs))
    pub copy_at : q.cached_head ≡ wrap q.size (q.cached_tail + (behind + seen))
    pub slots :
        (k : ℕ) {a : A}
        → get_elem? xs k ≡ some a
        → get_elem? q.buffer (wrap q.size (q.cached_tail + (behind + k))) ≡ some a

  next :
      (q : Spsc A) (i n : ℕ)
      → q.size + 1 < 2 ^ 32
      → i < q.size
      → 1 < q.size
      → n ≤ 2
      → u32 (i + n) % q.size ≡ wrap q.size (i + n)
  next q i n narrow small several bound =
      let same : u32 (i + n) ≡ i + n = omega arith in
      rw same (mod-wrap (i + n) q.size (omega arith))

  -- The positions, once the copy of the tail is up to date.
  pub loaded :
      (q : Spsc A) {xs : List A} {b s : ℕ}
      → Holds q xs b s
      → Holds (record q { cached_tail = q.tail }) xs 0 s
  loaded q {xs} {b} {s} h = record {
    narrow = h.narrow;
    width = h.width;
    copy_in = ground (arith, h.tail_at, h.copy_in, h.room);
    room = omega (arith, h.room);
    within = h.within;
    tail_at = ground (arith, h.tail_at, h.copy_in, h.room);
    head_at = ground (arith, h.tail_at, h.head_at, h.copy_in, h.room);
    copy_at = ground (arith, h.tail_at, h.copy_at, h.copy_in, h.room, h.within);
    slots = λ k p.
        let same : wrap q.size (q.tail + (0 + k)) ≡ wrap q.size (q.cached_tail + (b + k)) =
          ground (arith, h.tail_at, h.copy_in, h.room, get_elem?-bound xs k p) in
        rw same (h.slots k p);
  }

  -- Without the limit, there is room for one more element.
  pub not_at_limit :
      (q : Spsc A) {xs : List A} {b s : ℕ}
      → Holds q xs b s
      → (u32 (q.head + 2) % q.size == q.cached_tail) ≡ false
      → b + length xs + 2 < q.size
  not_at_limit q {xs} {b} h e =
      let small : q.head < q.size = ground (arith, h.head_at, h.copy_in, h.room) in
      let n = next q q.head 2 h.narrow small (omega (arith, h.room)) (omega arith) in
      let far : wrap q.size (q.head + 2) ≢ q.cached_tail = ground arith in
      ground (arith, h.head_at, h.copy_in, h.room, far)

  pub written_slot :
      (q : Spsc A) {xs : List A} {b s : ℕ} (val : A)
      → Holds q xs b s
      → Holds (record q { buffer = set q.buffer q.head val }) xs b s
        × (get_elem? (set q.buffer q.head val) q.head ≡ some val)
  written_slot q {xs} {b} val h = (
    record {
      narrow = h.narrow;
      width = length-set q.buffer q.head val ∙ h.width;
      copy_in = h.copy_in;
      room = h.room;
      within = h.within;
      tail_at = h.tail_at;
      head_at = h.head_at;
      copy_at = h.copy_at;
      slots = λ k p.
          let apart : q.head ≢ wrap q.size (q.cached_tail + (b + k)) =
            ground (arith, h.head_at, h.copy_in, h.room, get_elem?-bound xs k p) in
          get_elem?-set_ne q.buffer val apart ∙ h.slots k p;
    },
    get_elem?-set_self q.buffer q.head val (ground (arith, h.head_at, h.copy_in, h.room, h.width)),
  )

  pub published :
      (q : Spsc A) {xs : List A} {b s : ℕ} (val : A)
      → Holds q xs b s
      → b + length xs + 2 < q.size
      → get_elem? q.buffer q.head ≡ some val
      → Holds (push_publish q) (xs ++ (val ∷ [])) b s
  unfolding push_publish
  published q {xs} {b} val h room there =
      let small : q.head < q.size = ground (arith, h.head_at, h.copy_in, h.room) in
      let n = next q q.head 1 h.narrow small (omega (arith, h.room)) (omega arith) in
      let more = length-append xs (val ∷ []) in
      record {
        narrow = h.narrow;
        width = h.width;
        copy_in = h.copy_in;
        room = omega arith;
        within = omega (arith, h.within);
        tail_at = h.tail_at;
        head_at = rw (n, more) (ground (arith, h.head_at, h.copy_in, h.room));
        copy_at = h.copy_at;
        slots = λ k p. elim (get_elem?-append xs val k p) [
          | inl old ↦ h.slots k old
          | inr (e, d) ↦ rw (e, sym h.head_at, sym d) there
        ];
      }

  pub released :
      (q : Spsc A) {x : A} {xs : List A} {b s : ℕ}
      → Holds q (x ∷ xs) b s
      → 0 < s
      → Holds (pop_release q) xs (b + 1) (s - 1)
  unfolding pop_release
  released q {x} {xs} {b} {s} h pos =
      let small : q.tail < q.size = ground (arith, h.tail_at, h.copy_in, h.room) in
      let n = next q q.tail 1 h.narrow small (omega (arith, h.room)) (omega arith) in
      record {
        narrow = h.narrow;
        width = h.width;
        copy_in = h.copy_in;
        room = omega (arith, h.room);
        within = omega (arith, h.within);
        tail_at = rw n (ground (arith, h.tail_at, h.copy_in, h.room));
        head_at = ground (arith, h.head_at, h.copy_in, h.room);
        copy_at = ground (arith, h.copy_at, h.copy_in, h.room);
        slots =
            λ k p. let same : b + 1 + k ≡ b + suc k = omega arith in rw same (h.slots (suc k) p);
      }
