-- ===== src/Spsc/Traces.antt =====
-- Runs of the two threads of a ring (src/lib/lock_free_spsc_ring.h), step by step.
use mmt_security.Prelude.{
  ℕ, ◌+◌, ◌-◌, ◌^◌, ◌<◌, ◌≡◌, refl, sym, ◌∙◌, ap, some, List, [], ◌∷◌, ◌++◌, arith, length,
  get_elem?, ok, at-in, subst,
}
use mmt_security.Spsc.{Spsc, ring_init, push_write, push_publish, pop_read, pop_release}
use mmt_security.Spsc.Steps.{
  System, Step, Reachable, created, has_room, written, some_left, taken, check_room, find_full,
  write, publish, check_left, find_empty, read, release, here, after,
}
use mmt_security.Spsc.Fifo.{Holds, written_slot, published, released}
use mmt_security.Spsc.Checks.{
  RoomChecked, LeftChecked, stored_at, push_check-RoomChecked, pop_check-LeftChecked, push_write-ok,
  read_first, append_assoc, ok-injective,
}

module _ {A : Type 0} where
  -- What the ring holds at a point of the run, and what each thread may rely on where it stands.
  record Inv (t : System A) (xs : List A) (behind seen : ℕ) : Type 0 where
    holds : Holds t.ring xs behind seen
    ready : (val : A) → t.producer ≡ has_room val → behind + length xs + 2 < t.ring.size
    stored :
        (val : A)
        → t.producer ≡ written val
        → (behind + length xs + 2 < t.ring.size) × (get_elem? t.ring.buffer t.ring.head ≡ some val)
    left : t.consumer ≡ some_left → 0 < seen
    first : (val : A) → t.consumer ≡ taken val → (0 < seen) × (get_elem? xs 0 ≡ some val)
    pub order : t.pushed ≡ t.popped ++ xs

  abbrev Fine : System A → Type 0
  Fine t = (xs : List A) × (behind : ℕ) × (seen : ℕ) × Inv t xs behind seen

  -- One step of either thread keeps the invariant.
  kept : (t t' : System A) → Step t t' → Fine t → Fine t'
  unfolding pop_release push_publish
  kept t t' (check_room val q out e) (xs, b, s, h) =
      let (b', holds, room) =
        subst (RoomChecked t.ring xs s) e (push_check-RoomChecked t.ring h.holds) in
      (
        xs,
        b',
        s,
        record {
          holds = holds;
          ready = λ v p. room refl;
          stored = λ v p. cc;
          left = h.left;
          first = h.first;
          order = h.order;
        },
      )
  kept t t' (find_full q out e) (xs, b, s, h) =
      let (b', holds, room) =
        subst (RoomChecked t.ring xs s) e (push_check-RoomChecked t.ring h.holds) in
      (
        xs,
        b',
        s,
        record {
          holds = holds;
          ready = λ v p. cc;
          stored = λ v p. cc;
          left = h.left;
          first = h.first;
          order = h.order;
        },
      )
  kept t t' (write val q at_write e) (xs, b, s, h) =
      let same : stored_at t.ring val ≡ q =
        ok-injective (sym (push_write-ok t.ring val h.holds) ∙ e) in
      let (holds, there) = written_slot t.ring val h.holds in
      subst (λ q. Fine (record t { ring = q; producer = written val })) same
        (
          xs,
          b,
          s,
          record {
            holds = holds;
            ready = λ v p. cc;
            stored = λ v p. let e : val ≡ v = cc in (h.ready val at_write, there ∙ ap some e);
            left = h.left;
            first = h.first;
            order = h.order;
          },
        )
  kept t t' (publish val at_publish) (xs, b, s, h) =
      let (room, there) = h.stored val at_publish in
      (
        xs ++ (val ∷ []),
        b,
        s,
        record {
          holds = published t.ring val h.holds room there;
          ready = λ v p. cc;
          stored = λ v p. cc;
          left = h.left;
          first = λ v p. (((h.first v p).0), first xs v (h.first v p).1);
          order = ap (λ l. l ++ (val ∷ [])) h.order ∙ append_assoc t.popped xs (val ∷ []);
        },
      )
    where
      first :
          (xs : List A) (v : A) → get_elem? xs 0 ≡ some v → get_elem? (xs ++ (val ∷ [])) 0 ≡ some v
      first [] v p = cc
      first (x ∷ xs) v p = p
  kept t t' (check_left q out e) (xs, b, s, h) =
      let (s', holds, some_seen, size, buffer, head) =
        subst (LeftChecked t.ring xs b) e (pop_check-LeftChecked t.ring h.holds) in
      (
        xs,
        b,
        s',
        record {
          holds = holds;
          ready = λ v p. rw size (h.ready v p);
          stored = λ v p. rw (size, buffer, head) (h.stored v p);
          left = λ p. some_seen refl;
          first = λ v p. cc;
          order = h.order;
        },
      )
  kept t t' (find_empty q out e) (xs, b, s, h) =
      let (s', holds, some_seen, size, buffer, head) =
        subst (LeftChecked t.ring xs b) e (pop_check-LeftChecked t.ring h.holds) in
      (
        xs,
        b,
        s',
        record {
          holds = holds;
          ready = λ v p. rw size (h.ready v p);
          stored = λ v p. rw (size, buffer, head) (h.stored v p);
          left = λ p. cc;
          first = λ v p. cc;
          order = h.order;
        },
      )
  kept t t' (read val at_read e) (xs, b, s, h) = (
    xs,
    b,
    s,
    record {
      holds = h.holds;
      ready = h.ready;
      stored = h.stored;
      left = λ p. cc;
      first = λ v p. (
        h.left at_read,
        let same : val ≡ v = cc in
            read_first t.ring xs val h.holds (h.left at_read) e ∙ ap some same,
      );
      order = h.order;
    },
  )
  kept t t' (release val at_release) ([], b, s, h) = let (_, p) = h.first val at_release in cc
  kept t t' (release val at_release) (x ∷ xs, b, s, h) =
      let (pos, p) = h.first val at_release in
      let e : x ≡ val = cc in
      (
        xs,
        b + 1,
        s - 1,
        record {
          holds = released t.ring h.holds pos;
          ready = λ v p. omega (arith, h.ready v p);
          stored = λ v p. (omega (arith, (h.stored v p).0), (h.stored v p).1);
          left = λ p. cc;
          first = λ v p. cc;
          order =
              h.order
              ∙ ap (λ y. t.popped ++ (y ∷ xs)) e
              ∙ sym (append_assoc t.popped (val ∷ []) xs);
        },
      )

  -- The elements popped, followed by those that the ring holds, are those pushed; the ring holds at
  -- least two elements fewer than its size; and neither thread accesses it out of bounds.
  pub record IsFifo (t : System A) : Type 0 where
    pub inside : List A
    pub order : t.pushed ≡ t.popped ++ inside
    pub bounded : length inside + 1 < t.ring.size
    pub writes :
        (val : A) → t.producer ≡ has_room val → (q : Spsc A) × (push_write t.ring val ≡ ok q)
    pub reads : t.consumer ≡ some_left → (val : A) × (pop_read t.ring ≡ ok val)

  Fine-IsFifo : (t : System A) → Fine t → IsFifo t
  unfolding pop_read
  Fine-IsFifo t (xs, b, s, h) = record {
    inside = xs;
    order = h.order;
    bounded = omega (arith, h.holds.room);
    writes = λ val p. (stored_at t.ring val, push_write-ok t.ring val h.holds);
    reads = λ p.
        at-in t.ring.buffer t.ring.tail
          (ground (arith, h.holds.tail_at, h.holds.copy_in, h.holds.room, h.holds.width));
  }

  created-Fine :
      (size : ℕ) (memory : List A)
      → 1 < size
      → size + 1 < 2 ^ 32
      → length memory ≡ size
      → Fine (created size memory)
  unfolding ring_init
  created-Fine size memory several narrow width = (
    [],
    0,
    0,
    record {
      holds = record {
        narrow = narrow;
        width = width;
        copy_in = omega arith;
        room = omega arith;
        within = omega arith;
        tail_at = ground arith;
        head_at = ground arith;
        copy_at = ground arith;
        slots = λ k p. cc;
      };
      ready = λ v p. cc;
      stored = λ v p. cc;
      left = λ p. cc;
      first = λ v p. cc;
      order = refl;
    },
  )

  Reachable-Fine : (t t' : System A) → Fine t → Reachable t t' → Fine t'
  Reachable-Fine t t' f here = f
  Reachable-Fine t t' f (after u _ r s) = kept u t' s (Reachable-Fine t u f r)

  -- Whatever the interleaving of the steps of the two threads, from a ring of at least two slots:
  -- what was popped is a prefix of what was pushed, in its order, what is missing stands in the
  -- ring, the ring never holds more than its size less two, and no access is out of bounds.
  pub Reachable-IsFifo :
      (size : ℕ) (memory : List A) (t : System A)
      → 1 < size
      → size + 1 < 2 ^ 32
      → length memory ≡ size
      → Reachable (created size memory) t
      → IsFifo t
  Reachable-IsFifo size memory t several narrow width r =
      Fine-IsFifo t
        (Reachable-Fine (created size memory) t (created-Fine size memory several narrow width) r)
