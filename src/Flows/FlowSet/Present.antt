-- ===== src/Flows/FlowSet/Present.antt =====
-- The invariant of a flow set (src/lib/mmt_set_uint64.h).
use mmt_security.Prelude.{
  ℕ, zero, suc, ◌+◌, ◌-◌, ◌≤◌, ◌<◌, ◌≡◌, ◌≢◌, refl, sym, ◌∙◌, Option, none, some, List, [], ◌∷◌,
  ◌++◌, arith, set, length, length-set, get_elem?, get_elem?-in, get_elem?-set-cases, lt→ltb, Run,
  ok, Ensures, Ensures-bind, Ensures-map, ◌>>=◌, at, inl, inr, ◌⊎◌, ap, All,
}
use mmt_security.Flows.Filter.{filter64_rm}
use mmt_security.Flows.Filter.Members.{IsFilter, filter64_rm-IsFilter}
use mmt_security.Flows.Ring.{Ring, ring_dequeue}
use mmt_security.Flows.Queue.{Holds, ring_dequeue-Dequeued, Dequeued}
use mmt_security.Flows.Table.{empty_value, set_empty_slot}
use mmt_security.Flows.Table.Probe.{IsTable}
use mmt_security.Flows.FlowSet.{FlowSet, take_oldest, remove_oldest}

-- The item stands somewhere in the list.
abbrev pub Stands : ℕ → List ℕ → Type 0
Stands i xs = (k : ℕ) × (get_elem? xs k ≡ some i)

pub Stands-append : (i : ℕ) (xs ys : List ℕ) → Stands i xs → Stands i (xs ++ ys)
Stands-append i [] ys (k, e) = cc
Stands-append i (x ∷ xs) ys (zero, e) = (0, e)
Stands-append i (x ∷ xs) ys (suc k, e) = let (j, f) = Stands-append i xs ys (k, e) in (suc j, f)

pub Stands-last : (i : ℕ) (xs : List ℕ) → Stands i (xs ++ (i ∷ []))
Stands-last i [] = (0, refl)
Stands-last i (x ∷ xs) = let (j, f) = Stands-last i xs in (suc j, f)

-- The invariant, for a ring that holds the indices `xs`.
pub record IsFlowSet (s : FlowSet) (xs : List ℕ) : Type 0 where
  pub table : IsTable s.set
  pub ring : Holds s.ring xs
  pub same_size : s.ring.size ≡ s.set.size
  pub several : 1 < s.set.size
  pub indices : All (λ i. i < s.set.size) xs
  pub kept :
      (i : ℕ) {e : ℕ}
      → get_elem? s.set.slots i ≡ some e
      → e ≢ empty_value
      → (k : ℕ) × (get_elem? xs k ≡ some i)
  pub filter : IsFilter s.filter

-- What is left of the ring once the index `i` was taken off it.
record Taken (s : FlowSet) (xs : List ℕ) (i : ℕ) (s' : FlowSet) : Type 0 where
  index_in : i < s.set.size
  same_set : s'.set ≡ s.set
  same_filter : s'.filter ≡ s.filter
  same_size : s'.ring.size ≡ s.ring.size
  rest : List ℕ
  ring : Holds s'.ring rest
  indices : All (λ j. j < s.set.size) rest
  others : (j : ℕ) → Stands j xs → j ≢ i → Stands j rest
  fewer : (length rest + 1 ≡ length xs) ⊎ ((length xs ≡ 0) × (length rest ≡ 0))

take_oldest-Taken :
    (index : ℕ) (s : FlowSet) (xs : List ℕ)
    → IsFlowSet s xs
    → index < s.set.size
    → Ensures (take_oldest index s) (λ r. Taken s xs r.0 r.1)
unfolding take_oldest
take_oldest-Taken index s [] h small =
    Ensures-bind (ring_dequeue s.ring) _ (Dequeued s.ring []) (λ r. Taken s [] r.0 r.1)
      (ring_dequeue-Dequeued s.ring [] h.ring)
      (λ d _ p. rw p (record {
        index_in = small;
        same_set = refl;
        same_filter = refl;
        same_size = refl;
        rest = [];
        ring = h.ring;
        indices = tt;
        others = λ j k ne. k;
        fewer = inr (refl, refl);
      }))
take_oldest-Taken index s (x ∷ xs) h small =
    Ensures-bind (ring_dequeue s.ring) _ (Dequeued s.ring (x ∷ xs)) (λ r. Taken s (x ∷ xs) r.0 r.1)
      (ring_dequeue-Dequeued s.ring (x ∷ xs) h.ring) (λ d _ p. taken d p)
  where
    taken :
        (d : Option (ℕ × Ring ℕ))
        → Dequeued s.ring (x ∷ xs) d
        → Ensures
            (elim d as (λ _. Run (ℕ × FlowSet)) [
              | none ↦ ok (index, s)
              | some (i, r) ↦ ok (i, record s { ring = r })
            ])
            (λ r. Taken s (x ∷ xs) r.0 r.1)
    taken none p = elim p [ ]
    taken (some (i, r)) (e, size, holds) = record {
      index_in = rw e h.indices.0;
      same_set = refl;
      same_filter = refl;
      same_size = size;
      rest = xs;
      ring = holds;
      indices = h.indices.1;
      others = others;
      fewer = inl (omega arith);
    }
      where
        others : (j : ℕ) → Stands j (x ∷ xs) → j ≢ i → Stands j xs
        others j (zero, q) ne = absurd (ne (cc))
        others j (suc k, q) ne = (k, q)

-- The invariant, and how many indices the ring holds.
abbrev pub Kept : ℕ → FlowSet → FlowSet → Type 0
Kept bound s s' = (ys : List ℕ) × IsFlowSet s' ys × (length ys ≤ bound) × (s'.set.size ≡ s.set.size)

emptied :
    (s s' : FlowSet) (xs : List ℕ) (i oldest : ℕ) (t : Taken s xs i s')
    → IsFlowSet s xs
    → IsFlowSet
        (record s' {
          filter = filter64_rm s'.filter oldest;
          set = record s'.set { slots = set s'.set.slots i empty_value };
        })
        t.rest
emptied s s' xs i oldest t h = record {
  table = record {
    narrow = rw t.same_set h.table.narrow;
    filled = rw t.same_set h.table.filled;
    width = length-set s'.set.slots i empty_value ∙ rw t.same_set h.table.width;
  };
  ring = t.ring;
  same_size = t.same_size ∙ rw t.same_set h.same_size;
  several = rw t.same_set h.several;
  indices = rw t.same_set t.indices;
  kept = kept;
  filter = filter64_rm-IsFilter s'.filter oldest (rw t.same_filter h.filter);
}
  where
    kept :
        (j : ℕ) {e : ℕ}
        → get_elem? (set s'.set.slots i empty_value) j ≡ some e
        → e ≢ empty_value
        → Stands j t.rest
    kept j {e} p ne = elim (get_elem?-set-cases s'.set.slots i j empty_value p) [
      | inl (_, q) ↦ absurd (ne q)
      | inr (apart, q) ↦
          let old : get_elem? s.set.slots j ≡ some e =
            sym (ap (λ u. get_elem? u.slots j) t.same_set) ∙ q in
          t.others j (h.kept j old ne) apart
    ]

-- The set with one slot emptied, and its old element off the filter.
abbrev gone : FlowSet → ℕ → ℕ → FlowSet
gone s i oldest = record s {
  filter = filter64_rm s.filter oldest;
  set = record s.set { slots = set s.set.slots i empty_value };
}

fewer :
    {s s' : FlowSet} {xs : List ℕ} {i : ℕ} (t : Taken s xs i s') (nb n : ℕ)
    → n ≤ length t.rest - nb
    → n ≤ length xs - suc nb
fewer t nb n short = elim t.fewer [ inl e ↦ omega arith | inr (e, f) ↦ omega arith ]

remove_step :
    (nb i : ℕ) (s s' : FlowSet) (xs : List ℕ) (t : Taken s xs i s')
    → IsFlowSet s xs
    → ((oldest : ℕ)
        → Ensures
            (remove_oldest nb i (gone s' i oldest))
            (Kept (length t.rest - nb) (gone s' i oldest)))
    → Ensures
        (do
          oldest ← at s'.set.slots i
          (_, set') ← set_empty_slot s'.set i
          remove_oldest nb i (record s' { filter = filter64_rm s'.filter oldest; set = set' }))
        (Kept (length xs - suc nb) s)
unfolding set_empty_slot
remove_step nb i s s' xs t h rest =
    let size : s'.set.size ≡ s.set.size = ap (λ u. u.size) t.same_set in
    let wide : length s'.set.slots ≡ s.set.size = rw t.same_set h.table.width in
    let (oldest, here) = get_elem?-in s'.set.slots i (omega (arith, t.index_in)) in
    rw
      (
        here,
        lt→ltb i s'.set.size (omega (arith, t.index_in)),
        lt→ltb i (length s'.set.slots) (omega (arith, t.index_in)),
      )
      (Ensures-map (remove_oldest nb i (gone s' i oldest))
        (Kept (length t.rest - nb) (gone s' i oldest)) (Kept (length xs - suc nb) s) (rest oldest)
        (λ s'' (ys, k, short, same). (ys, k, fewer t nb (length ys) short, same ∙ size)))

-- Removing elements keeps the invariant, and takes as many off the ring as it can.
pub remove_oldest-Kept :
    (nb index : ℕ) (s : FlowSet) (xs : List ℕ)
    → IsFlowSet s xs
    → index < s.set.size
    → Ensures (remove_oldest nb index s) (Kept (length xs - nb) s)
unfolding remove_oldest
remove_oldest-Kept zero index s xs h small = (xs, h, omega arith, refl)
remove_oldest-Kept (suc nb) index s xs h small =
    Ensures-bind (take_oldest index s) _ (λ r. Taken s xs r.0 r.1) (Kept (length xs - suc nb) s)
      (take_oldest-Taken index s xs h small)
      (λ (i, s') _ t.
        let size : s'.set.size ≡ s.set.size = ap (λ u. u.size) t.same_set in
        remove_step nb i s s' xs t h (λ oldest.
          remove_oldest-Kept nb i (gone s' i oldest) t.rest (emptied s s' xs i oldest t h)
            (omega (arith, t.index_in))))
