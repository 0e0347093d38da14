-- ===== src/Handler/Dropped.antt =====
-- Moving an entry of a handler to the end of the array, and dropping it.
use mmt_security.Prelude.{
  ℕ, zero, suc, ◌+◌, ◌-◌, ◌<◌, ◌≡◌, ◌≢◌, refl, sym, ◌∙◌, ap, ◌==◌, inl, inr, some, List, [], ◌∷◌,
  arith, set, length, length-set, get_elem?, get_elem?-in, get_elem?-set_self, get_elem?-set_ne,
  Ensures, Bool-cases, ==_iff,
}
use mmt_security.Handler.{Entry}
use mmt_security.Handler.Rules.{swap_rule, drop_last}

length-drop_last : (es : List Entry) → length (drop_last es) ≡ length es - 1
unfolding drop_last
length-drop_last [] = refl
length-drop_last (e ∷ []) = omega arith
length-drop_last (e ∷ e' ∷ es) = omega (arith, length-drop_last (e' ∷ es))

get_elem?-drop_last :
    (es : List Entry) (k : ℕ) → k + 1 < length es → get_elem? (drop_last es) k ≡ get_elem? es k
unfolding drop_last
get_elem?-drop_last [] k h = refl
get_elem?-drop_last (e ∷ []) k h = absurd (omega arith)
get_elem?-drop_last (e ∷ e' ∷ es) zero h = refl
get_elem?-drop_last (e ∷ e' ∷ es) (suc k) h = get_elem?-drop_last (e' ∷ es) k (omega arith)

pub get_elem?-bound :
    (xs : List Entry) (k : ℕ) {a : Entry} → get_elem? xs k ≡ some a → k < length xs
get_elem?-bound [] k h = cc
get_elem?-bound (x ∷ xs) zero h = omega arith
get_elem?-bound (x ∷ xs) (suc k) h = omega (arith, get_elem?-bound xs k h)

-- Moving the entry `i` to the end and dropping it.
pub record Dropped (es : List Entry) (i : ℕ) (es' : List Entry) : Type 0 where
  pub shorter : length es' + 1 ≡ length es
  pub before : (k : ℕ) → k < i → get_elem? es' k ≡ get_elem? es k
  pub others :
      (k : ℕ) {e : Entry} → k ≢ i → get_elem? es k ≡ some e → (j : ℕ) × (get_elem? es' j ≡ some e)

pub swap_drop :
    (es : List Entry) (i : ℕ)
    → i < length es
    → Ensures (swap_rule es i (length es - 1)) (λ s. Dropped es i (drop_last s))
unfolding swap_rule
swap_drop es i h = elim (Bool-cases (i == length es - 1)) [
  | inl q ↦
      let at_end = (==_iff i (length es - 1)).0 q in
      rw q (record {
        shorter = omega (arith, length-drop_last es);
        before = λ k small. get_elem?-drop_last es k (omega (arith, at_end));
        others = λ k {e} ne p.
            let bound = get_elem?-bound es k p in
            (k, get_elem?-drop_last es k (omega (arith, at_end, bound)) ∙ p);
      })
  | inr q ↦
      let inner : i ≢ length es - 1 = ground arith in
      let last = length es - 1 in
      let (a, ea) = get_elem?-in es i h in
      let (b, eb) = get_elem?-in es (length es - 1) (omega arith) in
      let es' = set (set es i b) last a in
      let size : length es' ≡ length es = length-set (set es i b) last a ∙ length-set es i b in
      rw (q, ea, eb)
        (record {
          shorter = omega (arith, length-drop_last es', size);
          before = λ k small.
              get_elem?-drop_last es' k (omega (arith, size))
              ∙ get_elem?-set_ne (set es i b) a (omega arith)
              ∙ get_elem?-set_ne es b (omega arith);
          others = λ k {e} ne p. moved es i a b h inner ea eb k e ne p;
        })
]
  where
    moved :
        (es : List Entry) (i : ℕ) (a b : Entry)
        → i < length es
        → i ≢ length es - 1
        → get_elem? es i ≡ some a
        → get_elem? es (length es - 1) ≡ some b
        → (k : ℕ) (e : Entry) → k ≢ i
        → get_elem? es k ≡ some e
        → (j : ℕ) × (get_elem? (drop_last (set (set es i b) (length es - 1) a)) j ≡ some e)
    moved es i a b h inner ea eb k e ne p =
        let bound = get_elem?-bound es k p in
        let last = length es - 1 in
        let size : length (set (set es i b) last a) ≡ length es =
          length-set (set es i b) last a ∙ length-set es i b in
        elim (Bool-cases (k == last)) [
          | inl q ↦
              let same : k ≡ last = (==_iff k last).0 q in
              (
                i,
                get_elem?-drop_last (set (set es i b) last a) i (omega (arith, size))
                    ∙ get_elem?-set_ne (set es i b) a (omega arith)
                    ∙ get_elem?-set_self es i b h
                    ∙ sym eb
                    ∙ sym (ap (get_elem? es) same)
                    ∙ p,
              )
          | inr q ↦
              let other : k ≢ last = ground arith in
              (
                k,
                get_elem?-drop_last (set (set es i b) last a) k (omega (arith, size))
                    ∙ get_elem?-set_ne (set es i b) a (omega arith)
                    ∙ get_elem?-set_ne es b (omega arith)
                    ∙ p,
              )
        ]
