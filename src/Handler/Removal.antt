-- ===== src/Handler/Removal.antt =====
-- Which rules are left when rules are removed (`mmt_single_sec_remove_rules`).
use mmt_security.Prelude.{
  some-injective, ℕ, zero, suc, ◌+◌, ◌-◌, ◌<◌, ◌≡◌, ◌≢◌, refl, sym, ◌∙◌, ap, ◌==◌, inl, inr, some,
  List, true, false, arith, length, get_elem?, get_elem?-in, ok, ◌>>=◌, Ensures, Ensures-bind,
  Bool-cases, ==_iff,
}
use mmt_security.Rule.{Rule}
use mmt_security.Handler.{Entry, Handler, combine_rules}
use mmt_security.Handler.Rules.{swap_rule, drop_last, has_id, remove_from, remove_rules}
use mmt_security.Handler.Dropped.{get_elem?-bound, Dropped, swap_drop}

-- The entry's rule is among those that remain.
abbrev pub Remains : List Rule → Entry → Type 0
Remains rules e = has_id e.rule.id rules ≡ true

abbrev Among : Entry → List Entry → Type 0
Among e es = (k : ℕ) × (get_elem? es k ≡ some e)

-- What the loop leaves of the entries `es`: only rules that remain, each of them, and as many fewer
-- as it counts.
pub record IsRemoved (rules : List Rule) (es es' : List Entry) (removed : ℕ) : Type 0 where
  pub only : (k : ℕ) {e : Entry} → get_elem? es' k ≡ some e → Remains rules e
  pub each :
      (k : ℕ) {e : Entry}
      → get_elem? es k ≡ some e
      → Remains rules e
      → (j : ℕ) × (get_elem? es' j ≡ some e)
  pub counted : length es' + removed ≡ length es
  pub unchanged : removed ≡ 0 → es' ≡ es

-- The entries before `i` are done.
abbrev Done : List Rule → List Entry → ℕ → Type 0
Done rules es i = (k : ℕ) (e : Entry) → k < i → get_elem? es k ≡ some e → Remains rules e

Done-next :
    (rules : List Rule) (es : List Entry) (i : ℕ) {e : Entry}
    → Done rules es i
    → get_elem? es i ≡ some e
    → Remains rules e
    → Done rules es (i + 1)
Done-next rules es i {e} d here keep k x small p = elim (Bool-cases (k == i)) [
  | inl q ↦
      let same = (==_iff k i).0 q in
      let e₁ : x ≡ e = some-injective (sym p ∙ ap (get_elem? es) same ∙ here) in rw e₁ keep
  | inr q ↦ d k x (ground arith) p
]

carry :
    (rules : List Rule) (es es' es'' : List Entry) (i n : ℕ) {e : Entry}
    → get_elem? es i ≡ some e
    → has_id e.rule.id rules ≡ false
    → Dropped es i es'
    → IsRemoved rules es' es'' n
    → IsRemoved rules es es'' (n + 1)
carry rules es es' es'' i n {e} here gone d r = record {
  only = r.only;
  each = λ k {e = x} p keep.
      let apart : k ≢ i = λ same.
        let e₁ : x ≡ e = some-injective (sym p ∙ ap (get_elem? es) same ∙ here) in
        let both : has_id e.rule.id rules ≡ true = rw (sym e₁) keep in cc in
      let (j, q) = d.others k apart p in r.each j q keep;
  counted = omega (arith, r.counted, d.shorter);
  unchanged = λ z. absurd (omega arith);
}

remove_kept :
    (rules : List Rule) (n i : ℕ) (es : List Entry) {e : Entry}
    → get_elem? es i ≡ some e
    → has_id e.rule.id rules ≡ true
    → remove_from rules (suc n) i es ≡ remove_from rules n (i + 1) es
unfolding remove_from
remove_kept rules n i es here q = ground arith

remove_gone :
    (rules : List Rule) (n i : ℕ) (es : List Entry) {e : Entry}
    → get_elem? es i ≡ some e
    → has_id e.rule.id rules ≡ false
    → remove_from rules (suc n) i es ≡ (
        swap_rule es i (length es - 1) >>= λ s.
        remove_from rules n i (drop_last s) >>= λ r. ok (r.0, r.1 + 1))
unfolding remove_from
remove_gone rules n i es here q = ground arith

remove_from-IsRemoved :
    (rules : List Rule) (n i : ℕ) (es : List Entry)
    → i + n ≡ length es
    → Done rules es i
    → Ensures (remove_from rules n i es) (λ r. IsRemoved rules es r.0 r.1)
unfolding remove_from
remove_from-IsRemoved rules zero i es h d = record {
  only = λ k {e} p. d k e (omega (arith, get_elem?-bound es k p)) p;
  each = λ k p keep. (k, p);
  counted = omega arith;
  unchanged = λ z. refl;
}
remove_from-IsRemoved rules (suc n) i es h d =
    let (e, here) = get_elem?-in es i (omega arith) in
    elim (Bool-cases (has_id e.rule.id rules)) [
      | inl q ↦
          rw (remove_kept rules n i es here q)
            (remove_from-IsRemoved rules n (i + 1) es (omega arith) (Done-next rules es i d here q))
      | inr q ↦ rw (remove_gone rules n i es here q) (
          Ensures-bind (swap_rule es i (length es - 1)) _ (λ s. Dropped es i (drop_last s))
            (λ r. IsRemoved rules es r.0 r.1) (swap_drop es i (omega arith))
            (λ s _ p.
              Ensures-bind (remove_from rules n i (drop_last s)) _
                (λ r. IsRemoved rules (drop_last s) r.0 r.1) (λ r. IsRemoved rules es r.0 r.1)
                (remove_from-IsRemoved rules n i (drop_last s) (omega (arith, p.shorter))
                  (λ k x small q. d k x small (sym (p.before k small) ∙ q)))
                (λ r _ k. carry rules es (drop_last s) r.0 i r.1 here q p k)))
    ]

-- Removing rules never fails. What is left verifies only rules that remain registered, every entry
-- of such a rule is left with its engine and its count of alerts, the number returned is that of
-- the entries that are gone, and the mask is again the combination of those of the entries.
pub remove_rules-IsRemoved :
    (rules : List Rule) (h : Handler)
    → h.hash ≡ combine_rules 0 h.entries
    → Ensures
        (remove_rules rules h)
        λ r. IsRemoved rules h.entries r.1.entries r.0 × (r.1.hash ≡ combine_rules 0 r.1.entries)
unfolding remove_rules
remove_rules-IsRemoved rules h c =
    Ensures-bind (remove_from rules (length h.entries) 0 h.entries) _
      (λ r. IsRemoved rules h.entries r.0 r.1)
      (λ r. IsRemoved rules h.entries r.1.entries r.0 × (r.1.hash ≡ combine_rules 0 r.1.entries))
      (remove_from-IsRemoved rules (length h.entries) 0 h.entries (omega arith)
        (λ k e small p. absurd (omega arith)))
      (λ r _ k. (
        k,
        elim (Bool-cases (r.1 == 0)) [
          | inl q ↦ rw (q, k.unchanged ((==_iff r.1 0).0 q)) c
          | inr q ↦ rw q refl
        ],
      ))
