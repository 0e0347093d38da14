-- ===== src/Handler/Told.antt =====
-- Which messages the mask of a handler lets through (src/lib/mmt_single_security.c).
use Prim.Native.Nat.{bit_or}
use mmt_security.Prelude.{
  ℕ, zero, suc, ◌+◌, ◌≤◌, ◌<◌, ◌≡◌, sym, ap, ◌∙◌, ◌⊎◌, inl, inr, ◌↔◌, some, List, [], ◌∷◌, Bool,
  arith, get_elem?, at, IfOk, IfOk-bind, IfOk-map, IfOk-use, some-injective, All,
}
use native.Mathlib.Decide.{dec_le}
use mmt_security.Prelude.Digits.{bit, bit_zero, bit_bound, bit-or}
use mmt_security.Message.{Message}
use mmt_security.Rule.{Rule, ProtoAttribute}
use mmt_security.Handler.{
  Entry, Handler, combine_masks, combine_rules, single_sec_register, single_sec_process,
}
use mmt_security.Handler.Consistent.{
  IsMasked, IsConsistent, single_sec_register-IsConsistent, single_sec_process-IsConsistent,
}
use mmt_security.Engine.SafeProcess.{at-get}
use mmt_security.Smp.Bursts.{process_all}

-- Alternatives in two steps.
regroup : {A B C D E T : Type 0} → A ↔ (B ⊎ E) → B ↔ (C ⊎ D) → T ↔ (D ⊎ E) → A ↔ (C ⊎ T)
regroup p q r = (
  λ a. elim (p.0 a) [
    | inl b ↦ elim (q.0 b) [ inl c ↦ inl c | inr d ↦ inr (r.1 (inl d)) ]
    | inr e ↦ inr (r.1 (inr e))
  ],
  λ x. elim x [
    | inl c ↦ p.1 (inl (q.1 (inl c)))
    | inr t ↦ elim (r.0 t) [ inl d ↦ p.1 (inl (q.1 (inr d))) | inr e ↦ p.1 (inr e) ]
  ],
)

or_told : (a b i : ℕ) → (bit (bit_or a b) i ≡ 1) ↔ ((bit a i ≡ 1) ⊎ (bit b i ≡ 1))
or_told a b i = (
  λ h. elim (dec_le 1 (bit a i)) [
    | yes p ↦ inl (omega (arith, p, bit_bound a i))
    | no p ↦ inr (omega (arith, p, h, bit-or a b i))
  ],
  λ h. elim h [
    | inl p ↦ omega (arith, p, bit-or a b i, bit_bound b i)
    | inr p ↦ omega (arith, p, bit-or a b i, bit_bound a i)
  ],
)

-- One of the `n` masks from `j` on has the digit `i`.
abbrev pub Tells : List ℕ → ℕ → ℕ → ℕ → Type 0
Tells masks i j n =
    (k : ℕ) × (mask : ℕ) × (j ≤ k)
    × (k < j + n)
    × (get_elem? masks k ≡ some mask)
    × (bit mask i ≡ 1)

Tells-step :
    (masks : List ℕ) (i j n mask : ℕ)
    → get_elem? masks j ≡ some mask
    → Tells masks i j (suc n) ↔ ((bit mask i ≡ 1) ⊎ Tells masks i (j + 1) n)
Tells-step masks i j n mask at_j = (
  λ (k, m, low, high, at_k, t). elim (dec_le k j) [
    | yes p ↦
        let same : k ≡ j = omega (arith, p, low) in
        let equal : m ≡ mask = some-injective (sym at_k ∙ ap (get_elem? masks) same ∙ at_j) in
        inl (ap (λ x. bit x i) (sym equal) ∙ t)
    | no p ↦ inr (k, m, omega (arith, p), omega (arith, high), at_k, t)
  ],
  λ h. elim h [
    | inl t ↦ (j, mask, omega arith, omega arith, at_j, t)
    | inr (k, m, low, high, at_k, t) ↦ (k, m, omega (arith, low), omega (arith, high), at_k, t)
  ],
)

combine_masks-Tells :
    (masks : List ℕ) (i j n hash : ℕ)
    → IfOk
        (combine_masks masks j n hash)
        λ h. (bit h i ≡ 1) ↔ ((bit hash i ≡ 1) ⊎ Tells masks i j n)
unfolding combine_masks
combine_masks-Tells masks i j zero hash = (
  inl,
  λ h. elim h [ inl t ↦ t | inr (k, m, low, high, _, _) ↦ absurd (omega (arith, low, high)) ],
)
combine_masks-Tells masks i j (suc n) hash =
    IfOk-bind (at masks j) _ (λ mask. get_elem? masks j ≡ some mask) _ (at-get masks j)
      (λ mask _ at_j.
        IfOk-map (combine_masks masks (j + 1) n (bit_or hash mask))
          (λ h. (bit h i ≡ 1) ↔ ((bit (bit_or hash mask) i ≡ 1) ⊎ Tells masks i (j + 1) n))
          (λ h. (bit h i ≡ 1) ↔ ((bit hash i ≡ 1) ⊎ Tells masks i j (suc n)))
          (combine_masks-Tells masks i (j + 1) n (bit_or hash mask))
          (λ h p. regroup p (or_told hash mask i) (Tells-step masks i j n mask at_j)))

-- Some event of some rule has the digit `i`.
abbrev pub Somewhere : ℕ → List Entry → Type 0
Somewhere i [] = ⊥
Somewhere i (e ∷ es) = Tells e.engine.events_hash i 0 e.engine.events_count ⊎ Somewhere i es

rule_hash-Tells :
    (i : ℕ) (e : Entry)
    → IsMasked e
    → (bit e.rule_hash i ≡ 1) ↔ Tells e.engine.events_hash i 0 e.engine.events_count
rule_hash-Tells i e h =
    let told =
      IfOk-use (combine_masks e.engine.events_hash 0 e.engine.events_count 0)
        (λ k.
          (bit k i ≡ 1) ↔ ((bit 0 i ≡ 1) ⊎ Tells e.engine.events_hash i 0 e.engine.events_count))
        (combine_masks-Tells e.engine.events_hash i 0 e.engine.events_count 0) h in
    (
      λ t. elim (told.0 t) [ inl z ↦ absurd (omega (arith, z, bit_zero i)) | inr x ↦ x ],
      λ x. told.1 (inr x),
    )

combine_rules-Somewhere :
    (n i : ℕ) (es : List Entry)
    → All IsMasked es
    → (bit (combine_rules n es) i ≡ 1) ↔ ((bit n i ≡ 1) ⊎ Somewhere i es)
unfolding combine_rules
combine_rules-Somewhere n i [] h = (inl, λ x. elim x [ inl t ↦ t | inr none ↦ absurd none ])
combine_rules-Somewhere n i (e ∷ es) (h, hs) =
    let (to, from) = rule_hash-Tells i e h in
    regroup (combine_rules-Somewhere (bit_or n e.rule_hash) i es hs) (or_told n e.rule_hash i) (
      λ x. elim x [ inl t ↦ inl (from t) | inr s ↦ inr s ],
      λ x. elim x [ inl t ↦ inl (to t) | inr s ↦ inr s ],
    )

process_all-IsConsistent :
    (h : Handler) (ms : List Message)
    → IsConsistent h
    → IfOk (process_all h ms) (λ r. IsConsistent r.0)
unfolding process_all
process_all-IsConsistent h [] c = c
process_all-IsConsistent h (m ∷ ms) c =
    IfOk-bind (single_sec_process h m) _ (λ r. IsConsistent r.0) (λ r. IsConsistent r.0)
      (single_sec_process-IsConsistent h m c)
      (λ r _ c'.
        IfOk-bind (process_all r.0 ms) _ (λ s. IsConsistent s.0) (λ s. IsConsistent s.0)
          (process_all-IsConsistent r.0 ms c') (λ s _ c''. c''))

-- A handler that was registered and has processed any messages passes over just the messages that tell
-- nothing of its events: a digit of its mask is set exactly if it is set in the mask of some event of
-- some of its rules.
pub process_all-Somewhere :
    (atts : List ProtoAttribute) (n : ℕ) (rules : List Rule) (b : Bool) (ms : List Message) (i : ℕ)
    → IfOk
        (single_sec_register atts n rules b)
        λ h. IfOk (process_all h ms) λ r. (bit r.0.hash i ≡ 1) ↔ Somewhere i r.0.entries
process_all-Somewhere atts n rules b ms i =
    IfOk-map (single_sec_register atts n rules b) IsConsistent _
      (single_sec_register-IsConsistent atts n rules b)
      (λ h c.
        IfOk-map (process_all h ms) (λ r. IsConsistent r.0) _ (process_all-IsConsistent h ms c)
          (λ r c'.
            let (to, from) = combine_rules-Somewhere 0 i r.0.entries c'.rules in
            (
              λ t. elim (to (ap (λ k. bit k i) (sym c'.all) ∙ t)) [
                | inl z ↦ absurd (omega (arith, z, bit_zero i))
                | inr x ↦ x
              ],
              λ x. ap (λ k. bit k i) c'.all ∙ from (inr x),
            )))
