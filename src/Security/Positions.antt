-- ===== src/Security/Positions.antt =====
-- Where the attributes of a map stand (`_mmt_sec_hash_proto_attribute`).
use Prim.Native.Nat.{Ordering}
use mmt_security.Prelude.{
  ℕ, zero, suc, ◌+◌, ◌≤◌, ◌≡◌, refl, sym, ap, ◌∙◌, subst, ◌≢◌, Option, none, some, List, [], ◌∷◌,
  ◌++◌, true, arith, length, get_elem?, ok, All, Bool-cases, inl, inr,
}
use mmt_security.Rule.{ProtoAttribute}
use mmt_security.Attribute.{same_attribute, hash_from}
use mmt_security.Utils.Codes.{simple_hash_64}
use mmt_security.Map.Order.{compare_uint64_t, compare_uint64_t-IsOrder}
use mmt_security.Map.Listing.{IsAscending, KeysAbove}
use mmt_security.Map.Indices.{data_of}
use mmt_security.Map.Places.{order-cases, find_entry}
use mmt_security.Security.{first_atts}
use mmt_security.Security.Collecting.{code, IsInRange, SameIds, code-injective, AttEntry, IsKeyed}

-- The attributes of the entries.
pub atts_of : List AttEntry → List ProtoAttribute
atts_of [] = []
atts_of ((k, none) ∷ es) = atts_of es
atts_of ((k, some p) ∷ es) = p ∷ atts_of es

pub first_atts-atts_of :
    (es : List AttEntry) (tail : List (Option ProtoAttribute))
    → All IsKeyed es
    → first_atts (length es) (data_of es ++ tail) ≡ ok (atts_of es)
unfolding first_atts atts_of
first_atts-atts_of [] tail h = refl
first_atts-atts_of ((k, none) ∷ es) tail h = absurd h.0
first_atts-atts_of ((k, some p) ∷ es) tail h = rw (first_atts-atts_of es tail h.1) refl

pub length-atts_of : (es : List AttEntry) → All IsKeyed es → length (atts_of es) ≡ length es
unfolding atts_of
length-atts_of [] h = refl
length-atts_of ((k, none) ∷ es) h = absurd h.0
length-atts_of ((k, some p) ∷ es) h = ap suc (length-atts_of es h.1)

-- An attribute among those whose codes are above a code has another code.
code-above :
    (k : ℕ) (es : List AttEntry) (j : ℕ) {p : ProtoAttribute}
    → All IsKeyed es
    → KeysAbove compare_uint64_t k es
    → get_elem? (atts_of es) j ≡ some p
    → compare_uint64_t k (code p) ≡ Ordering.lt
unfolding atts_of
code-above k [] j h a e = cc
code-above k ((i, none) ∷ es) j h a e = absurd h.0
code-above k ((i, some q) ∷ es) zero h a e =
    let same : i ≡ code _ = h.0.0 ∙ ap code (cc) in
    subst (λ c. compare_uint64_t k c ≡ Ordering.lt) same a.0
code-above k ((i, some q) ∷ es) (suc j) h a e = code-above k es j h.1 a.1 e

Ordering-apart : Ordering.eq ≡ Ordering.lt → ⊥
Ordering-apart e = cc

code_of_same : (a b : ℕ) → compare_uint64_t a b ≡ Ordering.eq → a ≡ b
unfolding compare_uint64_t
code_of_same a b h = ground arith

-- The attribute at an index is found at this index.
pub hash_from-at :
    (es : List AttEntry) (i j : ℕ) (p : ProtoAttribute)
    → All IsKeyed es
    → IsAscending compare_uint64_t es
    → i + length es ≤ 64
    → get_elem? (atts_of es) j ≡ some p
    → hash_from (atts_of es) p.proto_id p.att_id i ≡ ok (i + j)
unfolding atts_of hash_from
hash_from-at [] i j p h a few e = cc
hash_from-at ((k, none) ∷ es) i j p h a few e = absurd h.0
hash_from-at ((k, some q) ∷ es) i zero p h a few e =
    let same : q ≡ p = cc in
    let t : same_attribute p.proto_id p.att_id q ≡ true = rw same (ground arith) in
    rw t (ap ok (omega arith))
hash_from-at ((k, some q) ∷ es) i (suc j) p h a few e =
    let above = code-above k es j h.1 a.0 e in
    elim (Bool-cases (same_attribute p.proto_id p.att_id q)) [
      | inl t ↦
          let ids : SameIds q p = ground arith in
          let same : k ≡ code p = h.0.0 ∙ (λ i. simple_hash_64 (ids.0 i) (ids.1 i)) in
          let here : compare_uint64_t k (code p) ≡ Ordering.eq =
            rw same (compare_uint64_t-IsOrder.same (code p)) in
          absurd (Ordering-apart (sym here ∙ above))
      | inr t ↦ rw t (hash_from-at es (i + 1) j p h.1 a.1 (omega arith) e ∙ ap ok (omega arith))
    ]

-- Where an attribute with data stands.
pub found_at :
    (es : List AttEntry) (p : ProtoAttribute)
    → IsInRange p
    → All IsKeyed es
    → find_entry compare_uint64_t (code p) es ≢ none
    → (j : ℕ) × (q : ProtoAttribute) × (get_elem? (atts_of es) j ≡ some q) × SameIds p q
unfolding atts_of find_entry
found_at [] p r h n = absurd (n refl)
found_at ((k, none) ∷ es) p r h n = absurd h.0
found_at ((k, some q) ∷ es) p r h n =
    let later = λ (rest : find_entry compare_uint64_t (code p) es ≢ none).
      let (j, q', e, same) = found_at es p r h.1 rest in
      let found : (j : ℕ) × (q' : ProtoAttribute) × (get_elem? (q ∷ atts_of es) j ≡ some q')
          × SameIds p q' =
        (suc j, q', e, same) in
      found in
    elim (order-cases (compare_uint64_t (code p) k)) [
      | inl c ↦ (0, q, refl, code-injective p q r h.0.1 (code_of_same (code p) k c ∙ h.0.0))
      | inr (inl c) ↦ later (λ e. n (rw (c, find_entry) e))
      | inr (inr c) ↦ later (λ e. n (rw (c, find_entry) e))
    ]
