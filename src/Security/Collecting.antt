-- ===== src/Security/Collecting.antt =====
-- The map in which the attributes of the rules are collected (`_get_unique_proto_attts`).
use Prim.Native.Nat.{Ordering}
use mmt_security.Prelude.{
  ℕ, ◌^◌, ◌<◌, ◌≡◌, refl, sym, ◌∙◌, ◌≢◌, Option, none, some, List, [], ◌∷◌, false, arith, All,
  All-map, ◌⊎◌, inl, inr,
}
use mmt_security.Rule.{Rule, ProtoAttribute}
use mmt_security.Utils.Codes.{simple_hash_64, simple_hash_64_sum}
use mmt_security.Map.{Map, set_data, get_data}
use mmt_security.Map.Order.{compare_uint64_t, compare_uint64_t-IsOrder}
use mmt_security.Map.Lookup.{stored, get_data-set_data}
use mmt_security.Map.Listing.{entries, put_entry, IsMap, set_data-IsMap}
use mmt_security.Map.Places.{order-cases}
use mmt_security.Security.{collect_atts, collect_rules}

abbrev pub code : ProtoAttribute → ℕ
code p = simple_hash_64 p.proto_id p.att_id

-- The ids are of 32 bits.
pub record IsInRange (p : ProtoAttribute) : Type 0 where
  pub proto : p.proto_id < 2 ^ 32
  pub att : p.att_id < 2 ^ 32

abbrev pub SameIds : ProtoAttribute → ProtoAttribute → Type 0
SameIds p q = (p.proto_id ≡ q.proto_id) × (p.att_id ≡ q.att_id)

pub code-injective :
    (p q : ProtoAttribute) → IsInRange p → IsInRange q → code p ≡ code q → SameIds p q
code-injective p q h k e =
    let a = simple_hash_64_sum p.proto_id p.att_id h.proto h.att in
    let b = simple_hash_64_sum q.proto_id q.att_id k.proto k.att in
    omega (arith, a, b, e, h.proto, h.att, k.proto, k.att)

abbrev pub AttEntry : Type 0
AttEntry = ℕ × Option ProtoAttribute

-- An entry maps the code of an attribute to it.
abbrev pub IsKeyed : AttEntry → Type 0
IsKeyed (k, none) = ⊥
IsKeyed (k, some p) = (k ≡ code p) × IsInRange p

put_entry-IsKeyed :
    (key : ℕ) (p : ProtoAttribute) (es : List AttEntry)
    → All IsKeyed es
    → IsKeyed (key, some p)
    → All IsKeyed (put_entry compare_uint64_t key p false es)
unfolding put_entry
put_entry-IsKeyed key p [] h k = (k, tt)
put_entry-IsKeyed key p ((j, d) ∷ es) h k =
    elim (compare_uint64_t key j)
      as (λ c. All IsKeyed (elim c [
        | Ordering.lt ↦ (key, some p) ∷ (j, d) ∷ es
        | Ordering.eq ↦ (j, d) ∷ es
        | Ordering.gt ↦ (j, d) ∷ put_entry compare_uint64_t key p false es
      ])) [
        | Ordering.lt ↦ (k, h)
        | Ordering.eq ↦ h
        | Ordering.gt ↦ (h.0, put_entry-IsKeyed key p es h.1 k)
      ]

-- The map of the attributes that were collected.
pub record IsCollected (m : Map ℕ ProtoAttribute) : Type 0 where
  pub map : IsMap compare_uint64_t m
  pub keyed : All IsKeyed (entries m.root)

abbrev pub Has : Map ℕ ProtoAttribute → ProtoAttribute → Type 0
Has m p = get_data compare_uint64_t m (code p) ≢ none

stored-ne-none : (old : Option ProtoAttribute) (p : ProtoAttribute) → stored old p false ≢ none
stored-ne-none none p e = cc
stored-ne-none (some q) p e = cc

Has-set_data :
    (m : Map ℕ ProtoAttribute) (p q : ProtoAttribute)
    → IsMap compare_uint64_t m
    → (Has m q) ⊎ (code q ≡ code p)
    → Has (set_data compare_uint64_t m (code p) (some p) false).1 q
Has-set_data m p q h k e =
    let o = compare_uint64_t-IsOrder in
    let law = (get_data-set_data compare_uint64_t o m (code p) (code q) p false h.filled).0 in
    let old = stored-ne-none (get_data compare_uint64_t m (code p)) p in
    elim k [
      | inl had ↦ elim (order-cases (compare_uint64_t (code q) (code p))) [
        | inl c ↦ old (sym (rw c at law) ∙ e)
        | inr (inl c) ↦ had (sym (rw c at law) ∙ e)
        | inr (inr c) ↦ had (sym (rw c at law) ∙ e)
      ]
      | inr same ↦
          let c : compare_uint64_t (code q) (code p) ≡ Ordering.eq = rw same (o.same (code p)) in
          old (sym (rw c at law) ∙ e)
    ]

collect-one :
    (m : Map ℕ ProtoAttribute) (p : ProtoAttribute)
    → IsInRange p
    → IsCollected m
    → let m' = (set_data compare_uint64_t m (code p) (some p) false).1 in
      IsCollected m' × Has m' p × ((q : ProtoAttribute) → Has m q → Has m' q)
collect-one m p h c =
    let o = compare_uint64_t-IsOrder in
    let (good, put) = set_data-IsMap compare_uint64_t o m (code p) p false c.map in
    (
      record {
        map = good;
        keyed = rw put (put_entry-IsKeyed (code p) p (entries m.root) c.keyed (refl, h));
      },
      Has-set_data m p p c.map (inr refl),
      λ q had. Has-set_data m p q c.map (inl had),
    )

collect_atts_lem :
    (ps : List ProtoAttribute) (m : Map ℕ ProtoAttribute)
    → All IsInRange ps
    → IsCollected m
    → IsCollected (collect_atts ps m)
      × All (Has (collect_atts ps m)) ps
      × ((q : ProtoAttribute) → Has m q → Has (collect_atts ps m) q)
unfolding collect_atts
collect_atts_lem [] m h c = (c, tt, λ q had. had)
collect_atts_lem (p ∷ ps) m h c =
    let (c', has, keeps) = collect-one m p h.0 c in
    let (c'', all, keeps') =
      collect_atts_lem ps (set_data compare_uint64_t m (code p) (some p) false).1 h.1 c' in
    (c'', (keeps' p has, all), λ q had. keeps' q (keeps q had))

abbrev pub AttsInRange : Rule → Type 0
AttsInRange r = All IsInRange r.proto_atts

pub collect_rules_lem :
    (rs : List Rule) (m : Map ℕ ProtoAttribute)
    → All AttsInRange rs
    → IsCollected m
    → IsCollected (collect_rules rs m)
      × All (λ r. All (Has (collect_rules rs m)) r.proto_atts) rs
      × ((q : ProtoAttribute) → Has m q → Has (collect_rules rs m) q)
unfolding collect_rules
collect_rules_lem [] m h c = (c, tt, λ q had. had)
collect_rules_lem (r ∷ rs) m h c =
    let (c', all, keeps) = collect_atts_lem r.proto_atts m h.0 c in
    let (c'', all', keeps') = collect_rules_lem rs (collect_atts r.proto_atts m) h.1 c' in
    (
      c'',
      (All-map (Has (collect_atts r.proto_atts m)) _ r.proto_atts keeps' all, all'),
      λ q had. keeps' q (keeps q had),
    )
