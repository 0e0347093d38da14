-- ===== src/Security/Numbering.antt =====
-- The numbers of the attributes (`_get_unique_proto_attts`, `_mmt_sec_hash_proto_attribute`).
use mmt_security.Prelude.{
  ℕ, zero, suc, ◌-◌, ◌≤◌, ◌<◌, ◌≡◌, ap, ◌∙◌, Option, none, some, List, [], ◌∷◌, ◌++◌, arith, ltb,
  length, get_elem?, replicate, Run, ok, fault, wild, halted, out_of_fuel, ◌>>=◌, Never, All,
  Bool-cases, inl, inr, ltb→lt,
}
use mmt_security.Rule.{Rule, ProtoAttribute}
use mmt_security.Attribute.{hash_from, hash_proto_attribute}
use mmt_security.Map.{Map, map_init, get_data, map_iterate, node_iterate, to_update}
use mmt_security.Map.Order.{compare_uint64_t, compare_uint64_t-IsOrder}
use mmt_security.Map.Listing.{entries, map_init-IsMap}
use mmt_security.Map.Indices.{node_iterate_lem, data_of, visit_to_update}
use mmt_security.Map.Places.{get_node_lem}
use mmt_security.Security.{
  collect_rules, max_proto_atts, to_proto_atts, first_atts, get_unique_proto_atts,
}
use mmt_security.Security.Collecting.{
  code, IsInRange, SameIds, IsCollected, Has, AttsInRange, collect_rules_lem,
}
use mmt_security.Security.Positions.{
  atts_of, first_atts-atts_of, length-atts_of, hash_from-at, found_at,
}

-- The number of an attribute, and the registered attribute that stands there.
abbrev pub IsNumbered : List ProtoAttribute → ProtoAttribute → Type 0
IsNumbered atts p =
    (i : ℕ) × (q : ProtoAttribute) × (hash_proto_attribute atts p.proto_id p.att_id ≡ ok i)
    × (get_elem? atts i ≡ some q)
    × SameIds p q

-- Every attribute has a number, at which an attribute with the same ids stands; and
-- the number of each registered attribute is the index at which it stands.
pub record IsNumbering (rules : List Rule) (atts : List ProtoAttribute) : Type 0 where
  pub few : length atts ≤ max_proto_atts
  pub numbered : All (λ r. All (IsNumbered atts) r.proto_atts) rules
  pub onto :
      (i : ℕ) (q : ProtoAttribute)
      → get_elem? atts i ≡ some q
      → hash_proto_attribute atts q.proto_id q.att_id ≡ ok i

-- The outcome for some rules: a numbering of their attributes, or a halt since there are too many.
abbrev pub Numbers : List Rule → Run (List ProtoAttribute) → Type 0
Numbers rules (ok atts) = IsNumbering rules atts
Numbers rules (fault halted) = max_proto_atts < (collect_rules rules map_init).size
Numbers rules (fault wild) = Never
Numbers rules (fault out_of_fuel) = Never

replicate-append {ℓ} :
    {A : Type ℓ} (n k : ℕ) (a : A) → n ≤ k → replicate k a ≡ replicate n a ++ replicate (k - n) a
replicate-append zero k a h = ap (λ (i : ℕ). replicate i a) (omega arith)
replicate-append (suc n) zero a h = absurd (omega arith)
replicate-append (suc n) (suc k) a h =
    ap (λ l. a ∷ l)
      (replicate-append n k a (omega arith)
        ∙ ap (λ (i : ℕ). replicate n a ++ replicate i a) (omega arith))

number_one :
    (m : Map ℕ ProtoAttribute) (p : ProtoAttribute)
    → IsCollected m
    → length (entries m.root) ≤ 64
    → IsInRange p
    → Has m p
    → IsNumbered (atts_of (entries m.root)) p
unfolding hash_proto_attribute get_data
number_one m p c few r had =
    let es = entries m.root in
    let o = compare_uint64_t-IsOrder in
    let lookup = get_node_lem compare_uint64_t o (code p) m.root c.map.ordered in
    let (i, q, e, same) = found_at es p r c.keyed (λ n. had (lookup ∙ n)) in
    let at : hash_from (atts_of es) q.proto_id q.att_id 0 ≡ ok i =
      hash_from-at es 0 i q c.keyed c.map.ordered (omega (arith, few)) e ∙ ap ok (omega arith) in
    (i, q, (λ k. hash_from (atts_of es) (same.0 k) (same.1 k) 0) ∙ at, e, same)

-- The registered attributes are those of the map.
atts_lem :
    (m : Map ℕ ProtoAttribute)
    → IsCollected m
    → length (entries m.root) ≤ 64
    → (map_iterate to_proto_atts m (ok (replicate max_proto_atts none)) >>= first_atts m.size)
      ≡ ok (atts_of (entries m.root))
unfolding map_iterate to_proto_atts
atts_lem m c few =
    let es = entries m.root in
    let n = length es in
    let tail = replicate {A = Option ProtoAttribute} (64 - n) none in
    let all : (node_iterate to_update m.size m.root
          (ok (replicate {A = Option ProtoAttribute} max_proto_atts none), 0)).0
        ≡ ok (data_of es ++ tail) =
      rw (replicate-append {A = Option ProtoAttribute} n 64 none few) (
        ap (λ r. r.0)
          (node_iterate_lem to_update m.size m.root
            (ok (replicate {A = Option ProtoAttribute} n none ++ tail), 0))
        ∙ visit_to_update m.size es [] tail) in
    rw (all, c.map.counted) (first_atts-atts_of es tail c.keyed)

init-IsCollected : IsCollected map_init
unfolding map_init
init-IsCollected = record {
  map = map_init-IsMap compare_uint64_t compare_uint64_t-IsOrder;
  keyed = tt;
}

module _ (m : Map ℕ ProtoAttribute) (c : IsCollected m) (few : length (entries m.root) ≤ 64) where
  number_atts :
      (ps : List ProtoAttribute)
      → All IsInRange ps
      → All (Has m) ps
      → All (IsNumbered (atts_of (entries m.root))) ps
  number_atts [] h k = tt
  number_atts (p ∷ ps) h k = (number_one m p c few h.0 k.0, number_atts ps h.1 k.1)

  number_rules :
      (rs : List Rule)
      → All AttsInRange rs
      → All (λ r. All (Has m) r.proto_atts) rs
      → All (λ r. All (IsNumbered (atts_of (entries m.root))) r.proto_atts) rs
  number_rules [] h k = tt
  number_rules (r ∷ rs) h k = (number_atts r.proto_atts h.0 k.0, number_rules rs h.1 k.1)

  atts_of-IsNumbering :
      (rs : List Rule)
      → All AttsInRange rs
      → All (λ r. All (Has m) r.proto_atts) rs
      → IsNumbering rs (atts_of (entries m.root))
  unfolding hash_proto_attribute
  atts_of-IsNumbering rs h k = record {
    few = omega (arith, length-atts_of (entries m.root) c.keyed, few);
    numbered = number_rules rs h k;
    onto = λ i q e.
        hash_from-at (entries m.root) 0 i q c.keyed c.map.ordered (omega (arith, few)) e
        ∙ ap ok (omega arith);
  }

-- For rules whose attributes have ids of 32 bits, either all their attributes are registered, or the
-- library halts, since the rules have more than 64 different attributes. In the first case at most 64
-- are registered, each attribute of each rule has a number, at which an attribute with the same ids
-- stands, and the number of the attribute at an index is that index: the numbers are a minimal
-- perfect hash of the attributes.
pub get_unique_proto_atts-Numbers :
    (rules : List Rule) → All AttsInRange rules → Numbers rules (get_unique_proto_atts rules)
unfolding get_unique_proto_atts
get_unique_proto_atts-Numbers rules h =
    let m = collect_rules rules map_init in
    let (c, all, _) = collect_rules_lem rules map_init h init-IsCollected in
    elim (Bool-cases (ltb max_proto_atts m.size)) [
      | inl q ↦ rw q (ltb→lt max_proto_atts m.size q)
      | inr q ↦
          let few : length (entries m.root) ≤ 64 = ground (arith, c.map.counted) in
          rw (q, atts_lem m c few) (atts_of-IsNumbering m c few rules h all)
    ]
