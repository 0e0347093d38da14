-- ===== src/Tests/Security.antt =====
-- Rules that are registered, and the theorems about the library at them.
use mmt_security.Prelude.{
  ℕ, zero, suc, ◌+◌, ◌*◌, ap, sym, ◌≡◌, refl, some, List, [], ◌∷◌, arith, ok, Ensures, All,
  get_elem?, ◌≢◌,
}
use mmt_security.Rule.{Rule}
use mmt_security.Utils.Masks.Grammar.{all_numbers, write}
use mmt_security.Security.{
  filter_rules, get_unique_proto_atts, collect_rules, collect_atts, first_atts, to_proto_atts,
}
use mmt_security.Map.{map_init, set_data, set_node, map_iterate, node_iterate, to_update}
use mmt_security.Map.Order.{compare_uint64_t}
use mmt_security.Utils.Codes.{simple_hash_64}
use mmt_security.Security.Filtering.{Ignores, DistinctIds, filter_rules-write}
use mmt_security.Security.Collecting.{AttsInRange}
use mmt_security.Security.Numbering.{Numbers, get_unique_proto_atts-Numbers}
use mmt_security.Tests.Engine.{rule}
use mmt_security.Tests.Masks.{parts, parts-IsPart, parts-Distinct, few_parts}

-- Two rules with the ids 3 and 5.
abbrev pub two_rules : List Rule
two_rules = record rule { id = 3 } ∷ record rule { id = 5 } ∷ []

same_rule : {r s : Rule} → some r ≡ some s → r ≡ s
same_rule e = cc

id_at : (i : ℕ) (r : Rule) → get_elem? two_rules i ≡ some r → r.id ≡ 3 + 2 * i
id_at zero r e = ap (λ t. t.id) (sym (same_rule e))
id_at (suc zero) r e = ap (λ t. t.id) (sym (same_rule e))
id_at (suc (suc i)) r e = cc

two_rules-DistinctIds : DistinctIds two_rules
two_rules-DistinctIds i j r s p q e = omega (arith, id_at i r p, id_at j s q, e)

filter_rules-write_example :
    Ensures
      (filter_rules (write parts) two_rules)
      (Ignores (λ i. All (λ id. i ≢ id) (all_numbers parts)) two_rules)
filter_rules-write_example =
    filter_rules-write parts two_rules parts-IsPart parts-Distinct few_parts two_rules-DistinctIds

-- The attributes, in the order of their codes.
numbered : get_unique_proto_atts two_rules ≡ ok rule.proto_atts
unfolding get_unique_proto_atts collect_rules collect_atts first_atts to_proto_atts map_init
    set_data set_node map_iterate node_iterate to_update compare_uint64_t simple_hash_64
numbered = refl

in_range : AttsInRange rule
in_range = omega arith

get_unique_proto_atts-Numbers_example : Numbers two_rules (get_unique_proto_atts two_rules)
get_unique_proto_atts-Numbers_example =
    get_unique_proto_atts-Numbers two_rules (in_range, (in_range, tt))
