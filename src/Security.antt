-- ===== src/Security.antt =====
-- The rules and the attributes that are registered in the library, and its entry points
-- (src/lib/mmt_security.c).
pub mod Filtering
pub mod Collecting
pub mod Positions
pub mod Numbering
use mmt_security.Prelude.{
  ℕ, zero, suc, ◌+◌, ◌-◌, ◌==◌, Option, none, some, List, [], ◌∷◌, Bool, true, false, if◌then◌else◌,
  ltb, length, get_elem?, set, replicate, Run, ok, fault, wild, halted, ◌>>=◌, present,
}
use mmt_security.Rule.{Rule, ProtoAttribute}
use mmt_security.Map.{Map, Visit, map_init, set_data, map_iterate, to_update}
use mmt_security.Map.Order.{compare_uint64_t}
use mmt_security.Utils.Codes.{simple_hash_64}
use mmt_security.Utils.Masks.{Text, expand_number_range, numbers_of}

-- The loop from the last rule on that looks for one with this id.
unfoldable pub last_index : ℕ → List Rule → Option ℕ
last_index id [] = none
last_index id (r ∷ rs) = elim (last_index id rs) [
  | some k ↦ some (suc k)
  | none ↦ if id == r.id then some 0 else none
]

-- `rules_count --`
unfoldable pub all_but_last : List Rule → List Rule
all_but_last [] = []
all_but_last (r ∷ []) = []
all_but_last (r ∷ s ∷ rs) = r ∷ all_but_last (s ∷ rs)

-- The last rule takes the place of the one at index `k`.
unfoldable pub move_last : Option ℕ → List Rule → List Rule
unfolding all_but_last
move_last none rules = rules
move_last (some k) rules = elim (get_elem? rules (length rules - 1)) [
  | none ↦ rules
  | some r ↦ all_but_last (set rules k r)
]

unfoldable pub ignore_rule : ℕ → List Rule → List Rule
ignore_rule id rules = move_last (last_index id rules) rules

-- The loop over the ids, from the last one on.
unfoldable pub ignore_rules : List ℕ → List Rule → List Rule
ignore_rules [] rules = rules
ignore_rules (id ∷ ids) rules = ignore_rule id (ignore_rules ids rules)

-- `_filter_rules`; the empty text stands for the null pointer too.
unfoldable pub filter_rules : Text → List Rule → Run (List Rule)
filter_rules [] rules = ok rules
filter_rules (c ∷ cs) rules = do
  ids ← expand_number_range (c ∷ cs)
  ok (ignore_rules (numbers_of ids) rules)

-- The loops of `_get_unique_proto_attts`: the attributes of one rule, and those of all rules.
unfoldable pub collect_atts : List ProtoAttribute → Map ℕ ProtoAttribute → Map ℕ ProtoAttribute
collect_atts [] m = m
collect_atts (p ∷ ps) m =
    collect_atts ps
      (set_data compare_uint64_t m (simple_hash_64 p.proto_id p.att_id) (some p) false).1

unfoldable pub collect_rules : List Rule → Map ℕ ProtoAttribute → Map ℕ ProtoAttribute
collect_rules [] m = m
collect_rules (r ∷ rs) m = collect_rules rs (collect_atts r.proto_atts m)

-- `MAX_PROTO_ATTS_COUNT`
abbrev pub max_proto_atts : ℕ
max_proto_atts = 64

-- `_iterate_proto_atts` writes to the static array as `_iterate_to_update_array` writes to its own.
unfoldable pub to_proto_atts : Visit ℕ ProtoAttribute (Run (List (Option ProtoAttribute)))
to_proto_atts = to_update

-- The first `n` attributes of the static array.
unfoldable pub first_atts : ℕ → List (Option ProtoAttribute) → Run (List ProtoAttribute)
first_atts zero xs = ok []
first_atts (suc n) [] = fault wild
first_atts (suc n) (x ∷ xs) = do p ← present x; ps ← first_atts n xs; ok (p ∷ ps)

-- `_get_unique_proto_attts`: the registered attributes. `mmt_sec_init` calls it once, so that the
-- static array is zero before.
unfoldable pub get_unique_proto_atts : List Rule → Run (List ProtoAttribute)
get_unique_proto_atts rules =
    let m = collect_rules rules map_init in
    if ltb max_proto_atts m.size then fault halted else do
      atts ← map_iterate to_proto_atts m (ok (replicate max_proto_atts none))
      first_atts m.size atts

-- What `mmt_sec_init` leaves: `rules` and `proto_atts`.
pub record Registry : Type 0 where
  pub rules : List Rule
  pub proto_atts : List ProtoAttribute

-- `mmt_sec_init`; `loaded` are the rules of the plugins. The numbers of the attributes are also handed
-- to the generated code of the rules, which then hashes by them. `none` is the return of 1.
unfoldable pub sec_init : List Rule → Text → Run (Option Registry)
sec_init loaded excluded = do
  rules ← filter_rules excluded loaded
  if length rules == 0 then ok none else do
    atts ← get_unique_proto_atts rules
    ok (some (record { rules = rules; proto_atts = atts }))
