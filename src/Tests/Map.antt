-- ===== src/Tests/Map.antt =====
-- A map of three keys, and the theorems about maps at it.
use mmt_security.Prelude.{ℕ, ◌≡◌, refl, none, some, [], ◌∷◌, true, false, length, ok, Ensures}
use mmt_security.Map.{
  Map, map_init, set_node, set_data, get_data, get_index, convert_to_array, map_clone, node_iterate,
  map_iterate, to_update,
}
use mmt_security.Map.Order.{compare_uint64_t, compare_uint64_t-IsOrder}
use mmt_security.Map.Lookup.{stored, returned, get_data-set_data}
use mmt_security.Map.Listing.{IsMap, entries, put_entry, map_init-IsMap, set_data-IsMap}
use mmt_security.Map.Places.{IsPlace, get_index-convert_to_array}
use mmt_security.Map.Clones.{get_data-map_clone}

abbrev one_key : Map ℕ ℕ
one_key = (set_data compare_uint64_t map_init 5 (some 50) false).1

abbrev two_keys : Map ℕ ℕ
two_keys = (set_data compare_uint64_t one_key 3 (some 30) false).1

abbrev three_keys : Map ℕ ℕ
three_keys = (set_data compare_uint64_t two_keys 8 (some 80) false).1

three_keys-IsMap : IsMap compare_uint64_t three_keys
three_keys-IsMap =
    let o = compare_uint64_t-IsOrder in
    let one =
      (set_data-IsMap compare_uint64_t o map_init 5 50 false
        (map_init-IsMap compare_uint64_t o)).0 in
    let two = (set_data-IsMap compare_uint64_t o one_key 3 30 false one).0 in
    (set_data-IsMap compare_uint64_t o two_keys 8 80 false two).0

in_order : convert_to_array three_keys ≡ ok (some 30 ∷ some 50 ∷ some 80 ∷ [])
unfolding convert_to_array map_iterate node_iterate to_update set_data set_node map_init
    compare_uint64_t
in_order = refl

-- Keys are counted also if their data is null, and then again when they are set again.
counted_twice :
    (set_data {V = ℕ} compare_uint64_t
      (set_data {V = ℕ} compare_uint64_t map_init 5 none true).1
      5
      none
      true).1.size
    ≡ 2
unfolding set_data set_node map_init compare_uint64_t
counted_twice = refl

get_data-set_data_example :
    (get_data compare_uint64_t (set_data compare_uint64_t three_keys 3 (some 31) true).1 3
      ≡ stored (get_data compare_uint64_t three_keys 3) 31 true)
    × ((set_data compare_uint64_t three_keys 3 (some 31) true).0
        ≡ returned (get_data compare_uint64_t three_keys 3) 31 true)
unfolding compare_uint64_t
get_data-set_data_example =
    get_data-set_data compare_uint64_t compare_uint64_t-IsOrder three_keys 3 3 31 true
      three_keys-IsMap.filled

set_data-IsMap_example :
    IsMap compare_uint64_t (set_data compare_uint64_t three_keys 4 (some 40) false).1
    × (entries (set_data compare_uint64_t three_keys 4 (some 40) false).1.root
        ≡ put_entry compare_uint64_t 4 40 false (entries three_keys.root))
set_data-IsMap_example =
    set_data-IsMap compare_uint64_t compare_uint64_t-IsOrder three_keys 4 40 false three_keys-IsMap

get_index-convert_to_array_example : Ensures (convert_to_array three_keys) λ array.
    (length array ≡ three_keys.size)
    × IsPlace array 0
        (get_index compare_uint64_t three_keys 8)
        (get_data compare_uint64_t three_keys 8)
get_index-convert_to_array_example =
    get_index-convert_to_array compare_uint64_t compare_uint64_t-IsOrder three_keys 8
      three_keys-IsMap

get_data-map_clone_example :
    (get_data compare_uint64_t (map_clone compare_uint64_t three_keys) 5
      ≡ get_data compare_uint64_t three_keys 5)
    × ((map_clone compare_uint64_t three_keys).size ≡ three_keys.size)
get_data-map_clone_example =
    get_data-map_clone compare_uint64_t compare_uint64_t-IsOrder three_keys 5 three_keys-IsMap
