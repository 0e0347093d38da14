-- ===== src/Map/Lookup.antt =====
-- What is found after an insertion (`mmt_map_set_data`, `mmt_map_get_data`).
use Prim.Native.Nat.{Ordering}
use mmt_security.Prelude.{◌≡◌, refl, Option, none, some, Bool, if◌then◌else◌, arith, ◌≢◌}
use mmt_security.Map.{Comparison, Tree, leaf, node, Map, set_node, set_data, get_node, get_data}
use mmt_security.Map.Order.{IsOrder}

-- What a key is mapped to, once data was set for it.
abbrev pub stored {ℓ} : {V : Type ℓ} → Option V → V → Bool → Option V
stored none d overrides = some d
stored (some old) d overrides = if overrides then some d else some old

-- What setting returns.
abbrev pub returned {ℓ} : {V : Type ℓ} → Option V → V → Bool → Option V
returned none d overrides = none
returned (some old) d overrides = if overrides then some old else some d

-- No data is null.
abbrev pub HasData {ℓ κ} : {K : Type ℓ} {V : Type κ} → Tree K V → Type κ
HasData leaf = Unit
HasData (node l k d r) = HasData l × (d ≢ none) × HasData r

module _ {ℓ κ} {K : Type ℓ} {V : Type κ} (compare : Comparison K) (o : IsOrder compare) where
  get_node-set_node :
      (t : Tree K V) (key j : K) (v : V) (overrides : Bool)
      → HasData t
      → get_node compare (set_node compare t key (some v) overrides).1 j ≡ elim (compare j key) [
        | Ordering.eq ↦ stored (get_node compare t key) v overrides
        | _ ↦ get_node compare t j
      ]
  unfolding get_node set_node
  get_node-set_node leaf key j v overrides h = ground arith
  get_node-set_node (node l k d r) key j v overrides h = ground (
    arith,
    get_node-set_node l key j v overrides,
    get_node-set_node r key j v overrides,
    o.respects j key k,
    o.respects j k key,
    o.eq_of_eq key k,
  )

  set_node-returned :
      (t : Tree K V) (key : K) (v : V) (overrides : Bool)
      → HasData t
      → (set_node compare t key (some v) overrides).0
        ≡ returned (get_node compare t key) v overrides
  unfolding get_node set_node
  set_node-returned leaf key v overrides h = refl
  set_node-returned (node l k d r) key v overrides h =
      ground (arith, set_node-returned l key v overrides, set_node-returned r key v overrides)

  -- For a map that holds no null, after data was set for a key: a key that compares as equal to it
  -- has this data if it had none or if overriding is asked for, and else the data that it had; every
  -- other key has what it had. Setting returns null if there was no data, the old data if it is
  -- overridden, and else the data that was given.
  pub get_data-set_data :
      (m : Map K V) (key j : K) (v : V) (overrides : Bool)
      → HasData m.root
      → (get_data compare (set_data compare m key (some v) overrides).1 j ≡ elim (compare j key) [
        | Ordering.eq ↦ stored (get_data compare m key) v overrides
        | _ ↦ get_data compare m j
      ])
        × ((set_data compare m key (some v) overrides).0
            ≡ returned (get_data compare m key) v overrides)
  unfolding get_data set_data
  get_data-set_data m key j v overrides h =
      (get_node-set_node m.root key j v overrides h, set_node-returned m.root key v overrides h)
