-- ===== src/Map.antt =====
-- The map on a binary tree (src/lib/mmt_map_t.h, src/lib/mmt_map_t.c).
pub mod Order
pub mod Lookup
pub mod Listing
pub mod Indices
pub mod Places
pub mod Clones
use Prim.Native.Nat.{Ordering}
use mmt_security.Prelude.{
  ℕ, ◌+◌, Option, none, some, List, [], Bool, true, false, if◌then◌else◌, ltb, length, set,
  replicate, Run, ok, fault, wild, ◌>>=◌,
}

-- `_mmt_map_node_t`, the empty tree is the null pointer. Data are pointers, that may be null.
pub data Tree {ℓ κ} (K : Type ℓ) (V : Type κ) : Type (ℓ ⊔ κ) where
  leaf : Tree K V
  node : Tree K V → K → Option V → Tree K V → Tree K V

-- `_mmt_map_t` without its function of comparison, which is an argument of what follows.
pub record Map {ℓ κ} (K : Type ℓ) (V : Type κ) : Type (ℓ ⊔ κ) where
  pub root : Tree K V
  pub size : ℕ

-- The number that is returned is read by its sign only.
abbrev pub Comparison {ℓ} : Type ℓ → Type ℓ
Comparison K = K → K → Ordering

-- `if( ptr == NULL ) _tree->size ++`
abbrev pub counts {ℓ} : {V : Type ℓ} → Option V → ℕ
counts none = 1
counts (some d) = 0

module _ {ℓ κ} {K : Type ℓ} {V : Type κ} where
  -- `mmt_map_init`
  unfoldable pub map_init : Map K V
  map_init = record { root = leaf; size = 0 }

  -- `_mmt_map_set_data`: what it returns, and the tree.
  unfoldable pub set_node : Comparison K → Tree K V → K → Option V → Bool → Option V × Tree K V
  set_node compare leaf key d overrides = (none, node leaf key d leaf)
  set_node compare (node l k old r) key d overrides = elim (compare key k) [
    | Ordering.eq ↦ if overrides then (old, node l k d r) else (d, node l k old r)
    | Ordering.lt ↦ let (ptr, l') = set_node compare l key d overrides in (ptr, node l' k old r)
    | Ordering.gt ↦ let (ptr, r') = set_node compare r key d overrides in (ptr, node l k old r')
  ]

  -- `mmt_map_set_data`
  unfoldable pub set_data : Comparison K → Map K V → K → Option V → Bool → Option V × Map K V
  set_data compare m key d overrides =
      let (ptr, root) = set_node compare m.root key d overrides in
      (ptr, record { root = root; size = m.size + counts ptr })

  -- `_mmt_map_get_data`
  unfoldable pub get_node : Comparison K → Tree K V → K → Option V
  get_node compare leaf key = none
  get_node compare (node l k d r) key = elim (compare key k) [
    | Ordering.eq ↦ d
    | Ordering.lt ↦ get_node compare l key
    | Ordering.gt ↦ get_node compare r key
  ]

  -- `mmt_map_get_data`
  unfoldable pub get_data : Comparison K → Map K V → K → Option V
  get_data compare m key = get_node compare m.root key

-- A function to iterate with: the key, the data, what the user keeps, the index and the total.
abbrev pub Visit {ℓ κ μ} : Type ℓ → Type κ → Type μ → Type (ℓ ⊔ κ ⊔ μ)
Visit K V U = K → Option V → U → ℕ → ℕ → U

module _ {ℓ κ μ} {K : Type ℓ} {V : Type κ} {U : Type μ} where
  -- `_mmt_map_node_iterate`: what the user keeps, and the next index.
  unfoldable pub node_iterate : Visit K V U → ℕ → Tree K V → U × ℕ → U × ℕ
  node_iterate visit total leaf s = s
  node_iterate visit total (node l k d r) s =
      let (u, index) = node_iterate visit total l s in
      node_iterate visit total r (visit k d u index total, index + 1)

  -- `mmt_map_iterate`
  unfoldable pub map_iterate : Visit K V U → Map K V → U → U
  map_iterate visit m u = (node_iterate visit m.size m.root (u, 0)).0

module _ {ℓ κ} {K : Type ℓ} {V : Type κ} where
  -- `_iterate_to_compare`
  unfoldable pub to_compare : Comparison K → K → Visit K V (Option ℕ)
  to_compare compare key k d found index total = elim (compare k key) [
    | Ordering.eq ↦ some index
    | _ ↦ found
  ]

  -- `mmt_map_get_index`: `none` is -1.
  unfoldable pub get_index : Comparison K → Map K V → K → Option ℕ
  get_index compare m key = map_iterate (to_compare compare key) m none

  -- `_iterate_to_clone_map`
  unfoldable pub to_clone : Comparison K → Visit K V (Map K V)
  to_clone compare k d m index total = (set_data compare m k d false).1

  -- `mmt_map_clone`
  unfoldable pub map_clone : Comparison K → Map K V → Map K V
  map_clone compare m = map_iterate (to_clone compare) m map_init

  -- `_iterate_to_update_array`
  unfoldable pub to_update : Visit K V (Run (List (Option V)))
  to_update k d array index total = do
    xs ← array
    if ltb index (length xs) then ok (set xs index d) else fault wild

  -- `mmt_map_convert_to_array`; what the allocation leaves in the array is taken to be null.
  unfoldable pub convert_to_array : Map K V → Run (List (Option V))
  convert_to_array m = map_iterate to_update m (ok (replicate m.size none))

-- `_mmt_map_clone_node_and_data`
unfoldable pub clone_node {ℓ κ} :
    {K : Type ℓ} {V : Type κ} → (K → K) → (Option V → Option V) → Tree K V → Tree K V
clone_node clone_key clone_data leaf = leaf
clone_node clone_key clone_data (node l k d r) =
    node (clone_node clone_key clone_data l) (clone_key k) (clone_data d)
      (clone_node clone_key clone_data r)

-- `mmt_map_clone_key_and_data`
unfoldable pub clone_key_and_data {ℓ κ} :
    {K : Type ℓ} {V : Type κ} → (K → K) → (Option V → Option V) → Map K V → Map K V
clone_key_and_data clone_key clone_data m = record {
  root = clone_node clone_key clone_data m.root;
  size = m.size;
}
