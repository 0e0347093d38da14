-- ===== src/Map/Clones.antt =====
-- Copies of a map (`mmt_map_clone`, `mmt_map_clone_key_and_data`).
use mmt_security.Prelude.{
  append_one, ℕ, ◌+◌, ◌≡◌, refl, ap, ◌∙◌, sym, ◌≢◌, Option, none, some, List, [], ◌∷◌, ◌++◌, false,
  length,
}
use mmt_security.Map.{
  Comparison, Tree, leaf, node, Map, map_init, map_clone, to_clone, map_iterate, set_data, get_data,
}
use mmt_security.Map.Order.{IsOrder}
use mmt_security.Map.Lookup.{HasData}
use mmt_security.Map.Listing.{
  entries, put_entry, IsAscending, IsAscending-append, KeysBelow, IsMap, set_data-IsMap,
  map_init-IsMap,
}
use mmt_security.Map.Indices.{visit_entries, node_iterate_lem}
use mmt_security.Map.Places.{find_entry, get_node_lem}
use mathlib.Core.List.{append-nil}

-- The keys are those of the map's entries, and no data is null.
abbrev Filled {ℓ κ} : {K : Type ℓ} {V : Type κ} → List (K × Option V) → Type κ
Filled [] = Unit
Filled (e ∷ es) = (e.1 ≢ none) × Filled es

Filled-append {ℓ κ} :
    {K : Type ℓ} {V : Type κ} (xs ys : List (K × Option V))
    → Filled xs
    → Filled ys
    → Filled (xs ++ ys)
Filled-append [] ys h k = k
Filled-append (x ∷ xs) ys h k = (h.0, Filled-append xs ys h.1 k)

HasData-Filled {ℓ κ} : {K : Type ℓ} {V : Type κ} (t : Tree K V) → HasData t → Filled (entries t)
HasData-Filled leaf h = tt
HasData-Filled (node l k d r) h =
    Filled-append (entries l) ((k, d) ∷ entries r) (HasData-Filled l h.0)
      (h.1, HasData-Filled r h.2)

module _ {ℓ κ} {K : Type ℓ} {V : Type κ} (compare : Comparison K) (o : IsOrder compare) where
  put_entry_last :
      (xs : List (K × Option V)) (key : K) (v : V)
      → KeysBelow compare key xs
      → put_entry compare key v false xs ≡ xs ++ (key, some v) ∷ []
  unfolding put_entry
  put_entry_last [] key v h = refl
  put_entry_last (x ∷ xs) key v h =
      rw (o.gt_of_lt x.0 key h.0, put_entry) (ap (λ l. x ∷ l) (put_entry_last xs key v h.1))

  -- The visits put the entries behind those that the new map has.
  visit_to_clone :
      (total : ℕ) (es : List (K × Option V)) (m : Map K V) (i : ℕ)
      → IsMap compare m
      → Filled es
      → IsAscending compare (entries m.root ++ es)
      → let m' = (visit_entries (to_clone compare) total es (m, i)).0 in
        IsMap compare m' × (entries m'.root ≡ entries m.root ++ es)
  unfolding visit_entries to_clone
  visit_to_clone total [] m i h f a = (h, simp (append-nil))
  visit_to_clone total ((k, none) ∷ es) m i h f a = absurd (f.0 refl)
  visit_to_clone total ((k, some v) ∷ es) m i h f a =
      let xs = entries m.root in
      let e : K × Option V = (k, some v) in
      let (_, below, _, _) = IsAscending-append compare xs e es a in
      let (h', put) = set_data-IsMap compare o m k v false h in
      let same : entries (set_data compare m k (some v) false).1.root ++ es ≡ xs ++ e ∷ es =
        ap (λ l. l ++ es) (put ∙ put_entry_last xs k v below) ∙ append_one xs es e in
      let (good, all) =
        visit_to_clone total es (set_data compare m k (some v) false).1 (i + 1) h' f.1
          (rw same a) in
      (good, all ∙ same)

  -- A copy of a map whose keys are pairwise different and in their order, whose size is the number of
  -- its entries and which holds no null, has the same size, and finds the same data for every key.
  pub get_data-map_clone :
      (m : Map K V) (key : K)
      → IsMap compare m
      → (get_data compare (map_clone compare m) key ≡ get_data compare m key)
        × ((map_clone compare m).size ≡ m.size)
  unfolding map_clone map_iterate map_init get_data
  get_data-map_clone m key h =
      let (good, all) =
        visit_to_clone m.size (entries m.root) map_init 0 (map_init-IsMap compare o)
          (HasData-Filled m.root h.filled) h.ordered in
      let copy =
        visit_entries (to_clone compare) m.size (entries m.root) (map_init {K = K} {V = V}, 0) in
      let same : map_clone compare m ≡ copy.0 =
        ap (λ r. r.0)
          (node_iterate_lem (to_clone compare) m.size m.root (map_init {K = K} {V = V}, 0)) in
      (
        ap (λ r. get_data compare r key) same
            ∙ get_node_lem compare o key copy.0.root good.ordered
            ∙ ap (find_entry compare key) all
            ∙ sym (get_node_lem compare o key m.root h.ordered),
        ap (λ r. r.size) same ∙ good.counted ∙ ap length all ∙ sym h.counted,
      )
