-- ===== src/Map/Places.antt =====
-- Where a key stands among the entries (`mmt_map_get_index`, `mmt_map_get_data`).
use Prim.Native.Nat.{Ordering}
use mmt_security.Prelude.{
  ℕ, suc, ◌+◌, ◌-◌, ◌≤◌, ◌≡◌, refl, ap, Option, none, some, List, [], ◌∷◌, ◌++◌, arith, length,
  get_elem?, replicate, ◌⊎◌, inl, inr, ok, Ensures,
}
use mathlib.Core.List.{append-nil}
use mmt_security.Map.{
  Comparison, Tree, leaf, node, Map, map_iterate, to_compare, get_index, convert_to_array, get_node,
  get_data, to_update, node_iterate,
}
use mmt_security.Map.Order.{IsOrder}
use mmt_security.Map.Listing.{
  entries, IsAscending, KeysAbove, KeysBelow, IsAscending-append, IsMap, KeysBelow-trans,
  KeysBelow-same, KeysAbove-trans, KeysAbove-same,
}
use mmt_security.Map.Indices.{visit_entries, node_iterate_lem, data_of, visit_to_update}

-- The data of the first entry with the key, and its index counted from `i` on.
unfoldable pub find_entry {ℓ κ} :
    {K : Type ℓ} {V : Type κ} → Comparison K → K → List (K × Option V) → Option V
find_entry compare key [] = none
find_entry compare key ((k, d) ∷ es) = elim (compare key k) [
  | Ordering.eq ↦ d
  | _ ↦ find_entry compare key es
]

index_from {ℓ κ} : {K : Type ℓ} {V : Type κ} → Comparison K → K → ℕ → List (K × Option V) → Option ℕ
index_from compare key i [] = none
index_from compare key i ((k, d) ∷ es) = elim (compare key k) [
  | Ordering.eq ↦ some i
  | _ ↦ index_from compare key (i + 1) es
]

module _ {ℓ κ} {K : Type ℓ} {V : Type κ} (compare : Comparison K) (o : IsOrder compare)
    (key : K) where
  find_entry_behind :
      (xs ys : List (K × Option V))
      → KeysBelow compare key xs
      → find_entry compare key (xs ++ ys) ≡ find_entry compare key ys
  unfolding find_entry
  find_entry_behind [] ys h = refl
  find_entry_behind (x ∷ xs) ys h = ground (arith, find_entry_behind xs ys, o.gt_of_lt x.0 key)

  find_entry_above :
      (xs : List (K × Option V)) → KeysAbove compare key xs → find_entry compare key xs ≡ none
  unfolding find_entry
  find_entry_above [] h = refl
  find_entry_above (x ∷ xs) h = ground (arith, find_entry_above xs)

  find_entry_before :
      (xs : List (K × Option V)) (e : K × Option V) (ys : List (K × Option V))
      → compare key e.0 ≡ Ordering.lt
      → KeysAbove compare e.0 ys
      → find_entry compare key (xs ++ e ∷ ys) ≡ find_entry compare key xs
  unfolding find_entry
  find_entry_before [] e ys h k =
      rw (h, find_entry) (find_entry_above ys (KeysAbove-trans compare o key e.0 ys h k))
  find_entry_before (x ∷ xs) e ys h k = ground (arith, find_entry_before xs e ys)

  pub get_node_lem :
      (t : Tree K V)
      → IsAscending compare (entries t)
      → get_node compare t key ≡ find_entry compare key (entries t)
  unfolding get_node find_entry
  get_node_lem leaf h = refl
  get_node_lem (node l k d r) h =
      let (al, bl, ar, dr) = IsAscending-append compare (entries l) (k, d) (entries r) h in
      ground (
        arith,
        get_node_lem l al,
        get_node_lem r dr,
        find_entry_before (entries l) (k, d) (entries r),
        find_entry_behind (entries l) ((k, d) ∷ entries r),
        KeysBelow-same compare o key k (entries l),
        KeysBelow-trans compare o key k (entries l),
        bl,
        ar,
      )

  -- Behind the key, no visit changes what was found.
  visit_above :
      (total : ℕ) (es : List (K × Option V)) (found : Option ℕ) (i : ℕ)
      → KeysAbove compare key es
      → (visit_entries (to_compare compare key) total es (found, i)).0 ≡ found
  unfolding visit_entries to_compare
  visit_above total [] found i h = refl
  visit_above total ((k, d) ∷ es) found i h =
      ground (arith, visit_above total es found (i + 1), o.gt_of_lt key k)

  visit_to_compare :
      (total : ℕ) (es : List (K × Option V)) (i : ℕ)
      → IsAscending compare es
      → (visit_entries (to_compare compare key) total es (none, i)).0 ≡ index_from compare key i es
  unfolding visit_entries to_compare index_from
  visit_to_compare total [] i h = refl
  visit_to_compare total ((k, d) ∷ es) i h = ground (
    arith,
    visit_to_compare total es (i + 1),
    visit_above total es (some i) (i + 1),
    KeysAbove-same compare o key k es,
    o.eq_of_eq key k,
    o.eq_of_eq k key,
  )

pub order-cases : (c : Ordering) → (c ≡ Ordering.eq) ⊎ (c ≡ Ordering.lt) ⊎ (c ≡ Ordering.gt)
order-cases c = ground arith

sub_self : (n : ℕ) → n - n ≡ 0
sub_self n = omega arith

length-data_of {ℓ κ} :
    {K : Type ℓ} {V : Type κ} (es : List (K × Option V)) → length (data_of es) ≡ length es
length-data_of [] = refl
length-data_of (e ∷ es) = ap suc (length-data_of es)

-- The index at which an array holds the data of a key; with no index there is no data.
abbrev pub IsPlace {ℓ} : {V : Type ℓ} → List (Option V) → ℕ → Option ℕ → Option V → Type ℓ
IsPlace array i none d = d ≡ none
IsPlace array i (some j) d = (i ≤ j) × (get_elem? array (j - i) ≡ some d)

IsPlace-suc {ℓ} :
    {V : Type ℓ} (x : Option V) (array : List (Option V)) (i : ℕ) (j : Option ℕ) (d : Option V)
    → IsPlace array (i + 1) j d
    → IsPlace (x ∷ array) i j d
IsPlace-suc x array i none d h = h
IsPlace-suc x array i (some j) d h =
    let e : j - i ≡ suc (j - (i + 1)) = omega (arith, h.0) in (omega (arith, h.0), rw e h.1)

module _ {ℓ κ} {K : Type ℓ} {V : Type κ} (compare : Comparison K) (o : IsOrder compare) where
  index_from-IsPlace :
      (key : K) (es : List (K × Option V)) (i : ℕ)
      → IsPlace (data_of es) i (index_from compare key i es) (find_entry compare key es)
  unfolding find_entry index_from
  index_from-IsPlace key [] i = refl
  index_from-IsPlace key ((k, d) ∷ es) i =
      let rest = index_from-IsPlace key es (i + 1) in
      elim (order-cases (compare key k)) [
        | inl e ↦ rw (e, index_from, find_entry) (omega arith, rw (sub_self i) refl)
        | inr (inl e) ↦ rw (e, index_from, find_entry) (IsPlace-suc d (data_of es) i _ _ rest)
        | inr (inr e) ↦ rw (e, index_from, find_entry) (IsPlace-suc d (data_of es) i _ _ rest)
      ]

  -- For a map of pairwise different keys in their order, whose size is the number of its entries and
  -- which holds no null: the conversion to an array returns one with as many elements as the map
  -- has, and the index of a key is that of its data in this array; if there is none, then the map has
  -- no data for the key.
  pub get_index-convert_to_array :
      (m : Map K V) (key : K)
      → IsMap compare m
      → Ensures (convert_to_array m) λ array.
        (length array ≡ m.size) × IsPlace array 0 (get_index compare m key) (get_data compare m key)
  unfolding convert_to_array get_index get_data map_iterate
  get_index-convert_to_array m key h =
      let array : (node_iterate to_update m.size m.root
            (ok (replicate {A = Option V} m.size none), 0)).0
          ≡ ok (data_of (entries m.root)) =
        let n = length (entries m.root) in
        let all = visit_to_update n (entries m.root) [] [] in
        rw (h.counted, node_iterate_lem (to_update {V = V}) n m.root) (simp (append-nil) at all) in
      let index : (node_iterate (to_compare compare key) m.size m.root (none, 0)).0
          ≡ index_from compare key 0 (entries m.root) =
        rw (node_iterate_lem (to_compare {V = V} compare key) m.size m.root)
          (visit_to_compare compare o key m.size (entries m.root) 0 h.ordered) in
      rw (array, index, get_node_lem compare o key m.root h.ordered, h.counted)
        (length-data_of (entries m.root), index_from-IsPlace key (entries m.root) 0)
