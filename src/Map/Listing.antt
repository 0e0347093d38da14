-- ===== src/Map/Listing.antt =====
-- The map as the list of its entries in the order of the keys (`mmt_map_set_data`).
use Prim.Native.Nat.{Ordering}
use mmt_security.Prelude.{
  ◌+◌, ◌≡◌, refl, ap, Option, some, List, [], ◌∷◌, ◌++◌, Bool, if◌then◌else◌, arith, length,
  length-append,
}
use mmt_security.Map.{Comparison, Tree, leaf, node, Map, set_node, set_data, map_init, counts}
use mmt_security.Map.Order.{IsOrder}
use mmt_security.Map.Lookup.{HasData}

abbrev pub entries {ℓ κ} : {K : Type ℓ} {V : Type κ} → Tree K V → List (K × Option V)
entries leaf = []
entries (node l k d r) = entries l ++ (k, d) ∷ entries r

-- The insertion into a list in the order of the keys.
unfoldable pub put_entry {ℓ κ} :
    {K : Type ℓ} {V : Type κ}
    → Comparison K
    → K
    → V
    → Bool
    → List (K × Option V)
    → List (K × Option V)
put_entry compare key v overrides [] = (key, some v) ∷ []
put_entry compare key v overrides ((k, d) ∷ es) = elim (compare key k) [
  | Ordering.lt ↦ (key, some v) ∷ (k, d) ∷ es
  | Ordering.eq ↦ (k, if overrides then some v else d) ∷ es
  | Ordering.gt ↦ (k, d) ∷ put_entry compare key v overrides es
]

abbrev pub KeysBelow {ℓ κ} :
    {K : Type ℓ} {V : Type κ} → Comparison K → K → List (K × Option V) → Type 0
KeysBelow compare key [] = Unit
KeysBelow compare key (e ∷ es) = (compare e.0 key ≡ Ordering.lt) × KeysBelow compare key es

abbrev pub KeysAbove {ℓ κ} :
    {K : Type ℓ} {V : Type κ} → Comparison K → K → List (K × Option V) → Type 0
KeysAbove compare key [] = Unit
KeysAbove compare key (e ∷ es) = (compare key e.0 ≡ Ordering.lt) × KeysAbove compare key es

-- The keys ascend.
abbrev pub IsAscending {ℓ κ} :
    {K : Type ℓ} {V : Type κ} → Comparison K → List (K × Option V) → Type 0
IsAscending compare [] = Unit
IsAscending compare (e ∷ es) = KeysAbove compare e.0 es × IsAscending compare es

module _ {ℓ κ} {K : Type ℓ} {V : Type κ} (compare : Comparison K) where
  pub KeysAbove-append :
      (key : K) (xs ys : List (K × Option V))
      → KeysAbove compare key (xs ++ ys)
      → KeysAbove compare key xs × KeysAbove compare key ys
  KeysAbove-append key [] ys h = (tt, h)
  KeysAbove-append key (x ∷ xs) ys h = let (a, b) = KeysAbove-append key xs ys h.1 in ((h.0, a), b)

  -- Around an entry of an ascending list.
  pub IsAscending-append :
      (xs : List (K × Option V)) (e : K × Option V) (ys : List (K × Option V))
      → IsAscending compare (xs ++ e ∷ ys)
      → IsAscending compare xs
        × KeysBelow compare e.0 xs
        × KeysAbove compare e.0 ys
        × IsAscending compare ys
  IsAscending-append [] e ys h = (tt, tt, h.0, h.1)
  IsAscending-append (x ∷ xs) e ys h =
      let (a, b, c, d) = IsAscending-append xs e ys h.1 in
      let (f, g) = KeysAbove-append x.0 xs (e ∷ ys) h.0 in ((f, a), (g.0, b), c, d)

-- The keys below and above a key, seen from another one.
module _ {ℓ κ} {K : Type ℓ} {V : Type κ} (compare : Comparison K) (o : IsOrder compare)
    (key : K) where
  pub KeysBelow-trans :
      (k : K) (xs : List (K × Option V))
      → compare key k ≡ Ordering.gt
      → KeysBelow compare k xs
      → KeysBelow compare key xs
  KeysBelow-trans k [] e h = tt
  KeysBelow-trans k (x ∷ xs) e h =
      (o.trans x.0 k key h.0 (o.lt_of_gt key k e), KeysBelow-trans k xs e h.1)

  pub KeysBelow-same :
      (k : K) (xs : List (K × Option V))
      → compare key k ≡ Ordering.eq
      → KeysBelow compare k xs
      → KeysBelow compare key xs
  KeysBelow-same k [] e h = tt
  KeysBelow-same k (x ∷ xs) e h = (
    ground (arith, o.gt_of_lt x.0 k, o.respects key k x.0, o.lt_of_gt key x.0),
    KeysBelow-same k xs e h.1,
  )

  pub KeysAbove-trans :
      (k : K) (xs : List (K × Option V))
      → compare key k ≡ Ordering.lt
      → KeysAbove compare k xs
      → KeysAbove compare key xs
  KeysAbove-trans k [] e h = tt
  KeysAbove-trans k (x ∷ xs) e h = (o.trans key k x.0 e h.0, KeysAbove-trans k xs e h.1)

  pub KeysAbove-same :
      (k : K) (xs : List (K × Option V))
      → compare key k ≡ Ordering.eq
      → KeysAbove compare k xs
      → KeysAbove compare key xs
  KeysAbove-same k [] e h = tt
  KeysAbove-same k (x ∷ xs) e h = (ground (arith, o.respects key k x.0), KeysAbove-same k xs e h.1)

module _ {ℓ κ} {K : Type ℓ} {V : Type κ} (compare : Comparison K) (o : IsOrder compare) (key : K)
    (v : V) (overrides : Bool) where
  -- The key belongs before an entry, or behind it.
  put_entry_before :
      (xs : List (K × Option V)) (e : K × Option V) (ys : List (K × Option V))
      → compare key e.0 ≡ Ordering.lt
      → put_entry compare key v overrides (xs ++ e ∷ ys)
        ≡ put_entry compare key v overrides xs ++ e ∷ ys
  unfolding put_entry
  put_entry_before [] e ys h = rw (h, put_entry)
  put_entry_before (x ∷ xs) e ys h = ground (arith, put_entry_before xs e ys)

  pub put_entry_behind :
      (xs ys : List (K × Option V))
      → KeysBelow compare key xs
      → put_entry compare key v overrides (xs ++ ys) ≡ xs ++ put_entry compare key v overrides ys
  unfolding put_entry
  put_entry_behind [] ys h = refl
  put_entry_behind (x ∷ xs) ys h =
      rw (o.gt_of_lt x.0 key h.0, put_entry) (ap (λ l. x ∷ l) (put_entry_behind xs ys h.1))

  pub entries-set_node :
      (t : Tree K V)
      → IsAscending compare (entries t)
      → entries (set_node compare t key (some v) overrides).1
        ≡ put_entry compare key v overrides (entries t)
  unfolding set_node put_entry
  entries-set_node leaf h = refl
  entries-set_node (node l k d r) h =
      let (al, bl, ar, dr) = IsAscending-append compare (entries l) (k, d) (entries r) h in
      ground (
        arith,
        entries-set_node l al,
        entries-set_node r dr,
        put_entry_before (entries l) (k, d) (entries r),
        put_entry_behind (entries l) ((k, d) ∷ entries r),
        KeysBelow-same compare o key k (entries l),
        KeysBelow-trans compare o key k (entries l),
        bl,
      )

  KeysAbove-put_entry :
      (k : K) (xs : List (K × Option V))
      → compare k key ≡ Ordering.lt
      → KeysAbove compare k xs
      → KeysAbove compare k (put_entry compare key v overrides xs)
  unfolding put_entry
  KeysAbove-put_entry k [] e h = (e, tt)
  KeysAbove-put_entry k (x ∷ xs) e h = ground (arith, KeysAbove-put_entry k xs e)

  pub put_entry-IsAscending :
      (xs : List (K × Option V))
      → IsAscending compare xs
      → IsAscending compare (put_entry compare key v overrides xs)
  unfolding put_entry
  put_entry-IsAscending [] h = (tt, tt)
  put_entry-IsAscending (x ∷ xs) h = ground (
    arith,
    put_entry-IsAscending xs,
    KeysAbove-put_entry x.0 xs,
    KeysAbove-trans compare o key x.0 xs,
    o.lt_of_gt key x.0,
  )

  -- The entries grow by one when setting returns null.
  length-set_node :
      (t : Tree K V)
      → HasData t
      → length (entries (set_node compare t key (some v) overrides).1)
        ≡ length (entries t) + counts (set_node compare t key (some v) overrides).0
  unfolding set_node
  length-set_node leaf h = refl
  length-set_node (node l k d r) h =
      let more = length-append {A = K × Option V} in
      ground (
        arith,
        length-set_node l,
        length-set_node r,
        more (entries l) ((k, d) ∷ entries r),
        more (entries l) ((k, some v) ∷ entries r),
        more (entries (set_node compare l key (some v) overrides).1) ((k, d) ∷ entries r),
        more (entries l) ((k, d) ∷ entries (set_node compare r key (some v) overrides).1),
        h,
      )

  set_node-HasData :
      (t : Tree K V) → HasData t → HasData (set_node compare t key (some v) overrides).1
  unfolding set_node
  set_node-HasData leaf h = (tt, (λ e. cc), tt)
  set_node-HasData (node l k d r) h = ground (arith, set_node-HasData l, set_node-HasData r)

-- The keys ascend, the size is the number of the nodes, and no data is null.
pub record IsMap {ℓ κ} {K : Type ℓ} {V : Type κ} (compare : Comparison K) (m : Map K V)
    : Type κ where
  pub ordered : IsAscending compare (entries m.root)
  pub counted : m.size ≡ length (entries m.root)
  pub filled : HasData m.root

module _ {ℓ κ} {K : Type ℓ} {V : Type κ} (compare : Comparison K) (o : IsOrder compare) where
  pub map_init-IsMap : IsMap {V = V} compare map_init
  unfolding map_init
  map_init-IsMap = record { ordered = tt; counted = refl; filled = tt }

  pub set_data-IsMap :
      (m : Map K V) (key : K) (v : V) (overrides : Bool)
      → IsMap compare m
      → IsMap compare (set_data compare m key (some v) overrides).1
        × (entries (set_data compare m key (some v) overrides).1.root
            ≡ put_entry compare key v overrides (entries m.root))
  unfolding set_data
  set_data-IsMap m key v overrides h =
      let e = entries-set_node compare o key v overrides m.root h.ordered in
      (
        record {
          ordered =
              rw e (put_entry-IsAscending compare o key v overrides (entries m.root) h.ordered);
          counted =
              omega (arith, length-set_node compare o key v overrides m.root h.filled, h.counted);
          filled = set_node-HasData compare o key v overrides m.root h.filled;
        },
        e,
      )
