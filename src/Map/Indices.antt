-- ===== src/Map/Indices.antt =====
-- The iteration over a map: the index of a key and the array of the data (`mmt_map_get_index`,
-- `mmt_map_convert_to_array`).
use mmt_security.Prelude.{
  append_one, ℕ, ◌+◌, ◌≡◌, refl, ap, ◌∙◌, sym, Option, none, List, [], ◌∷◌, ◌++◌, true, arith,
  length, length-append, set, replicate, ltb, Run, ok,
}
use mmt_security.Map.{Tree, leaf, node, Visit, node_iterate, to_update}
use mmt_security.Map.Listing.{entries}

-- The visits of the entries one after the other.
unfoldable pub visit_entries {ℓ κ μ} :
    {K : Type ℓ} {V : Type κ} {U : Type μ} → Visit K V U → ℕ → List (K × Option V) → U × ℕ → U × ℕ
visit_entries visit total [] s = s
visit_entries visit total ((k, d) ∷ es) (u, i) =
    visit_entries visit total es (visit k d u i total, i + 1)

module _ {ℓ κ μ} {K : Type ℓ} {V : Type κ} {U : Type μ} (visit : Visit K V U) (total : ℕ) where
  visit_entries-append :
      (xs ys : List (K × Option V)) (s : U × ℕ)
      → visit_entries visit total (xs ++ ys) s
        ≡ visit_entries visit total ys (visit_entries visit total xs s)
  unfolding visit_entries
  visit_entries-append [] ys s = refl
  visit_entries-append ((k, d) ∷ xs) ys (u, i) =
      visit_entries-append xs ys (visit k d u i total, i + 1)

  -- The iteration visits the entries in the order of the keys, and counts them.
  pub node_iterate_lem :
      (t : Tree K V) (s : U × ℕ)
      → node_iterate visit total t s ≡ visit_entries visit total (entries t) s
  unfolding node_iterate visit_entries
  node_iterate_lem leaf s = refl
  node_iterate_lem (node l k d r) s =
      let s' = visit_entries visit total (entries l) s in
      rw (visit_entries-append (entries l) ((k, d) ∷ entries r) s, node_iterate_lem l s)
        (node_iterate_lem r (visit k d s'.0 s'.1 total, s'.1 + 1))

abbrev pub data_of {ℓ κ} : {K : Type ℓ} {V : Type κ} → List (K × Option V) → List (Option V)
data_of [] = []
data_of (e ∷ es) = e.1 ∷ data_of es

module _ {ℓ} {A : Type ℓ} where
  set_behind : (xs ys : List A) (x d : A) → set (xs ++ x ∷ ys) (length xs) d ≡ xs ++ d ∷ ys
  set_behind [] ys x d = refl
  set_behind (z ∷ xs) ys x d = ap (λ l. z ∷ l) (set_behind xs ys x d)

module _ {ℓ κ} {K : Type ℓ} {V : Type κ} (total : ℕ) where
  -- A visit writes behind what is there, and what is there grows by one.
  to_update_behind :
      (k : K) (d : Option V) (xs tail : List (Option V))
      → to_update k d (ok (xs ++ none ∷ tail)) (length xs) total ≡ ok ((xs ++ d ∷ []) ++ tail)
  unfolding to_update
  to_update_behind k d xs tail =
      let room : ltb (length xs) (length (xs ++ none ∷ tail)) ≡ true =
        ground (arith, length-append xs (none ∷ tail)) in
      rw (room, set_behind xs tail none d, append_one xs tail d)

  -- The visits write the data behind what is there, and leave what stands behind the entries.
  pub visit_to_update :
      (es : List (K × Option V)) (xs tail : List (Option V))
      → (visit_entries to_update total es
          (ok (xs ++ (replicate (length es) none ++ tail)), length xs)).0
        ≡ ok (xs ++ (data_of es ++ tail))
  unfolding visit_entries
  visit_to_update [] xs tail = refl
  visit_to_update ((k, d) ∷ es) xs tail =
      let behind = replicate {A = Option V} (length es) none ++ tail in
      ap (λ (a : Run (List (Option V))). (visit_entries to_update total es (a, length xs + 1)).0)
        (to_update_behind k d xs behind)
      ∙ ap (λ (n : ℕ). (visit_entries to_update total es (ok ((xs ++ d ∷ []) ++ behind), n)).0)
          (sym (length-append xs (d ∷ [])))
      ∙ visit_to_update es (xs ++ d ∷ []) tail
      ∙ ap ok (append_one xs (data_of es ++ tail) d)
