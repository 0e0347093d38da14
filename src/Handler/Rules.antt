-- ===== src/Handler/Rules.antt =====
-- Adding and removing rules at run time (`mmt_single_sec_add_rules`, `mmt_single_sec_remove_rules`).
use mmt_security.Prelude.{
  ℕ, zero, suc, ◌+◌, ◌-◌, ◌==◌, List, [], ◌∷◌, ◌++◌, Bool, true, false, if◌then◌else◌, set, length,
  Run, ok, ◌>>=◌, at,
}
use mmt_security.Utils.Search.{index_of}
use mmt_security.Rule.{Rule, ProtoAttribute}
use mmt_security.Handler.{Entry, Handler, new_entries, combine_rules}

-- `_swap_rule`
unfoldable pub swap_rule : List Entry → ℕ → ℕ → Run (List Entry)
swap_rule es i j = if i == j then ok es else do a ← at es i; b ← at es j; ok (set (set es i b) j a)

-- `handler->rules_count --`, after `_free_rule` of the last entry
unfoldable pub drop_last : List Entry → List Entry
drop_last [] = []
drop_last (e ∷ []) = []
drop_last (e ∷ e' ∷ es) = e ∷ drop_last (e' ∷ es)

-- Whether a rule with this id is among the given ones.
unfoldable pub has_id : ℕ → List Rule → Bool
has_id id [] = false
has_id id (r ∷ rs) = let rest = has_id id rs in if id == r.id then true else rest

-- The loop over the entries from `i` on, with `n` of them left; it counts what it removes.
unfoldable pub remove_from : List Rule → ℕ → ℕ → List Entry → Run (List Entry × ℕ)
remove_from rules zero i es = ok (es, 0)
remove_from rules (suc n) i es = do
  e ← at es i
  elim (has_id e.rule.id rules) [
    | true ↦ remove_from rules n (i + 1) es
    | false ↦ do
      swapped ← swap_rule es i (length es - 1)
      (es', removed) ← remove_from rules n i (drop_last swapped)
      ok (es', removed + 1)
  ]

-- `mmt_single_sec_remove_rules`; `rules` are the rules that remain registered in the library.
unfoldable pub remove_rules : List Rule → Handler → Run (ℕ × Handler)
remove_rules rules h = do
  (es, removed) ← remove_from rules (length h.entries) 0 h.entries
  let hash = if removed == 0 then h.hash else combine_rules 0 es
  ok (removed, record h { entries = es; hash = hash })

-- Whether a rule with this id is among the entries.
unfoldable pub verifies : ℕ → List Entry → Bool
verifies id [] = false
verifies id (e ∷ es) = let rest = verifies id es in if id == e.rule.id then true else rest

-- The rules to add, in the order of the library.
unfoldable pub to_be_added : List ℕ → List Entry → List Rule → List Rule
to_be_added new_ids es [] = []
to_be_added new_ids es (r ∷ rs) =
    let rest = to_be_added new_ids es rs in
    if index_of r.id new_ids == length new_ids
    then rest
    else if verifies r.id es
    then rest
    else r ∷ rest

-- `mmt_single_sec_add_rules`; `rules` are those registered in the library.
unfoldable pub add_rules :
    List ProtoAttribute → ℕ → List Rule → List ℕ → Handler → Run (ℕ × Handler)
add_rules registered max_instances rules new_ids h =
    let added = to_be_added new_ids h.entries rules in
    if length new_ids == 0 then ok (0, h) else if length added == 0 then ok (0, h) else do
      es ← new_entries registered max_instances added
      ok (length added, record h { entries = h.entries ++ es; hash = combine_rules h.hash es })
