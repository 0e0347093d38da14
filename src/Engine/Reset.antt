-- ===== src/Engine/Reset.antt =====
-- Removing instances from an engine, and finding an id for a new one
-- (`_reset_engine_for_fsm`, `_reset_engine_for_instance`, `_find_an_available_id`).
use mmt_security.Prelude.{
  ℕ, zero, suc, ◌+◌, ◌-◌, none, List, [], ◌∷◌, Bool, true, false, ◌==◌, if◌then◌else◌, Run, ok,
  fault, halted, ◌>>=◌, at,
}
use mmt_security.Prelude.Bits.{u16}
use mmt_security.Engine.Store.{TranNode, Engine, load, store, set_list, remove_node}

-- The inner loop of `_reset_engine_for_fsm`: every machine is read for its id.
unfoldable pub drop_class : Engine → ℕ → List TranNode → Run (List TranNode)
drop_class e id [] = ok []
drop_class e id (n ∷ l) = do
  f ← load e n.fsm
  rest ← drop_class e id l
  ok (if f.id == id then rest else n ∷ rest)

unfoldable pub drop_class_all : Engine → ℕ → List (List TranNode) → Run (List (List TranNode))
drop_class_all e id [] = ok []
drop_class_all e id (l ∷ ls) = do
  l' ← drop_class e id l
  ls' ← drop_class_all e id ls
  ok (l' ∷ ls')

-- `free_link_list_and_data` with `fsm_free`: a machine that is freed twice is a wild access.
unfoldable pub free_all : Engine → List ℕ → Run Engine
free_all e [] = ok e
free_all e (a ∷ l) = do _ ← load e a; free_all (store e a none) l

-- `_reset_engine_for_fsm`
unfoldable pub reset_engine_for_fsm : Engine → ℕ → Run Engine
reset_engine_for_fsm e a = do
  f ← load e a
  lists ← drop_class_all e f.id e.fsm_by_expecting_event_id
  instances ← at e.fsm_by_instance_id f.id
  e' ← free_all (record e { fsm_by_expecting_event_id = lists }) instances
  by_id ← set_list e'.fsm_by_instance_id f.id []
  ok (record e' { fsm_by_instance_id = by_id; avail_fsm_id = f.id })

-- The inner loop of `_reset_engine_for_instance`: pointers are compared.
unfoldable pub drop_instance : ℕ → List TranNode → List TranNode
drop_instance a [] = []
drop_instance a (n ∷ l) = let rest = drop_instance a l in if n.fsm == a then rest else n ∷ rest

unfoldable pub drop_instance_all : ℕ → List (List TranNode) → List (List TranNode)
drop_instance_all a [] = []
drop_instance_all a (l ∷ ls) = drop_instance a l ∷ drop_instance_all a ls

abbrev pub is_nil {ℓ} : {A : Type ℓ} → List A → Bool
is_nil [] = true
is_nil (_ ∷ _) = false

-- `_reset_engine_for_instance`
unfoldable pub reset_engine_for_instance : Engine → ℕ → Run Engine
reset_engine_for_instance e a = do
  f ← load e a
  instances ← at e.fsm_by_instance_id f.id
  let rest = remove_node instances a
  by_id ← set_list e.fsm_by_instance_id f.id rest
  ok (record e {
    fsm_by_expecting_event_id = drop_instance_all a e.fsm_by_expecting_event_id;
    fsm_by_instance_id = by_id;
    avail_fsm_id = if is_nil rest then f.id else e.avail_fsm_id;
    fsms = (store e a none).fsms;
  })

-- The loop of `_find_an_available_id`, with `n` ids left from `i` on.
unfoldable pub find_available : List (List ℕ) → ℕ → ℕ → Run ℕ
find_available by_id i zero = fault halted
find_available by_id i (suc n) = do
  instances ← at by_id i
  let next = find_available by_id (i + 1) n
  if is_nil instances then ok i else next

-- `_find_an_available_id`; the result is cut to the `uint16_t` that it returns.
unfoldable pub find_an_available_id : Engine → Run (ℕ × Engine)
find_an_available_id e = do
  i ← find_available e.fsm_by_instance_id e.avail_fsm_id (e.max_instances_size - e.avail_fsm_id)
  ok (u16 i, record e { avail_fsm_id = i })
