-- ===== src/Engine/Store.antt =====
-- The state of an engine: the heap of state machines, the lists of nodes that wait for an event,
-- and the lists of instances (src/lib/rule_verif_engine.h, src/lib/mmt_dbl_linked_list.h).
use mmt_security.Prelude.{
  ℕ, ◌+◌, Option, none, some, List, [], ◌∷◌, Bool, ◌&&◌, not, ◌==◌, if◌then◌else◌, set, length, ltb,
  Run, ok, fault, wild, ◌>>=◌, at, present,
}
use mmt_security.Message.{Message}
use mmt_security.Fsm.{Fsm, Transition, timeout_type}
use mmt_security.Rule.{Rule}

-- A node of a list of waiting machines with the `_fsm_tran_index_t` that it owns. `node` is the
-- address of the node, `fsm` that of the machine.
pub record TranNode : Type 0 where
  pub node : ℕ
  pub counter : ℕ
  pub index : ℕ
  pub fsm : ℕ

-- `rule_engine_t`. `fsms` is the heap of machines, `none` at an address that is free; addresses
-- from `next_fsm` and `next_node` on have not been given out yet. A list of instances holds the
-- addresses of machines, in order from its head.
pub record Engine : Type 0 where
  pub fsm_bootstrap : ℕ
  pub fsms : ℕ → Option Fsm
  pub next_fsm : ℕ
  pub next_node : ℕ
  pub fsm_by_expecting_event_id : List (List TranNode)
  pub fsm_by_instance_id : List (List ℕ)
  pub valid_execution_trace : List (Option Message)
  pub events_count : ℕ
  pub max_instances_size : ℕ
  pub avail_fsm_id : ℕ
  pub events_hash : List ℕ
  pub last_msg_timestamp_timeout : ℕ
  pub last_msg_counter_timeout : ℕ

-- A write to the heap.
abbrev pub put : (ℕ → Option Fsm) → ℕ → Option Fsm → ℕ → Option Fsm
put h a v b = if b == a then v else h b

-- A machine through its pointer.
abbrev pub load : Engine → ℕ → Run Fsm
load e a = present (e.fsms a)

abbrev pub store : Engine → ℕ → Option Fsm → Engine
store e a v = record e { fsms = put e.fsms a v }

-- A write to an array of lists.
abbrev pub set_list {ℓ} : {A : Type ℓ} → List (List A) → ℕ → List A → Run (List (List A))
set_list ls i v = if ltb i (length ls) then ok (set ls i v) else fault wild

-- `insert_node_to_link_list`: to the head
abbrev pub insert_node {ℓ} : {A : Type ℓ} → List A → A → List A
insert_node l a = a ∷ l

-- `remove_node_from_link_list`: the first node with this data
unfoldable pub remove_node : List ℕ → ℕ → List ℕ
remove_node [] a = []
remove_node (b ∷ l) a = if b == a then l else b ∷ remove_node l a

-- `remove_link_node_from_its_link_list`: the node itself
unfoldable pub remove_link_node : List TranNode → ℕ → List TranNode
remove_link_node [] p = []
remove_link_node (n ∷ l) p = if n.node == p then l else n ∷ remove_link_node l p

-- A node through its address, with the address behind its `next`.
abbrev pub head_node : List TranNode → Option ℕ
head_node [] = none
head_node (n ∷ _) = some n.node

unfoldable pub find_node : List TranNode → ℕ → Option (TranNode × Option ℕ)
find_node [] p = none
find_node (n ∷ l) p = if n.node == p then some (n, head_node l) else find_node l p

-- `fsm_ind->counter = …`, through the node
unfoldable pub mark_node : List TranNode → ℕ → ℕ → List TranNode
mark_node [] p c = []
mark_node (n ∷ l) p c = if n.node == p then record n { counter = c } ∷ l else n ∷ mark_node l p c

-- One round of the loop of `_set_expecting_events_id`.
unfoldable pub expect_one : Engine → ℕ → Bool → ℕ → ℕ → Transition → Run Engine
expect_one e a is_add_timeout counter i tran =
    if tran.event_type == timeout_type && not is_add_timeout then ok e else do
      nodes ← at e.fsm_by_expecting_event_id tran.event_type
      let fresh : TranNode = record { node = e.next_node; counter = counter; index = i; fsm = a }
      lists ← set_list e.fsm_by_expecting_event_id tran.event_type (insert_node nodes fresh)
      ok (record e { fsm_by_expecting_event_id = lists; next_node = e.next_node + 1 })

unfoldable pub expect_from : Engine → ℕ → Bool → ℕ → ℕ → List Transition → Run Engine
expect_from e a is_add_timeout counter i [] = ok e
expect_from e a is_add_timeout counter i (t ∷ ts) = do
  e' ← expect_one e a is_add_timeout counter i t
  expect_from e' a is_add_timeout counter (i + 1) ts

-- `_set_expecting_events_id`
unfoldable pub set_expecting_events_id : Rule → Engine → ℕ → Bool → ℕ → Run Engine
set_expecting_events_id rule e a is_add_timeout counter = do
  f ← load e a
  state ← at rule.states f.current_state
  expect_from e a is_add_timeout counter 0 state.transitions
