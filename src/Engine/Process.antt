-- ===== src/Engine/Process.antt =====
-- What the engine does with a message (`_process_a_node`, `_process_single_packet`,
-- `_process_multi_packets`, `rule_engine_process`).
use Prim.Native.Nat.{bit_and}
use mmt_security.Prelude.{
  ℕ, zero, suc, ◌+◌, Option, none, some, List, [], ◌∷◌, Bool, true, false, ◌&&◌, ◌||◌, not, ◌==◌,
  ltb, if◌then◌else◌, length, Run, ok, fault, wild, halted, out_of_fuel, ◌>>=◌, at, present,
}
use mmt_security.Prelude.Bits.{u16, u64}
use mmt_security.Message.{Message}
use mmt_security.Fsm.{
  Fsm, State, Value, Handled, err_arg, error_state_reached, state_changed, no_state_change,
  state_loop_self, final_state_reached, inconclusive_state_reached, handle_event,
  handle_single_packet, reset, timeout_type,
}
use mmt_security.Rule.{Rule, Verdict, unknown, is_unknown, get_verdict}
use mmt_security.Engine.Store.{
  TranNode, Engine, load, store, set_list, insert_node, remove_link_node, head_node, find_node,
  mark_node, set_expecting_events_id,
}
use mmt_security.Engine.Reset.{
  reset_engine_for_fsm, reset_engine_for_instance, find_an_available_id,
}

abbrev pub is_changed : Value → Bool
is_changed state_changed = true
is_changed _ = false

-- The first `n` messages of a trace.
unfoldable pub copy_trace : ℕ → List (Option Message) → Run (List (Option Message))
copy_trace zero trace = ok []
copy_trace (suc n) [] = fault wild
copy_trace (suc n) (x ∷ xs) = do rest ← copy_trace n xs; ok (x ∷ rest)

-- `_store_valid_execution_trace`: the trace is copied event by event.
unfoldable pub store_valid_execution_trace : Engine → Fsm → Run Engine
unfolding copy_trace
store_valid_execution_trace e f = do
  trace ← copy_trace e.events_count f.execution_trace
  ok (record e { valid_execution_trace = trace })

-- The id of a new instance: its own class if the machine is the bootstrap one.
unfoldable pub class_of : Engine → ℕ → Fsm → Run (ℕ × Engine)
class_of e a g = if a == e.fsm_bootstrap then find_an_available_id e else ok (g.id, e)

-- A new instance gets an address and stands at the head of its class.
unfoldable pub add_instance : Engine → ℕ → Fsm → Run (ℕ × Engine)
add_instance e a g = do
  (id, e') ← class_of e a g
  instances ← at e'.fsm_by_instance_id id
  by_id ← set_list e'.fsm_by_instance_id id (insert_node instances e'.next_fsm)
  let placed = store e' e'.next_fsm (some (record g { id = id }))
  ok (e'.next_fsm, record placed { fsm_by_instance_id = by_id; next_fsm = e'.next_fsm + 1 })

-- The node stops waiting for the event if its own machine has changed state.
unfoldable pub leave_list : Engine → ℕ → ℕ → Value → Run Engine
leave_list e p event_id value = if not (is_changed value) then ok e else do
  nodes ← at e.fsm_by_expecting_event_id event_id
  lists ← set_list e.fsm_by_expecting_event_id event_id (remove_link_node nodes p)
  ok (record e { fsm_by_expecting_event_id = lists })

-- What follows a call of `fsm_handle_event`, before the `switch`.
unfoldable pub place : Engine → ℕ → ℕ → ℕ → Handled → Run (ℕ × Engine)
place e p event_id a r = elim r.new_fsm [
  | some g ↦ add_instance e a g
  | none ↦ do e' ← leave_list e p event_id r.value; ok (a, e')
]

-- A final or error state: the verdict ends the whole class, or this instance alone.
unfoldable pub conclude : Rule → Engine → ℕ → Value → Run (Verdict × Engine)
conclude rule e a value = do
  verdict ← get_verdict rule.type_id value
  f ← load e a
  if is_unknown verdict then (do e' ← reset_engine_for_instance e a; ok (unknown, e')) else do
    stored ← store_valid_execution_trace e f
    e' ← reset_engine_for_fsm stored a
    ok (verdict, e')

abbrev pub is_new : Option Fsm → Bool
is_new none = false
is_new (some _) = true

-- The `switch` of `_process_a_node`.
unfoldable pub settle : Rule → Engine → ℕ → Bool → ℕ → Value → Run (Verdict × Engine)
settle rule e a created counter state_changed = do
  e' ← set_expecting_events_id rule e a created counter
  ok (unknown, e')
settle rule e a created counter final_state_reached = conclude rule e a final_state_reached
settle rule e a created counter error_state_reached = conclude rule e a error_state_reached
settle rule e a created counter inconclusive_state_reached = do
  e' ← reset_engine_for_instance e a
  ok (unknown, e')
settle rule e a created counter _ = ok (unknown, e)

-- The bound on the depth of the calls from one temporary state to the next: a chain of different
-- states is shorter.
abbrev pub depth : List State → ℕ
depth states = suc (suc (length states))

-- `_process_a_node`
unfoldable pub process_a_node : Rule → Engine → TranNode → ℕ → Message → Run (Verdict × Engine)
process_a_node rule e n event_id m = do
  f ← load e n.fsm
  r ← handle_event (depth rule.states) rule.states f (u16 n.index) m
  (a, e') ← place (store e n.fsm (some r.fsm)) n.node event_id n.fsm r
  settle rule e' a (is_new r.new_fsm) m.counter r.value

-- The `while` over the nodes that wait for one event, from the node at `cur` on. A node that was
-- freed since its address was read is a wild access.
unfoldable pub walk : Rule → ℕ → ℕ → Message → Option ℕ → Engine → Run (Verdict × Engine)
walk rule zero event_id m cur e = fault out_of_fuel
walk rule (suc k) event_id m none e = ok (unknown, e)
walk rule (suc k) event_id m (some p) e = do
  nodes ← at e.fsm_by_expecting_event_id event_id
  (n, next) ← present (find_node nodes p)
  elim (n.counter == m.counter) [
    | true ↦ walk rule k event_id m next e
    | false ↦ do
      lists ← set_list e.fsm_by_expecting_event_id event_id (mark_node nodes p m.counter)
      (v, e') ← process_a_node rule (record e { fsm_by_expecting_event_id = lists }) n event_id m
      elim (is_unknown v) [ true ↦ walk rule k event_id m next e' | false ↦ ok (v, e') ]
  ]

-- The nodes of one event, with as much fuel as there are nodes.
unfoldable pub process_event : Rule → ℕ → Message → Engine → Run (Verdict × Engine)
process_event rule event_id m e = do
  nodes ← at e.fsm_by_expecting_event_id event_id
  walk rule (suc (length nodes)) event_id m (head_node nodes) e

-- The message has all the data that a mask asks for.
abbrev pub covers : ℕ → ℕ → Bool
covers hash mask = bit_and hash mask == mask

-- The `for` over the events, with `n` of them left from `event_id` on.
unfoldable pub process_events : Rule → Message → ℕ → ℕ → Engine → Run (Verdict × Engine)
process_events rule m event_id zero e = ok (unknown, e)
process_events rule m event_id (suc n) e = do
  mask ← at e.events_hash event_id
  elim (covers m.hash mask) [
    | false ↦ process_events rule m (event_id + 1) n e
    | true ↦ do
      (v, e') ← process_event rule event_id m e
      elim (is_unknown v) [ true ↦ process_events rule m (event_id + 1) n e' | false ↦ ok (v, e') ]
  ]

-- The test that puts off the timeouts.
abbrev pub too_early : Engine → Message → Bool
too_early e m =
    ltb e.last_msg_counter_timeout (u64 (m.counter + 10))
    && ltb e.last_msg_timestamp_timeout (u64 (m.timestamp + 100000))

unfoldable pub process_timeouts : Rule → Message → Engine → Run (Verdict × Engine)
process_timeouts rule m e =
    if too_early e m
    then ok (unknown, e)
    else process_event rule timeout_type m (record e {
      last_msg_counter_timeout = m.counter;
      last_msg_timestamp_timeout = m.timestamp;
    })

-- `_process_multi_packets`
unfoldable pub process_multi_packets : Rule → Message → Engine → Run (Verdict × Engine)
process_multi_packets rule m e = do
  (v, e') ← process_events rule m 0 e.events_count e
  if is_unknown v then process_timeouts rule m e' else ok (v, e')

-- What the `switch` of `_process_single_packet` makes of a result.
unfoldable pub conclude_single : Rule → Engine → Value → Fsm → Run (Verdict × Engine)
conclude_single rule e err_arg f = fault halted
conclude_single rule e no_state_change f = ok (unknown, store e e.fsm_bootstrap (some f))
conclude_single rule e state_changed f = ok (unknown, store e e.fsm_bootstrap (some f))
conclude_single rule e state_loop_self f = ok (unknown, store e e.fsm_bootstrap (some f))
conclude_single rule e value f = do
  verdict ← get_verdict rule.type_id value
  e' ← if is_unknown verdict then ok e else store_valid_execution_trace e f
  ok (verdict, store e' e'.fsm_bootstrap (some (reset f)))

-- `_process_single_packet`
unfoldable pub process_single_packet : Rule → Message → Engine → Run (Verdict × Engine)
process_single_packet rule m e = do
  first ← at e.events_hash 1
  second ← at e.events_hash 2
  if not (covers m.hash first) || not (covers m.hash second) then ok (unknown, e) else do
    f ← load e e.fsm_bootstrap
    (value, f') ← handle_single_packet rule.states f m
    conclude_single rule e value f'

-- `rule_engine_process`, through the function that `rule_engine_init` chose
unfoldable pub rule_engine_process : Rule → Bool → Message → Engine → Run (Verdict × Engine)
rule_engine_process rule single m e =
    if single then process_single_packet rule m e else process_multi_packets rule m e
