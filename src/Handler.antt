-- ===== src/Handler.antt =====
-- The verification of messages against a set of rules, in one thread
-- (src/lib/mmt_single_security.h, src/lib/mmt_single_security.c).
pub mod Rules
pub mod Dropped
pub mod Removal
pub mod Alerts
pub mod Ignored
pub mod Consistent
pub mod Told
use Prim.Native.Nat.{bit_and, bit_or}
use mmt_security.Prelude.{
  ℕ, zero, suc, ◌+◌, ◌-◌, ◌^◌, ◌==◌, Option, none, some, List, [], ◌∷◌, ◌++◌, Bool, true, false,
  not, if◌then◌else◌, Run, ok, ◌>>=◌, at,
}
use mmt_security.Prelude.Bits.{u32, u64}
use mmt_security.Message.{Message}
use mmt_security.Rule.{Rule, ProtoAttribute, Verdict, is_unknown}
use mmt_security.Engine.Store.{Engine}
use mmt_security.Engine.Process.{rule_engine_process}
use mmt_security.Engine.Init.{rule_engine_init}
use mmt_security.Flows.FlowSet.{FlowSet, set_ex_create, set_ex_add, set_ex_check}

-- What stands at one index of the arrays `rules_array`, `engines`, `alerts_count` and `rules_hash`,
-- which have the same length. `single` is the function that the engine processes messages by.
pub record Entry : Type 0 where
  pub rule : Rule
  pub single : Bool
  pub engine : Engine
  pub alerts_count : ℕ
  pub rule_hash : ℕ

-- `mmt_single_sec_handler_t`; the length of `entries` is `rules_count`.
pub record Handler : Type 0 where
  pub entries : List Entry
  pub has_callback : Bool
  pub hash : ℕ
  pub messages_count : ℕ
  pub flow_ids_to_ignore : Option FlowSet

-- A call of the function of a rule or of the user, with its verdict, time, counter and trace.
pub data Call : Type 0 where
  rule_callback user_callback : ℕ → Verdict → ℕ → ℕ → List (Option Message) → Call

-- The loop that combines the masks of the `n` events from `j` on.
unfoldable pub combine_masks : List ℕ → ℕ → ℕ → ℕ → Run ℕ
combine_masks masks j zero hash = ok hash
combine_masks masks j (suc n) hash = do
  mask ← at masks j
  combine_masks masks (j + 1) n (bit_or hash mask)

-- The entry of a new rule.
unfoldable pub new_entry : List ProtoAttribute → ℕ → Rule → Run Entry
new_entry registered max_instances rule = do
  (single, engine) ← rule_engine_init registered rule max_instances
  hash ← combine_masks engine.events_hash 0 engine.events_count 0
  ok (record { rule = rule; single = single; engine = engine; alerts_count = 0; rule_hash = hash })

unfoldable pub new_entries : List ProtoAttribute → ℕ → List Rule → Run (List Entry)
new_entries registered max_instances [] = ok []
new_entries registered max_instances (r ∷ rs) = do
  e ← new_entry registered max_instances r
  es ← new_entries registered max_instances rs
  ok (e ∷ es)

-- `handler->hash |= handler->rules_hash[ i ]` over the entries
unfoldable pub combine_rules : ℕ → List Entry → ℕ
combine_rules hash [] = hash
combine_rules hash (e ∷ es) = combine_rules (bit_or hash e.rule_hash) es

-- `mmt_single_sec_register`
unfoldable pub single_sec_register : List ProtoAttribute → ℕ → List Rule → Bool → Run Handler
single_sec_register registered max_instances rules has_callback = do
  entries ← new_entries registered max_instances rules
  ok (record {
    entries = entries;
    has_callback = has_callback;
    hash = combine_rules 0 entries;
    messages_count = 0;
    flow_ids_to_ignore = none;
  })

-- `mmt_single_sec_set_ignore_remain_flow`; `memory` is what the allocation of the ring returns.
unfoldable pub set_ignore_remain_flow : Handler → Bool → ℕ → Option (List ℕ) → Handler
set_ignore_remain_flow h ignore buffer_size memory =
    let kept = if not ignore then none else h.flow_ids_to_ignore in
    record h {
      flow_ids_to_ignore = if ignore then set_ex_create (u32 buffer_size) memory else kept;
    }

-- `mmt_single_is_ignore_remain_flow`, with the lock free
unfoldable pub is_ignore_remain_flow : Option FlowSet → ℕ → Run Bool
is_ignore_remain_flow none flow_id = ok false
is_ignore_remain_flow (some s) flow_id = set_ex_check s flow_id

-- The loop over the trace that adds its flows.
unfoldable pub ignore_flows : List (Option Message) → ℕ → FlowSet → Run FlowSet
ignore_flows [] last_flow_id s = ok s
ignore_flows (none ∷ trace) last_flow_id s = ignore_flows trace last_flow_id s
ignore_flows (some m ∷ trace) last_flow_id s = elim (m.flow_id == last_flow_id) [
  | true ↦ ignore_flows trace last_flow_id s
  | false ↦ do (_, s') ← set_ex_add s m.flow_id; ignore_flows trace m.flow_id s'
]

unfoldable pub ignore_trace : List (Option Message) → Option FlowSet → Run (Option FlowSet)
ignore_trace trace none = ok none
ignore_trace trace (some s) = do s' ← ignore_flows trace (2 ^ 64 - 1) s; ok (some s')

-- The calls on a verdict, the rule's first.
unfoldable pub calls_of : Bool → Rule → Verdict → Message → List (Option Message) → List Call
calls_of has_callback rule v m trace =
    (if rule.has_callback then rule_callback rule.id v m.timestamp m.counter trace ∷ [] else [])
    ++ (if has_callback then user_callback rule.id v m.timestamp m.counter trace ∷ [] else [])

-- What a message leaves: the entries, the flows to ignore and the calls that were made.
pub record Verified : Type 0 where
  pub entries : List Entry
  pub flows : Option FlowSet
  pub calls : List Call

-- One round of the loop over the rules, that finds an alert.
unfoldable pub alert :
    Bool
    → Message
    → Entry
    → Verdict
    → Engine
    → Option FlowSet
    → Run (Entry × Option FlowSet × List Call)
alert has_callback m e v engine flows = do
  let trace = engine.valid_execution_trace
  flows' ← ignore_trace trace flows
  ok (
    record e { engine = engine; alerts_count = u64 (e.alerts_count + 1) },
    flows',
    calls_of has_callback e.rule v m trace,
  )

-- One round of the loop over the rules.
unfoldable pub verify_rule :
    Bool → Message → Entry → Option FlowSet → Run (Entry × Option FlowSet × List Call)
verify_rule has_callback m e flows =
    if bit_and m.hash e.rule_hash == 0 then ok (e, flows, []) else do
      (v, engine) ← rule_engine_process e.rule e.single m e.engine
      if is_unknown v
          then ok (record e { engine = engine }, flows, [])
          else alert has_callback m e v engine flows

unfoldable pub verify_rules : Bool → Message → List Entry → Option FlowSet → Run Verified
verify_rules has_callback m [] flows = ok (record { entries = []; flows = flows; calls = [] })
verify_rules has_callback m (e ∷ es) flows = do
  (e', flows', calls) ← verify_rule has_callback m e flows
  rest ← verify_rules has_callback m es flows'
  ok (record { entries = e' ∷ rest.entries; flows = rest.flows; calls = calls ++ rest.calls })

-- `mmt_single_sec_process`
unfoldable pub single_sec_process : Handler → Message → Run (Handler × List Call)
single_sec_process h m = if bit_and m.hash h.hash == 0 then ok (h, []) else do
  ignored ← is_ignore_remain_flow h.flow_ids_to_ignore m.flow_id
  if ignored then ok (h, []) else do
    r ← verify_rules h.has_callback m h.entries h.flow_ids_to_ignore
    ok (
      record h {
        entries = r.entries;
        messages_count = u64 (h.messages_count + 1);
        flow_ids_to_ignore = r.flows;
      },
      r.calls,
    )

-- What `mmt_single_sec_unregister` returns.
unfoldable pub total_alerts : List Entry → ℕ
total_alerts [] = 0
total_alerts (e ∷ es) = u64 (e.alerts_count + total_alerts es)
