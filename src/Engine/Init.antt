-- ===== src/Engine/Init.antt =====
-- The construction of an engine (`rule_engine_init`, `_calculate_hash_number`).
use mmt_security.Prelude.{
  ℕ, zero, suc, ◌+◌, none, some, List, [], ◌∷◌, Bool, false, true, ◌==◌, leb, if◌then◌else◌, not,
  replicate, Run, ok, fault, halted, ◌>>=◌, at,
}
use mmt_security.Fsm.{Fsm, is_verifying_single_packet}
use mmt_security.Rule.{Rule, ProtoAttribute, bit_set}
use mmt_security.Attribute.{hash_proto_attribute}
use mmt_security.Engine.Store.{Engine, set_list, insert_node, put, set_expecting_events_id}

-- Whether an attribute of the rule is in the list of those left out of the mask.
unfoldable pub is_excluded : ℕ → List ℕ → Bool
is_excluded p [] = false
is_excluded p (q ∷ qs) = if p == q then true else is_excluded p qs

-- The loop over the attributes of one event. `registered` are the attributes known to the library.
unfoldable pub mask_from : List ProtoAttribute → List ProtoAttribute → List ℕ → List ℕ → ℕ → Run ℕ
mask_from registered atts excluded [] mask = ok mask
mask_from registered atts excluded (j ∷ js) mask = do
  p ← at atts j
  index ←
      if is_excluded j excluded then ok 0 else hash_proto_attribute registered p.proto_id p.att_id
  mask_from registered atts excluded js
      (if is_excluded j excluded then mask else bit_set mask index)

-- `_calculate_hash_number`, with `n` events left from event `i` on
unfoldable pub calculate_hash_number : List ProtoAttribute → Rule → ℕ → ℕ → Run (List ℕ)
calculate_hash_number registered rule i zero = ok []
calculate_hash_number registered rule i (suc n) = do
  event ← at rule.proto_atts_events i
  excluded ← at rule.excluded_filter i
  mask ← mask_from registered rule.proto_atts excluded event 0
  masks ← calculate_hash_number registered rule (i + 1) n
  ok (mask ∷ masks)

-- The engine before the bootstrap machine waits for its first events.
unfoldable pub blank : Rule → ℕ → Engine
blank rule max_instances = record {
  fsm_bootstrap = 0;
  fsms = put (λ _. none) 0 (some (record bootstrap { id = 0 }));
  next_fsm = 1;
  next_node = 0;
  fsm_by_expecting_event_id = replicate (rule.events_count + 1) [];
  fsm_by_instance_id = replicate max_instances [];
  valid_execution_trace = replicate (rule.events_count + 1) none;
  events_count = rule.events_count + 1;
  max_instances_size = max_instances;
  avail_fsm_id = 0;
  events_hash = [];
  last_msg_timestamp_timeout = 0;
  last_msg_counter_timeout = 0;
}
  where
    bootstrap : Fsm
    bootstrap = rule.instance

-- `rule_engine_init`: the engine, and whether it takes the path for single packets.
unfoldable pub rule_engine_init : List ProtoAttribute → Rule → ℕ → Run (Bool × Engine)
rule_engine_init registered rule max_instances =
    if not (leb (rule.events_count + 1) 64) then fault halted else do
      e ← set_expecting_events_id rule (blank rule max_instances) 0 false 0
      instances ← at e.fsm_by_instance_id 0
      by_id ← set_list e.fsm_by_instance_id 0 (insert_node instances 0)
      masks ← calculate_hash_number registered rule 0 e.events_count
      single ← is_verifying_single_packet rule.states rule.instance
      ok (single, record e { fsm_by_instance_id = by_id; events_hash = masks })
