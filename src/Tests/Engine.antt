-- ===== src/Tests/Engine.antt =====
-- An engine for the rule of Tests.Fsm, and the theorems about engines at it.
use mmt_security.Prelude.{
  ℕ, zero, suc, ◌≡◌, refl, none, some, List, [], ◌∷◌, false, arith, get_elem?, Run, ok, fault,
  halted, Ensures, IfOk, ◌>>=◌, All, Distinct, subst,
}
use mmt_security.Fsm.{
  init, reset, handle_event, handle_with, fire_event, fire_timeout, pending_timeout, update_fsm,
  update_deadline, last_value, try_transitions, handle_single_packet, is_verifying_single_packet,
}
use mmt_security.Attribute.{hash_proto_attribute, hash_from}
use mmt_security.Rule.{Rule, ProtoAttribute, Verdict, RuleType, unknown, detected, get_verdict}
use mmt_security.Engine.Store.{
  Engine, put, remove_node, remove_link_node, find_node, mark_node, expect_one, expect_from,
  set_expecting_events_id,
}
use mmt_security.Engine.Reset.{
  drop_class, drop_class_all, free_all, drop_instance, drop_instance_all, find_available,
  reset_engine_for_fsm, reset_engine_for_instance, find_an_available_id,
}
use mmt_security.Engine.Process.{
  process_a_node, process_multi_packets, rule_engine_process, store_valid_execution_trace,
  copy_trace, class_of, add_instance, leave_list, place, conclude, settle, walk, process_event,
  process_events, process_timeouts, process_single_packet, conclude_single,
}
use mmt_security.Engine.Init.{
  rule_engine_init, is_excluded, mask_from, calculate_hash_number, blank,
}
use mmt_security.Engine.Timeouts.{run_messages, events_only, timeouts_never_verified}
use mmt_security.Engine.Safe.{IsSafe, IsMember, IsEnded, reset_engine_for_fsm-IsEnded}
use mmt_security.Engine.SafeInstance.{IsGone, reset_engine_for_instance-IsGone}
use mmt_security.Engine.SafeMessage.{process_multi_packets-IsSafe}
use mmt_security.Engine.Ids.{AllTaken, GivesId, find_an_available_id-GivesId, free_id_overlooked}
use mmt_security.Engine.Verdicts.{IsGrounded, verdict-IsGrounded}
use mmt_security.Engine.Started.{run_messages-rule_engine_init}
use mmt_security.Tests.Fsm.{message, states, bootstrap, instance_at_wait}

abbrev pub ip_src : ProtoAttribute
ip_src = record { proto_id = 178; att_id = 12 }

abbrev pub tcp_flags : ProtoAttribute
tcp_flags = record { proto_id = 354; att_id = 6 }

abbrev pub rule : Rule
rule = record {
  id = 1;
  type_id = RuleType.attack;
  events_count = 2;
  proto_atts = ip_src ∷ tcp_flags ∷ [];
  proto_atts_events = [] ∷ (0 ∷ []) ∷ (0 ∷ 1 ∷ []) ∷ [];
  excluded_filter = [] ∷ [] ∷ [] ∷ [];
  states = states;
  instance = bootstrap;
  has_callback = false;
}

-- The engine that waits for the first event: only the bootstrap machine, at the address 0.
abbrev pub engine : Engine
engine = record {
  fsm_bootstrap = 0;
  fsms = put (λ _. none) 0 (some bootstrap);
  next_fsm = 1;
  next_node = 1;
  fsm_by_expecting_event_id =
      [] ∷ (record { node = 0; counter = 0; index = 0; fsm = 0 } ∷ []) ∷ [] ∷ [];
  fsm_by_instance_id = (0 ∷ []) ∷ [] ∷ [] ∷ [];
  valid_execution_trace = none ∷ none ∷ none ∷ [];
  events_count = 3;
  max_instances_size = 3;
  avail_fsm_id = 0;
  events_hash = 0 ∷ 2 ∷ 6 ∷ [];
  last_msg_timestamp_timeout = 0;
  last_msg_counter_timeout = 0;
}

unfoldable pub program : Unit {0}
unfolding init reset handle_event handle_with fire_event fire_timeout pending_timeout update_fsm
    update_deadline last_value try_transitions handle_single_packet is_verifying_single_packet
    hash_proto_attribute hash_from get_verdict remove_node remove_link_node find_node mark_node
    expect_one expect_from set_expecting_events_id drop_class drop_class_all free_all drop_instance
    drop_instance_all find_available reset_engine_for_fsm reset_engine_for_instance
    find_an_available_id process_a_node process_multi_packets rule_engine_process
    store_valid_execution_trace copy_trace class_of add_instance leave_list place conclude settle
    walk process_event process_events process_timeouts process_single_packet conclude_single
    rule_engine_init is_excluded mask_from calculate_hash_number blank run_messages
program = tt

abbrev pub registered : List ProtoAttribute
registered = record { proto_id = 99; att_id = 1 } ∷ ip_src ∷ tcp_flags ∷ []

made : rule_engine_init registered rule 3 ≡ ok (false, engine)
unfolding program
made = refl

verdicts_of : Run (List Verdict × Engine) → List Verdict
verdicts_of (ok (vs, _)) = vs
verdicts_of (fault _) = []

-- The two events in their order, the second within its delay.
attack_detected :
    verdicts_of
      (run_messages (process_multi_packets rule) (message 1 1000 1 ∷ message 2 1050 2 ∷ []) engine)
    ≡ unknown ∷ detected ∷ []
unfolding program verdicts_of
attack_detected = refl

-- The second event comes after the delay.
attack_missed :
    verdicts_of
      (run_messages (process_multi_packets rule) (message 1 1000 1 ∷ message 2 1200 2 ∷ []) engine)
    ≡ unknown ∷ unknown ∷ []
unfolding program verdicts_of
attack_missed = refl

timeouts_never_verified_example :
    run_messages (process_multi_packets rule) (message 1 1000 1 ∷ message 2 1050 2 ∷ []) engine
    ≡ run_messages (events_only rule) (message 1 1000 1 ∷ message 2 1050 2 ∷ []) engine
timeouts_never_verified_example =
    timeouts_never_verified rule (message 1 1000 1 ∷ message 2 1050 2 ∷ []) engine
      (
        record { counter = omega arith; timestamp = omega arith },
        (record { counter = omega arith; timestamp = omega arith }, tt),
      )
      (record { counter = refl; timestamp = refl })

-- The engine after the first event: an instance stands beside the bootstrap machine in its class.
abbrev engine_at_wait : Engine
engine_at_wait = record engine {
  fsms = put (put (λ _. none) 0 (some bootstrap)) 1 (some instance_at_wait);
  next_fsm = 2;
  next_node = 3;
  fsm_by_expecting_event_id =
      (record { node = 1; counter = 1; index = 0; fsm = 1 } ∷ [])
      ∷ (record { node = 0; counter = 1; index = 0; fsm = 0 } ∷ [])
      ∷ (record { node = 2; counter = 1; index = 1; fsm = 1 } ∷ [])
      ∷ [];
  fsm_by_instance_id = (1 ∷ 0 ∷ []) ∷ [] ∷ [] ∷ [];
}

of_some {ℓ κ} : {A : Type ℓ} (P : A → Type κ) {x y : A} → some x ≡ some y → P x → P y
of_some P {x} {y} h p = let e : x ≡ y = cc in subst P e p

engine_at_wait-IsSafe : IsSafe engine_at_wait
engine_at_wait-IsSafe = record {
  nodes = (
    ((instance_at_wait, refl), tt),
    (((bootstrap, refl), tt), (((instance_at_wait, refl), tt), tt)),
  );
  members = members;
  distinct = distinct;
}
  where
    members :
        (id : ℕ) {l : List ℕ}
        → get_elem? engine_at_wait.fsm_by_instance_id id ≡ some l
        → All (IsMember engine_at_wait.fsms 2 id) l
    members zero h = of_some (All (IsMember engine_at_wait.fsms 2 0)) h (
      (omega arith, (instance_at_wait, refl, refl)),
      ((omega arith, (bootstrap, refl, refl)), tt),
    )
    members (suc zero) h = of_some (All (IsMember engine_at_wait.fsms 2 1)) h tt
    members (suc (suc zero)) h = of_some (All (IsMember engine_at_wait.fsms 2 2)) h tt
    members (suc (suc (suc n))) h = cc

    distinct :
        (id : ℕ) {l : List ℕ} → get_elem? engine_at_wait.fsm_by_instance_id id ≡ some l → Distinct l
    distinct zero h = of_some Distinct h ((omega arith, tt), (tt, tt))
    distinct (suc zero) h = of_some Distinct h tt
    distinct (suc (suc zero)) h = of_some Distinct h tt
    distinct (suc (suc (suc n))) h = cc

reset_engine_for_fsm-IsEnded_example : Ensures (reset_engine_for_fsm engine_at_wait 1) (IsEnded 0)
reset_engine_for_fsm-IsEnded_example =
    reset_engine_for_fsm-IsEnded engine_at_wait 1 {f = instance_at_wait} engine_at_wait-IsSafe refl
      (omega arith)

reset_engine_for_instance-IsGone_example :
    Ensures (reset_engine_for_instance engine_at_wait 1) (IsGone 1 0)
reset_engine_for_instance-IsGone_example =
    reset_engine_for_instance-IsGone engine_at_wait 1 {f = instance_at_wait} engine_at_wait-IsSafe
      refl (omega arith)

process_multi_packets-IsSafe_example :
    IfOk (process_multi_packets rule (message 2 1050 2) engine_at_wait) (λ s. IsSafe s.1)
process_multi_packets-IsSafe_example =
    process_multi_packets-IsSafe rule (message 2 1050 2) engine_at_wait engine_at_wait-IsSafe

find_an_available_id-GivesId_example : GivesId engine (find_an_available_id engine)
find_an_available_id-GivesId_example = find_an_available_id-GivesId engine refl (omega arith)

-- The class 0 is free, the others are taken, and the search starts at 1.
abbrev crowded : Engine
crowded = record engine { fsm_by_instance_id = [] ∷ (0 ∷ []) ∷ (1 ∷ []) ∷ []; avail_fsm_id = 1 }

free_id_overlooked_example : find_an_available_id crowded ≡ fault halted
free_id_overlooked_example =
    free_id_overlooked crowded 0 refl (omega arith) (omega arith) refl taken
  where
    taken : AllTaken crowded.fsm_by_instance_id 1 2
    taken zero p q h = absurd (omega arith)
    taken (suc zero) p q h = cc
    taken (suc (suc zero)) p q h = cc
    taken (suc (suc (suc n))) p q h = absurd (omega arith)

verdict-IsGrounded_example :
    IfOk
      (process_a_node rule engine_at_wait
        (record { node = 2; counter = 1; index = 1; fsm = 1 })
        2
        (message 2 1050 2))
      (λ s.
        IsGrounded rule engine_at_wait
          (record { node = 2; counter = 1; index = 1; fsm = 1 })
          (message 2 1050 2)
          s.0)
verdict-IsGrounded_example =
    verdict-IsGrounded rule engine_at_wait (record { node = 2; counter = 1; index = 1; fsm = 1 }) 2
      (message 2 1050 2)

run_messages-rule_engine_init_example :
    IfOk
      (rule_engine_init registered rule 3 >>= λ r.
        run_messages (process_multi_packets rule) (message 1 1000 1 ∷ message 2 1050 2 ∷ []) r.1)
      (λ r. IsSafe r.1)
run_messages-rule_engine_init_example =
    run_messages-rule_engine_init registered rule 3 (message 1 1000 1 ∷ message 2 1050 2 ∷ [])
