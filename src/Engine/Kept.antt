-- ===== src/Engine/Kept.antt =====
-- The fields of an engine that its steps leave alone (src/lib/rule_verif_engine.c).
use mmt_security.Prelude.{
  ℕ, zero, suc, ◌+◌, ◌≤◌, ◌≡◌, refl, Option, none, some, List, [], ◌∷◌, Bool, arith, length,
  length-set, IfOk, IfOk-bind, IfOk-map,
}
use mmt_security.Fsm.{Fsm, Transition, Value, Handled}
use mmt_security.Message.{Message}
use mmt_security.Rule.{Rule}
use mmt_security.Engine.Store.{
  TranNode, Engine, load, store, expect_one, expect_from, set_expecting_events_id,
}
use mmt_security.Engine.Reset.{
  drop_class_all, free_all, reset_engine_for_fsm, drop_instance_all, reset_engine_for_instance,
  find_an_available_id,
}
use mmt_security.Engine.Process.{
  class_of, add_instance, leave_list, place, conclude, settle, process_a_node, walk, process_event,
  process_events, store_valid_execution_trace,
}

pub record Kept (e e' : Engine) : Type 0 where
  pub bootstrap : e'.fsm_bootstrap ≡ e.fsm_bootstrap
  pub events : e'.events_count ≡ e.events_count
  pub instances : e'.max_instances_size ≡ e.max_instances_size
  pub hash : e'.events_hash ≡ e.events_hash
  pub counter : e'.last_msg_counter_timeout ≡ e.last_msg_counter_timeout
  pub timestamp : e'.last_msg_timestamp_timeout ≡ e.last_msg_timestamp_timeout
  pub lists : length e'.fsm_by_expecting_event_id ≡ length e.fsm_by_expecting_event_id
  pub classes : length e'.fsm_by_instance_id ≡ length e.fsm_by_instance_id
  pub machines : e.next_fsm ≤ e'.next_fsm
  pub nodes : e.next_node ≤ e'.next_node

pub Kept-refl : (e : Engine) → Kept e e
Kept-refl e = ground arith

pub Kept-trans : (a b c : Engine) → Kept a b → Kept b c → Kept a c
Kept-trans a b c p q = ground arith

expect_one-Kept :
    (e : Engine) (a : ℕ) (add : Bool) (counter i : ℕ) (t : Transition)
    → IfOk (expect_one e a add counter i t) (Kept e)
unfolding expect_one
expect_one-Kept e a add counter i t = grind (arith, length-set)

expect_from-Kept :
    (e : Engine) (a : ℕ) (add : Bool) (counter i : ℕ) (ts : List Transition)
    → IfOk (expect_from e a add counter i ts) (Kept e)
unfolding expect_from
expect_from-Kept e a add counter i [] = Kept-refl e
expect_from-Kept e a add counter i (t ∷ ts) =
    IfOk-bind (expect_one e a add counter i t) _ (Kept e) (Kept e)
      (expect_one-Kept e a add counter i t)
      (λ e' _ p.
        IfOk-map (expect_from e' a add counter (i + 1) ts) (Kept e') (Kept e)
          (expect_from-Kept e' a add counter (i + 1) ts) (λ b q. Kept-trans e e' b p q))

set_expecting_events_id-Kept :
    (rule : Rule) (e : Engine) (a : ℕ) (add : Bool) (counter : ℕ)
    → IfOk (set_expecting_events_id rule e a add counter) (Kept e)
unfolding set_expecting_events_id
set_expecting_events_id-Kept rule e a add counter = grind (arith, expect_from-Kept)

drop_class_all-length :
    (e : Engine) (id : ℕ) (ls : List (List TranNode))
    → IfOk (drop_class_all e id ls) (λ r. length r ≡ length ls)
unfolding drop_class_all
drop_class_all-length e id [] = refl
drop_class_all-length e id (l ∷ ls) = ground (arith, drop_class_all-length e id ls)

drop_instance_all-length :
    (a : ℕ) (ls : List (List TranNode)) → length (drop_instance_all a ls) ≡ length ls
unfolding drop_instance_all
drop_instance_all-length a [] = refl
drop_instance_all-length a (l ∷ ls) = omega (arith, drop_instance_all-length a ls)

free_all-Kept : (e : Engine) (l : List ℕ) → IfOk (free_all e l) (Kept e)
unfolding free_all
free_all-Kept e [] = Kept-refl e
free_all-Kept e (a ∷ l) =
    IfOk-bind (load e a) _ (λ _. Unit {0}) (Kept e) (ground arith)
      (λ f _ _.
        IfOk-map (free_all (store e a none) l) (Kept (store e a none)) (Kept e)
          (free_all-Kept (store e a none) l) (λ b q. ground arith))

reset_engine_for_fsm-Kept : (e : Engine) (a : ℕ) → IfOk (reset_engine_for_fsm e a) (Kept e)
unfolding reset_engine_for_fsm
reset_engine_for_fsm-Kept e a = grind (arith, free_all-Kept, drop_class_all-length, length-set)

reset_engine_for_instance-Kept :
    (e : Engine) (a : ℕ) → IfOk (reset_engine_for_instance e a) (Kept e)
unfolding reset_engine_for_instance
reset_engine_for_instance-Kept e a = grind (arith, drop_instance_all-length, length-set)

find_an_available_id-Kept : (e : Engine) → IfOk (find_an_available_id e) (λ r. Kept e r.1)
unfolding find_an_available_id
find_an_available_id-Kept e = ground arith

add_instance-Kept : (e : Engine) (a : ℕ) (g : Fsm) → IfOk (add_instance e a g) (λ r. Kept e r.1)
unfolding add_instance class_of
add_instance-Kept e a g = grind (arith, find_an_available_id-Kept, length-set)

leave_list-Kept : (e : Engine) (p event : ℕ) (v : Value) → IfOk (leave_list e p event v) (Kept e)
unfolding leave_list
leave_list-Kept e p event v = grind (arith, length-set)

place-Kept :
    (e : Engine) (p event a : ℕ) (r : Handled) → IfOk (place e p event a r) (λ s. Kept e s.1)
unfolding place
place-Kept e p event a r = grind (arith, leave_list-Kept, add_instance-Kept)

conclude-Kept :
    (rule : Rule) (e : Engine) (a : ℕ) (v : Value) → IfOk (conclude rule e a v) (λ s. Kept e s.1)
unfolding conclude store_valid_execution_trace
conclude-Kept rule e a v = grind (arith, reset_engine_for_fsm-Kept, reset_engine_for_instance-Kept)

settle-Kept :
    (rule : Rule) (e : Engine) (a : ℕ) (created : Bool) (counter : ℕ) (v : Value)
    → IfOk (settle rule e a created counter v) (λ s. Kept e s.1)
unfolding settle
settle-Kept rule e a created counter Value.state_changed =
    grind (arith, set_expecting_events_id-Kept)
settle-Kept rule e a created counter Value.inconclusive_state_reached =
    grind (arith, reset_engine_for_instance-Kept)
settle-Kept rule e a created counter Value.final_state_reached =
    conclude-Kept rule e a Value.final_state_reached
settle-Kept rule e a created counter Value.error_state_reached =
    conclude-Kept rule e a Value.error_state_reached
settle-Kept rule e a created counter _ = Kept-refl e

pub process_a_node-Kept :
    (rule : Rule) (e : Engine) (n : TranNode) (event : ℕ) (m : Message)
    → IfOk (process_a_node rule e n event m) (λ s. Kept e s.1)
unfolding process_a_node
process_a_node-Kept rule e n event m = grind (arith, place-Kept, settle-Kept)

walk-Kept :
    (rule : Rule) (k event : ℕ) (m : Message) (cur : Option ℕ) (e : Engine)
    → IfOk (walk rule k event m cur e) (λ s. Kept e s.1)
unfolding walk
walk-Kept rule zero event m cur e = tt
walk-Kept rule (suc k) event m none e = Kept-refl e
walk-Kept rule (suc k) event m (some p) e =
    grind (arith, length-set, process_a_node-Kept, walk-Kept rule k event m)

pub process_event-Kept :
    (rule : Rule) (event : ℕ) (m : Message) (e : Engine)
    → IfOk (process_event rule event m e) (λ s. Kept e s.1)
unfolding process_event
process_event-Kept rule event m e = grind (arith, walk-Kept)

pub process_events-Kept :
    (rule : Rule) (m : Message) (event n : ℕ) (e : Engine)
    → IfOk (process_events rule m event n e) (λ s. Kept e s.1)
unfolding process_events
process_events-Kept rule m event zero e = Kept-refl e
process_events-Kept rule m event (suc n) e =
    grind (arith, process_event-Kept, process_events-Kept rule m (event + 1) n)
