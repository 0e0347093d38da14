-- ===== src/Handler/Consistent.antt =====
-- The masks of a handler against those of its engines (src/lib/mmt_single_security.c).
use Prim.Native.Nat.{bit_and, bit_or}
use mmt_security.Prelude.{
  IfOk-trivial, ℕ, ◌+◌, ◌≡◌, refl, sym, ◌∙◌, ap, ◌==◌, Option, List, [], ◌∷◌, ◌++◌, Bool, true,
  false, arith, ok, IfOk, IfOk-bind, All, All-append, Bool-cases, inl, inr, length,
}
use mmt_security.Prelude.Bits.{u64}
use mmt_security.Message.{Message}
use mmt_security.Fsm.{Fsm, Value}
use mmt_security.Rule.{Rule, ProtoAttribute, is_unknown}
use mmt_security.Engine.Store.{Engine}
use mmt_security.Engine.Kept.{process_event-Kept, process_events-Kept}
use mmt_security.Engine.Process.{
  rule_engine_process, process_multi_packets, process_single_packet, process_timeouts,
  conclude_single, store_valid_execution_trace,
}
use mmt_security.Engine.Init.{rule_engine_init}
use mmt_security.Flows.FlowSet.{FlowSet}
use mmt_security.Handler.{
  Entry, Handler, alert, verify_rule, verify_rules, single_sec_process, ignore_trace,
  is_ignore_remain_flow, combine_masks, combine_rules, new_entry, new_entries, single_sec_register,
}
use mmt_security.Handler.Rules.{add_rules, to_be_added}

-- The mask of an entry is the combination of those of its engine's events.
abbrev pub IsMasked : Entry → Type 0
IsMasked e = combine_masks e.engine.events_hash 0 e.engine.events_count 0 ≡ ok e.rule_hash

-- The mask of the handler is the combination of those of its rules.
pub record IsConsistent (h : Handler) : Type 0 where
  pub rules : All IsMasked h.entries
  pub all : h.hash ≡ combine_rules 0 h.entries

-- What processing keeps of an engine here.
abbrev SameMasks : Engine → Engine → Type 0
SameMasks e e' = (e'.events_hash ≡ e.events_hash) × (e'.events_count ≡ e.events_count)

process_multi_packets-masks :
    (rule : Rule) (m : Message) (e : Engine)
    → IfOk (process_multi_packets rule m e) (λ s. SameMasks e s.1)
unfolding process_multi_packets process_timeouts
process_multi_packets-masks rule m e = grind (arith, process_events-Kept, process_event-Kept)

conclude_single-masks :
    (rule : Rule) (e : Engine) (v : Value) (f : Fsm)
    → IfOk (conclude_single rule e v f) (λ s. SameMasks e s.1)
unfolding conclude_single store_valid_execution_trace
conclude_single-masks rule e v f = ground arith

process_single_packet-masks :
    (rule : Rule) (m : Message) (e : Engine)
    → IfOk (process_single_packet rule m e) (λ s. SameMasks e s.1)
unfolding process_single_packet
process_single_packet-masks rule m e = grind (arith, conclude_single-masks)

rule_engine_process-masks :
    (rule : Rule) (single : Bool) (m : Message) (e : Engine)
    → IfOk (rule_engine_process rule single m e) (λ s. SameMasks e s.1)
unfolding rule_engine_process
rule_engine_process-masks rule true m e = process_single_packet-masks rule m e
rule_engine_process-masks rule false m e = process_multi_packets-masks rule m e

-- Processing changes neither the mask of an entry nor its combination with others.
abbrev SameRule : Entry → Entry → Type 0
SameRule e e' = IsMasked e' × (e'.rule_hash ≡ e.rule_hash)

masked :
    (e : Entry) (engine : Engine) (n : ℕ)
    → SameMasks e.engine engine
    → IsMasked e
    → IsMasked (record e { engine = engine; alerts_count = n })
masked e engine n (p, q) h = rw (p, q) h

verify_rule-SameRule :
    (b : Bool) (m : Message) (e : Entry) (flows : Option FlowSet)
    → IsMasked e
    → IfOk (verify_rule b m e flows) (λ r. SameRule e r.0)
unfolding verify_rule alert
verify_rule-SameRule b m e flows h = elim (Bool-cases (bit_and m.hash e.rule_hash == 0)) [
  | inl q ↦ rw q (h, refl)
  | inr q ↦ rw q (
      IfOk-bind (rule_engine_process e.rule e.single m e.engine) _ (λ s. SameMasks e.engine s.1)
        (λ r. SameRule e r.0) (rule_engine_process-masks e.rule e.single m e.engine)
        (λ (v, engine) _ p. elim (Bool-cases (is_unknown v)) [
          | inl u ↦ rw u (masked e engine e.alerts_count p h, refl)
          | inr u ↦ rw u (
              IfOk-bind (ignore_trace engine.valid_execution_trace flows) _ (λ _. Unit {0})
                (λ r. SameRule e r.0) (IfOk-trivial _)
                (λ flows' _ _. (masked e engine (u64 (e.alerts_count + 1)) p h, refl)))
        ]))
]

verify_rules-SameRule :
    (b : Bool) (m : Message) (es : List Entry) (flows : Option FlowSet)
    → All IsMasked es
    → IfOk
        (verify_rules b m es flows)
        λ r. All IsMasked r.entries × ((n : ℕ) → combine_rules n r.entries ≡ combine_rules n es)
unfolding verify_rules combine_rules
verify_rules-SameRule b m [] flows h = (tt, λ n. refl)
verify_rules-SameRule b m (e ∷ es) flows (h, hs) =
    IfOk-bind (verify_rule b m e flows) _ (λ r. SameRule e r.0) _
      (verify_rule-SameRule b m e flows h)
      (λ (e', flows', calls) _ p.
        IfOk-bind (verify_rules b m es flows') _
          (λ r. All IsMasked r.entries × ((n : ℕ) → combine_rules n r.entries ≡ combine_rules n es))
          _ (verify_rules-SameRule b m es flows' hs)
          (λ r _ q. ((p.0, q.0), λ n. rw p.1 (q.1 (bit_or n e.rule_hash)))))

-- Processing a message keeps a handler consistent.
pub single_sec_process-IsConsistent :
    (h : Handler) (m : Message)
    → IsConsistent h
    → IfOk (single_sec_process h m) (λ r. IsConsistent r.0)
unfolding single_sec_process
single_sec_process-IsConsistent h m c = elim (Bool-cases (bit_and m.hash h.hash == 0)) [
  | inl q ↦ rw q c
  | inr q ↦ rw q (
      IfOk-bind (is_ignore_remain_flow h.flow_ids_to_ignore m.flow_id) _ (λ _. Unit {0})
        (λ r. IsConsistent r.0) (IfOk-trivial _)
        (λ ignored _ _. elim (Bool-cases ignored) [
          | inl i ↦ rw i c
          | inr i ↦ rw i (
              IfOk-bind (verify_rules h.has_callback m h.entries h.flow_ids_to_ignore) _
                (λ r.
                  All IsMasked r.entries
                  × ((n : ℕ) → combine_rules n r.entries ≡ combine_rules n h.entries))
                (λ r. IsConsistent r.0)
                (verify_rules-SameRule h.has_callback m h.entries h.flow_ids_to_ignore c.rules)
                (λ r _ p. record { rules = p.0; all = c.all ∙ sym (p.1 0) }))
        ]))
]

new_entry-IsMasked :
    (atts : List ProtoAttribute) (n : ℕ) (r : Rule) → IfOk (new_entry atts n r) IsMasked
unfolding new_entry
new_entry-IsMasked atts n r =
    IfOk-bind (rule_engine_init atts r n) _ (λ _. Unit {0}) IsMasked (IfOk-trivial _)
      (λ (single, engine) _ _.
        IfOk-bind (combine_masks engine.events_hash 0 engine.events_count 0) _ (λ _. Unit {0})
          IsMasked (IfOk-trivial _) (λ hash e _. e))

new_entries-IsMasked :
    (atts : List ProtoAttribute) (n : ℕ) (rs : List Rule)
    → IfOk (new_entries atts n rs) (All IsMasked)
unfolding new_entries
new_entries-IsMasked atts n [] = tt
new_entries-IsMasked atts n (r ∷ rs) =
    IfOk-bind (new_entry atts n r) _ IsMasked (All IsMasked) (new_entry-IsMasked atts n r) (λ e _ p.
      IfOk-bind (new_entries atts n rs) _ (All IsMasked) (All IsMasked)
        (new_entries-IsMasked atts n rs) (λ es _ q. (p, q)))

-- A handler that is registered is consistent.
pub single_sec_register-IsConsistent :
    (atts : List ProtoAttribute) (n : ℕ) (rs : List Rule) (b : Bool)
    → IfOk (single_sec_register atts n rs b) IsConsistent
unfolding single_sec_register
single_sec_register-IsConsistent atts n rs b =
    IfOk-bind (new_entries atts n rs) _ (All IsMasked) IsConsistent (new_entries-IsMasked atts n rs)
      (λ es _ p. record { rules = p; all = refl })

combine_rules-append :
    (n : ℕ) (xs ys : List Entry)
    → combine_rules n (xs ++ ys) ≡ combine_rules (combine_rules n xs) ys
unfolding combine_rules
combine_rules-append n [] ys = refl
combine_rules-append n (x ∷ xs) ys = combine_rules-append (bit_or n x.rule_hash) xs ys

-- Adding rules keeps a handler consistent.
pub add_rules-IsConsistent :
    (atts : List ProtoAttribute) (n : ℕ) (rules : List Rule) (ids : List ℕ) (h : Handler)
    → IsConsistent h
    → IfOk (add_rules atts n rules ids h) (λ r. IsConsistent r.1)
unfolding add_rules
add_rules-IsConsistent atts n rules ids h c = elim (Bool-cases (length ids == 0)) [
  | inl q ↦ rw q c
  | inr q ↦ elim (Bool-cases (length (to_be_added ids h.entries rules) == 0)) [
    | inl p ↦ rw (q, p) c
    | inr p ↦
        rw (q, p)
          (IfOk-bind (new_entries atts n (to_be_added ids h.entries rules)) _ (All IsMasked)
            (λ r. IsConsistent r.1) (new_entries-IsMasked atts n (to_be_added ids h.entries rules))
            (λ es _ k. record {
              rules = All-append IsMasked h.entries es c.rules k;
              all = ap (λ x. combine_rules x es) c.all ∙ sym (combine_rules-append 0 h.entries es);
            }))
  ]
]
