-- ===== src/Handler/Alerts.antt =====
-- The alerts that a handler counts and the calls that it makes (`mmt_single_sec_process`).
use Prim.Native.Nat.{bit_and}
use mmt_security.Prelude.{
  IfOk-trivial, ℕ, ◌+◌, ◌≡◌, refl, ◌==◌, Option, List, [], ◌∷◌, ◌++◌, true, false, arith, IfOk,
  IfOk-bind, All, All-append, Bool-cases, inl, inr,
}
use mmt_security.Prelude.Bits.{u64}
use mmt_security.Message.{Message}
use mmt_security.Rule.{Rule, Verdict, is_unknown}
use mmt_security.Engine.Process.{rule_engine_process}
use mmt_security.Flows.FlowSet.{FlowSet}
use mmt_security.Handler.{
  Entry, Handler, Call, rule_callback, user_callback, calls_of, Verified, alert, verify_rule,
  verify_rules, single_sec_process, total_alerts, ignore_trace, is_ignore_remain_flow,
}

-- How often the user was called.
pub user_calls : List Call → ℕ
user_calls [] = 0
user_calls (rule_callback id v t c trace ∷ calls) = user_calls calls
user_calls (user_callback id v t c trace ∷ calls) = user_calls calls + 1

user_calls-append : (xs ys : List Call) → user_calls (xs ++ ys) ≡ user_calls xs + user_calls ys
unfolding user_calls
user_calls-append [] ys = omega arith
user_calls-append (rule_callback id v t c trace ∷ xs) ys = user_calls-append xs ys
user_calls-append (user_callback id v t c trace ∷ xs) ys = omega (arith, user_calls-append xs ys)

-- A call tells of a verdict on the message.
abbrev pub Tells : Message → Call → Type 0
Tells m (rule_callback id v t c trace) =
    (is_unknown v ≡ false) × (t ≡ m.timestamp) × (c ≡ m.counter)
Tells m (user_callback id v t c trace) =
    (is_unknown v ≡ false) × (t ≡ m.timestamp) × (c ≡ m.counter)

calls_of-alert :
    (rule : Rule) (v : Verdict) (m : Message) (trace : List (Option Message))
    → is_unknown v ≡ false
    → (user_calls (calls_of true rule v m trace) ≡ 1) × All (Tells m) (calls_of true rule v m trace)
unfolding calls_of user_calls
calls_of-alert rule v m trace h = elim (Bool-cases rule.has_callback) [
  | inl q ↦ rw q (refl, ((h, refl, refl), ((h, refl, refl), tt)))
  | inr q ↦ rw q (refl, ((h, refl, refl), tt))
]

-- One round of the loop: the alerts of the entry grow by the calls of the user.
abbrev Counted : Message → Entry → Entry × Option FlowSet × List Call → Type 0
Counted m e r = (u64 r.0.alerts_count ≡ u64 (e.alerts_count + user_calls r.2)) × All (Tells m) r.2

verify_rule-Counted :
    (m : Message) (e : Entry) (flows : Option FlowSet)
    → IfOk (verify_rule true m e flows) (Counted m e)
unfolding verify_rule alert user_calls
verify_rule-Counted m e flows = elim (Bool-cases (bit_and m.hash e.rule_hash == 0)) [
  | inl q ↦ rw q (omega arith, tt)
  | inr q ↦ rw q (
      IfOk-bind (rule_engine_process e.rule e.single m e.engine) _ (λ _. Unit {0}) (Counted m e)
        (IfOk-trivial _)
        (λ (v, engine) _ _. elim (Bool-cases (is_unknown v)) [
          | inl u ↦ rw u (omega arith, tt)
          | inr u ↦ rw u (
              IfOk-bind (ignore_trace engine.valid_execution_trace flows) _ (λ _. Unit {0})
                (Counted m e) (IfOk-trivial _)
                (λ flows' _ _.
                  let (one, tells) = calls_of-alert e.rule v m engine.valid_execution_trace u in
                  (omega (arith, one), tells)))
        ]))
]

-- The whole loop.
abbrev CountedAll : Message → List Entry → Verified → Type 0
CountedAll m es r =
    (total_alerts r.entries ≡ u64 (total_alerts es + user_calls r.calls)) × All (Tells m) r.calls

verify_rules-Counted :
    (m : Message) (es : List Entry) (flows : Option FlowSet)
    → IfOk (verify_rules true m es flows) (CountedAll m es)
unfolding verify_rules total_alerts user_calls
verify_rules-Counted m [] flows = (refl, tt)
verify_rules-Counted m (e ∷ es) flows =
    IfOk-bind (verify_rule true m e flows) _ (Counted m e) (CountedAll m (e ∷ es))
      (verify_rule-Counted m e flows)
      (λ (e', flows', calls) _ p.
        IfOk-bind (verify_rules true m es flows') _ (CountedAll m es) (CountedAll m (e ∷ es))
          (verify_rules-Counted m es flows')
          (λ r _ q. (
            omega (arith, user_calls-append calls r.calls, p.0, q.0),
            All-append (Tells m) calls r.calls p.1 q.1,
          )))

-- What a message does to the count of alerts, and what its calls tell.
abbrev pub IsCounted : Handler → Message → Handler × List Call → Type 0
IsCounted h m r =
    (total_alerts r.0.entries ≡ u64 (total_alerts h.entries + user_calls r.1)) × All (Tells m) r.1

total_alerts-u64 : (es : List Entry) → u64 (total_alerts es) ≡ total_alerts es
unfolding total_alerts
total_alerts-u64 [] = refl
total_alerts-u64 (e ∷ es) = omega arith

-- For a handler with a function of the user, the sum of alerts, which is what unregistering it
-- returns, grows with each message by the number of calls of that function, up to the wrap-around
-- of 64 bits; and each call tells of a verdict that is known, at the time and counter of the
-- message.
pub single_sec_process-IsCounted :
    (h : Handler) (m : Message)
    → h.has_callback ≡ true
    → IfOk (single_sec_process h m) (IsCounted h m)
unfolding single_sec_process user_calls
single_sec_process-IsCounted h m on = elim (Bool-cases (bit_and m.hash h.hash == 0)) [
  | inl q ↦ rw q (omega (arith, total_alerts-u64 h.entries), tt)
  | inr q ↦ rw q (
      IfOk-bind (is_ignore_remain_flow h.flow_ids_to_ignore m.flow_id) _ (λ _. Unit {0})
        (IsCounted h m) (IfOk-trivial _)
        (λ ignored _ _. elim (Bool-cases ignored) [
          | inl i ↦ rw i (omega (arith, total_alerts-u64 h.entries), tt)
          | inr i ↦
              rw (i, on)
                (IfOk-bind (verify_rules true m h.entries h.flow_ids_to_ignore) _
                  (CountedAll m h.entries) (IsCounted h m)
                  (verify_rules-Counted m h.entries h.flow_ids_to_ignore) (λ r _ p. p))
        ]))
]
