-- ===== src/Engine/Verdicts.antt =====
-- What the verdict on a message means.
use mmt_security.Prelude.{
  IfOk-trivial, ℕ, ◌≡◌, refl, ◌⊎◌, inl, inr, some, Bool, arith, Run, ok, fault, IfOk, IfOk-bind,
  IfOk-map, Option-cases, Bool-cases,
}
use mmt_security.Prelude.Bits.{u16}
use mmt_security.Message.{Message}
use mmt_security.Fsm.{Fsm, Value, Handled, final_state_reached, error_state_reached, handle_event}
use mmt_security.Rule.{
  Rule, RuleType, Verdict, attack, security, evasion, test, forward, detected, not_detected,
  respected, not_respected, unknown, is_unknown, get_verdict,
}
use mmt_security.Engine.Store.{TranNode, Engine, load, store, set_expecting_events_id}
use mmt_security.Engine.Reset.{reset_engine_for_fsm, reset_engine_for_instance}
use mmt_security.Engine.Process.{
  process_a_node, place, settle, conclude, is_new, depth, store_valid_execution_trace,
}

-- What a verdict tells of the state in which the machine stopped: an attack, an evasion or a
-- forwarding rule is detected in the final state only; a test or a security rule is not respected in
-- the error state only; only a test is respected, in the final state; no rule is not detected. The
-- listing in doc/verdict.md has no case for forwarding rules and halts on them, and doc/rule.md lets
-- a security rule that is satisfied give `not_respected`.
abbrev pub Means : RuleType → Value → Verdict → Type 0
Means t v detected = (v ≡ final_state_reached) × ((t ≡ attack) ⊎ ((t ≡ evasion) ⊎ (t ≡ forward)))
Means t v respected = (v ≡ final_state_reached) × (t ≡ test)
Means t v not_respected = (v ≡ error_state_reached) × ((t ≡ test) ⊎ (t ≡ security))
Means t v not_detected = ⊥
Means t v unknown = Unit

get_verdict-Means : (t : RuleType) (v : Value) {w : Verdict} → get_verdict t v ≡ ok w → Means t v w
unfolding get_verdict
get_verdict-Means t v {w = detected} h = ground arith
get_verdict-Means t v {w = not_detected} h = ground arith
get_verdict-Means t v {w = respected} h = ground arith
get_verdict-Means t v {w = not_respected} h = ground arith
get_verdict-Means t v {w = unknown} h = tt

-- What stands behind a verdict that a node yields: the machine of the node was asked to fire the
-- node's transition at the message, and the state that the call reached gives the verdict.
pub record IsGrounded (rule : Rule) (e : Engine) (n : TranNode) (m : Message) (w : Verdict)
    : Type 0 where
  pub fsm : Fsm
  pub loaded : e.fsms n.fsm ≡ some fsm
  pub handled : Handled
  pub fired : handle_event (depth rule.states) rule.states fsm (u16 n.index) m ≡ ok handled
  pub means : Means rule.type_id handled.value w

conclude-Means :
    (rule : Rule) (e : Engine) (a : ℕ) (v : Value)
    → IfOk (conclude rule e a v) (λ s. Means rule.type_id v s.0)
unfolding conclude
conclude-Means rule e a v =
    IfOk-bind (get_verdict rule.type_id v) _ (λ w. Means rule.type_id v w)
      (λ s. Means rule.type_id v s.0)
      (meant (get_verdict rule.type_id v) (λ w h. get_verdict-Means rule.type_id v h))
      (λ w _ means.
        IfOk-bind (load e a) _ (λ _. Unit {0}) (λ s. Means rule.type_id v s.0) (IfOk-trivial _)
          (λ f _ _. elim (Bool-cases (is_unknown w)) [
            | inl q ↦ rw q (
                IfOk-bind (reset_engine_for_instance e a) _ (λ _. Unit {0})
                  (λ s. Means rule.type_id v s.0) (IfOk-trivial _) (λ _ _ _. tt))
            | inr q ↦ rw q (
                IfOk-bind (store_valid_execution_trace e f) _ (λ _. Unit {0})
                  (λ s. Means rule.type_id v s.0) (IfOk-trivial _)
                  (λ e₁ _ _.
                    IfOk-bind (reset_engine_for_fsm e₁ a) _ (λ _. Unit {0})
                      (λ s. Means rule.type_id v s.0) (IfOk-trivial _) (λ _ _ _. means)))
          ]))
  where
    meant :
        (r : Run Verdict)
        → ((w : Verdict) → r ≡ ok w → Means rule.type_id v w)
        → IfOk r (λ w. Means rule.type_id v w)
    meant (ok w) k = k w refl
    meant (fault x) k = tt

settle-Means :
    (rule : Rule) (e : Engine) (a : ℕ) (created : Bool) (counter : ℕ) (v : Value)
    → IfOk (settle rule e a created counter v) (λ s. Means rule.type_id v s.0)
unfolding settle
settle-Means rule e a created counter Value.state_changed =
    IfOk-bind (set_expecting_events_id rule e a created counter) _ (λ _. Unit {0})
      (λ s. Means rule.type_id Value.state_changed s.0) (IfOk-trivial _) (λ _ _ _. tt)
settle-Means rule e a created counter Value.inconclusive_state_reached =
    IfOk-bind (reset_engine_for_instance e a) _ (λ _. Unit {0})
      (λ s. Means rule.type_id Value.inconclusive_state_reached s.0) (IfOk-trivial _) (λ _ _ _. tt)
settle-Means rule e a created counter Value.final_state_reached =
    conclude-Means rule e a Value.final_state_reached
settle-Means rule e a created counter Value.error_state_reached =
    conclude-Means rule e a Value.error_state_reached
settle-Means rule e a created counter _ = tt

-- Any verdict that processing a node of the waiting lists gives is grounded: the node's machine, as
-- it stood, was asked to fire the node's transition at the message, the call returned, and the
-- state that it reached is one that, by `Means`, this verdict tells of for the type of the rule.
pub verdict-IsGrounded :
    (rule : Rule) (e : Engine) (n : TranNode) (event : ℕ) (m : Message)
    → IfOk (process_a_node rule e n event m) (λ s. IsGrounded rule e n m s.0)
unfolding process_a_node
verdict-IsGrounded rule e n event m = elim (Option-cases (e.fsms n.fsm)) [
  | inl q ↦ rw q tt
  | inr (f, q) ↦ rw q (
      IfOk-bind (handle_event (depth rule.states) rule.states f (u16 n.index) m) _ (λ _. Unit {0})
        (λ s. IsGrounded rule e n m s.0) (IfOk-trivial _)
        (λ r fired _.
          IfOk-bind (place (store e n.fsm (some r.fsm)) n.node event n.fsm r) _ (λ _. Unit {0})
            (λ s. IsGrounded rule e n m s.0) (IfOk-trivial _)
            (λ s _ _.
              IfOk-map (settle rule s.1 s.0 (is_new r.new_fsm) m.counter r.value)
                (λ t. Means rule.type_id r.value t.0) (λ t. IsGrounded rule e n m t.0)
                (settle-Means rule s.1 s.0 (is_new r.new_fsm) m.counter r.value)
                (λ t means. record {
                  fsm = f;
                  loaded = q;
                  handled = r;
                  fired = fired;
                  means = means;
                }))))
]
