-- ===== src/Engine/Stateless.antt =====
-- The bootstrap machine of an engine over single packets (`_process_single_packet`), from one
-- message to the next.
use mmt_security.Prelude.{
  IfOk-trivial, ℕ, zero, suc, ◌≡◌, refl, ◌∙◌, ap, inl, inr, none, some, Option, List, [], ◌∷◌, Bool,
  true, false, not, ◌||◌, arith, set, Run, ok, fault, ◌>>=◌, IfOk, IfOk-bind, Bool-cases, at, ◌==◌,
  if◌then◌else◌,
}
use mmt_security.Message.{Message}
use mmt_security.Fsm.{Fsm, State, Value, clear_trace, reset, last_value, handle_single_packet}
use mmt_security.Rule.{Rule, Verdict, get_verdict, is_unknown}
use mmt_security.Engine.Store.{Engine, store}
use mmt_security.Engine.Process.{
  conclude_single, process_single_packet, store_valid_execution_trace, copy_trace, covers,
}

clear_trace-set :
    (t : List (Option Message)) (i : ℕ) (v : Option Message)
    → clear_trace (set t i v) ≡ clear_trace t
clear_trace-set [] i v = refl
clear_trace-set (x ∷ t) zero v = refl
clear_trace-set (x ∷ t) (suc i) v = ap (λ l. none ∷ l) (clear_trace-set t i v)

-- The values after which the machine is not reset.
abbrev stays : Value → Bool
stays Value.no_state_change = true
stays Value.state_changed = true
stays Value.state_loop_self = true
stays _ = false

last_value-stays : (f : Fsm) (s : ℕ) → stays (last_value f s) ≡ false
unfolding last_value
last_value-stays f s = ground arith

-- The fast path leaves the machine as it was, or one that is like it once both are reset.
abbrev Restores : Fsm → Value × Fsm → Type 0
Restores f r = (stays r.0 ≡ true → r.1 ≡ f) × (reset r.1 ≡ reset f)

handle_single_packet-Restores :
    (states : List State) (f : Fsm) (m : Message)
    → IfOk (handle_single_packet states f m) (Restores f)
unfolding handle_single_packet reset
handle_single_packet-Restores states f m = grind (arith, clear_trace-set, last_value-stays)

-- The machine that stands for the rule is as it was, and so are the masks.
abbrev pub IsRestored : Engine → Fsm → Engine → Type 0
IsRestored e f e' =
    (e'.fsm_bootstrap ≡ e.fsm_bootstrap)
    × (e'.events_hash ≡ e.events_hash)
    × (e'.fsms e.fsm_bootstrap ≡ some f)

stored : (e : Engine) (f g : Fsm) → g ≡ f → IsRestored e f (store e e.fsm_bootstrap (some g))
stored e f g h =
    let self : (e.fsm_bootstrap == e.fsm_bootstrap) ≡ true = ground arith in
    (refl, refl, rw self (ap some h))

-- A last state: the machine is reset.
settled :
    (rule : Rule) (e : Engine) (f g : Fsm) (v : Value)
    → reset g ≡ f
    → IfOk {A = Verdict × Engine}
        (get_verdict rule.type_id v >>= λ w.
          (if is_unknown w then ok e else store_valid_execution_trace e g) >>= λ e'.
          ok (w, store e' e'.fsm_bootstrap (some (reset g))))
        (λ s. IsRestored e f s.1)
unfolding store_valid_execution_trace
settled rule e f g v h =
    IfOk-bind (get_verdict rule.type_id v) _ (λ _. Unit {0}) (λ s. IsRestored e f s.1)
      (IfOk-trivial _)
      (λ w _ _. elim (Bool-cases (is_unknown w)) [
        | inl q ↦ rw q (stored e f (reset g) h)
        | inr q ↦ rw q (kept w (copy_trace e.events_count g.execution_trace))
      ])
  where
    kept :
        (w : Verdict) (r : Run (List (Option Message)))
        → IfOk {A = Verdict × Engine}
            ((r >>= λ trace. ok (record e { valid_execution_trace = trace })) >>= λ e'.
              ok (w, store e' e'.fsm_bootstrap (some (reset g))))
            (λ s. IsRestored e f s.1)
    kept w (fault c) = tt
    kept w (ok trace) = stored (record e { valid_execution_trace = trace }) f (reset g) h

conclude_single-IsRestored :
    (rule : Rule) (e : Engine) (f g : Fsm) (v : Value)
    → reset f ≡ f
    → Restores f (v, g)
    → IfOk (conclude_single rule e v g) (λ s. IsRestored e f s.1)
unfolding conclude_single
conclude_single-IsRestored rule e f g Value.err_arg clean h = tt
conclude_single-IsRestored rule e f g Value.no_state_change clean h = stored e f g (h.0 refl)
conclude_single-IsRestored rule e f g Value.state_changed clean h = stored e f g (h.0 refl)
conclude_single-IsRestored rule e f g Value.state_loop_self clean h = stored e f g (h.0 refl)
conclude_single-IsRestored rule e f g Value.error_state_reached clean h =
    settled rule e f g Value.error_state_reached (h.1 ∙ clean)
conclude_single-IsRestored rule e f g Value.final_state_reached clean h =
    settled rule e f g Value.final_state_reached (h.1 ∙ clean)
conclude_single-IsRestored rule e f g Value.inconclusive_state_reached clean h =
    settled rule e f g Value.inconclusive_state_reached (h.1 ∙ clean)

-- If the bootstrap machine of an engine is one that resetting does not change, then, when processing
-- a single packet returns, the bootstrap machine stands at its address as it was before, whatever the
-- verdict, and the masks of the events are the same.
pub process_single_packet-IsRestored :
    (rule : Rule) (m : Message) (e : Engine) (f : Fsm)
    → e.fsms e.fsm_bootstrap ≡ some f
    → reset f ≡ f
    → IfOk (process_single_packet rule m e) (λ s. IsRestored e f s.1)
unfolding process_single_packet
process_single_packet-IsRestored rule m e f here clean =
    IfOk-bind (at e.events_hash 1) _ (λ _. Unit {0}) (λ s. IsRestored e f s.1) (IfOk-trivial _)
      (λ first _ _.
        IfOk-bind (at e.events_hash 2) _ (λ _. Unit {0}) (λ s. IsRestored e f s.1) (IfOk-trivial _)
          (λ second _ _.
            elim (Bool-cases (not (covers m.hash first) || not (covers m.hash second))) [
              | inl q ↦ rw q (refl, refl, here)
              | inr q ↦
                  rw (q, here)
                    (IfOk-bind (handle_single_packet rule.states f m) _ (Restores f)
                      (λ s. IsRestored e f s.1) (handle_single_packet-Restores rule.states f m)
                      (λ r _ p. conclude_single-IsRestored rule e f r.1 r.0 clean p))
            ]))
