-- ===== src/Fsm/Identity.antt =====
-- The machine's id under a call of `fsm_handle_event` (src/lib/mmt_fsm.c).
use mmt_security.Prelude.{
  ℕ, zero, suc, ◌≡◌, refl, ◌∙◌, List, arith, Run, IfOk, IfOk-bind, IfOk-map, Bool-cases, inl, inr,
}
use mmt_security.Prelude.Bits.{u16}
use mmt_security.Message.{Message}
use mmt_security.Fsm.{
  Fsm, State, Transition, Handled, is_no_change, update_fsm, try_transitions, fire_timeout,
  fire_event, handle_with, handle_event,
}

abbrev KeepsId : (Fsm → ℕ → Run Handled) → Type 0
KeepsId fire = (f : Fsm) (i : ℕ) → IfOk (fire f i) (λ r. r.fsm.id ≡ f.id)

module _ (fire : Fsm → ℕ → Run Handled) (keeps : KeepsId fire) where
  try_transitions-id : (f : Fsm) (k : ℕ) → IfOk (try_transitions fire f k) (λ r. r.1.id ≡ f.id)
  unfolding try_transitions
  try_transitions-id f zero = refl
  try_transitions-id f (suc k) =
      IfOk-bind (fire f (u16 k)) _ (λ r. r.fsm.id ≡ f.id) (λ r. r.1.id ≡ f.id) (keeps f (u16 k))
        (λ r _ p. elim (Bool-cases (is_no_change r.value)) [
          | inr e ↦ rw e p
          | inl e ↦ rw e (
              IfOk-map (try_transitions fire r.fsm k) (λ s. s.1.id ≡ r.fsm.id) (λ s. s.1.id ≡ f.id)
                (try_transitions-id r.fsm k) (λ s q. q ∙ p))
        ])

  update_fsm-id :
      (states : List State) (f : Fsm) (t : Transition) (m : Message)
      → IfOk (update_fsm fire states f t m) (λ r. r.1.id ≡ f.id)
  unfolding update_fsm
  update_fsm-id states f t m = grind (arith, try_transitions-id)

  handle_with-id :
      (states : List State) (f : Fsm) (i : ℕ) (m : Message)
      → IfOk (handle_with fire states f i m) (λ r. r.fsm.id ≡ f.id)
  unfolding handle_with fire_timeout fire_event
  handle_with-id states f i m = grind (arith, update_fsm-id)

pub handle_event-id :
    (n : ℕ) (states : List State) (f : Fsm) (i : ℕ) (m : Message)
    → IfOk (handle_event n states f i m) (λ r. r.fsm.id ≡ f.id)
unfolding handle_event
handle_event-id zero states f i m = tt
handle_event-id (suc n) states f i m =
    handle_with-id (λ g j. handle_event n states g j m) (λ g j. handle_event-id n states g j m)
      states f i m
