-- ===== src/Fsm/Deadline.antt =====
-- The delays of a state, as the time that may pass between two events.
use mmt_security.Prelude.{
  ℕ, suc, ◌+◌, ◌^◌, ◌<◌, ◌≤◌, ◌≡◌, ◌≢◌, none, some, List, false, arith, get_elem?, Run, ok,
}
use mmt_security.Prelude.Bits.{u64}
use mmt_security.Message.{Message}
use mmt_security.Fsm.{
  Fsm, State, Transition, Handled, is_no_change, state_changed, update_fsm, pending_timeout,
  handle_with, handle_event, timeout_type, is_last,
}

module _ (fire : Fsm → ℕ → Run Handled) (states : List State) (f g : Fsm) (t : Transition)
    (m : Message) {w : State} (entered : update_fsm fire states f t m ≡ ok (state_changed, g))
    (there : get_elem? states t.target_state ≡ some w) (more : is_last w ≡ false)
    (steady : w.is_temporary ≡ false) where
  entered_deadlines :
      (u64 (w.time_min + m.timestamp) ≤ g.time_min)
      × (g.time_max ≤ u64 (w.time_max + m.timestamp))
      × (g.current_state ≡ t.target_state)
      × (g.init_state ≡ f.init_state)
  unfolding update_fsm
  entered_deadlines = (ground arith, ground arith, ground arith, ground arith)

  -- The machine entered the waiting state `w` at the message `m`. If it then accepts an event at
  -- `m'` other than by a timeout, the time between the two messages lies within the delay of `w`,
  -- as long as the deadlines do not wrap around 64 bits and `w` is not the initial state.
  pub accepted_within_delay :
      (n i : ℕ) (m' : Message) {timeout : Transition} {r : Handled}
      → w.time_min ≤ w.time_max
      → w.time_max + m.timestamp < 2 ^ 64
      → t.target_state ≢ f.init_state
      → get_elem? w.transitions 0 ≡ some timeout
      → timeout.event_type ≡ timeout_type
      → pending_timeout w g m' ≡ none
      → handle_event (suc n) states g i m' ≡ ok r
      → is_no_change r.value ≡ false
      → (m.timestamp + w.time_min ≤ m'.timestamp) × (m'.timestamp ≤ m.timestamp + w.time_max)
  unfolding handle_event handle_with pending_timeout
  accepted_within_delay n i m' order small other first is_timeout quiet h c =
      (ground (arith, entered_deadlines), ground (arith, entered_deadlines))
