-- ===== src/Fsm/Firing.antt =====
-- When a call of `fsm_handle_event` fires a transition, and which.
use mmt_security.Prelude.{
  ℕ, suc, ◌<◌, ◌≤◌, ◌≡◌, ◌≢◌, none, some, List, true, false, arith, get_elem?, ok, ◌⊎◌, inl, inr,
  Option-cases,
}
use mmt_security.Message.{Message}
use mmt_security.Fsm.{
  Fsm, State, Transition, Handled, create_instance, is_no_change, guard_holds, pending_timeout,
  fire_timeout, fire_event, handle_with, handle_event, timeout_type,
}

-- The deadline of the wait in state `s` is past when `m` comes, and the state has a timeout.
pub record IsOverdue (s : State) (f : Fsm) (m : Message) (timeout : Transition) : Type 0 where
  pub waiting : s.is_temporary ≡ false
  pub started : f.current_state ≢ f.init_state
  pub late : f.time_max < m.timestamp
  pub first : get_elem? s.transitions 0 ≡ some timeout
  pub is_timeout : timeout.event_type ≡ timeout_type

-- The transition is an event whose guard holds of the message.
pub record IsEnabled (f : Fsm) (m : Message) (tran : Transition) : Type 0 where
  pub is_event : tran.event_type ≢ timeout_type
  pub accepted : guard_holds tran.guard m (record f { current_event_id = tran.event_type }) ≡ true

pending_timeout-IsOverdue :
    (s : State) (f : Fsm) (m : Message) {timeout : Transition}
    → pending_timeout s f m ≡ some timeout
    → IsOverdue s f m timeout
unfolding pending_timeout
pending_timeout-IsOverdue s f m h = record {
  waiting = ground arith;
  started = ground arith;
  late = ground arith;
  first = ground arith;
  is_timeout = ground arith;
}

fire_event-IsEnabled :
    (n : ℕ) (states : List State) (f : Fsm) (tran : Transition) (m : Message) {r : Handled}
    → fire_event (λ g j. handle_event n states g j m) states f tran m ≡ ok r
    → is_no_change r.value ≡ false
    → IsEnabled f m tran
unfolding fire_event
fire_event-IsEnabled n states f tran m h c = record {
  is_event = ground arith;
  accepted = ground arith;
}

module _ (n : ℕ) (states : List State) (f : Fsm) (i : ℕ) (m : Message) {s : State}
    {tran : Transition} (here : get_elem? states f.current_state ≡ some s)
    (there : get_elem? s.transitions i ≡ some tran) where
  -- A call that reports a change was not early, and it either fired the timeout of a state whose
  -- deadline is past, or the requested transition is an event whose guard accepts the message
  -- while no timeout is pending.
  pub change_needs_cause :
      {r : Handled}
      → handle_event (suc n) states f i m ≡ ok r
      → is_no_change r.value ≡ false
      → (f.time_min ≤ m.timestamp)
        × (((timeout : Transition) × IsOverdue s f m timeout)
            ⊎ ((pending_timeout s f m ≡ none) × IsEnabled f m tran))
  unfolding handle_event handle_with
  change_needs_cause {r} h c = (
    ground arith,
    elim (Option-cases (pending_timeout s f m)) [
      | inr (timeout, e) ↦ inl (timeout, pending_timeout-IsOverdue s f m e)
      | inl e ↦ inr (e, fire_event-IsEnabled n states f tran m {r = r} (ground arith) c)
    ],
  )

  -- A call that creates an instance does it for a transition that asks for one, and changes
  -- nothing of the machine itself but the event that it notes.
  pub creator_unchanged :
      {r : Handled} {g : Fsm}
      → handle_event (suc n) states f i m ≡ ok r
      → r.new_fsm ≡ some g
      → (tran.action ≡ create_instance)
        × IsEnabled f m tran
        × (r.fsm ≡ record f { current_event_id = tran.event_type })
  unfolding handle_event handle_with fire_timeout fire_event
  creator_unchanged h e =
      (ground arith, record { is_event = ground arith; accepted = ground arith }, ground arith)
