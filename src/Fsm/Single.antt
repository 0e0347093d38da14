-- ===== src/Fsm/Single.antt =====
-- Rules over a single packet: `fsm_handle_single_packet` against the general `fsm_handle_event`.
use mmt_security.Prelude.{
  ℕ, suc, ◌≤◌, ◌≡◌, refl, Option, none, some, List, [], ◌∷◌, Bool, true, false, arith, length,
  length-set, set, get_elem?, Run, ok, Ensures, ◌⊎◌, ◌&&◌, not, if◌then◌else◌,
}
use mmt_security.Message.{Message}
use mmt_security.Fsm.{
  Fsm, State, Transition, Handled, no_state_change, guard_holds, update_fsm, last_value,
  try_transitions, pending_timeout, fire_event, handle_with, handle_event, handle_single_packet,
  is_verifying_single_packet, is_last,
}

-- A guard of the plugin reads the machine's history, by `fsm_get_history`, and nothing else of it.
abbrev pub ReadsHistory : Option (Message → Fsm → Bool) → Type 0
ReadsHistory guard =
    (m : Message) (f g : Fsm)
    → f.execution_trace ≡ g.execution_trace
    → guard_holds guard m f ≡ guard_holds guard m g

-- The rule's table around a machine `f` over one packet: the initial state has the transition
-- `first` alone, to the temporary state that waits with `timeout` and `second`; the latter ends
-- the run. The events have the numbers that the code generator gives them.
pub record IsSinglePacket (states : List State) (f : Fsm) (first timeout second : Transition)
    : Type 0 where
  pub start : State
  pub start_at : get_elem? states f.init_state ≡ some start
  pub start_out : start.transitions ≡ first ∷ []
  pub waiting : State
  pub waiting_at : get_elem? states first.target_state ≡ some waiting
  pub waiting_out : waiting.transitions ≡ timeout ∷ second ∷ []
  pub zero_delay : waiting.is_temporary ≡ true
  pub end : State
  pub end_at : get_elem? states second.target_state ≡ some end
  pub end_last : is_last end ≡ true
  pub slots : length f.execution_trace ≡ 3
  pub first_event : first.event_type ≡ 1
  pub second_event : second.event_type ≡ 2
  pub timeout_event : timeout.event_type ≡ 0

-- The machine once the first event is in its trace.
abbrev pub store_first : Fsm → Message → Fsm
store_first f m = record f { execution_trace = set f.execution_trace 1 (some m) }

module _ (states : List State) (f : Fsm) (first timeout second : Transition)
    (shape : IsSinglePacket states f first timeout second) (m : Message) where
  stored : Fsm
  stored = store_first f m

  -- What the fast path reports.
  single_value : Ensures (handle_single_packet states f m) λ r. r.0 ≡ (
      if not (guard_holds first.guard m f)
      then no_state_change
      else if guard_holds second.guard m stored
      then last_value f second.target_state
      else last_value f timeout.target_state)
  unfolding handle_single_packet stored
  single_value = ground (arith, length-set f.execution_trace 1 (some m))

  module _ (n : ℕ) (on_time : f.time_min ≤ m.timestamp) (reads_first : ReadsHistory first.guard)
      (reads_second : ReadsHistory second.guard) where
    -- The machine in the temporary state.
    abbrev inner : Fsm
    inner = record stored { current_event_id = 1; current_state = first.target_state }

    noted_second : Fsm
    noted_second = record inner { current_event_id = 2 }

    accepts : Bool
    accepts = guard_holds second.guard m stored

    second-guard : guard_holds second.guard m noted_second ≡ accepts
    unfolding noted_second stored accepts
    second-guard = reads_second m noted_second stored refl

    fire_second : Ensures (handle_event (suc n) states inner 1 m) λ r.
        (r.value ≡ (if accepts then last_value f second.target_state else no_state_change))
        × (accepts ≡ false → r.fsm ≡ noted_second)
    unfolding handle_event handle_with pending_timeout fire_event update_fsm noted_second stored
    fire_second = ground (arith, length-set f.execution_trace 1 (some m), second-guard)

    refuse_timeout :
        handle_event (suc n) states noted_second 0 m
        ≡ ok (record { value = no_state_change; fsm = noted_second; new_fsm = none })
    unfolding handle_event handle_with pending_timeout fire_event noted_second stored
    refuse_timeout = ground arith

    abbrev step : Fsm → ℕ → Run Handled
    step g j = handle_event (suc n) states g j m

    wait_value :
        Ensures
          (try_transitions step inner 2)
          λ r. r.0 ≡ (if accepts then last_value f second.target_state else no_state_change)
    unfolding try_transitions last_value
    wait_value = ground (arith, fire_second, refuse_timeout)

    enter :
        Ensures
          (update_fsm step states (record f { current_event_id = first.event_type }) first m)
          (λ r. r.0 ≡ (if accepts then last_value f second.target_state else no_state_change))
    unfolding update_fsm stored
    enter = ground (arith, length-set f.execution_trace 1 (some m), wait_value)

    multi_value :
        f.current_state ≡ f.init_state
        → Ensures (handle_event (suc (suc n)) states f 0 m) λ r. r.value ≡ (
            if not (guard_holds first.guard m f)
            then no_state_change
            else if accepts
            then last_value f second.target_state
            else no_state_change)
    unfolding handle_event handle_with pending_timeout fire_event
    multi_value start =
        ground
          (arith, enter, reads_first m f (record f { current_event_id = first.event_type }) refl)

    -- Where the first guard refuses the message, or both guards accept it, the fast path reports
    -- what the general machine reports from its initial state. Where the second guard refuses, the
    -- fast path takes the timeout of the temporary state, while the general machine reports no
    -- change.
    pub single_against_general :
        f.current_state ≡ f.init_state
        → Ensures (handle_event (suc (suc n)) states f 0 m) λ r.
          Ensures (handle_single_packet states f m) λ s.
            ((guard_holds first.guard m f && not (guard_holds second.guard m (store_first f m)))
                ≡ false
              → r.value ≡ s.0)
            × ((guard_holds first.guard m f && not (guard_holds second.guard m (store_first f m)))
                  ≡ true
                → (r.value ≡ no_state_change) × (s.0 ≡ last_value f timeout.target_state))
    unfolding stored accepts
    single_against_general start = ground (arith, single_value, multi_value start)

-- The engine takes the fast path for a rule of this shape whose second event ends in one of the
-- three marked states.
pub single_packet_recognised :
    (states : List State) (f : Fsm) (first timeout second : Transition)
    → IsSinglePacket states f first timeout second
    → (second.target_state ≡ f.error_state)
      ⊎ ((second.target_state ≡ f.success_state) ⊎ (second.target_state ≡ f.incl_state))
    → is_verifying_single_packet states f ≡ ok true
unfolding is_verifying_single_packet
single_packet_recognised states f first timeout second shape marked = ground arith
