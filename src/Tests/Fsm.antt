-- ===== src/Tests/Fsm.antt =====
-- A rule over two packets and a rule over one packet, run by hand.
use mmt_security.Prelude.{
  ℕ, ◌+◌, ◌^◌, ◌≤◌, ◌<◌, ◌≡◌, refl, Option, none, some, List, [], ◌∷◌, Bool, true, false, ◌&&◌, not,
  ◌==◌, arith, length, Run, ok, Ensures, All, All-get, ◌⊎◌,
}
use mmt_security.Message.{Message}
use mmt_security.Fsm.{
  Fsm, State, Transition, Handled, create_instance, do_nothing, reset_timer, init, reset,
  handle_event, handle_with, fire_event, fire_timeout, pending_timeout, update_fsm, update_deadline,
  last_value, try_transitions, handle_single_packet, is_verifying_single_packet, guard_holds,
  no_state_change, state_changed, final_state_reached,
}
use mmt_security.Fsm.Valid.{IsTable, IsValid}
use mmt_security.Fsm.Returns.{Left}
use mmt_security.Fsm.Total.{handle_event_returns}
use mmt_security.Fsm.Firing.{IsOverdue, IsEnabled, change_needs_cause}
use mmt_security.Fsm.Deadline.{accepted_within_delay}
use mmt_security.Fsm.Single.{IsSinglePacket, store_first, single_against_general}

program : Unit {0}
unfolding init reset handle_event handle_with fire_event fire_timeout pending_timeout update_fsm
    update_deadline last_value try_transitions handle_single_packet is_verifying_single_packet
program = tt

abbrev pub message : ℕ → ℕ → ℕ → Message
message counter timestamp flow_id = record {
  counter = counter;
  timestamp = timestamp;
  flow_id = flow_id;
  elements = [];
  hash = 6;
}

-- The guards look at the flow of the message.
abbrev pub of_flow : ℕ → Option (Message → Fsm → Bool)
of_flow n = some (λ m f. m.flow_id == n)

abbrev pub first_event : Transition
first_event = record {
  event_type = 1;
  guard = of_flow 1;
  action = create_instance;
  target_state = 1;
}

abbrev pub second_event : Transition
second_event = record { event_type = 2; guard = of_flow 2; action = reset_timer; target_state = 3 }

abbrev pub timeout : Transition
timeout = record { event_type = 0; guard = none; action = do_nothing; target_state = 2 }

abbrev pub end : State
end = record { time_min = 0; time_max = 0; is_temporary = false; transitions = [] }

abbrev pub start : State
start = record { time_min = 0; time_max = 0; is_temporary = false; transitions = first_event ∷ [] }

abbrev pub waiting : State
waiting = record {
  time_min = 5;
  time_max = 100;
  is_temporary = false;
  transitions = timeout ∷ second_event ∷ [];
}

-- 0 starts, 1 waits, 2 is the error, 3 the success and 4 the inconclusive state.
abbrev pub states : List State
states = start ∷ waiting ∷ end ∷ end ∷ end ∷ []

abbrev pub bootstrap : Fsm
bootstrap = record {
  time_min = 0;
  time_max = 0;
  id = 0;
  current_event_id = 0;
  current_state = 0;
  init_state = 0;
  error_state = 2;
  incl_state = 4;
  success_state = 3;
  execution_trace = none ∷ none ∷ none ∷ [];
}

bootstrap-init : init 0 2 3 4 2 ≡ bootstrap
unfolding program
bootstrap-init = refl

-- The instance once it has seen its first event, at the time 1000.
abbrev pub instance_at_wait : Fsm
instance_at_wait = record bootstrap {
  current_state = 1;
  current_event_id = 1;
  time_min = 1005;
  time_max = 1100;
  execution_trace = none ∷ some (message 1 1000 1) ∷ none ∷ [];
}

abbrev created : Handled
created = record {
  value = state_changed;
  fsm = record bootstrap { current_event_id = 1 };
  new_fsm = some instance_at_wait;
}

first_packet : handle_event 2 states bootstrap 0 (message 1 1000 1) ≡ ok created
unfolding program
first_packet = refl

abbrev finished : Handled
finished = record {
  value = final_state_reached;
  fsm = record instance_at_wait {
    current_state = 3;
    current_event_id = 2;
    execution_trace = none ∷ some (message 1 1000 1) ∷ some (message 2 1050 2) ∷ [];
  };
  new_fsm = none;
}

second_packet : handle_event 2 states instance_at_wait 1 (message 2 1050 2) ≡ ok finished
unfolding program
second_packet = refl

states-IsTable : IsTable states 3
states-IsTable = record {
  target_in = λ s i h k.
      All-get (λ t. t.target_state < 5) _ i
        (All-get (λ st. All (λ t. t.target_state < 5) st.transitions) states s (omega arith) h) k;
  event_in = λ s i h k.
      All-get (λ t. t.event_type < 3) _ i
        (All-get (λ st. All (λ t. t.event_type < 3) st.transitions) states s (omega arith) h) k;
  narrow = λ s h. All-get (λ st. length st.transitions ≤ 2 ^ 16) states s (omega arith) h;
  settles = λ s i h k e t. cc (
      All-get (λ st. st.is_temporary ≡ false) states s (refl, (refl, (refl, (refl, (refl, tt)))))
        h);
}

instance_at_wait-IsValid : IsValid states instance_at_wait
instance_at_wait-IsValid = record {
  current_in = omega arith;
  init_in = omega arith;
  event_in = omega arith;
}

handle_event_returns_example :
    Ensures
      (handle_event 2 states instance_at_wait 1 (message 2 1050 2))
      (Left states instance_at_wait)
handle_event_returns_example =
    handle_event_returns states 3 states-IsTable (message 2 1050 2) 0 instance_at_wait waiting 1
      instance_at_wait-IsValid refl refl (omega arith)

change_needs_cause_example :
    (instance_at_wait.time_min ≤ 1050)
    × (((t : Transition) × IsOverdue waiting instance_at_wait (message 2 1050 2) t)
        ⊎ ((pending_timeout waiting instance_at_wait (message 2 1050 2) ≡ none)
            × IsEnabled instance_at_wait (message 2 1050 2) second_event))
change_needs_cause_example =
    change_needs_cause 1 states instance_at_wait 1 (message 2 1050 2) {s = waiting}
      {tran = second_event} refl refl {r = finished} second_packet refl

overdue : IsOverdue waiting instance_at_wait (message 2 1200 2) timeout
overdue = record {
  waiting = refl;
  started = omega arith;
  late = omega arith;
  first = refl;
  is_timeout = refl;
}

-- A rule over one packet: the second event is awaited without a delay.
abbrev pub second_at_once : Transition
second_at_once = record { event_type = 2; guard = of_flow 1; action = do_nothing; target_state = 3 }

abbrev pub at_once : State
at_once = record {
  time_min = 0;
  time_max = 0;
  is_temporary = true;
  transitions = timeout ∷ second_at_once ∷ [];
}

abbrev pub single_states : List State
single_states = start ∷ at_once ∷ end ∷ end ∷ end ∷ []

abbrev in_between : Fsm
in_between = record bootstrap { current_state = 1; current_event_id = 1 }

single-IsSinglePacket : IsSinglePacket single_states bootstrap first_event timeout second_at_once
single-IsSinglePacket = record {
  start = start;
  start_at = refl;
  start_out = refl;
  waiting = at_once;
  waiting_at = refl;
  waiting_out = refl;
  zero_delay = refl;
  end = end;
  end_at = refl;
  end_last = refl;
  slots = refl;
  first_event = refl;
  second_event = refl;
  timeout_event = refl;
}

single_against_general_example :
    Ensures (handle_event 2 single_states bootstrap 0 (message 1 1000 1)) λ r.
      Ensures (handle_single_packet single_states bootstrap (message 1 1000 1)) λ s.
        ((true
              && not (
                  guard_holds
                    (of_flow 1)
                    (message 1 1000 1)
                    (store_first bootstrap (message 1 1000 1))))
            ≡ false
          → r.value ≡ s.0)
        × ((true
                && not (
                    guard_holds
                      (of_flow 1)
                      (message 1 1000 1)
                      (store_first bootstrap (message 1 1000 1))))
              ≡ true
            → (r.value ≡ no_state_change) × (s.0 ≡ last_value bootstrap 2))
single_against_general_example =
    single_against_general single_states bootstrap first_event timeout second_at_once
      single-IsSinglePacket (message 1 1000 1) 0 (omega arith) (λ m f g e. refl) (λ m f g e. refl)
      refl

-- A rule over three packets enters a second waiting state, that may last until 1080.
abbrev third_event : Transition
third_event = record { event_type = 2; guard = of_flow 2; action = do_nothing; target_state = 5 }

abbrev next_wait : State
next_wait = record {
  time_min = 1;
  time_max = 30;
  is_temporary = false;
  transitions = timeout ∷ second_event ∷ [];
}

abbrev long_states : List State
long_states = start ∷ waiting ∷ end ∷ end ∷ end ∷ next_wait ∷ []

abbrev moved : Fsm
moved = record instance_at_wait {
  current_state = 5;
  time_min = 1051;
  time_max = 1080;
  execution_trace = none ∷ some (message 2 1050 2) ∷ none ∷ [];
}

refused : Fsm → ℕ → Run Handled
refused f i = ok (record { value = no_state_change; fsm = f; new_fsm = none })

entering :
    update_fsm refused long_states instance_at_wait third_event (message 2 1050 2)
    ≡ ok (state_changed, moved)
unfolding program
entering = refl

abbrev arrived : Handled
arrived = record {
  value = final_state_reached;
  fsm = record moved {
    current_state = 3;
    current_event_id = 2;
    execution_trace = none ∷ some (message 2 1050 2) ∷ some (message 3 1060 2) ∷ [];
  };
  new_fsm = none;
}

quiet : pending_timeout next_wait moved (message 3 1060 2) ≡ none
unfolding program
quiet = refl

accepted : handle_event 2 long_states moved 1 (message 3 1060 2) ≡ ok arrived
unfolding program
accepted = refl

accepted_within_delay_example : (1050 + 1 ≤ 1060) × (1060 ≤ 1050 + 30)
accepted_within_delay_example =
    accepted_within_delay refused long_states instance_at_wait moved third_event (message 2 1050 2)
      {w = next_wait} entering refl refl refl 1 1 (message 3 1060 2) {timeout = timeout}
      {r = arrived} (omega arith) (omega arith) (omega arith) refl refl quiet accepted refl
