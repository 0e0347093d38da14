-- ===== src/Fsm.antt =====
-- The state machine that runs one instance of a rule (src/lib/mmt_fsm.h, src/lib/mmt_fsm.c).
-- A pointer to a state is an index into the table of the rule's states; a function that changes
-- `*fsm` returns the new record.
pub mod Valid
pub mod Returns
pub mod Total
pub mod Firing
pub mod Deadline
pub mod Single
pub mod Identity
-- mod Tests
use mmt_security.Prelude.{
  ℕ, zero, suc, ◌+◌, Option, none, some, List, [], ◌∷◌, Bool, true, false, ◌&&◌, ◌||◌, not, ltb,
  ◌==◌, if◌then◌else◌, length, replicate, get_elem?, set, Run, ok, fault, wild, out_of_fuel, ◌>>=◌,
  at,
}
use mmt_security.Prelude.Bits.{u16, u64}
use mmt_security.Message.{Message}

-- `enum fsm_action_type`
pub data Action : Type 0 where
  do_nothing create_instance reset_timer : Action

-- `enum fsm_handle_event_value`
pub data Value : Type 0 where
  err_arg error_state_reached state_changed state_loop_self no_state_change : Value
  final_state_reached inconclusive_state_reached : Value

-- `fsm_t`
pub record Fsm : Type 0 where
  pub time_min : ℕ
  pub time_max : ℕ
  pub id : ℕ
  pub current_event_id : ℕ
  pub current_state : ℕ
  pub init_state : ℕ
  pub error_state : ℕ
  pub incl_state : ℕ
  pub success_state : ℕ
  pub execution_trace : List (Option Message)

-- `fsm_transition_t`. The guard is code of the rule's plugin; `none` is the null pointer.
pub record Transition : Type 0 where
  pub event_type : ℕ
  pub guard : Option (Message → Fsm → Bool)
  pub action : Action
  pub target_state : ℕ

-- `fsm_state_t`, with the two fields of `fsm_delay_t` that the machine reads
pub record State : Type 0 where
  pub time_min : ℕ
  pub time_max : ℕ
  pub is_temporary : Bool
  pub transitions : List Transition

-- `FSM_EVENT_TYPE_TIMEOUT`
abbrev pub timeout_type : ℕ
timeout_type = 0

abbrev pub is_empty : List Transition → Bool
is_empty [] = true
is_empty (_ ∷ _) = false

-- `transitions_count == 0`
abbrev pub is_last : State → Bool
is_last s = is_empty s.transitions

unfoldable pub init : ℕ → ℕ → ℕ → ℕ → ℕ → Fsm
init initial error success incl events_count = record {
  time_min = 0;
  time_max = 0;
  id = 0;
  current_event_id = 0;
  current_state = initial;
  init_state = initial;
  error_state = error;
  incl_state = incl;
  success_state = success;
  execution_trace = replicate (events_count + 1) none;
}

-- The loop of `fsm_reset` over the trace.
abbrev pub clear_trace : List (Option Message) → List (Option Message)
clear_trace [] = []
clear_trace (_ ∷ t) = none ∷ clear_trace t

unfoldable pub reset : Fsm → Fsm
reset f = record f {
  current_state = f.init_state;
  current_event_id = 0;
  execution_trace = clear_trace f.execution_trace;
}

-- What a call of `fsm_handle_event` leaves: its result, `*fsm`, and `*new_fsm`.
pub record Handled : Type 0 where
  pub value : Value
  pub fsm : Fsm
  pub new_fsm : Option Fsm

abbrev pub is_no_change : Value → Bool
is_no_change no_state_change = true
is_no_change _ = false

-- A write to `execution_trace->data[ i ]`.
abbrev pub store_trace : List (Option Message) → ℕ → Message → Run (List (Option Message))
store_trace t i m = if ltb i (length t) then ok (set t i (some m)) else fault wild

-- Which of the three last states was reached, in the order of the tests.
unfoldable pub last_value : Fsm → ℕ → Value
last_value f s =
    if s == f.error_state
    then error_state_reached
    else if s == f.incl_state
    then inconclusive_state_reached
    else if s == f.success_state
    then final_state_reached
    else err_arg

-- The loop over the transitions of a temporary state, from the last one down. `fire` is
-- `_fire_a_tran` at the message; it drops the instance that the call may have created.
unfoldable pub try_transitions : (Fsm → ℕ → Run Handled) → Fsm → ℕ → Run (Value × Fsm)
try_transitions fire f zero = ok (no_state_change, f)
try_transitions fire f (suc i) = do
  r ← fire f (u16 i)
  elim (is_no_change r.value) [ true ↦ try_transitions fire r.fsm i | false ↦ ok (r.value, r.fsm) ]

abbrev pub resets_timer : Action → Bool
resets_timer reset_timer = true
resets_timer _ = false

-- The deadlines on entering `new_state` from `previous`.
unfoldable pub update_deadline : Fsm → ℕ → State → Action → Message → Fsm
update_deadline f previous new_state action m =
    let low = u64 (new_state.time_min + m.timestamp) in
    let high = u64 (new_state.time_max + m.timestamp) in
    if resets_timer action || previous == f.init_state
    then record f { time_min = low; time_max = high }
    else record f {
      time_min = if ltb f.time_min low then low else f.time_min;
      time_max = if ltb high f.time_max then high else f.time_max;
    }

-- `_update_fsm`
unfoldable pub update_fsm :
    (Fsm → ℕ → Run Handled) → List State → Fsm → Transition → Message → Run (Value × Fsm)
unfolding last_value update_deadline
update_fsm fire states f tran m = do
  trace ← store_trace f.execution_trace f.current_event_id m
  new_state ← at states tran.target_state
  let moved = record f { execution_trace = trace; current_state = tran.target_state }
  if is_last new_state
      then ok (last_value f tran.target_state, moved)
      else if new_state.is_temporary
      then try_transitions fire moved (length new_state.transitions)
      else ok (state_changed, update_deadline moved f.current_state new_state tran.action m)

-- The current state waits, is not the initial one, and its deadline is past.
abbrev pub timed_out : State → Fsm → Message → Bool
timed_out s f m =
    not s.is_temporary && (not (f.current_state == f.init_state) && ltb f.time_max m.timestamp)

-- The transition to fire instead of the one that was asked for.
unfoldable pub pending_timeout : State → Fsm → Message → Option Transition
pending_timeout s f m =
    if timed_out s f m
    then elim (get_elem? s.transitions 0) [
      | none ↦ none
      | some t ↦ if t.event_type == timeout_type then some t else none
    ]
    else none

abbrev pub guard_holds : Option (Message → Fsm → Bool) → Message → Fsm → Bool
guard_holds none m f = true
guard_holds (some g) m f = g m f

abbrev pub creates_instance : Action → Bool
creates_instance create_instance = true
creates_instance _ = false

unfoldable pub fire_timeout :
    (Fsm → ℕ → Run Handled) → List State → Fsm → Transition → Transition → Message → Run Handled
fire_timeout fire states f tran timeout m = do
  target ← at states timeout.target_state
  let noted = if is_last target then record f { current_event_id = tran.event_type } else f
  (value, f') ← update_fsm fire states noted timeout m
  ok (record { value = value; fsm = f'; new_fsm = none })

unfoldable pub fire_event :
    (Fsm → ℕ → Run Handled) → List State → Fsm → Transition → Message → Run Handled
fire_event fire states f tran m =
    if tran.event_type == timeout_type
    then ok (record { value = no_state_change; fsm = f; new_fsm = none })
    else let noted = record f { current_event_id = tran.event_type } in
      if not (guard_holds tran.guard m noted)
      then ok (record { value = no_state_change; fsm = noted; new_fsm = none })
      else do
        target ← at states tran.target_state
        (value, f') ← update_fsm fire states noted tran m
        if creates_instance tran.action && not (is_last target)
            then ok (record { value = value; fsm = noted; new_fsm = some f' })
            else ok (record { value = value; fsm = f'; new_fsm = none })

-- The body of `fsm_handle_event`; `fire` is the call that a temporary state makes of it.
unfoldable pub handle_with : (Fsm → ℕ → Run Handled) → List State → Fsm → ℕ → Message → Run Handled
handle_with fire states f i m =
    if ltb m.timestamp f.time_min
    then ok (record { value = no_state_change; fsm = f; new_fsm = none })
    else do
      s ← at states f.current_state
      tran ← at s.transitions i
      elim (pending_timeout s f m) [
        | some timeout ↦ fire_timeout fire states f tran timeout m
        | none ↦ fire_event fire states f tran m
      ]

-- `fsm_handle_event`. The fuel bounds the chain of temporary states that one message enters.
unfoldable pub handle_event : ℕ → List State → Fsm → ℕ → Message → Run Handled
handle_event zero states f i m = fault out_of_fuel
handle_event (suc n) states f i m = handle_with (λ g j. handle_event n states g j m) states f i m

-- `fsm_is_verifying_single_packet`; the last two reads are made only where the tests before hold.
unfoldable pub is_verifying_single_packet : List State → Fsm → Run Bool
is_verifying_single_packet states f = if not (length f.execution_trace == 3) then ok false else do
  s ← at states f.init_state
  if not (length s.transitions == 1) then ok false else do
    tran ← at s.transitions 0
    waiting ← at states tran.target_state
    if not waiting.is_temporary
        then ok false
        else if not (length waiting.transitions == 2)
        then ok false
        else do
          second ← at waiting.transitions 1
          let t = second.target_state
          ok (t == f.error_state || (t == f.success_state || t == f.incl_state))

-- `fsm_handle_single_packet`
unfoldable pub handle_single_packet : List State → Fsm → Message → Run (Value × Fsm)
unfolding last_value
handle_single_packet states f m = do
  s ← at states f.init_state
  first ← at s.transitions 0
  if not (guard_holds first.guard m f) then ok (no_state_change, f) else do
    trace ← store_trace f.execution_trace 1 m
    let stored = record f { execution_trace = trace }
    waiting ← at states first.target_state
    second ← at waiting.transitions 1
    timeout ← at waiting.transitions 0
    let target =
        if guard_holds second.guard m stored then second.target_state else timeout.target_state
    trace' ← store_trace trace 2 m
    ok (last_value f target, record f { execution_trace = trace' })
