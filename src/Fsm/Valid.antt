-- ===== src/Fsm/Valid.antt =====
-- What the plugin's table of states must satisfy, and what a state machine over it keeps.
use mmt_security.Prelude.{
  ℕ, ◌<◌, ◌^◌, ◌≤◌, ◌≡◌, some, List, true, false, arith, length, length-set, get_elem?, Run,
  Ensures, ◌⊎◌,
}
use mmt_security.Message.{Message}
use mmt_security.Fsm.{
  Fsm, State, Transition, Handled, is_last, is_no_change, last_value, update_fsm,
}

-- Every target is a state, every event has a slot in the trace of `slots` slots, and a transition
-- that leaves a temporary state does not enter another one.
pub record IsTable (states : List State) (slots : ℕ) : Type 0 where
  pub target_in :
      (s i : ℕ) {st : State} {tran : Transition}
      → get_elem? states s ≡ some st
      → get_elem? st.transitions i ≡ some tran
      → tran.target_state < length states
  pub event_in :
      (s i : ℕ) {st : State} {tran : Transition}
      → get_elem? states s ≡ some st
      → get_elem? st.transitions i ≡ some tran
      → tran.event_type < slots
  pub narrow : (s : ℕ) {st : State} → get_elem? states s ≡ some st → length st.transitions ≤ 2 ^ 16
  pub settles :
      (s i : ℕ) {st st' : State} {tran : Transition}
      → get_elem? states s ≡ some st
      → get_elem? st.transitions i ≡ some tran
      → get_elem? states tran.target_state ≡ some st'
      → st.is_temporary ≡ true
      → st'.is_temporary ≡ false

pub record IsValid (states : List State) (f : Fsm) : Type 0 where
  pub current_in : f.current_state < length states
  pub init_in : f.init_state < length states
  pub event_in : f.current_event_id < length f.execution_trace

-- `g` is the machine of `f` at another point of its run.
pub record Same (f g : Fsm) : Type 0 where
  pub id : g.id ≡ f.id
  pub init_state : g.init_state ≡ f.init_state
  pub error_state : g.error_state ≡ f.error_state
  pub incl_state : g.incl_state ≡ f.incl_state
  pub success_state : g.success_state ≡ f.success_state
  pub slots : length g.execution_trace ≡ length f.execution_trace

pub last_value-change : (f : Fsm) (s : ℕ) → is_no_change (last_value f s) ≡ false
unfolding last_value
last_value-change f s = ground arith

-- Entering a state that is last or not temporary fires nothing more: the machine is there.
pub update_fsm_settled :
    (fire : Fsm → ℕ → Run Handled) (states : List State) (f : Fsm) (tran : Transition) (m : Message)
    {st : State}
    → IsValid states f
    → get_elem? states tran.target_state ≡ some st
    → tran.target_state < length states
    → (is_last st ≡ true) ⊎ (st.is_temporary ≡ false)
    → Ensures (update_fsm fire states f tran m) λ r.
      (is_no_change r.0 ≡ false)
      × (r.1.current_state ≡ tran.target_state)
      × IsValid states r.1
      × Same f r.1
unfolding update_fsm
update_fsm_settled fire states f tran m v e h settled = ground (
  arith,
  length-set f.execution_trace f.current_event_id (some m),
  last_value-change f tran.target_state,
)
