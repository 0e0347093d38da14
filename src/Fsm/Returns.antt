-- ===== src/Fsm/Returns.antt =====
-- One call of `fsm_handle_event` (src/lib/mmt_fsm.c), around the update of the machine.
use mmt_security.Prelude.{
  ℕ, ◌<◌, ◌≡◌, refl, some, List, true, false, arith, length, get_elem?, Run, Ensures, ◌⊎◌, inl, inr,
  Option-cases, at-in,
}
use mmt_security.Message.{Message}
use mmt_security.Fsm.{
  Fsm, State, Transition, Handled, Value, is_no_change, update_fsm, pending_timeout, fire_timeout,
  fire_event, handle_with,
}
use mmt_security.Fsm.Valid.{IsTable, IsValid, Same}

-- What a call leaves behind: both machines valid, and the fields that no call changes.
pub record Left (states : List State) (f : Fsm) (r : Handled) : Type 0 where
  pub valid : IsValid states r.fsm
  pub same : Same f r.fsm
  pub created : (g : Fsm) → r.new_fsm ≡ some g → IsValid states g × Same f g

-- A call that reports no change has left the current state.
abbrev pub IsResting : Fsm → Handled → Type 0
IsResting f r = is_no_change r.value ≡ true → r.fsm.current_state ≡ f.current_state

abbrev pub Moved : List State → Fsm → Value × Fsm → Type 0
Moved states f r = IsValid states r.1 × Same f r.1

-- The firing of one transition, given that the update of the machine returns.
module _ (fire : Fsm → ℕ → Run Handled) (states : List State) (f : Fsm) (tran : Transition)
    (m : Message) (v : IsValid states f)
    (event_in : tran.event_type < length f.execution_trace) where
  pub fire_event-Left :
      tran.target_state < length states
      → (let g = record f { current_event_id = tran.event_type } in
          Ensures (update_fsm fire states g tran m) (Moved states g))
      → Ensures (fire_event fire states f tran m) (Left states f)
  unfolding fire_event
  fire_event-Left h u = ground (arith, at-in states tran.target_state)

  pub fire_event-IsResting :
      tran.target_state < length states
      → (let g = record f { current_event_id = tran.event_type } in
          Ensures (update_fsm fire states g tran m) (λ r. is_no_change r.0 ≡ false))
      → Ensures (fire_event fire states f tran m) (IsResting f)
  unfolding fire_event
  fire_event-IsResting h u = ground (arith, at-in states tran.target_state)

  pub fire_timeout-Left :
      (timeout : Transition)
      → timeout.target_state < length states
      → ((g : Fsm)
          → (g ≡ f) ⊎ (g ≡ record f { current_event_id = tran.event_type })
          → Ensures (update_fsm fire states g timeout m) (Moved states g))
      → Ensures (fire_timeout fire states f tran timeout m) (Left states f)
  unfolding fire_timeout
  fire_timeout-Left timeout h u = ground (
    arith,
    at-in states timeout.target_state,
    u f (inl refl),
    u (record f { current_event_id = tran.event_type }) (inr refl),
  )

  pub fire_timeout-IsResting :
      (timeout : Transition)
      → timeout.target_state < length states
      → ((g : Fsm)
          → (g ≡ f) ⊎ (g ≡ record f { current_event_id = tran.event_type })
          → Ensures (update_fsm fire states g timeout m) (λ r. is_no_change r.0 ≡ false))
      → Ensures (fire_timeout fire states f tran timeout m) (IsResting f)
  unfolding fire_timeout
  fire_timeout-IsResting timeout h u = ground (
    arith,
    at-in states timeout.target_state,
    u f (inl refl),
    u (record f { current_event_id = tran.event_type }) (inr refl),
  )

-- A transition fired by a machine that the two cases of `fsm_handle_event` may have noted the
-- event in.
abbrev pub Noted : Fsm → ℕ → Fsm → Type 0
Noted f event g = (g ≡ f) ⊎ (g ≡ record f { current_event_id = event })

module _ (fire : Fsm → ℕ → Run Handled) (states : List State) (slots : ℕ)
    (table : IsTable states slots) (f : Fsm) (v : IsValid states f)
    (slots_eq : length f.execution_trace ≡ slots) (st : State)
    (here : get_elem? states f.current_state ≡ some st) (i : ℕ) (tran : Transition)
    (there : get_elem? st.transitions i ≡ some tran) (m : Message) where
  pub pending_timeout-in :
      {timeout : Transition}
      → pending_timeout st f m ≡ some timeout
      → get_elem? st.transitions 0 ≡ some timeout
  unfolding pending_timeout
  pending_timeout-in h = ground arith

  pub handle_with-Left :
      ((g : Fsm) (j : ℕ) (t : Transition)
        → Noted f tran.event_type g
        → get_elem? st.transitions j ≡ some t
        → Ensures (update_fsm fire states g t m) (Moved states g))
      → Ensures (handle_with fire states f i m) (Left states f)
  unfolding handle_with
  handle_with-Left u = elim (Option-cases (pending_timeout st f m)) [
    | inl e ↦ ground (
      arith,
      fire_event-Left fire states f tran m v
          (rw slots_eq (table.event_in f.current_state i here there))
          (table.target_in f.current_state i here there)
          (u (record f { current_event_id = tran.event_type }) i tran (inr refl) there),
    )
    | inr (timeout, e) ↦
        let zeroth = pending_timeout-in e in
        ground (
          arith,
          fire_timeout-Left fire states f tran m v
              (rw slots_eq (table.event_in f.current_state i here there)) timeout
              (table.target_in f.current_state 0 here zeroth) (λ g n. u g 0 timeout n zeroth),
        )
  ]

  pub handle_with-IsResting :
      ((g : Fsm) (j : ℕ) (t : Transition)
        → Noted f tran.event_type g
        → get_elem? st.transitions j ≡ some t
        → Ensures (update_fsm fire states g t m) (λ r. is_no_change r.0 ≡ false))
      → Ensures (handle_with fire states f i m) (IsResting f)
  unfolding handle_with
  handle_with-IsResting u = elim (Option-cases (pending_timeout st f m)) [
    | inl e ↦ ground (
      arith,
      fire_event-IsResting fire states f tran m v
          (rw slots_eq (table.event_in f.current_state i here there))
          (table.target_in f.current_state i here there)
          (u (record f { current_event_id = tran.event_type }) i tran (inr refl) there),
    )
    | inr (timeout, e) ↦
        let zeroth = pending_timeout-in e in
        ground (
          arith,
          fire_timeout-IsResting fire states f tran m v
              (rw slots_eq (table.event_in f.current_state i here there)) timeout
              (table.target_in f.current_state 0 here zeroth) (λ g n. u g 0 timeout n zeroth),
        )
  ]
