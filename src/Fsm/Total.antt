-- ===== src/Fsm/Total.antt =====
-- The termination of `fsm_handle_event` (src/lib/mmt_fsm.c), temporary states included.
use mmt_security.Prelude.{
  ℕ, zero, suc, ◌<◌, ◌≤◌, ◌≡◌, ap, ◌∙◌, some, List, true, false, arith, length, length-set, set,
  get_elem?, Run, ok, Ensures, ◌⊎◌, inl, inr, Bool-cases, Ensures-bind, Ensures-map, get_elem?-in,
}
use mmt_security.Prelude.Bits.{u16}
use mmt_security.Message.{Message}
use mmt_security.Fsm.{
  Fsm, State, Transition, Handled, is_last, is_no_change, update_fsm, try_transitions, handle_event,
}
use mmt_security.Fsm.Valid.{IsTable, IsValid, Same, update_fsm_settled}
use mmt_security.Fsm.Returns.{
  Left, IsResting, Moved, Noted, handle_with-Left, handle_with-IsResting,
}

module _ (states : List State) (slots : ℕ) (table : IsTable states slots) (m : Message) where
  Noted-IsValid :
      {f g : Fsm} (event : ℕ)
      → IsValid states f
      → event < length f.execution_trace
      → Noted f event g
      → IsValid states g × Same f g × (g.current_state ≡ f.current_state)
  Noted-IsValid event v h n = ground arith

  -- A temporary state only leads to states that settle.
  update_from_temporary :
      (fire : Fsm → ℕ → Run Handled) (g : Fsm) (s : ℕ) (st : State) (j : ℕ) (t : Transition)
      → IsValid states g
      → get_elem? states s ≡ some st
      → st.is_temporary ≡ true
      → get_elem? st.transitions j ≡ some t
      → Ensures (update_fsm fire states g t m) λ r. Moved states g r × (is_no_change r.0 ≡ false)
  update_from_temporary fire g s st j t v here temporary there =
      let (st', e) = get_elem?-in states t.target_state (table.target_in s j here there) in
      ground (
        arith,
        update_fsm_settled fire states g t m v e (table.target_in s j here there)
            (inr (table.settles s j here there e temporary)),
      )

  -- One level is enough for a machine in a temporary state, and no change leaves it there.
  handle_temporary :
      (n : ℕ) (g : Fsm) (st : State) (j : ℕ)
      → IsValid states g
      → length g.execution_trace ≡ slots
      → get_elem? states g.current_state ≡ some st
      → st.is_temporary ≡ true
      → j < length st.transitions
      → Ensures (handle_event (suc n) states g j m) λ r. Left states g r × IsResting g r
  unfolding handle_event
  handle_temporary n g st j v width here temporary h =
      let (tran, there) = get_elem?-in st.transitions j h in
      let fire : Fsm → ℕ → Run Handled = λ k l. handle_event n states k l m in
      let noted = λ (k : Fsm) (p : Noted g tran.event_type k).
        Noted-IsValid tran.event_type v (rw width (table.event_in g.current_state j here there))
          p in
      ground (
        arith,
        handle_with-Left fire states slots table g v width st here j tran there m (λ k l t p q.
            ground (
              arith,
              update_from_temporary fire k g.current_state st l t (noted k p).0 here temporary q,
            )),
        handle_with-IsResting fire states slots table g v width st here j tran there m (λ k l t p q.
            ground (
              arith,
              update_from_temporary fire k g.current_state st l t (noted k p).0 here temporary q,
            )),
      )

  module _ (n : ℕ) where
    abbrev step : Fsm → ℕ → Run Handled
    step g j = handle_event (suc n) states g j m

    after_no_change :
        (k : ℕ) (g : Fsm) (r : Handled)
        → Left states g r
        → (is_no_change r.value ≡ true
            → Ensures (try_transitions step r.fsm k) (Moved states r.fsm))
        → Ensures
            (elim (is_no_change r.value) [
              | true ↦ try_transitions step r.fsm k
              | false ↦ ok (r.value, r.fsm)
            ])
            (Moved states g)
    after_no_change k g r l next = elim (Bool-cases (is_no_change r.value)) [
      | inr e ↦ rw e (l.valid, l.same)
      | inl e ↦
          rw e (Ensures-map _ (Moved states r.fsm) (Moved states g) (next e) (λ a p. ground arith))
    ]

    try_transitions-Moved :
        (k : ℕ) (g : Fsm) (st : State)
        → IsValid states g
        → length g.execution_trace ≡ slots
        → get_elem? states g.current_state ≡ some st
        → st.is_temporary ≡ true
        → k ≤ length st.transitions
        → Ensures (try_transitions step g k) (Moved states g)
    unfolding try_transitions
    try_transitions-Moved zero g st v width here temporary h = ground arith
    try_transitions-Moved (suc k) g st v width here temporary h =
        let small : u16 k ≡ k = omega (arith, table.narrow g.current_state here) in
        rw small (
          Ensures-bind (handle_event (suc n) states g k m) _ (λ r. Left states g r × IsResting g r)
            (Moved states g) (handle_temporary n g st k v width here temporary h)
            (λ r e p. after_no_change k g r p.0 (λ q.
              try_transitions-Moved k r.fsm st p.0.valid (p.0.same.slots ∙ width)
                (ap (get_elem? states) (p.1 q) ∙ here) temporary (omega arith))))

    update_fsm_temporary :
        (g : Fsm) (t : Transition) (st : State)
        → IsValid states g
        → length g.execution_trace ≡ slots
        → t.target_state < length states
        → get_elem? states t.target_state ≡ some st
        → is_last st ≡ false
        → st.is_temporary ≡ true
        → Ensures (update_fsm step states g t m) (Moved states g)
    unfolding update_fsm
    update_fsm_temporary g t st v width h e more temporary =
        let trace = set g.execution_trace g.current_event_id (some m) in
        let moved : Fsm = record g { execution_trace = trace; current_state = t.target_state } in
        let kept = length-set g.execution_trace g.current_event_id (some m) in
        ground (
          arith,
          kept,
          Ensures-map (try_transitions step moved (length st.transitions)) (Moved states moved)
              (Moved states g)
              (try_transitions-Moved (length st.transitions) moved st (ground (arith, kept))
                (kept ∙ width) e temporary (omega arith))
              (λ r p. ground (arith, kept)),
        )

    update_fsm-Moved :
        (g : Fsm) (t : Transition)
        → IsValid states g
        → length g.execution_trace ≡ slots
        → t.target_state < length states
        → Ensures (update_fsm step states g t m) (Moved states g)
    update_fsm-Moved g t v width h =
        let (st, e) = get_elem?-in states t.target_state h in
        let settled = λ (p : (is_last st ≡ true) ⊎ (st.is_temporary ≡ false)).
          Ensures-map (update_fsm step states g t m) _ (Moved states g)
            (update_fsm_settled step states g t m v e h p) (λ r q. (q.2, q.3)) in
        elim (Bool-cases (is_last st)) [
          | inl last ↦ settled (inl last)
          | inr more ↦ elim (Bool-cases st.is_temporary) [
            | inr steady ↦ settled (inr steady)
            | inl temporary ↦ update_fsm_temporary g t st v width h e more temporary
          ]
        ]

    -- Whatever transition of its current state a valid machine is asked to fire, the call returns,
    -- both the machine and a machine that it creates are valid, and neither has changed its
    -- identity, its marked states or the length of its trace.
    pub handle_event_returns :
        (f : Fsm) (st : State) (i : ℕ)
        → IsValid states f
        → length f.execution_trace ≡ slots
        → get_elem? states f.current_state ≡ some st
        → i < length st.transitions
        → Ensures (handle_event (suc (suc n)) states f i m) (Left states f)
    unfolding handle_event
    handle_event_returns f st i v width here h =
        let (tran, there) = get_elem?-in st.transitions i h in
        handle_with-Left step states slots table f v width st here i tran there m (λ g j t p q.
          let (v', same, stays) =
            Noted-IsValid tran.event_type v (rw width (table.event_in f.current_state i here there))
              p in
          update_fsm-Moved g t v' (same.slots ∙ width) (table.target_in f.current_state j here q))
