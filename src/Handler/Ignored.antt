-- ===== src/Handler/Ignored.antt =====
-- The flows that are ignored after an alert.
use mmt_security.Prelude.{
  ℕ, ◌≡◌, refl, ◌==◌, ◌⊎◌, inl, inr, Option, none, some, List, [], ◌∷◌, true, false, arith, ok,
  ◌>>=◌, Ensures, Ensures-bind, Ensures-map, Bool-cases, ==_iff,
}
use mmt_security.Message.{Message}
use mmt_security.Flows.Table.{empty_value}
use mmt_security.Flows.FlowSet.{FlowSet, set_ex_add, set_ex_check}
use mmt_security.Flows.FlowSet.Present.{IsFlowSet}
use mmt_security.Flows.FlowSet.Adding.{IsPresent, set_ex_add-IsPresent, set_ex_add-empty}
use mmt_security.Handler.{ignore_flows}

-- The flow of the last message of a trace, or the one given if there is none.
abbrev pub last_flow : List (Option Message) → ℕ → ℕ
last_flow [] last = last
last_flow (none ∷ trace) last = last_flow trace last
last_flow (some m ∷ trace) last = last_flow trace m.flow_id

-- The set is well-formed, and the flow is in it unless it is the number that marks vacant slots.
abbrev pub IsIgnoring : ℕ → FlowSet → Type 0
IsIgnoring flow s =
    ((xs : List ℕ) × IsFlowSet s xs) × ((flow ≡ empty_value) ⊎ (set_ex_check s flow ≡ ok true))

add_flow :
    (s : FlowSet) (xs : List ℕ) (flow : ℕ)
    → IsFlowSet s xs
    → Ensures (set_ex_add s flow) (λ r. IsIgnoring flow r.1)
add_flow s xs flow h = elim (Bool-cases (flow == empty_value)) [
  | inl q ↦ let e = (==_iff flow empty_value).0 q in rw (e, set_ex_add-empty s) ((xs, h), inl refl)
  | inr q ↦
      Ensures-map (set_ex_add s flow) (λ r. (r.0 ≡ true) × IsPresent flow r.1)
        (λ r. IsIgnoring flow r.1) (set_ex_add-IsPresent s xs flow h (ground arith))
        (λ r p. (p.1.0, inr p.1.1))
]

same_flow :
    (m : Message) (trace : List (Option Message)) (last : ℕ) (s : FlowSet)
    → m.flow_id ≡ last
    → ignore_flows (some m ∷ trace) last s ≡ ignore_flows trace last s
unfolding ignore_flows
same_flow m trace last s e = ground arith

other_flow :
    (m : Message) (trace : List (Option Message)) (last : ℕ) (s : FlowSet)
    → (m.flow_id == last) ≡ false
    → ignore_flows (some m ∷ trace) last s
      ≡ (set_ex_add s m.flow_id >>= λ r. ignore_flows trace m.flow_id r.1)
unfolding ignore_flows
other_flow m trace last s e = ground arith

-- Adding the flows of a trace to a well-formed set never fails, keeps it well-formed, and leaves
-- the flow of the last message of the trace in it: messages of that flow are ignored from then on.
pub ignore_flows-IsIgnoring :
    (trace : List (Option Message)) (last : ℕ) (s : FlowSet)
    → IsIgnoring last s
    → Ensures (ignore_flows trace last s) (IsIgnoring (last_flow trace last))
unfolding ignore_flows
ignore_flows-IsIgnoring [] last s h = h
ignore_flows-IsIgnoring (none ∷ trace) last s h = ignore_flows-IsIgnoring trace last s h
ignore_flows-IsIgnoring (some m ∷ trace) last s h = elim (Bool-cases (m.flow_id == last)) [
  | inl q ↦
      let e = (==_iff m.flow_id last).0 q in
      rw (same_flow m trace last s e, e) (ignore_flows-IsIgnoring trace last s h)
  | inr q ↦ rw (other_flow m trace last s q) (
      Ensures-bind (set_ex_add s m.flow_id) _ (λ r. IsIgnoring m.flow_id r.1)
        (IsIgnoring (last_flow trace m.flow_id)) (add_flow s h.0.0 m.flow_id h.0.1)
        (λ r _ p. ignore_flows-IsIgnoring trace m.flow_id r.1 p))
]
