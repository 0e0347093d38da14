-- ===== src/Engine/SafeNode.antt =====
-- The invariant of an engine's heap under the processing of one node (`_process_a_node`).
use mmt_security.Prelude.{
  IfOk-trivial, ℕ, zero, suc, ◌<◌, ◌≡◌, ◌∙◌, some, List, [], ◌∷◌, Bool, ◌==◌, arith, length, Run,
  ok, fault, at, IfOk, IfOk-bind, Ensures, All, All-map, All-set, Bool-cases, ltb, inl, inr,
  Option-cases, ltb→lt, lt→ltb,
}
use mmt_security.Prelude.Bits.{u16}
use mmt_security.Message.{Message}
use mmt_security.Fsm.{Fsm, Value, Handled, handle_event}
use mmt_security.Fsm.Identity.{handle_event-id}
use mmt_security.Rule.{Rule, is_unknown, get_verdict}
use mmt_security.Engine.Store.{TranNode, Engine, load, store, put, set_expecting_events_id}
use mmt_security.Engine.Reset.{drop_class_all, reset_engine_for_fsm, reset_engine_for_instance}
use mmt_security.Engine.Process.{
  leave_list, place, conclude, settle, process_a_node, store_valid_execution_trace, copy_trace,
  is_changed, is_new, depth,
}
use mmt_security.Engine.Safe.{IsLive, IsMember, IsSafe, IsEnded, reset_engine_for_fsm-IsEnded}
use mmt_security.Engine.SafeInstance.{IsGone, reset_engine_for_instance-IsGone}
use mmt_security.Engine.SafeProcess.{
  Holding, at-All, IfOk-set_list, relist-IsSafe, remove_link_node-All, add_instance-Holding,
  set_expecting_events_id-Holding,
}

Ensures-IfOk {ℓ} :
    {A : Type ℓ} (r : Run A) (P Q : A → Type 0) → Ensures r P → ((a : A) → P a → Q a) → IfOk r Q
Ensures-IfOk (ok a) P Q h k = k a h
Ensures-IfOk (fault e) P Q h k = tt

at-bound {ℓ} : {A : Type ℓ} (xs : List A) (i : ℕ) → IfOk (at xs i) (λ _. i < length xs)
at-bound [] i = tt
at-bound (x ∷ xs) zero = omega arith
at-bound (x ∷ xs) (suc i) = ground (arith, at-bound xs i)

leave_list-Holding :
    (e : Engine) (a p event : ℕ) (v : Value)
    → Holding a e
    → IfOk (leave_list e p event v) (Holding a)
unfolding leave_list
leave_list-Holding e a p event v h =
    let lists = e.fsm_by_expecting_event_id in
    elim (Bool-cases (is_changed v)) [
      | inr q ↦ rw q h
      | inl q ↦ rw q (
          IfOk-bind (at lists event) _ (All (IsLive e.fsms)) (Holding a)
            (at-All _ lists event h.0.nodes)
            (λ nodes _ live. IfOk-set_list lists event _ _ (Holding a) (
              relist-IsSafe e h.0 _
                  (All-set _ lists event _ h.0.nodes (remove_link_node-All _ nodes p live)) _,
              h.1,
            )))
    ]

place-Holding :
    (e : Engine) (p event a : ℕ) (r : Handled)
    → Holding a e
    → IfOk (place e p event a r) (λ s. Holding s.0 s.1)
unfolding place
place-Holding e p event a r h = elim (Option-cases r.new_fsm) [
  | inl q ↦ rw q (
      IfOk-bind (leave_list e p event r.value) _ (Holding a) (λ s. Holding s.0 s.1)
        (leave_list-Holding e a p event r.value h) (λ e' _ k. k))
  | inr (g, q) ↦ rw q (add_instance-Holding e a g h.0)
]

-- Ending a class or an instance; an id out of range ends in a fault before anything is freed.
reset_engine_for_fsm-IsSafe :
    (e : Engine) (a : ℕ) → IsSafe e → IfOk (reset_engine_for_fsm e a) IsSafe
reset_engine_for_fsm-IsSafe e a safe = elim (Option-cases (e.fsms a)) [
  | inl q ↦ unfold reset_engine_for_fsm in rw q tt
  | inr (f, q) ↦ elim (Bool-cases (ltb f.id (length e.fsm_by_instance_id))) [
    | inl small ↦
        Ensures-IfOk (reset_engine_for_fsm e a) (IsEnded f.id) IsSafe
          (reset_engine_for_fsm-IsEnded e a safe q (ltb→lt _ _ small)) (λ e' k. k.safe)
    | inr large ↦
        unfold reset_engine_for_fsm in
        rw q (
          IfOk-bind (drop_class_all e f.id e.fsm_by_expecting_event_id) _ (λ _. Unit {0}) IsSafe
            (IfOk-trivial _)
            (λ lists _ _.
              IfOk-bind (at e.fsm_by_instance_id f.id) _ (λ _. f.id < length e.fsm_by_instance_id)
                IsSafe (at-bound e.fsm_by_instance_id f.id) (λ l _ small. cc (lt→ltb _ _ small))))
  ]
]

reset_engine_for_instance-IsSafe :
    (e : Engine) (a : ℕ) → IsSafe e → IfOk (reset_engine_for_instance e a) IsSafe
reset_engine_for_instance-IsSafe e a safe = elim (Option-cases (e.fsms a)) [
  | inl q ↦ unfold reset_engine_for_instance in rw q tt
  | inr (f, q) ↦ elim (Bool-cases (ltb f.id (length e.fsm_by_instance_id))) [
    | inl small ↦
        Ensures-IfOk (reset_engine_for_instance e a) (IsGone a f.id) IsSafe
          (reset_engine_for_instance-IsGone e a safe q (ltb→lt _ _ small)) (λ e' k. k.safe)
    | inr large ↦
        unfold reset_engine_for_instance in
        rw q (
          IfOk-bind (at e.fsm_by_instance_id f.id) _ (λ _. f.id < length e.fsm_by_instance_id)
            IsSafe (at-bound e.fsm_by_instance_id f.id) (λ l _ small. cc (lt→ltb _ _ small)))
  ]
]

store_valid_execution_trace-IsSafe :
    (e : Engine) (f : Fsm) → IsSafe e → IfOk (store_valid_execution_trace e f) IsSafe
unfolding store_valid_execution_trace
store_valid_execution_trace-IsSafe e f safe =
    IfOk-bind (copy_trace e.events_count f.execution_trace) _ (λ _. Unit {0}) IsSafe
      (IfOk-trivial _)
      (λ trace _ _. record { nodes = safe.nodes; members = safe.members; distinct = safe.distinct })

conclude-IsSafe :
    (rule : Rule) (e : Engine) (a : ℕ) (v : Value)
    → IsSafe e
    → IfOk (conclude rule e a v) (λ s. IsSafe s.1)
unfolding conclude
conclude-IsSafe rule e a v safe =
    IfOk-bind (get_verdict rule.type_id v) _ (λ _. Unit {0}) (λ s. IsSafe s.1) (IfOk-trivial _)
      (λ verdict _ _.
        IfOk-bind (load e a) _ (λ _. Unit {0}) (λ s. IsSafe s.1) (IfOk-trivial _)
          (λ f _ _. elim (Bool-cases (is_unknown verdict)) [
            | inl q ↦ rw q (
                IfOk-bind (reset_engine_for_instance e a) _ IsSafe (λ s. IsSafe s.1)
                  (reset_engine_for_instance-IsSafe e a safe) (λ e' _ k. k))
            | inr q ↦ rw q (
                IfOk-bind (store_valid_execution_trace e f) _ IsSafe (λ s. IsSafe s.1)
                  (store_valid_execution_trace-IsSafe e f safe)
                  (λ e₁ _ safe'.
                    IfOk-bind (reset_engine_for_fsm e₁ a) _ IsSafe (λ s. IsSafe s.1)
                      (reset_engine_for_fsm-IsSafe e₁ a safe') (λ e' _ k. k)))
          ]))

settle-IsSafe :
    (rule : Rule) (e : Engine) (a : ℕ) (created : Bool) (counter : ℕ) (v : Value)
    → Holding a e
    → IfOk (settle rule e a created counter v) (λ s. IsSafe s.1)
unfolding settle
settle-IsSafe rule e a created counter Value.state_changed h =
    IfOk-bind (set_expecting_events_id rule e a created counter) _ (Holding a) (λ s. IsSafe s.1)
      (set_expecting_events_id-Holding rule e a created counter h) (λ e' _ k. k.0)
settle-IsSafe rule e a created counter Value.inconclusive_state_reached h =
    IfOk-bind (reset_engine_for_instance e a) _ IsSafe (λ s. IsSafe s.1)
      (reset_engine_for_instance-IsSafe e a h.0) (λ e' _ k. k)
settle-IsSafe rule e a created counter Value.final_state_reached h =
    conclude-IsSafe rule e a Value.final_state_reached h.0
settle-IsSafe rule e a created counter Value.error_state_reached h =
    conclude-IsSafe rule e a Value.error_state_reached h.0
settle-IsSafe rule e a created counter _ h = h.0

-- A machine is written back under its id.
module _ (e : Engine) (safe : IsSafe e) (a : ℕ) (f g : Fsm) (ea : e.fsms a ≡ some f)
    (same_id : g.id ≡ f.id) where
  written-IsLive : (n : TranNode) → IsLive e.fsms n → IsLive (put e.fsms a (some g)) n
  written-IsLive n (k, ek) = elim (Bool-cases (n.fsm == a)) [
    | inl q ↦ (g, rw q)
    | inr q ↦ (k, rw q ek)
  ]

  written-IsMember :
      (id b : ℕ)
      → IsMember e.fsms e.next_fsm id b
      → IsMember (put e.fsms a (some g)) e.next_fsm id b
  written-IsMember id b (below, (k, ek, same)) = elim (Bool-cases (b == a)) [
    | inl q ↦ let i : f ≡ k = ground arith in (below, (g, rw q, same_id ∙ (rw i same)))
    | inr q ↦ (below, (k, rw q ek, same))
  ]

  written-Holding : Holding a (store e a (some g))
  written-Holding = (
    record {
      nodes =
          All-map _ _ e.fsm_by_expecting_event_id
            (λ ns p. All-map _ _ ns (λ n q. written-IsLive n q) p) safe.nodes;
      members = λ id {l = k} h. All-map _ _ k (λ b p. written-IsMember id b p) (safe.members id h);
      distinct = safe.distinct;
    },
    (g, ground arith),
  )

pub process_a_node-IsSafe :
    (rule : Rule) (e : Engine) (n : TranNode) (event : ℕ) (m : Message)
    → IsSafe e
    → IfOk (process_a_node rule e n event m) (λ s. IsSafe s.1)
unfolding process_a_node
process_a_node-IsSafe rule e n event m safe = elim (Option-cases (e.fsms n.fsm)) [
  | inl q ↦ rw q tt
  | inr (f, q) ↦ rw q (
      IfOk-bind (handle_event (depth rule.states) rule.states f (u16 n.index) m) _
        (λ r. r.fsm.id ≡ f.id) (λ s. IsSafe s.1)
        (handle_event-id (depth rule.states) rule.states f (u16 n.index) m)
        (λ r _ same.
          let e₁ = store e n.fsm (some r.fsm) in
          IfOk-bind (place e₁ n.node event n.fsm r) _ (λ s. Holding s.0 s.1) (λ s. IsSafe s.1)
            (place-Holding e₁ n.node event n.fsm r (written-Holding e safe n.fsm f r.fsm q same))
            (λ s _ h. settle-IsSafe rule s.1 s.0 (is_new r.new_fsm) m.counter r.value h)))
]
