-- ===== src/Engine/SafeMessage.antt =====
-- The invariant of an engine's heap under one message (src/lib/rule_verif_engine.c).
use mmt_security.Prelude.{
  IfOk-trivial, ℕ, zero, suc, ◌+◌, Option, none, some, ◌==◌, length, set, at, IfOk, IfOk-bind,
  present, All, All-set, Bool-cases, inl, inr,
}
use mmt_security.Message.{Message}
use mmt_security.Rule.{Rule, is_unknown}
use mmt_security.Engine.Store.{Engine, mark_node, find_node, head_node}
use mmt_security.Engine.Process.{
  process_a_node, walk, process_event, process_events, covers, process_timeouts,
  process_multi_packets, too_early,
}
use mmt_security.Engine.Safe.{IsLive, IsSafe}
use mmt_security.Engine.SafeProcess.{at-All, IfOk-set_list, relist-IsSafe, mark_node-IsLive}
use mmt_security.Engine.SafeNode.{process_a_node-IsSafe}

walk-IsSafe :
    (rule : Rule) (k event : ℕ) (m : Message) (cur : Option ℕ) (e : Engine)
    → IsSafe e
    → IfOk (walk rule k event m cur e) (λ s. IsSafe s.1)
unfolding walk
walk-IsSafe rule zero event m cur e safe = tt
walk-IsSafe rule (suc k) event m none e safe = safe
walk-IsSafe rule (suc k) event m (some p) e safe =
    let lists = e.fsm_by_expecting_event_id in
    IfOk-bind (at lists event) _ (All (IsLive e.fsms)) (λ s. IsSafe s.1)
      (at-All _ lists event safe.nodes)
      (λ nodes _ live.
        IfOk-bind (present (find_node nodes p)) _ (λ _. Unit {0}) (λ s. IsSafe s.1) (IfOk-trivial _)
          (λ found _ _. elim (Bool-cases (found.0.counter == m.counter)) [
            | inl q ↦ rw q (walk-IsSafe rule k event m found.1 e safe)
            | inr q ↦ rw q (
                IfOk-set_list lists event _ _ (λ s. IsSafe s.1)
                  (let marked = set lists event (mark_node nodes p m.counter) in
                    let e₁ : Engine = record e { fsm_by_expecting_event_id = marked } in
                    IfOk-bind (process_a_node rule e₁ found.0 event m) _ (λ s. IsSafe s.1)
                      (λ s. IsSafe s.1)
                      (process_a_node-IsSafe rule e₁ found.0 event m (
                        relist-IsSafe e safe marked
                          (All-set _ lists event _ safe.nodes
                            (mark_node-IsLive e.fsms nodes p m.counter live))
                          e.next_node))
                      (λ s _ safe'. elim (Bool-cases (is_unknown s.0)) [
                        | inl u ↦ rw u (walk-IsSafe rule k event m found.1 s.1 safe')
                        | inr u ↦ rw u safe'
                      ])))
          ]))

process_event-IsSafe :
    (rule : Rule) (event : ℕ) (m : Message) (e : Engine)
    → IsSafe e
    → IfOk (process_event rule event m e) (λ s. IsSafe s.1)
unfolding process_event
process_event-IsSafe rule event m e safe =
    IfOk-bind (at e.fsm_by_expecting_event_id event) _ (λ _. Unit {0}) (λ s. IsSafe s.1)
      (IfOk-trivial _)
      (λ nodes _ _. walk-IsSafe rule (suc (length nodes)) event m (head_node nodes) e safe)

process_events-IsSafe :
    (rule : Rule) (m : Message) (event n : ℕ) (e : Engine)
    → IsSafe e
    → IfOk (process_events rule m event n e) (λ s. IsSafe s.1)
unfolding process_events
process_events-IsSafe rule m event zero e safe = safe
process_events-IsSafe rule m event (suc n) e safe =
    IfOk-bind (at e.events_hash event) _ (λ _. Unit {0}) (λ s. IsSafe s.1) (IfOk-trivial _)
      (λ mask _ _. elim (Bool-cases (covers m.hash mask)) [
        | inr q ↦ rw q (process_events-IsSafe rule m (event + 1) n e safe)
        | inl q ↦ rw q (
            IfOk-bind (process_event rule event m e) _ (λ s. IsSafe s.1) (λ s. IsSafe s.1)
              (process_event-IsSafe rule event m e safe)
              (λ s _ safe'. elim (Bool-cases (is_unknown s.0)) [
                | inl u ↦ rw u (process_events-IsSafe rule m (event + 1) n s.1 safe')
                | inr u ↦ rw u safe'
              ]))
      ])

process_timeouts-IsSafe :
    (rule : Rule) (m : Message) (e : Engine)
    → IsSafe e
    → IfOk (process_timeouts rule m e) (λ s. IsSafe s.1)
unfolding process_timeouts
process_timeouts-IsSafe rule m e safe = elim (Bool-cases (too_early e m)) [
  | inl q ↦ rw q safe
  | inr q ↦ rw q (
      process_event-IsSafe rule 0 m _
        (record { nodes = safe.nodes; members = safe.members; distinct = safe.distinct }))
]

-- Whatever a message does to an engine over several packets, no node is left that waits for a
-- machine that was freed, every class holds live machines with its id, and none of them twice.
pub process_multi_packets-IsSafe :
    (rule : Rule) (m : Message) (e : Engine)
    → IsSafe e
    → IfOk (process_multi_packets rule m e) (λ s. IsSafe s.1)
unfolding process_multi_packets
process_multi_packets-IsSafe rule m e safe =
    IfOk-bind (process_events rule m 0 e.events_count e) _ (λ s. IsSafe s.1) (λ s. IsSafe s.1)
      (process_events-IsSafe rule m 0 e.events_count e safe)
      (λ s _ safe'. elim (Bool-cases (is_unknown s.0)) [
        | inl u ↦ rw u (process_timeouts-IsSafe rule m s.1 safe')
        | inr u ↦ rw u safe'
      ])
