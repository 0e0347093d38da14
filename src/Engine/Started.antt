-- ===== src/Engine/Started.antt =====
-- An engine that is constructed, and the engines that messages make of it.
use mmt_security.Prelude.{
  IfOk-trivial, ℕ, ◌+◌, ◌≡◌, refl, sym, ◌∙◌, ap, inl, inr, some, List, [], ◌∷◌, Bool, false, not,
  ◌==◌, leb, arith, set, replicate, get_elem?, get_elem?-set-cases, Run, ok, fault, ◌>>=◌, at, IfOk,
  IfOk-bind, IfOk-map, All-get, All-replicate, Bool-cases, ◌&&◌,
}
use mmt_security.Message.{Message}
use mmt_security.Fsm.{Fsm, Transition, is_verifying_single_packet, timeout_type}
use mmt_security.Rule.{Rule, ProtoAttribute}
use mmt_security.Engine.Store.{Engine, load, expect_one, expect_from, set_expecting_events_id}
use mmt_security.Engine.Init.{rule_engine_init, blank, calculate_hash_number}
use mmt_security.Engine.Process.{process_multi_packets}
use mmt_security.Engine.Safe.{IsSafe}
use mmt_security.Engine.SafeProcess.{
  at-get, Holding, IfOk-set_list, set_expecting_events_id-Holding,
}
use mmt_security.Engine.SafeMessage.{process_multi_packets-IsSafe}
use mmt_security.Engine.Timeouts.{IsUntouched, run_messages}

-- The fields that waiting for events leaves alone.
record SameRest (e e' : Engine) : Type 0 where
  machines : e'.fsms ≡ e.fsms
  classes : e'.fsm_by_instance_id ≡ e.fsm_by_instance_id
  next : e'.next_fsm ≡ e.next_fsm
  counter : e'.last_msg_counter_timeout ≡ e.last_msg_counter_timeout
  timestamp : e'.last_msg_timestamp_timeout ≡ e.last_msg_timestamp_timeout

SameRest-trans : (a b c : Engine) → SameRest a b → SameRest b c → SameRest a c
SameRest-trans a b c p q = record {
  machines = q.machines ∙ p.machines;
  classes = q.classes ∙ p.classes;
  next = q.next ∙ p.next;
  counter = q.counter ∙ p.counter;
  timestamp = q.timestamp ∙ p.timestamp;
}

SameRest-refl : (e : Engine) → SameRest e e
SameRest-refl e = record {
  machines = refl;
  classes = refl;
  next = refl;
  counter = refl;
  timestamp = refl;
}

expect_one-SameRest :
    (e : Engine) (a : ℕ) (add : Bool) (counter i : ℕ) (t : Transition)
    → IfOk (expect_one e a add counter i t) (SameRest e)
unfolding expect_one
expect_one-SameRest e a add counter i t =
    elim (Bool-cases (t.event_type == timeout_type && not add)) [
      | inl q ↦ rw q (SameRest-refl e)
      | inr q ↦ rw q (
          IfOk-bind (at e.fsm_by_expecting_event_id t.event_type) _ (λ _. Unit {0}) (SameRest e)
            (IfOk-trivial _)
            (λ nodes _ _.
              IfOk-set_list e.fsm_by_expecting_event_id t.event_type _ _ (SameRest e) (record {
                machines = refl;
                classes = refl;
                next = refl;
                counter = refl;
                timestamp = refl;
              })))
    ]

expect_from-SameRest :
    (e : Engine) (a : ℕ) (add : Bool) (counter i : ℕ) (ts : List Transition)
    → IfOk (expect_from e a add counter i ts) (SameRest e)
unfolding expect_from
expect_from-SameRest e a add counter i [] = SameRest-refl e
expect_from-SameRest e a add counter i (t ∷ ts) =
    IfOk-bind (expect_one e a add counter i t) _ (SameRest e) (SameRest e)
      (expect_one-SameRest e a add counter i t)
      (λ e' _ p.
        IfOk-map (expect_from e' a add counter (i + 1) ts) (SameRest e') (SameRest e)
          (expect_from-SameRest e' a add counter (i + 1) ts) (λ b q. SameRest-trans e e' b p q))

set_expecting_events_id-SameRest :
    (rule : Rule) (e : Engine) (a : ℕ) (add : Bool) (counter : ℕ)
    → IfOk (set_expecting_events_id rule e a add counter) (SameRest e)
unfolding set_expecting_events_id
set_expecting_events_id-SameRest rule e a add counter =
    IfOk-bind (load e a) _ (λ _. Unit {0}) (SameRest e) (IfOk-trivial _)
      (λ f _ _.
        IfOk-bind (at rule.states f.current_state) _ (λ _. Unit {0}) (SameRest e) (IfOk-trivial _)
          (λ s _ _. expect_from-SameRest e a add counter 0 s.transitions))

nothing : (n id : ℕ) {l : List ℕ} → get_elem? (replicate n []) id ≡ some l → l ≡ []
nothing n id h = All-get (λ l. l ≡ []) (replicate n []) id (All-replicate (λ l. l ≡ []) n [] refl) h

blank-Holding : (rule : Rule) (n : ℕ) → Holding 0 (blank rule n)
unfolding blank
blank-Holding rule n = (
  record {
    nodes = All-replicate _ (rule.events_count + 1) [] tt;
    members = λ id {l} h. rw (nothing n id h) tt;
    distinct = λ id {l} h. rw (nothing n id h) tt;
  },
  (record rule.instance { id = 0 }, refl),
)

-- The bootstrap machine joins the class 0, which was empty.
joined :
    (rule : Rule) (n : ℕ) (e : Engine) (l : List ℕ) (masks : List ℕ)
    → Holding 0 e
    → SameRest (blank rule n) e
    → get_elem? e.fsm_by_instance_id 0 ≡ some l
    → IsSafe
        (record e { fsm_by_instance_id = set e.fsm_by_instance_id 0 (0 ∷ l); events_hash = masks })
      × IsUntouched (record e {
        fsm_by_instance_id = set e.fsm_by_instance_id 0 (0 ∷ l);
        events_hash = masks;
      })
unfolding blank
joined rule n e l masks h same here =
    let empty : l ≡ [] = nothing n 0 (sym (ap (λ c. get_elem? c 0) same.classes) ∙ here) in
    (
      record {
        nodes = h.0.nodes;
        members = λ id {l = k} p. elim (get_elem?-set-cases e.fsm_by_instance_id id' id (0 ∷ l) p) [
          | inl (e₁, e₂) ↦
              rw (e₁, e₂, empty) ((omega (arith, same.next), (first, machine, refl)), tt)
          | inr (ne, old) ↦ h.0.members id old
        ];
        distinct = λ id {l = k} p.
            elim (get_elem?-set-cases e.fsm_by_instance_id id' id (0 ∷ l) p) [
              | inl (e₁, e₂) ↦ rw (e₂, empty) (tt, tt)
              | inr (ne, old) ↦ h.0.distinct id old
            ];
      },
      record { counter = same.counter; timestamp = same.timestamp },
    )
  where
    id' : ℕ
    id' = 0

    first : Fsm
    first = record rule.instance { id = 0 }

    machine : e.fsms 0 ≡ some first
    machine = ap (λ m. m 0) same.machines

-- An engine that is constructed is safe, and has made no verification of timeouts.
pub rule_engine_init-IsSafe :
    (registered : List ProtoAttribute) (rule : Rule) (n : ℕ)
    → IfOk (rule_engine_init registered rule n) (λ r. IsSafe r.1 × IsUntouched r.1)
unfolding rule_engine_init
rule_engine_init-IsSafe registered rule n = elim (Bool-cases (leb (rule.events_count + 1) 64)) [
  | inr q ↦ rw q tt
  | inl q ↦ rw q (
      IfOk-bind (set_expecting_events_id rule (blank rule n) 0 false 0) _
        (λ e. Holding 0 e × SameRest (blank rule n) e) (λ r. IsSafe r.1 × IsUntouched r.1)
        (both (Holding 0) (SameRest (blank rule n))
          (set_expecting_events_id rule (blank rule n) 0 false 0)
          (set_expecting_events_id-Holding rule (blank rule n) 0 false 0 (blank-Holding rule n))
          (set_expecting_events_id-SameRest rule (blank rule n) 0 false 0))
        (λ e _ (h, same).
          IfOk-bind (at e.fsm_by_instance_id 0) _ (λ l. get_elem? e.fsm_by_instance_id 0 ≡ some l)
            (λ r. IsSafe r.1 × IsUntouched r.1) (at-get e.fsm_by_instance_id 0)
            (λ l _ here.
              IfOk-set_list e.fsm_by_instance_id 0 _ _ (λ r. IsSafe r.1 × IsUntouched r.1)
                (IfOk-bind (calculate_hash_number registered rule 0 e.events_count) _
                  (λ _. Unit {0}) (λ r. IsSafe r.1 × IsUntouched r.1) (IfOk-trivial _)
                  (λ masks _ _.
                    IfOk-bind (is_verifying_single_packet rule.states rule.instance) _
                      (λ _. Unit {0}) (λ r. IsSafe r.1 × IsUntouched r.1) (IfOk-trivial _)
                      (λ single _ _. joined rule n e l masks h same here))))))
]
  where
    both : (P Q : Engine → Type 0) (r : Run Engine) → IfOk r P → IfOk r Q → IfOk r (λ e. P e × Q e)
    both P Q (ok e) p q = (p, q)
    both P Q (fault f) p q = tt

run_messages-IsSafe :
    (rule : Rule) (ms : List Message) (e : Engine)
    → IsSafe e
    → IfOk (run_messages (process_multi_packets rule) ms e) (λ r. IsSafe r.1)
unfolding run_messages
run_messages-IsSafe rule [] e safe = safe
run_messages-IsSafe rule (m ∷ ms) e safe =
    IfOk-bind (process_multi_packets rule m e) _ (λ s. IsSafe s.1) (λ r. IsSafe r.1)
      (process_multi_packets-IsSafe rule m e safe)
      (λ s _ safe'.
        IfOk-bind (run_messages (process_multi_packets rule) ms s.1) _ (λ r. IsSafe r.1)
          (λ r. IsSafe r.1) (run_messages-IsSafe rule ms s.1 safe') (λ r _ p. p))

-- Every engine that messages make of a constructed one is safe: no node waits for a machine that was
-- freed, and every class holds live machines with its id, none of them twice. Nothing is said of the
-- pointer `fsm_bootstrap`, whose machine may be freed.
pub run_messages-rule_engine_init :
    (registered : List ProtoAttribute) (rule : Rule) (n : ℕ) (ms : List Message)
    → IfOk
        (rule_engine_init registered rule n >>= λ r.
          run_messages (process_multi_packets rule) ms r.1)
        (λ r. IsSafe r.1)
run_messages-rule_engine_init registered rule n ms =
    IfOk-bind (rule_engine_init registered rule n) _ (λ r. IsSafe r.1 × IsUntouched r.1)
      (λ r. IsSafe r.1) (rule_engine_init-IsSafe registered rule n)
      (λ r _ p. run_messages-IsSafe rule ms r.1 p.0)
