-- ===== src/Engine/Timeouts.antt =====
-- The part of `_process_multi_packets` that is meant to verify timeouts from time to time.
use mmt_security.Prelude.{
  ◌+◌, ◌^◌, ◌<◌, ◌≡◌, refl, List, [], ◌∷◌, arith, Run, ok, fault, ◌>>=◌, IfOk, IfOk-map, All,
}
use mmt_security.Message.{Message}
use mmt_security.Rule.{Rule, Verdict}
use mmt_security.Engine.Store.{Engine}
use mmt_security.Engine.Process.{process_events, process_timeouts, process_multi_packets}
use mmt_security.Engine.Kept.{process_events-Kept}

-- Neither the counter nor the timestamp is within reach of the end of 64 bits.
pub record IsInRange (m : Message) : Type 0 where
  pub counter : m.counter + 10 < 2 ^ 64
  pub timestamp : m.timestamp + 100000 < 2 ^ 64

-- The last verification of timeouts lies at the start of the run.
pub record IsUntouched (e : Engine) : Type 0 where
  pub counter : e.last_msg_counter_timeout ≡ 0
  pub timestamp : e.last_msg_timestamp_timeout ≡ 0

abbrev pub cons_verdict : Verdict → Run (List Verdict × Engine) → Run (List Verdict × Engine)
cons_verdict v r = do (vs, e) ← r; ok (v ∷ vs, e)

-- The messages of a run, one after the other, with their verdicts.
unfoldable pub run_messages :
    (Message → Engine → Run (Verdict × Engine))
    → List Message
    → Engine
    → Run (List Verdict × Engine)
run_messages step [] e = ok ([], e)
run_messages step (m ∷ ms) e = do (v, e') ← step m e; cons_verdict v (run_messages step ms e')

-- The loop over the events alone.
abbrev pub events_only : Rule → Message → Engine → Run (Verdict × Engine)
events_only rule m e = process_events rule m 0 e.events_count e

timeouts_put_off :
    (rule : Rule) (m : Message) (e : Engine)
    → IsInRange m
    → IsUntouched e
    → process_multi_packets rule m e ≡ events_only rule m e
unfolding process_multi_packets process_timeouts
timeouts_put_off rule m e range u = ground (arith, process_events-Kept rule m 0 e.events_count e)

events_only-IsUntouched :
    (rule : Rule) (m : Message) (e : Engine)
    → IsUntouched e
    → IfOk (events_only rule m e) (λ s. IsUntouched s.1)
events_only-IsUntouched rule m e u = ground (arith, process_events-Kept rule m 0 e.events_count e)

same_rest :
    (r : Run (Verdict × Engine)) (f g : Engine → Run (List Verdict × Engine))
    → IfOk r (λ s. f s.1 ≡ g s.1)
    → (r >>= λ s. cons_verdict s.0 (f s.1)) ≡ (r >>= λ s. cons_verdict s.0 (g s.1))
same_rest (ok s) f g h = rw h
same_rest (fault x) f g h = refl

-- A run that starts before any verification of timeouts, as every engine does, never makes one:
-- whatever the messages, up to the end of the range of their counters and timestamps, the verdicts
-- and the engine are those of the loop over the events alone.
pub timeouts_never_verified :
    (rule : Rule) (ms : List Message) (e : Engine)
    → All IsInRange ms
    → IsUntouched e
    → run_messages (process_multi_packets rule) ms e ≡ run_messages (events_only rule) ms e
unfolding run_messages
timeouts_never_verified rule [] e range u = refl
timeouts_never_verified rule (m ∷ ms) e (r, rs) u = rw (timeouts_put_off rule m e r u) (
    same_rest (events_only rule m e) (run_messages (process_multi_packets rule) ms)
      (run_messages (events_only rule) ms)
      (IfOk-map (events_only rule m e) (λ s. IsUntouched s.1) _ (events_only-IsUntouched rule m e u)
        (λ s p. timeouts_never_verified rule ms s.1 rs p)))
