-- ===== src/Tests/Smp.antt =====
-- Two threads, and the theorems about several threads at them.
use mmt_security.Prelude.{
  zero, suc, sym, ap, false, replicate, get_elem?, some-injective, ℕ, ◌<◌, ◌≡◌, refl, some, none,
  [], ◌∷◌, arith, ok, ◌>>=◌, IfOk, Ensures, true,
}
use mmt_security.Message.{Message}
use mmt_security.Handler.{Handler}
use mmt_security.Smp.{
  concerns, distribute, share_special, share_equally, split_rules, process_one_thread,
}
use mmt_security.Utils.Masks.{get_special_rules_for_thread}
use mmt_security.Smp.Partition.{IsPartition, distribute-IsPartition}
use mmt_security.Smp.Bursts.{process_all}
use mmt_security.Smp.Lanes.{
  ones, Lane, Lanes, IsStart, clear_unconcerned, mask_for, give, push, pop, Reachable, here, next,
}
use mmt_security.Smp.Waiting.{IsDelivered}
use mmt_security.Smp.Delivery.{Reachable-IsDelivered, process_one_thread-Reachable}
use mmt_security.Tests.Fsm.{message}
use mmt_security.Tests.Engine.{rule}
use mmt_security.Tests.Security.{two_rules}
use mmt_security.Tests.Handler.{entry}

-- Without a mask, the first thread gets the first rule.
shared :
    distribute 2 [] two_rules
    ≡ ok ((record rule { id = 3 } ∷ []) ∷ (record rule { id = 5 } ∷ []) ∷ [], [])
unfolding distribute share_special share_equally split_rules get_special_rules_for_thread
shared = refl

distribute-IsPartition_example :
    IfOk (distribute 2 [] two_rules) (IsPartition 2 two_rules)
    × Ensures (distribute 2 [] two_rules) λ s. IsPartition 2 two_rules s × (0 < 2 → s.1 ≡ [])
distribute-IsPartition_example = distribute-IsPartition 2 [] two_rules

abbrev lane : ℕ → Lane
lane hash = record { hash = hash; room = 8; queue = []; taken = [] }

-- The first thread verifies what the messages tell of, the second does not.
abbrev start : Lanes
start = record {
  lanes = lane 6 ∷ lane 8 ∷ [];
  mask = replicate 64 false;
  current = none;
  given = [];
}

start-IsStart : IsStart start
start-IsStart = record { few = omega arith; zero_mask = refl; none_given = refl; empty = nothing }
  where
    nothing :
        (i : ℕ) (l : Lane) → get_elem? start.lanes i ≡ some l → (l.queue ≡ []) × (l.taken ≡ [])
    nothing zero l e =
        (ap (λ m. m.queue) (sym (some-injective e)), ap (λ m. m.taken) (sym (some-injective e)))
    nothing (suc zero) l e =
        (ap (λ m. m.queue) (sym (some-injective e)), ap (λ m. m.taken) (sym (some-injective e)))
    nothing (suc (suc i)) l e = cc

abbrev first_message : Message
first_message = message 1 1000 1

abbrev served : Lane
served = record (lane 6) { taken = some first_message ∷ none ∷ [] }

abbrev finished : Lanes
finished = record {
  lanes = served ∷ record (lane 8) { queue = none ∷ [] } ∷ [];
  mask = replicate 64 false;
  current = none;
  given = some first_message ∷ none ∷ [];
}

-- The two calls, the pushes, and one pop of both that the first thread gets.
run : Reachable start finished
unfolding ones clear_unconcerned mask_for concerns
run =
    let given_one = next here (give start (some first_message) refl) in
    let pushed_one = next given_one (push _ 0 _ refl refl (omega arith)) in
    let given_two = next pushed_one (give _ none refl) in
    let pushed_two = next given_two (push _ 0 _ refl refl (omega arith)) in
    let pushed_three = next pushed_two (push _ 1 _ refl refl (omega arith)) in
    next pushed_three (pop _ 0 _ (some first_message ∷ none ∷ []) [] refl refl)

-- With 64 threads the mask is 0 from the beginning: no thread gets the null message, and none stops.
none_stops : mask_for none (replicate 64 (lane 6)) ≡ replicate 64 false
unfolding ones clear_unconcerned mask_for concerns
none_stops = refl

Reachable-IsDelivered_example : IsDelivered finished
Reachable-IsDelivered_example = Reachable-IsDelivered start-IsStart run

-- A handler with the mask of the first lane.
abbrev handler : Handler
handler = record {
  entries = entry ∷ [];
  has_callback = true;
  hash = 6;
  messages_count = 0;
  flow_ids_to_ignore = none;
}

process_one_thread-Reachable_example :
    process_one_thread handler ((some first_message ∷ []) ∷ (none ∷ []) ∷ [])
    ≡ (process_all handler (first_message ∷ []) >>= λ (h', calls). ok (h', calls, true))
process_one_thread-Reachable_example =
    process_one_thread-Reachable 0 served handler (first_message ∷ [])
      ((some first_message ∷ []) ∷ (none ∷ []) ∷ []) start-IsStart run refl refl refl refl refl refl
