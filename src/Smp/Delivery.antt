-- ===== src/Smp/Delivery.antt =====
-- What the threads get (`mmt_smp_sec_process`), and what they make of it.
use Prim.Native.Nat.{bit_and}
use mmt_security.Prelude.{
  ℕ, ◌≡◌, refl, sym, ap, ◌∙◌, inl, inr, Option, none, some, List, [], ◌∷◌, ◌++◌, true, false, ◌==◌,
  if◌then◌else◌, arith, get_elem?, Run, ok, fault, ◌>>=◌, IfOk, Bool-cases, ◌%◌, ◌≢◌, length,
  get_or-set_ne, get_or-set_self, get_or-replicate, length-set, get_elem?-bound,
  get_elem?-set-cases, replicate, length-replicate,
}
use mathlib.Core.List.{append_assoc, append-nil}
use mmt_security.Message.{Message}
use mmt_security.Handler.{Handler, Call, single_sec_process}
use mmt_security.Smp.{concerns, process_one_thread}
use mmt_security.Smp.Bursts.{process_all, joined, messages, process_one_thread-joined}
use mmt_security.Smp.Lanes.{
  mask_bit_check, Lane, Lanes, IsStart, Step, give, push, pop, Reachable, here, next,
}
use mmt_security.Smp.Waiting.{due, held, IsDelivered, due-append, length-mask_for, mask_for-bit}

-- With the mask 0 nothing waits.
zero_mask-held : (s : Lanes) (i : ℕ) → s.mask ≡ replicate 64 false → held s i ≡ []
zero_mask-held s i returned =
    ap (λ mask. if mask_bit_check mask i then s.current ∷ [] else []) returned
    ∙ ap (λ b. if b then s.current ∷ [] else []) (get_or-replicate 64 (i % 64) false)

Step-IsDelivered : {s t : Lanes} → Step s t → IsDelivered s → IsDelivered t
Step-IsDelivered (give s x returned) d = record {
  few = d.few;
  width = length-mask_for x s.lanes;
  delivered = λ i l at_i.
      let quiet : held s i ≡ [] = zero_mask-held s i returned in
      let base : l.taken ++ l.queue ≡ due l.hash s.given =
        ap (λ q. l.taken ++ q) (sym (append-nil l.queue) ∙ ap (λ w. l.queue ++ w) (sym quiet))
        ∙ d.delivered i l at_i in
      ap (λ b. l.taken ++ (l.queue ++ (if b then x ∷ [] else [])))
        (mask_for-bit x s.lanes i l d.few at_i)
      ∙ sym (append_assoc l.taken l.queue _)
      ∙ ap (λ q. q ++ (if concerns l.hash x then x ∷ [] else [])) base
      ∙ sym (due-append l.hash s.given x);
}
Step-IsDelivered (push s i l at_i waits room) d = record {
  few = omega (arith, length-set s.lanes i _, d.few);
  width = length-set s.mask (i % 64) false ∙ d.width;
  delivered = λ j m at_j. elim (get_elem?-set-cases s.lanes i j _ at_j) [
    | inl (index, same) ↦
        rw (index, same)
          (ap (λ b. l.taken ++ ((l.queue ++ s.current ∷ []) ++ (if b then s.current ∷ [] else [])))
              (get_or-set_self s.mask (i % 64) false false (omega (arith, d.width)))
            ∙ ap (λ q. l.taken ++ q)
                (append-nil (l.queue ++ s.current ∷ [])
                  ∙ ap (λ b. l.queue ++ (if b then s.current ∷ [] else [])) (sym waits))
            ∙ d.delivered i l at_i)
    | inr (other, before) ↦
        let apart : i % 64 ≢ j % 64 = λ e. other (
          omega
            (arith, e, d.few, get_elem?-bound s.lanes i at_i, get_elem?-bound s.lanes j before)) in
        ap (λ b. m.taken ++ (m.queue ++ (if b then s.current ∷ [] else [])))
          (get_or-set_ne s.mask false false apart)
        ∙ d.delivered j m before
  ];
}
Step-IsDelivered (pop s i l burst rest at_i cut) d = record {
  few = omega (arith, length-set s.lanes i _, d.few);
  width = d.width;
  delivered = λ j m at_j. elim (get_elem?-set-cases s.lanes i j _ at_j) [
    | inl (index, same) ↦
        rw (index, same)
          (append_assoc l.taken burst (rest ++ held s i)
            ∙ ap (λ q. l.taken ++ q)
                (sym (append_assoc burst rest (held s i)) ∙ ap (λ q. q ++ held s i) (sym cut))
            ∙ d.delivered i l at_i)
    | inr (other, before) ↦ d.delivered j m before
  ];
}

start-IsDelivered : (s : Lanes) → IsStart s → IsDelivered s
start-IsDelivered s start = record {
  few = start.few;
  width = ap length start.zero_mask ∙ length-replicate 64 false;
  delivered = λ i l at_i.
      let (queue, taken) = start.empty i l at_i in
      let quiet = zero_mask-held s i start.zero_mask in
      ap (λ t. t ++ (l.queue ++ held s i)) taken
      ∙ ap (λ q. q ++ held s i) queue
      ∙ quiet
      ∙ ap (due l.hash) (sym start.none_given);
}

-- However the threads run, whatever rings are full on the way and however the threads cut what they
-- pop: from the start on, with fewer than 64 threads, what a thread has popped, what its ring holds and
-- the message that waits for room in it are together just the messages given so far that concern the
-- thread, in their order.
pub Reachable-IsDelivered : {s t : Lanes} → IsStart s → Reachable s t → IsDelivered t
Reachable-IsDelivered {s} start here = start-IsDelivered s start
Reachable-IsDelivered start (next r step) = Step-IsDelivered step (Reachable-IsDelivered start r)

-- Processing leaves the mask of the handler.
single_sec_process-hash :
    (h : Handler) (m : Message) → IfOk (single_sec_process h m) (λ r. r.0.hash ≡ h.hash)
unfolding single_sec_process
single_sec_process-hash h m = ground arith

unconcerned :
    (h : Handler) (m : Message)
    → concerns h.hash (some m) ≡ false
    → single_sec_process h m ≡ ok (h, [])
unfolding single_sec_process concerns
unconcerned h m e = let q : (bit_and m.hash h.hash == 0) ≡ true = ground arith in rw q refl

-- The messages among the given ones that concern a mask.
abbrev pub concerned : ℕ → List Message → List Message
concerned hash [] = []
concerned hash (m ∷ ms) =
    if concerns hash (some m) then m ∷ concerned hash ms else concerned hash ms

pub due-messages :
    (hash : ℕ) (ms : List Message)
    → due hash (messages ms ++ none ∷ []) ≡ messages (concerned hash ms) ++ none ∷ []
unfolding concerns
due-messages hash [] = refl
due-messages hash (m ∷ ms) = elim (Bool-cases (concerns hash (some m))) [
  | inl q ↦ rw q (ap (λ l. some m ∷ l) (due-messages hash ms))
  | inr q ↦ rw q (due-messages hash ms)
]

-- The calls that were made before come first.
abbrev after : List Call → Run (Handler × List Call) → Run (Handler × List Call)
after calls r = r >>= λ (h, calls'). ok (h, calls ++ calls')

-- What comes after the first message, if it leaves the mask.
process_next :
    (hash : ℕ) (ms : List Message) (r : Run (Handler × List Call))
    → IfOk r (λ x. x.0.hash ≡ hash)
    → ((h : Handler) → process_all h (concerned h.hash ms) ≡ process_all h ms)
    → (r >>= λ (h, calls). after calls (process_all h (concerned hash ms)))
      ≡ (r >>= λ (h, calls). after calls (process_all h ms))
process_next hash ms (fault e) h rec = refl
process_next hash ms (ok (h, calls)) kept rec =
    ap (after calls) (ap (λ k. process_all h (concerned k ms)) (sym kept) ∙ rec h)

no_calls : (r : Run (Handler × List Call)) → r ≡ after [] r
no_calls (fault e) = refl
no_calls (ok (h, calls)) = refl

-- Processing only the messages that concern a handler comes to the same as processing all.
pub process_all-concerned :
    (h : Handler) (ms : List Message) → process_all h (concerned h.hash ms) ≡ process_all h ms
unfolding process_all
process_all-concerned h [] = refl
process_all-concerned h (m ∷ ms) = elim (Bool-cases (concerns h.hash (some m))) [
  | inl q ↦ rw q (
      process_next h.hash ms (single_sec_process h m) (single_sec_process-hash h m)
        (λ h'. process_all-concerned h' ms))
  | inr q ↦ rw (q, unconcerned h m q) (process_all-concerned h ms ∙ no_calls (process_all h ms))
]

-- A thread, one of fewer than 64, whose handler has the mask that the messages are distributed by, and
-- which has popped all that is due to it in any bursts, once the messages and then the null message were
-- given and its bit is cleared: it ends as if it had processed all the messages one after the other,
-- with the same calls in the same order, and stops.
pub process_one_thread-Reachable :
    {s t : Lanes} (i : ℕ) (l : Lane) (h : Handler) (ms : List Message)
    (bs : List (List (Option Message)))
    → IsStart s
    → Reachable s t
    → get_elem? t.lanes i ≡ some l
    → l.hash ≡ h.hash
    → t.given ≡ messages ms ++ none ∷ []
    → l.queue ≡ []
    → mask_bit_check t.mask i ≡ false
    → joined bs ≡ l.taken
    → process_one_thread h bs ≡ (process_all h ms >>= λ (h', calls). ok (h', calls, true))
process_one_thread-Reachable {t = t} i l h ms bs start run at_i mask all empty cleared popped =
    let quiet : held t i ≡ [] = rw cleared refl in
    let taken : l.taken ≡ due l.hash t.given =
      sym (append-nil l.taken)
      ∙ ap (λ q. l.taken ++ q) (sym quiet ∙ ap (λ q. q ++ held t i) (sym empty))
      ∙ (Reachable-IsDelivered start run).delivered i l at_i in
    let work : joined bs ≡ messages (concerned h.hash ms) ++ none ∷ [] =
      popped
      ∙ taken
      ∙ ap (λ g. due l.hash g) all
      ∙ due-messages l.hash ms
      ∙ ap (λ k. messages (concerned k ms) ++ none ∷ []) mask in
    process_one_thread-joined h bs (concerned h.hash ms) work
    ∙ ap (λ r. r >>= λ (h', calls). ok (h', calls, true)) (process_all-concerned h ms)
