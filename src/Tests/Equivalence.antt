-- ===== src/Tests/Equivalence.antt =====
-- Two threads and one, each with the same two rules (`mmt_smp_sec_register`, `mmt_single_sec_register`).
use mmt_security.Prelude.{
  ◌≡◌, refl, some, none, List, [], ◌∷◌, true, Run, ok, fault, IfOk, IfOk-use, ◌↔◌, Ensures, All,
}
use mmt_security.Message.{Message}
use mmt_security.Handler.{
  Entry, Handler, new_entry, new_entries, combine_masks, combine_rules, single_sec_register,
  single_sec_process, is_ignore_remain_flow, verify_rules, verify_rule, alert, ignore_trace,
  calls_of, total_alerts,
}
use mmt_security.Smp.{
  distribute, share_special, share_equally, split_rules, register_all, smp_sec_register, concerns,
  process_one_thread, process_burst, smp_total_alerts,
}
use mmt_security.Utils.Masks.{get_special_rules_for_thread}
use mmt_security.Smp.Bursts.{process_all}
use mmt_security.Smp.OneHandler.{work_of}
use mmt_security.Prelude.Digits.{bit}
use mathlib.Core.List.Perm as Perm
use mmt_security.Rule.{Rule}
use mmt_security.Handler.Told.{Somewhere, process_all-Somewhere}
use mmt_security.Handler.Consistent.{IsConsistent, single_sec_register-IsConsistent}
use mmt_security.Smp.Agreement.{IsServing, process_all-threads, Thread, thread_work}
use mmt_security.Smp.Registered.{handlers_of, Gets}
use mmt_security.Smp.Equivalence.{threads_for, smp_sec_register-process_all}
use mmt_security.Smp.Totals.{finish, smp_total_alerts-process_all}
use mmt_security.Smp.Work.{IsSameWork, sum}
use mmt_security.Tests.Fsm.{message}
use mmt_security.Tests.Engine.{rule, registered, program}
use mmt_security.Tests.Security.{two_rules}
use mmt_security.Tests.Handler.{entry}

abbrev third : Entry
third = record entry { rule = record rule { id = 3 } }

abbrev fifth : Entry
fifth = record entry { rule = record rule { id = 5 } }

abbrev handler_of : List Entry → Handler
handler_of entries = record {
  entries = entries;
  has_callback = true;
  hash = 6;
  messages_count = 0;
  flow_ids_to_ignore = none;
}

abbrev given : List Message
given = message 1 1000 1 ∷ message 2 1050 2 ∷ []

-- The threads get the same messages in other bursts.
abbrev threads : List Thread
threads =
    (
      handler_of (third ∷ []),
      (some (message 1 1000 1) ∷ []) ∷ (some (message 2 1050 2) ∷ none ∷ []) ∷ [],
    )
    ∷ (
      handler_of (fifth ∷ []),
      (some (message 1 1000 1) ∷ some (message 2 1050 2) ∷ none ∷ []) ∷ [],
    )
    ∷ []

registration : Unit {0}
unfolding program smp_sec_register register_all single_sec_register new_entries new_entry
    combine_masks combine_rules distribute share_special share_equally split_rules
    get_special_rules_for_thread process_one_thread process_burst single_sec_process
    is_ignore_remain_flow verify_rules verify_rule alert ignore_trace calls_of
registration = tt

one_registered :
    single_sec_register registered 3 two_rules true ≡ ok (handler_of (third ∷ fifth ∷ []))
unfolding registration
one_registered = refl

none_left : IfOk (distribute (threads_for two_rules 2) [] two_rules) (λ s. s.1 ≡ [])
unfolding distribute share_special share_equally split_rules get_special_rules_for_thread
none_left = refl

two_registered : smp_sec_register registered 3 two_rules 2 [] true ≡ ok (handlers_of threads)
unfolding registration
two_registered = refl

all_delivered : All (Gets given) threads
unfolding concerns
all_delivered = (refl, (refl, tt))

smp_sec_register-process_all_example :
    IsSameWork
      (sum thread_work threads)
      (work_of (process_all (handler_of (third ∷ fifth ∷ [])) given))
smp_sec_register-process_all_example =
    smp_sec_register-process_all registered 3 two_rules 2 [] true (handler_of (third ∷ fifth ∷ []))
      threads given none_left two_registered one_registered all_delivered

-- The handlers in the end.
abbrev handlers_in : Run (List Handler) → List Handler
handlers_in (ok hs) = hs
handlers_in (fault c) = []

all_stop : finish threads ≡ ok (handlers_in (finish threads))
unfolding registration
all_stop = refl

-- Each thread has found the attack.
two_alerts : smp_total_alerts (handlers_in (finish threads)) ≡ 2
unfolding registration smp_total_alerts total_alerts
two_alerts = refl

smp_total_alerts-process_all_example :
    Ensures
      (process_all (handler_of (third ∷ fifth ∷ [])) given)
      λ r. smp_total_alerts (handlers_in (finish threads)) ≡ total_alerts r.0.entries
smp_total_alerts-process_all_example =
    smp_total_alerts-process_all registered 3 two_rules 2 [] true (handler_of (third ∷ fifth ∷ []))
      threads given (handlers_in (finish threads)) none_left two_registered one_registered
      all_delivered all_stop

process_all-Somewhere_example :
    IfOk
      (single_sec_register registered 3 two_rules true)
      λ h. IfOk (process_all h given) λ r. (bit r.0.hash 1 ≡ 1) ↔ Somewhere 1 r.0.entries
process_all-Somewhere_example = process_all-Somewhere registered 3 two_rules true given 1

-- A handler of entries that a registration made.
registered-IsConsistent :
    (rules : List Rule) (entries : List Entry)
    → single_sec_register registered 3 rules true ≡ ok (handler_of entries)
    → IsConsistent (handler_of entries)
registered-IsConsistent rules entries e =
    IfOk-use (single_sec_register registered 3 rules true) IsConsistent
      (single_sec_register-IsConsistent registered 3 rules true) e

third-registered :
    single_sec_register registered 3 (third.rule ∷ []) true ≡ ok (handler_of (third ∷ []))
unfolding registration
third-registered = refl

fifth-registered :
    single_sec_register registered 3 (fifth.rule ∷ []) true ≡ ok (handler_of (fifth ∷ []))
unfolding registration
fifth-registered = refl

all-IsServing : All (IsServing true given) threads
all-IsServing = (
  record {
    got = all_delivered.0;
    consistent = registered-IsConsistent (third.rule ∷ []) (third ∷ []) third-registered;
    free = refl;
    callback = refl;
  },
  (
    record {
      got = all_delivered.1.0;
      consistent = registered-IsConsistent (fifth.rule ∷ []) (fifth ∷ []) fifth-registered;
      free = refl;
      callback = refl;
    },
    tt,
  ),
)

process_all-threads_example :
    IsSameWork
      (sum thread_work threads)
      (work_of (process_all (handler_of (third ∷ fifth ∷ [])) given))
process_all-threads_example =
    process_all-threads (handler_of (third ∷ fifth ∷ [])) threads given
      (registered-IsConsistent two_rules (third ∷ fifth ∷ []) one_registered) refl all-IsServing
      (Perm.refl (third ∷ fifth ∷ []))
