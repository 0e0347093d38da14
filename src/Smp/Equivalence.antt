-- ===== src/Smp/Equivalence.antt =====
-- The verification by several threads from the registration to the end (src/lib/mmt_smp_security.c),
-- against that by one thread (src/lib/mmt_single_security.c).
use mmt_security.Prelude.{
  ℕ, ◌≡◌, sym, ap, ◌∙◌, subst, inl, inr, List, [], ◌++◌, Bool, ◌==◌, if◌then◌else◌, ltb, length,
  Run, ok, fault, halted, ◌>>=◌, IfOk, IfOk-use, All, Bool-cases,
}
use mathlib.Core.List.{Perm, append-nil}
use mmt_security.Message.{Message}
use mmt_security.Rule.{Rule, ProtoAttribute}
use mmt_security.Utils.Masks.{Text}
use mmt_security.Handler.{Handler, single_sec_register}
use mmt_security.Smp.{distribute, register_all, smp_sec_register}
use mmt_security.Smp.Bursts.{process_all}
use mmt_security.Smp.Partition.{all_rules, IsPartition, distribute-IsPartition}
use mmt_security.Smp.OneHandler.{work_of}
use mmt_security.Smp.Agreement.{Thread, thread_work, IsServing, process_all-threads}
use mmt_security.Smp.Registered.{
  made, handlers_of, all_entries, entries_work, all_entries_work, IsFresh,
  single_sec_register-IsFresh, single_sec_register-sum, register_all-sum, register_all-IsFresh,
  Gets, serving, entries_of-handlers,
}
use mmt_security.Smp.Work.{IsSameWork, same_of_eq, same_trans, sum, sum-perm}

-- The number of the threads that get rules.
abbrev pub threads_for : List Rule → ℕ → ℕ
threads_for rules threads_count =
    if ltb (length rules) threads_count then length rules else threads_count

-- The rules are all given to handlers that were registered for them.
abbrev IsGiven : List ProtoAttribute → ℕ → Bool → List Rule → List Handler → Type 0
IsGiven atts n b rules hs =
    (all : List (List Rule)) × (register_all atts n b all ≡ ok hs) × Perm (all_rules all) rules

register_all-IsGiven :
    (atts : List ProtoAttribute) (n : ℕ) (b : Bool) (rules : List Rule) (threads : ℕ)
    (d : Run (List (List Rule) × List Rule)) (hs : List Handler)
    → IfOk d (IsPartition threads rules)
    → IfOk d (λ s. s.1 ≡ [])
    → (d >>= λ (all, rest). register_all atts n b all) ≡ ok hs
    → IsGiven atts n b rules hs
register_all-IsGiven atts n b rules threads (fault c) hs p none_left e = cc
register_all-IsGiven atts n b rules threads (ok (all, rest)) hs p none_left e = (
  all,
  e,
  subst (λ l. Perm l rules) (ap (λ l. all_rules all ++ l) none_left ∙ append-nil (all_rules all))
      p.1,
)

smp_sec_register-IsGiven :
    (atts : List ProtoAttribute) (n : ℕ) (rules : List Rule) (threads_count : ℕ) (mask : Text)
    (b : Bool) (hs : List Handler)
    → IfOk (distribute (threads_for rules threads_count) mask rules) (λ s. s.1 ≡ [])
    → smp_sec_register atts n rules threads_count mask b ≡ ok hs
    → IsGiven atts n b rules hs
unfolding smp_sec_register
smp_sec_register-IsGiven atts n rules threads_count mask b hs none_left e =
    elim (Bool-cases (length rules == 0)) [
      | inl q ↦ let never : fault halted ≡ ok hs = rw q at e in cc
      | inr q ↦
          let threads = threads_for rules threads_count in
          let registered : (distribute threads mask rules >>= λ (all, rest).
          register_all atts n b all)
              ≡ ok hs =
            rw q at e in
          register_all-IsGiven atts n b rules threads (distribute threads mask rules) hs
            (distribute-IsPartition threads mask rules).0 none_left registered
    ]

-- The verification by several threads is that by one: let the rules be registered in some threads, with
-- any mask under which no rule is left over, and in one handler with the same function of the user. If
-- each thread gets, in any bursts, the messages that concern its handler and then the null message, then
-- the threads together leave the same entries, with their engines and their counts of alerts, and make
-- the same calls with the same verdicts as the one handler that processes all the messages, up to the
-- order, or both end in a fault.
pub smp_sec_register-process_all :
    (atts : List ProtoAttribute) (n : ℕ) (rules : List Rule) (threads_count : ℕ) (mask : Text)
    (b : Bool) (h : Handler) (ts : List Thread) (ms : List Message)
    → IfOk (distribute (threads_for rules threads_count) mask rules) (λ s. s.1 ≡ [])
    → smp_sec_register atts n rules threads_count mask b ≡ ok (handlers_of ts)
    → single_sec_register atts n rules b ≡ ok h
    → All (Gets ms) ts
    → IsSameWork (sum thread_work ts) (work_of (process_all h ms))
smp_sec_register-process_all atts n rules threads_count mask b h ts ms none_left several single
      gets =
    let (all, registered, perm) =
      smp_sec_register-IsGiven atts n rules threads_count mask b (handlers_of ts) none_left
        several in
    let fresh =
      IfOk-use (single_sec_register atts n rules b) (IsFresh b)
        (single_sec_register-IsFresh atts n rules b) single in
    let all_fresh =
      IfOk-use (register_all atts n b all) (All (IsFresh b)) (register_all-IsFresh atts n b all)
        registered in
    let one : sum (made atts n) rules ≡ ok (h.entries, []) =
      sym (single_sec_register-sum atts n rules b) ∙ ap entries_work single in
    let many : ok (all_entries (handlers_of ts), []) ≡ sum (made atts n) (all_rules all) =
      sym (ap all_entries_work registered) ∙ register_all-sum atts n b all in
    let same : IsSameWork (ok (all_entries (handlers_of ts), [])) (ok (h.entries, [])) =
      same_trans (ok (all_entries (handlers_of ts), [])) (sum (made atts n) (all_rules all))
        (ok (h.entries, [])) (same_of_eq many)
        (same_trans (sum (made atts n) (all_rules all)) (sum (made atts n) rules)
          (ok (h.entries, [])) (sum-perm (made atts n) perm) (same_of_eq one)) in
    process_all-threads h ts ms fresh.consistent fresh.free
      (subst (λ c. All (IsServing c ms) ts) (sym fresh.callback) (serving b ms ts all_fresh gets))
      (subst (λ es. Perm es h.entries) (entries_of-handlers ts) same.0)
