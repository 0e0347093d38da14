-- ===== src/Smp/Agreement.antt =====
-- Several threads against one (src/lib/mmt_smp_security.c, src/lib/mmt_single_security.c).
use mmt_security.Prelude.{
  ◌≡◌, refl, sym, ap, ◌∙◌, subst, Option, none, List, [], ◌∷◌, ◌++◌, Bool, true, Run, ok, fault,
  ◌>>=◌, All,
}
use mathlib.Core.List.{Perm}
use mmt_security.Message.{Message}
use mmt_security.Handler.{Entry, Handler, Call}
use mmt_security.Handler.Consistent.{IsConsistent}
use mmt_security.Smp.{process_one_thread}
use mmt_security.Smp.Bursts.{process_all, joined, messages, process_one_thread-joined}
use mmt_security.Smp.Waiting.{due}
use mmt_security.Smp.Delivery.{due-messages, concerned, process_all-concerned}
use mmt_security.Smp.Follow.{follow, follow_all}
use mmt_security.Smp.OneHandler.{work_of, process_all-follow_all}
use mmt_security.Smp.Work.{
  Work, ◌⊕◌, IsSameWork, same_refl, same_of_eq, same_trans, same_sym, same_both, sum, sum-append,
  sum-perm,
}

-- A handler, and the bursts that its thread gets.
abbrev pub Thread : Type 0
Thread = Handler × List (List (Option Message))

-- The entries that a thread leaves, and the calls that it makes.
abbrev pub thread_work : Thread → Work
thread_work (h, bs) = process_one_thread h bs >>= λ (h', calls, stop). ok (h'.entries, calls)

abbrev pub entries_of : List Thread → List Entry
entries_of [] = []
entries_of ((h, bs) ∷ ts) = h.entries ++ entries_of ts

-- The thread gets those of the messages that concern its handler and then the null message, in some
-- bursts, and its handler is consistent and ignores no flows.
pub record IsServing (b : Bool) (ms : List Message) (t : Thread) : Type 0 where
  pub got : joined t.1 ≡ due t.0.hash (messages ms ++ none ∷ [])
  pub consistent : IsConsistent t.0
  pub free : t.0.flow_ids_to_ignore ≡ none
  pub callback : t.0.has_callback ≡ b

thread_work-follow_all :
    (b : Bool) (ms : List Message) (t : Thread)
    → IsServing b ms t
    → IsSameWork (thread_work t) (follow_all b t.0.entries ms)
thread_work-follow_all b ms (h, bs) s =
    let bursts =
      process_one_thread-joined h bs (concerned h.hash ms) (s.got ∙ due-messages h.hash ms) in
    let stops : Run (Handler × List Call) → Run (Handler × List Call × Bool) =
      λ r. r >>= λ (h', calls). ok (h', calls, true) in
    let whole : thread_work (h, bs) ≡ work_of (process_all h ms) =
      ap (λ r. r >>= λ (h', calls, stop). ok (h'.entries, calls))
        (bursts ∙ ap stops (process_all-concerned h ms))
      ∙ last (process_all h ms) in
    subst (λ w. IsSameWork w (follow_all b h.entries ms)) (sym whole)
      (subst (λ c. IsSameWork (work_of (process_all h ms)) (follow_all c h.entries ms)) s.callback
        (process_all-follow_all h ms s.consistent s.free))
  where
    last :
        (r : Run (Handler × List Call))
        → ((r >>= λ (h', calls). ok (h', calls, true)) >>= λ (h', calls, stop).
            ok (h'.entries, calls))
          ≡ work_of r
    last (ok r) = refl
    last (fault c) = refl

threads-follow_all :
    (b : Bool) (ms : List Message) (ts : List Thread)
    → All (IsServing b ms) ts
    → IsSameWork (sum thread_work ts) (follow_all b (entries_of ts) ms)
threads-follow_all b ms [] h = same_refl (ok ([], []))
threads-follow_all b ms ((h, bs) ∷ ts) (s, ss) =
    let mine = follow_all b h.entries ms in
    let others = follow_all b (entries_of ts) ms in
    same_trans (thread_work (h, bs) ⊕ sum thread_work ts) (mine ⊕ others)
      (follow_all b (h.entries ++ entries_of ts) ms)
      (same_both (thread_work (h, bs)) mine (sum thread_work ts) others
        (thread_work-follow_all b ms (h, bs) s) (threads-follow_all b ms ts ss))
      (same_of_eq (sym (sum-append (λ e. follow b e ms) h.entries (entries_of ts))))

-- Several threads do together what one does: let a consistent handler and the consistent handlers of
-- some threads ignore no flows, have the user's function all or none, and hold the same entries in any
-- order. If each thread gets, in any bursts, the messages that concern its handler and then the null
-- message, then all threads together leave the same entries and make the same calls, up to the order,
-- as the one handler that processes all the messages, or both end in a fault.
pub process_all-threads :
    (h : Handler) (ts : List Thread) (ms : List Message)
    → IsConsistent h
    → h.flow_ids_to_ignore ≡ none
    → All (IsServing h.has_callback ms) ts
    → Perm (entries_of ts) h.entries
    → IsSameWork (sum thread_work ts) (work_of (process_all h ms))
process_all-threads h ts ms c free serving perm =
    let b = h.has_callback in
    same_trans (sum thread_work ts) (follow_all b (entries_of ts) ms) (work_of (process_all h ms))
      (threads-follow_all b ms ts serving)
      (same_trans (follow_all b (entries_of ts) ms) (follow_all b h.entries ms)
        (work_of (process_all h ms)) (sum-perm (λ e. follow b e ms) perm)
        (same_sym (work_of (process_all h ms)) (follow_all b h.entries ms)
          (process_all-follow_all h ms c free)))
