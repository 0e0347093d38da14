-- ===== src/Smp/OneHandler.antt =====
-- A handler without flows to ignore works as its rules do that follow the messages one by one
-- (src/lib/mmt_single_security.c).
use Prim.Native.Nat.{bit_and}
use mmt_security.Prelude.{
  ◌≡◌, refl, sym, ap, ◌∙◌, subst, inl, inr, ◌+◌, Option, none, List, [], ◌∷◌, ◌++◌, ◌==◌, Bool,
  true, false, Run, ok, fault, ◌>>=◌, IfOk, IfOk-use, Bool-cases, arith, ==_iff,
}
use mmt_security.Prelude.Bits.{u64}
use mmt_security.Message.{Message}
use mmt_security.Flows.FlowSet.{FlowSet}
use mmt_security.Handler.{
  Entry, Handler, Call, Verified, verify_rule, verify_rules, single_sec_process, alert,
  ignore_trace, is_ignore_remain_flow,
}
use mmt_security.Handler.Consistent.{IsConsistent, single_sec_process-IsConsistent}
use mmt_security.Smp.Bursts.{process_all}
use mmt_security.Smp.Work.{Work, with_calls, IsSameWork, same_of_eq, same_trans, same_calls}
use mmt_security.Smp.Follow.{
  each, follow_all, follow_all-nil, with-nothing, exchange, unconcerned, follow_all-unconcerned,
}

-- What handlers without flows to ignore do.
abbrev pub work_of : Run (Handler × List Call) → Work
work_of r = r >>= λ (h, calls). ok (h.entries, calls)

verify_rule-none :
    (b : Bool) (m : Message) (e : Entry) → IfOk (verify_rule b m e none) (λ r. r.1 ≡ none)
unfolding verify_rule alert ignore_trace
verify_rule-none b m e = ground arith

abbrev verified : Verified → Run Verified
verified v = ok v

abbrev left_by : List Entry × List Call → Run Verified
left_by (es, calls) = ok (record { entries = es; flows = none; calls = calls })

-- Without flows to ignore, the loop over the rules gives the message to each.
verify_rules-each :
    (b : Bool) (m : Message) (es : List Entry)
    → verify_rules b m es none ≡ (each b m es >>= left_by)
unfolding verify_rules
verify_rules-each b m [] = refl
verify_rules-each b m (e ∷ es) =
    first (verify_rules-each b m es) (verify_rule b m e none) (verify_rule-none b m e)
  where
    first :
        verify_rules b m es none ≡ (each b m es >>= left_by)
        → (r : Run (Entry × Option FlowSet × List Call)) → IfOk r (λ x. x.1 ≡ none)
        → (r >>= λ (e', flows, calls). verify_rules b m es flows >>= λ v.
            ok (record { entries = e' ∷ v.entries; flows = v.flows; calls = calls ++ v.calls }))
          ≡ (((r >>= λ (e', flows, calls). ok (e', calls)) >>= λ (e', calls).
                each b m es >>= λ (es', calls'). ok (e' ∷ es', calls ++ calls'))
              >>= left_by)
    first others (fault c) h = refl
    first others (ok (e', flows, calls)) h = rw (h, others) (last (each b m es))
      where
        last :
            (v : Work)
            → ((v >>= left_by) >>= λ v.
                verified
                  (record { entries = e' ∷ v.entries; flows = v.flows; calls = calls ++ v.calls }))
              ≡ ((v >>= λ (es', calls'). ok (e' ∷ es', calls ++ calls')) >>= left_by)
        last (fault c) = refl
        last (ok v) = refl

-- The handler after a message that concerns it.
abbrev moved : Handler → List Entry → Handler
moved h es = record h {
  entries = es;
  messages_count = u64 (h.messages_count + 1);
  flow_ids_to_ignore = none;
}

abbrev moved_by : Handler → List Entry × List Call → Run (Handler × List Call)
moved_by h (es, calls) = ok (moved h es, calls)

abbrev settled : Handler → Verified → Run (Handler × List Call)
settled h r = ok (
  record h {
    entries = r.entries;
    messages_count = u64 (h.messages_count + 1);
    flow_ids_to_ignore = r.flows;
  },
  r.calls,
)

process-concerned :
    (h : Handler) (m : Message)
    → h.flow_ids_to_ignore ≡ none
    → (bit_and m.hash h.hash == 0) ≡ false
    → single_sec_process h m ≡ (each h.has_callback m h.entries >>= moved_by h)
unfolding single_sec_process is_ignore_remain_flow
process-concerned h m free q =
    rw (q, free, verify_rules-each h.has_callback m h.entries)
      (last (each h.has_callback m h.entries))
  where
    last : (v : Work) → ((v >>= left_by) >>= settled h) ≡ (v >>= moved_by h)
    last (fault c) = refl
    last (ok v) = refl

abbrev after : List Call → Run (Handler × List Call) → Run (Handler × List Call)
after calls r = r >>= λ (h, calls'). ok (h, calls ++ calls')

work-after :
    (calls : List Call) (r : Run (Handler × List Call))
    → work_of (after calls r) ≡ with_calls calls (work_of r)
work-after calls (ok r) = refl
work-after calls (fault c) = refl

-- The messages after the first.
work-each :
    (h : Handler) (ms : List Message) (v : Work)
    → work_of ((v >>= moved_by h) >>= λ (h', calls). after calls (process_all h' ms))
      ≡ (v >>= λ (es, calls). with_calls calls (work_of (process_all (moved h es) ms)))
work-each h ms (fault c) = refl
work-each h ms (ok (es, calls)) = work-after calls (process_all (moved h es) ms)

same_next :
    (v : Work) (f g : List Entry → Work)
    → ((es : List Entry) (calls : List Call) → v ≡ ok (es, calls) → IsSameWork (f es) (g es))
    → IsSameWork
        (v >>= λ (es, calls). with_calls calls (f es))
        (v >>= λ (es, calls). with_calls calls (g es))
same_next (fault c) f g k = tt
same_next (ok (es, calls)) f g k = same_calls calls (f es) (g es) (k es calls refl)

moved-IsConsistent :
    (h : Handler) (m : Message)
    → IsConsistent h
    → h.flow_ids_to_ignore ≡ none
    → (bit_and m.hash h.hash == 0) ≡ false
    → {es : List Entry} {calls : List Call} → each h.has_callback m h.entries ≡ ok (es, calls)
    → IsConsistent (moved h es)
moved-IsConsistent h m c free q e =
    IfOk-use (single_sec_process h m) (λ r. IsConsistent r.0)
      (single_sec_process-IsConsistent h m c)
      (process-concerned h m free q ∙ ap (λ v. v >>= moved_by h) e)

skipped :
    (h : Handler) (m : Message) (ms : List Message)
    → (bit_and m.hash h.hash == 0) ≡ true
    → work_of (process_all h (m ∷ ms)) ≡ work_of (process_all h ms)
unfolding process_all single_sec_process
skipped h m ms q =
    rw q (work-after [] (process_all h ms) ∙ with-nothing (work_of (process_all h ms)))

-- A handler that is consistent and ignores no flows does with some messages what its rules do, each
-- of which follows them by itself.
pub process_all-follow_all :
    (h : Handler) (ms : List Message)
    → IsConsistent h
    → h.flow_ids_to_ignore ≡ none
    → IsSameWork (work_of (process_all h ms)) (follow_all h.has_callback h.entries ms)
unfolding process_all
process_all-follow_all h [] c free = same_of_eq (sym (follow_all-nil h.has_callback h.entries))
process_all-follow_all h (m ∷ ms) c free = elim (Bool-cases (bit_and m.hash h.hash == 0)) [
  | inl q ↦
      let none_told = ap (bit_and m.hash) (sym c.all) ∙ (==_iff (bit_and m.hash h.hash) 0).0 q in
      let same =
        follow_all-unconcerned h.has_callback m h.entries ms
          (unconcerned m 0 h.entries none_told).1 in
      subst (λ w. IsSameWork w (follow_all h.has_callback h.entries (m ∷ ms)))
        (sym (skipped h m ms q))
        (subst (IsSameWork (work_of (process_all h ms))) (sym same)
          (process_all-follow_all h ms c free))
  | inr q ↦
      let v = each h.has_callback m h.entries in
      subst (λ w. IsSameWork w (follow_all h.has_callback h.entries (m ∷ ms)))
        (sym (rw (process-concerned h m free q) (work-each h ms v)))
        (same_trans (v >>= λ (es, calls). with_calls calls (work_of (process_all (moved h es) ms)))
          (v >>= λ (es, calls). with_calls calls (follow_all h.has_callback es ms))
          (follow_all h.has_callback h.entries (m ∷ ms))
          (same_next v (λ es. work_of (process_all (moved h es) ms))
            (λ es. follow_all h.has_callback es ms)
            (λ es calls e.
              process_all-follow_all (moved h es) ms (moved-IsConsistent h m c free q e) refl))
          (exchange h.has_callback m h.entries ms))
]
