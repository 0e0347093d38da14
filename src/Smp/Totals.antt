-- ===== src/Smp/Totals.antt =====
-- The alerts that are counted in the end (`mmt_smp_sec_unregister`, `mmt_single_sec_unregister`).
use mmt_security.Prelude.{
  ℕ, ◌+◌, ◌≡◌, refl, sym, ap, ◌∙◌, subst, List, [], ◌∷◌, ◌++◌, Bool, arith, Run, ok, fault, ◌>>=◌,
  IfOk, Ensures, All,
}
use mmt_security.Prelude.Bits.{u64}
use mathlib.Core.Logic.{∥∥₁_elim}
use mathlib.Core.List.{Perm, Permᴰ}
use native.Mathlib.Nat.{ℕ_set}
use mmt_security.Message.{Message}
use mmt_security.Rule.{Rule, ProtoAttribute}
use mmt_security.Utils.Masks.{Text}
use mmt_security.Handler.{Entry, Handler, Call, single_sec_register, total_alerts}
use mmt_security.Smp.{distribute, smp_sec_register, smp_total_alerts, process_one_thread}
use mmt_security.Smp.Bursts.{process_all}
use mmt_security.Smp.OneHandler.{work_of}
use mmt_security.Smp.Agreement.{Thread, thread_work}
use mmt_security.Smp.Registered.{handlers_of, all_entries, Gets}
use mmt_security.Smp.Equivalence.{threads_for, smp_sec_register-process_all}
use mmt_security.Smp.Work.{Work, ◌⊕◌, IsSameWork, sum}

total_alerts-append :
    (es fs : List Entry) → total_alerts (es ++ fs) ≡ u64 (total_alerts es + total_alerts fs)
unfolding total_alerts
total_alerts-append [] [] = refl
total_alerts-append [] (e ∷ es) = omega arith
total_alerts-append (e ∷ es) fs = omega (arith, total_alerts-append es fs)

total_alerts-Permᴰ : {es fs : List Entry} → Permᴰ es fs → total_alerts es ≡ total_alerts fs
unfolding total_alerts
total_alerts-Permᴰ Permᴰ.nil = refl
total_alerts-Permᴰ (Permᴰ.cons e p) =
    omega (arith, ap (λ x. x.alerts_count) e, total_alerts-Permᴰ p)
total_alerts-Permᴰ (Permᴰ.swap e e') =
    omega (arith, ap (λ x. x.alerts_count) e, ap (λ x. x.alerts_count) e')
total_alerts-Permᴰ (Permᴰ.trans p q) = total_alerts-Permᴰ p ∙ total_alerts-Permᴰ q

total_alerts-perm : (es fs : List Entry) → Perm es fs → total_alerts es ≡ total_alerts fs
total_alerts-perm es fs p =
    ∥∥₁_elim p (ℕ_set (total_alerts es) (total_alerts fs)) total_alerts-Permᴰ

smp_total_alerts-total_alerts :
    (hs : List Handler) → smp_total_alerts hs ≡ total_alerts (all_entries hs)
unfolding smp_total_alerts total_alerts
smp_total_alerts-total_alerts [] = refl
smp_total_alerts-total_alerts (h ∷ hs) =
    omega (arith, smp_total_alerts-total_alerts hs, total_alerts-append h.entries (all_entries hs))

-- The handlers of the threads when all have stopped.
abbrev pub finish : List Thread → Run (List Handler)
finish [] = ok []
finish ((h, bs) ∷ ts) =
    process_one_thread h bs >>= λ (h', calls, stop). finish ts >>= λ hs. ok (h' ∷ hs)

abbrev left_of : Work → Run (List Entry)
left_of w = w >>= λ (es, calls). ok es

all_after :
    (h : Handler) (v : Run (List Handler))
    → ((v >>= λ hs. ok (h ∷ hs)) >>= λ hs. ok (all_entries hs))
      ≡ ((v >>= λ hs. ok (all_entries hs)) >>= λ es. ok (h.entries ++ es))
all_after h (fault c) = refl
all_after h (ok hs) = refl

sum_after :
    (es : List Entry) (calls : List Call) (w : Work)
    → (left_of w >>= λ fs. ok (es ++ fs))
      ≡ left_of (w >>= λ (fs, calls'). ok (es ++ fs, calls ++ calls'))
sum_after es calls (fault c) = refl
sum_after es calls (ok w) = refl

finish-sum :
    (ts : List Thread) → (finish ts >>= λ hs. ok (all_entries hs)) ≡ left_of (sum thread_work ts)
unfolding ◌⊕◌
finish-sum [] = refl
finish-sum ((h, bs) ∷ ts) = step (process_one_thread h bs) (finish ts) (finish-sum ts)
  where
    step :
        (u : Run (Handler × List Call × Bool)) (v : Run (List Handler))
        → (v >>= λ hs. ok (all_entries hs)) ≡ left_of (sum thread_work ts)
        → ((u >>= λ (h', calls, stop). v >>= λ hs. ok (h' ∷ hs)) >>= λ hs. ok (all_entries hs))
          ≡ left_of ((u >>= λ (h', calls, stop). ok (h'.entries, calls)) ⊕ sum thread_work ts)
    step (fault c) v e = refl
    step (ok u) v e =
        all_after u.0 v
        ∙ ap (λ r. r >>= λ es. ok (u.0.entries ++ es)) e
        ∙ sum_after u.0.entries u.1 (sum thread_work ts)

ok_injective : {es fs : List Entry} → ok es ≡ ok fs → es ≡ fs
ok_injective e = cc

left-perm :
    (w : Work) (es fs : List Entry) (calls : List Call)
    → left_of w ≡ ok es
    → IsSameWork w (ok (fs, calls))
    → Perm es fs
left-perm (fault c) es fs calls e same = elim same [ ]
left-perm (ok (gs, ds)) es fs calls e same = subst (λ l. Perm l fs) (ok_injective e) same.0

-- Several threads count as many alerts as one: let the rules be registered in some threads, with any
-- mask under which no rule is left over, and in one handler with the same function of the user, and let
-- each thread get, in any bursts, the messages that concern its handler and then the null message. If
-- all threads end without a fault, so does the one handler on all messages, and in the end the number
-- of alerts that unregistering returns is the same.
pub smp_total_alerts-process_all :
    (atts : List ProtoAttribute) (n : ℕ) (rules : List Rule) (threads_count : ℕ) (mask : Text)
    (b : Bool) (h : Handler) (ts : List Thread) (ms : List Message) (hs' : List Handler)
    → IfOk (distribute (threads_for rules threads_count) mask rules) (λ s. s.1 ≡ [])
    → smp_sec_register atts n rules threads_count mask b ≡ ok (handlers_of ts)
    → single_sec_register atts n rules b ≡ ok h
    → All (Gets ms) ts
    → finish ts ≡ ok hs'
    → Ensures (process_all h ms) (λ r. smp_total_alerts hs' ≡ total_alerts r.0.entries)
smp_total_alerts-process_all atts n rules threads_count mask b h ts ms hs' none_left several single
      gets ended =
    let same =
      smp_sec_register-process_all atts n rules threads_count mask b h ts ms none_left several
        single gets in
    let left : left_of (sum thread_work ts) ≡ ok (all_entries hs') =
      sym (finish-sum ts) ∙ ap (λ r. r >>= λ hs. ok (all_entries hs)) ended in
    one (process_all h ms) (sum thread_work ts) left same
  where
    one :
        (r : Run (Handler × List Call)) (w : Work)
        → left_of w ≡ ok (all_entries hs')
        → IsSameWork w (work_of r)
        → Ensures r (λ r. smp_total_alerts hs' ≡ total_alerts r.0.entries)
    one (ok (h', calls)) w left same =
        smp_total_alerts-total_alerts hs'
        ∙ total_alerts-perm (all_entries hs') h'.entries
            (left-perm w (all_entries hs') h'.entries calls left same)
    one (fault c) (ok w) left same = elim same [ ]
    one (fault c) (fault d) left same = cc
