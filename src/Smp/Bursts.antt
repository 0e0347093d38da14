-- ===== src/Smp/Bursts.antt =====
-- The work of a thread, however its messages are cut into bursts (`_process_one_thread`).
use mmt_security.Prelude.{
  some-injective, ◌≡◌, refl, sym, ap, ◌∙◌, Option, none, some, List, [], ◌∷◌, ◌++◌, Bool, true,
  false, if◌then◌else◌, Run, ok, fault, ◌>>=◌,
}
use mathlib.Core.List.{append_assoc}
use mmt_security.Message.{Message}
use mmt_security.Handler.{Handler, Call, single_sec_process}
use mmt_security.Smp.{process_burst, process_one_thread}

-- The messages one after the other, in one thread.
unfoldable pub process_all : Handler → List Message → Run (Handler × List Call)
process_all h [] = ok (h, [])
process_all h (m ∷ ms) = do
  (h', calls) ← single_sec_process h m
  (h'', calls') ← process_all h' ms
  ok (h'', calls ++ calls')

abbrev pub joined : List (List (Option Message)) → List (Option Message)
joined [] = []
joined (b ∷ bs) = b ++ joined bs

abbrev pub messages : List Message → List (Option Message)
messages [] = []
messages (m ∷ ms) = some m ∷ messages ms

abbrev Work : Type 0
Work = Run (Handler × List Call × Bool)

-- The calls of what was done before come first.
abbrev after : List Call → Work → Work
after calls r = r >>= λ (h, calls', stop). ok (h, calls ++ calls', stop)

-- After a burst, the thread stops or takes the next ones.
abbrev go_on : (Handler → Work) → Handler × List Call × Bool → Work
go_on next (h, calls, stop) = if stop then ok (h, calls, true) else after calls (next h)

after-nil : (r : Work) → after [] r ≡ r
after-nil (fault e) = refl
after-nil (ok (h, calls, stop)) = refl

after-append : (xs ys : List Call) (r : Work) → after (xs ++ ys) r ≡ after xs (after ys r)
after-append xs ys (fault e) = refl
after-append xs ys (ok (h, calls, stop)) = ap (λ l. ok (h, l, stop)) (append_assoc xs ys calls)

go_on-after :
    (next : Handler → Work) (calls : List Call) (r : Work)
    → (after calls r >>= go_on next) ≡ after calls (r >>= go_on next)
go_on-after next calls (fault e) = refl
go_on-after next calls (ok (h, calls', true)) = refl
go_on-after next calls (ok (h, calls', false)) = after-append calls calls' (next h)

one_thread-cons :
    (h : Handler) (b : List (Option Message)) (bs : List (List (Option Message)))
    → process_one_thread h (b ∷ bs) ≡ (process_burst h b >>= go_on (λ h'. process_one_thread h' bs))
unfolding process_one_thread
one_thread-cons h b bs = refl

-- A burst that begins with a message: it is processed, and the rest is a burst.
one_thread-some :
    (h : Handler) (m : Message) (b : List (Option Message)) (bs : List (List (Option Message)))
    → process_one_thread h ((some m ∷ b) ∷ bs)
      ≡ (single_sec_process h m >>= λ (h', calls). after calls (process_one_thread h' (b ∷ bs)))
unfolding process_one_thread process_burst
one_thread-some h m b bs = first (single_sec_process h m)
  where
    first :
        (r : Run (Handler × List Call))
        → ((r >>= λ (h', calls). after calls (process_burst h' b))
            >>= go_on (λ h'. process_one_thread h' bs))
          ≡ (r >>= λ (h', calls). after calls (process_one_thread h' (b ∷ bs)))
    first (fault e) = refl
    first (ok (h', calls)) =
        go_on-after (λ h''. process_one_thread h'' bs) calls (process_burst h' b)

cons-injective : {A : Type 0} {x y : A} {xs ys : List A} → x ∷ xs ≡ y ∷ ys → (x ≡ y) × (xs ≡ ys)
cons-injective e = (cc, cc)

append-empty : {A : Type 0} (xs ys : List A) → xs ++ ys ≡ [] → xs ≡ []
append-empty [] ys e = refl
append-empty (x ∷ xs) ys e = cc

-- What stopped behind the messages.
abbrev stopped : Run (Handler × List Call) → Work
stopped r = r >>= λ (h, calls). ok (h, calls, true)

after-stopped :
    (calls : List Call) (r : Run (Handler × List Call))
    → after calls (stopped r) ≡ stopped (r >>= λ (h, calls'). ok (h, calls ++ calls'))
after-stopped calls (fault e) = refl
after-stopped calls (ok (h, calls')) = refl

process_first :
    (r : Run (Handler × List Call)) (next : Handler → Work) (ms : List Message)
    → ((h : Handler) → next h ≡ stopped (process_all h ms))
    → (r >>= λ (h, calls). after calls (next h))
      ≡ stopped (r >>= λ (h, calls). process_all h ms >>= λ (h', calls'). ok (h', calls ++ calls'))
process_first (fault e) next ms k = refl
process_first (ok (h, calls)) next ms k =
    ap (after calls) (k h) ∙ after-stopped calls (process_all h ms)

some-not-none : {A : Type 0} {x : A} → some x ≡ none → ⊥
some-not-none e = cc

-- Whatever the bursts are that a thread gets, if together they are some messages and then the null
-- message, then the thread processes these messages one after the other, makes the same calls in the
-- same order, ends in the same state or the same fault, and stops.
pub process_one_thread-joined :
    (h : Handler) (bs : List (List (Option Message))) (ms : List Message)
    → joined bs ≡ messages ms ++ none ∷ []
    → process_one_thread h bs ≡ (process_all h ms >>= λ (h', calls). ok (h', calls, true))
unfolding process_all process_burst process_one_thread
process_one_thread-joined h [] [] e = cc
process_one_thread-joined h [] (m ∷ ms) e = cc
process_one_thread-joined h ([] ∷ bs) ms e =
    one_thread-cons h [] bs
    ∙ after-nil (process_one_thread h bs)
    ∙ process_one_thread-joined h bs ms e
process_one_thread-joined h ((none ∷ b) ∷ bs) [] e =
    let empty = append-empty b (joined bs) (cons-injective e).1 in
    one_thread-cons h (none ∷ b) bs
    ∙ ap (λ l. process_burst h (none ∷ l) >>= go_on (λ h'. process_one_thread h' bs)) empty
process_one_thread-joined h ((none ∷ b) ∷ bs) (m ∷ ms) e =
    absurd (some-not-none (sym (cons-injective e).0))
process_one_thread-joined h ((some m' ∷ b) ∷ bs) [] e = absurd (some-not-none (cons-injective e).0)
process_one_thread-joined h ((some m' ∷ b) ∷ bs) (m ∷ ms) e =
    let (same, rest) = cons-injective e in
    one_thread-some h m' b bs
    ∙ ap
        (λ x.
          single_sec_process h x >>= λ (h', calls). after calls (process_one_thread h' (b ∷ bs)))
        (some-injective same)
    ∙ process_first (single_sec_process h m) (λ h'. process_one_thread h' (b ∷ bs)) ms
        (λ h'. process_one_thread-joined h' (b ∷ bs) ms rest)
