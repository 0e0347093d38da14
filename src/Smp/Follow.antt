-- ===== src/Smp/Follow.antt =====
-- The rules of a handler without flows to ignore (src/lib/mmt_single_security.c), each of which follows
-- all messages by itself: the order of the rules and the messages can be exchanged.
use Prim.Native.Nat.{bit_and, bit_or}
use mmt_security.Prelude.{
  ◌≡◌, refl, sym, ap, subst, ℕ, none, List, [], ◌∷◌, ◌++◌, Bool, Run, ok, fault, ◌>>=◌, All,
}
use mathlib.Core.List.{append_assoc}
use mmt_security.Prelude.Digits.{and-or}
use mmt_security.Message.{Message}
use mmt_security.Handler.{Entry, Call, verify_rule, combine_rules}
use mmt_security.Smp.Work.{
  Work, with_calls, ◌⊕◌, IsSameWork, sum, same_refl, same_trans, same_both, same_pull,
}

abbrev pub alone : Bool → Message → Entry → Run (Entry × List Call)
alone b m e = verify_rule b m e none >>= λ (e', flows, calls). ok (e', calls)

abbrev pub each : Bool → Message → List Entry → Work
each b m [] = ok ([], [])
each b m (e ∷ es) =
    alone b m e >>= λ (e', calls). each b m es >>= λ (es', calls'). ok (e' ∷ es', calls ++ calls')

-- A rule follows all messages.
abbrev pub follow : Bool → Entry → List Message → Work
follow b e [] = ok (e ∷ [], [])
follow b e (m ∷ ms) = alone b m e >>= λ (e', calls). with_calls calls (follow b e' ms)

-- All rules follow all messages.
abbrev pub follow_all : Bool → List Entry → List Message → Work
follow_all b es ms = sum (λ e. follow b e ms) es

pub follow_all-nil : (b : Bool) (es : List Entry) → follow_all b es [] ≡ ok (es, [])
unfolding ◌⊕◌
follow_all-nil b [] = refl
follow_all-nil b (e ∷ es) = rw (follow_all-nil b es) refl

pub with-nothing : (w : Work) → with_calls [] w ≡ w
with-nothing (ok w) = refl
with-nothing (fault e) = refl

pub with-append :
    (cs ds : List Call) (w : Work) → with_calls (cs ++ ds) w ≡ with_calls cs (with_calls ds w)
with-append cs ds (fault e) = refl
with-append cs ds (ok (es, calls)) = ap (λ l. ok (es, l)) (append_assoc cs ds calls)

-- One message for all rules, and then the others for each: the same as all for each.
pub exchange :
    (b : Bool) (m : Message) (es : List Entry) (ms : List Message)
    → IsSameWork
        (each b m es >>= λ (es', calls). with_calls calls (follow_all b es' ms))
        (follow_all b es (m ∷ ms))
unfolding ◌⊕◌
exchange b m [] ms = same_refl (ok ([], []))
exchange b m (e ∷ es) ms = first (exchange b m es ms) (alone b m e)
  where
    rest : Work
    rest = each b m es >>= λ (es', calls). with_calls calls (follow_all b es' ms)

    fuse :
        (e' : Entry) (calls : List Call) (v : Work)
        → ((v >>= λ (es', calls'). ok (e' ∷ es', calls ++ calls')) >>= λ (es', calls').
            with_calls calls' (follow_all b es' ms))
          ≡ (v >>= λ (es', calls').
              with_calls (calls ++ calls') (follow b e' ms ⊕ follow_all b es' ms))
    fuse e' calls (fault c) = refl
    fuse e' calls (ok v) = refl

    first :
        IsSameWork rest (follow_all b es (m ∷ ms))
        → (r : Run (Entry × List Call))
        → IsSameWork
            ((r >>= λ (e', calls). each b m es >>= λ (es', calls'). ok (e' ∷ es', calls ++ calls'))
              >>= λ (es', calls). with_calls calls (follow_all b es' ms))
            ((r >>= λ (e', calls). with_calls calls (follow b e' ms)) ⊕ follow_all b es (m ∷ ms))
    first others (fault e) = tt
    first others (ok (e', calls)) =
        let now = with_calls calls (follow b e' ms) in
        let pulled = each b m es >>= λ (es', calls').
        with_calls (calls ++ calls') (follow b e' ms ⊕ follow_all b es' ms) in
        subst (λ w. IsSameWork w (now ⊕ follow_all b es (m ∷ ms)))
          (sym (fuse e' calls (each b m es)))
          (same_trans pulled (now ⊕ rest) (now ⊕ follow_all b es (m ∷ ms))
            (same_pull calls (follow b e' ms) (each b m es) (λ es'. follow_all b es' ms))
            (same_both now now rest (follow_all b es (m ∷ ms)) (same_refl now) others))

-- A message that the combined mask does not tell of concerns none of the rules.
pub unconcerned :
    (m : Message) (n : ℕ) (es : List Entry)
    → bit_and m.hash (combine_rules n es) ≡ 0
    → (bit_and m.hash n ≡ 0) × All (λ e. bit_and m.hash e.rule_hash ≡ 0) es
unfolding combine_rules
unconcerned m n [] z = (z, tt)
unconcerned m n (e ∷ es) z =
    let (here, later) = unconcerned m (bit_or n e.rule_hash) es z in
    let (x, y) = and-or m.hash n e.rule_hash here in (x, (y, later))

pub follow_all-unconcerned :
    (b : Bool) (m : Message) (es : List Entry) (ms : List Message)
    → All (λ e. bit_and m.hash e.rule_hash ≡ 0) es
    → follow_all b es (m ∷ ms) ≡ follow_all b es ms
unfolding verify_rule
follow_all-unconcerned b m [] ms h = refl
follow_all-unconcerned b m (e ∷ es) ms (h, hs) =
    rw (h, follow_all-unconcerned b m es ms hs, with-nothing (follow b e ms)) refl
