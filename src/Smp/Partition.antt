-- ===== src/Smp/Partition.antt =====
-- Which thread verifies which rules (`mmt_smp_sec_register`).
use mmt_security.Prelude.{
  ℕ, zero, suc, ◌+◌, ◌-◌, ◌/◌, ◌≤◌, ◌<◌, ◌≡◌, refl, sym, ap, ◌∙◌, subst, ◌⊎◌, inl, inr, Option,
  none, some, List, [], ◌∷◌, ◌++◌, arith, length, ok, IfOk, IfOk-bind, Ensures, Ensures-bind,
  Ensures-map, Ensures-IfOk, replicate, length-replicate,
}
use mathlib.Core.List.{Perm, append_assoc, perm_append_comm}
use mathlib.Core.List.Perm as Perm
use native.Mathlib.Nat.{div-le_self}
use mmt_security.Rule.{Rule}
use mmt_security.Utils.Masks.{Text, get_special_rules_for_thread}
use mmt_security.Smp.{share_special, split_rules, share_equally, distribute}
use mmt_security.Smp.Special.{unserved, given, IsShared, share_special-IsShared}

-- The rules of all threads.
abbrev pub all_rules : List (List Rule) → List Rule
all_rules [] = []
all_rules (rules ∷ all) = rules ++ all_rules all

split_rules_lem :
    (n : ℕ) (rules : List Rule)
    → n ≤ length rules
    → Ensures (split_rules n rules) (λ s. (s.0 ++ s.1 ≡ rules) × (length s.1 + n ≡ length rules))
unfolding split_rules
split_rules_lem zero rules h = (refl, omega arith)
split_rules_lem (suc n) [] h = absurd (omega arith)
split_rules_lem (suc n) (r ∷ rs) h =
    Ensures-bind (split_rules n rs) _ (λ s. (s.0 ++ s.1 ≡ rs) × (length s.1 + n ≡ length rs)) _
      (split_rules_lem n rs (omega arith)) (λ s _ p. (ap (λ l. r ∷ l) p.0, omega (arith, p.1)))

perm_rotate : (xs ys zs : List Rule) → Perm (xs ++ (ys ++ zs)) (ys ++ (xs ++ zs))
perm_rotate xs ys zs =
    subst (λ l. Perm l (ys ++ (xs ++ zs))) (append_assoc xs ys zs)
      (subst (λ l. Perm ((xs ++ ys) ++ zs) l) (append_assoc ys xs zs)
        (Perm.append_right zs (perm_append_comm xs ys)))

-- All threads have rules, the rules are those that there were, and none is left over unless every
-- thread had its rules before.
record IsServed (shares : List (Option (List Rule))) (rules : List Rule)
    (s : List (List Rule) × List Rule) : Type 0 where
  all : length s.0 ≡ length shares
  kept : Perm (all_rules s.0 ++ s.1) (given shares ++ rules)
  over : (unserved shares ≡ 0) ⊎ (s.1 ≡ [])
  same : unserved shares ≡ 0 → s.1 ≡ rules

length-zero : (rs : List Rule) → length rs ≡ 0 → rs ≡ []
length-zero [] h = refl
length-zero (r ∷ rs) h = absurd (omega arith)

-- The last thread without rules takes all that remain.
none_left :
    (shares : List (Option (List Rule))) (rules others rest : List Rule)
    → length others + length rules / suc (unserved shares) ≡ length rules
    → (unserved shares ≡ 0) ⊎ (rest ≡ [])
    → (unserved shares ≡ 0 → rest ≡ others)
    → rest ≡ []
none_left shares rules others rest q (inr e) same = e
none_left shares rules others rest q (inl e) same =
    same e ∙ length-zero others (omega (arith, q, ap (λ (u : ℕ). length rules / suc u) e))

share_equally-IsServed :
    (shares : List (Option (List Rule))) (rules : List Rule)
    → Ensures (share_equally shares rules (unserved shares)) (IsServed shares rules)
unfolding share_equally
share_equally-IsServed [] rules = record {
  all = refl;
  kept = Perm.refl rules;
  over = inl refl;
  same = λ _. refl;
}
share_equally-IsServed (some taken ∷ shares) rules =
    Ensures-bind (share_equally shares rules (unserved shares)) _ (IsServed shares rules) _
      (share_equally-IsServed shares rules)
      (λ s _ p. record {
        all = ap suc p.all;
        kept =
            subst (λ l. Perm l ((taken ++ given shares) ++ rules))
              (sym (append_assoc taken (all_rules s.0) s.1))
              (subst (λ l. Perm (taken ++ (all_rules s.0 ++ s.1)) l)
                (sym (append_assoc taken (given shares) rules)) (Perm.append_left taken p.kept));
        over = p.over;
        same = p.same;
      })
share_equally-IsServed (none ∷ shares) rules =
    let n = length rules / suc (unserved shares) in
    Ensures-bind (split_rules n rules) _
      (λ t. (t.0 ++ t.1 ≡ rules) × (length t.1 + n ≡ length rules)) _
      (split_rules_lem n rules (div-le_self (length rules) (suc (unserved shares))))
      (λ t _ q.
        Ensures-bind (share_equally shares t.1 (suc (unserved shares) - 1)) _ (IsServed shares t.1)
          _
          (subst (λ u. Ensures (share_equally shares t.1 u) (IsServed shares t.1)) (omega arith)
            (share_equally-IsServed shares t.1))
          (λ s _ p. record {
            all = ap suc p.all;
            kept =
                subst (λ l. Perm l (given shares ++ rules))
                  (sym (append_assoc t.0 (all_rules s.0) s.1))
                  (Perm.trans (Perm.append_left t.0 p.kept) (
                    subst (λ l. Perm (t.0 ++ (given shares ++ t.1)) (given shares ++ l)) q.0
                      (perm_rotate t.0 (given shares) t.1)));
            over = inr (none_left shares rules t.1 s.1 q.1 p.over p.same);
            same = λ e. absurd (omega arith);
          }))

-- The rules of the threads and what is left over are the rules that there were.
abbrev pub IsPartition : ℕ → List Rule → List (List Rule) × List Rule → Type 0
IsPartition threads rules (all, rest) = (length all ≡ threads) × Perm (all_rules all ++ rest) rules

share_nothing :
    (i n : ℕ) (rules : List Rule) (threads : ℕ)
    → share_special [] i n rules threads
      ≡ ok (record { shares = replicate n none; rules = rules; threads = threads })
unfolding share_special get_special_rules_for_thread
share_nothing i zero rules threads = refl
share_nothing i (suc n) rules threads = rw (share_nothing (i + 1) n rules threads) refl

unserved-replicate : (n : ℕ) → unserved (replicate n none) ≡ n
unserved-replicate zero = refl
unserved-replicate (suc n) = ap suc (unserved-replicate n)

given-replicate : (n : ℕ) → given (replicate n none) ≡ []
given-replicate zero = refl
given-replicate (suc n) = given-replicate n

distribute-special :
    (threads : ℕ) (mask : Text) (rules : List Rule)
    → IfOk (distribute threads mask rules) (IsPartition threads rules)
unfolding distribute
distribute-special threads mask rules =
    IfOk-bind (share_special mask 0 threads rules threads) _ (IsShared threads 0 rules) _
      (subst (λ t. IfOk (share_special mask 0 threads rules t) (IsShared threads 0 rules))
        (omega arith) (share_special-IsShared mask 0 threads 0 rules))
      (λ s _ p.
        let left : unserved s.shares ≡ s.threads = omega (arith, p.left) in
        Ensures-IfOk (share_equally s.shares s.rules s.threads) (IsServed s.shares s.rules) _
          (subst (λ t. Ensures (share_equally s.shares s.rules t) (IsServed s.shares s.rules)) left
            (share_equally-IsServed s.shares s.rules))
          (λ r q. (q.all ∙ p.all, Perm.trans q.kept p.kept)))

-- Each rule goes to one thread: if the distribution ends, there are as many shares as threads, and
-- together with the rules that are left over they hold exactly the rules that there were, each as
-- often. Without a mask the distribution ends, and with at least one thread no rule is left over.
pub distribute-IsPartition :
    (threads : ℕ) (mask : Text) (rules : List Rule)
    → IfOk (distribute threads mask rules) (IsPartition threads rules)
      × Ensures
          (distribute threads [] rules)
          λ s. IsPartition threads rules s × (0 < threads → s.1 ≡ [])
unfolding distribute
distribute-IsPartition threads mask rules =
    let shares = replicate {A = Option (List Rule)} threads none in
    let none_before = unserved-replicate threads in
    (
      distribute-special threads mask rules,
      rw (share_nothing 0 threads rules threads) (
          Ensures-map (share_equally shares rules threads) (IsServed shares rules) _
            (subst (λ t. Ensures (share_equally shares rules t) (IsServed shares rules)) none_before
              (share_equally-IsServed shares rules))
            (λ s q. (
              (
                q.all ∙ length-replicate threads none,
                subst (λ l. Perm (all_rules s.0 ++ s.1) (l ++ rules)) (given-replicate threads)
                    q.kept,
              ),
              λ pos. elim q.over [ inl e ↦ absurd (omega (arith, none_before)) | inr e ↦ e ],
            ))),
    )
