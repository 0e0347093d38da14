-- ===== src/Smp/Special.antt =====
-- The rules that a mask gives to a thread (`mmt_smp_sec_register`).
use mmt_security.Prelude.{
  ℕ, zero, suc, ◌+◌, ◌-◌, ◌≡◌, refl, sym, ap, subst, inl, inr, Option, none, some, List, [], ◌∷◌,
  ◌++◌, ◌==◌, arith, length, Run, ok, ◌>>=◌, IfOk, IfOk-bind, IfOk-trivial, Bool-cases,
}
use mathlib.Core.List.{Perm, append_assoc}
use mathlib.Core.List.Perm as Perm
use mmt_security.Rule.{Rule}
use mmt_security.Utils.Masks.{Text, get_special_rules_for_thread, numbers_of}
use mmt_security.Smp.{Shares, swap_first, bring_first, take_special, share_special}

-- A swap keeps the rules.
abbrev KeepsAll : List Rule → Option (Rule × List Rule) → Type 0
KeepsAll rules none = Unit {0}
KeepsAll rules (some (found, others)) = Perm (found ∷ others) rules

-- The rule `r` in front of the later ones that the swap goes through.
KeepsAll-cons :
    (first r : Rule) (rs : List Rule) (o : Option (Rule × List Rule))
    → KeepsAll (first ∷ rs) o
    → KeepsAll
        (first ∷ r ∷ rs)
        (elim o [ none ↦ none | some (found, others) ↦ some (found, r ∷ others) ])
KeepsAll-cons first r rs none h = tt
KeepsAll-cons first r rs (some (found, others)) h =
    Perm.trans (Perm.swap r found others) (Perm.trans (Perm.cons r h) (Perm.swap first r rs))

swap_first-KeepsAll :
    (id : ℕ) (first : Rule) (rs : List Rule) → KeepsAll (first ∷ rs) (swap_first id first rs)
unfolding swap_first
swap_first-KeepsAll id first [] = tt
swap_first-KeepsAll id first (r ∷ rs) = elim (Bool-cases (id == r.id)) [
  | inl q ↦ rw q (Perm.swap first r rs)
  | inr q ↦
      rw q (KeepsAll-cons first r rs (swap_first id first rs) (swap_first-KeepsAll id first rs))
]

bring_first-perm :
    (id : ℕ) (r : Rule) (rs : List Rule)
    → Perm ((bring_first id r rs).0 ∷ (bring_first id r rs).1) (r ∷ rs)
unfolding bring_first
bring_first-perm id r rs = elim (Bool-cases (id == r.id)) [
  | inl q ↦ rw q (Perm.refl (r ∷ rs))
  | inr q ↦ rw q (swapped (swap_first id r rs) (swap_first-KeepsAll id r rs))
]
  where
    swapped :
        (o : Option (Rule × List Rule))
        → KeepsAll (r ∷ rs) o
        → let s : Rule × List Rule = elim o [ none ↦ (r, rs) | some found ↦ found ] in
          Perm (s.0 ∷ s.1) (r ∷ rs)
    swapped none h = Perm.refl (r ∷ rs)
    swapped (some found) h = h

take_special-perm :
    (ids : List ℕ) (rules : List Rule)
    → IfOk (take_special ids rules) (λ s. Perm (s.0 ++ s.1) rules)
unfolding take_special
take_special-perm [] rules = Perm.refl rules
take_special-perm (id ∷ []) [] = tt
take_special-perm (id ∷ next ∷ ids) [] = tt
take_special-perm (id ∷ ids) (r ∷ rs) =
    let (found, others) = bring_first id r rs in
    IfOk-bind (take_special ids others) _ (λ s. Perm (s.0 ++ s.1) others)
      (λ s. Perm (s.0 ++ s.1) (r ∷ rs)) (take_special-perm ids others)
      (λ s _ p. Perm.trans (Perm.cons found p) (bring_first-perm id r rs))

-- The threads without rules, and the rules that are given.
abbrev pub unserved : List (Option (List Rule)) → ℕ
unserved [] = 0
unserved (none ∷ shares) = suc (unserved shares)
unserved (some taken ∷ shares) = unserved shares

abbrev pub given : List (Option (List Rule)) → List Rule
given [] = []
given (none ∷ shares) = given shares
given (some taken ∷ shares) = taken ++ given shares

pub record IsShared (n k : ℕ) (rules : List Rule) (s : Shares) : Type 0 where
  pub all : length s.shares ≡ n
  pub left : s.threads ≡ unserved s.shares + k
  pub kept : Perm (given s.shares ++ s.rules) rules

-- A thread without special rules, or with some, before the `n` threads to come.
share_by_ids :
    (mask : Text) (i n k : ℕ) (rules : List Rule)
    → ((k : ℕ) (rules : List Rule)
        → IfOk (share_special mask (i + 1) n rules (n + k)) (IsShared n k rules))
    → (ids : List ℕ)
    → IfOk
        (elim ids as (λ _. Run Shares) [
          | [] ↦ share_special mask (i + 1) n rules (suc n + k) >>= λ s.
              ok (record s { shares = none ∷ s.shares })
          | id ∷ more ↦ take_special (id ∷ more) rules >>= λ t.
              share_special mask (i + 1) n t.1 (suc n + k - 1) >>= λ s.
              ok (record s { shares = some t.0 ∷ s.shares })
        ])
        (IsShared (suc n) k rules)
share_by_ids mask i n k rules rec [] =
    IfOk-bind (share_special mask (i + 1) n rules (suc n + k)) _ (IsShared n (k + 1) rules) _
      (subst (λ t. IfOk (share_special mask (i + 1) n rules t) (IsShared n (k + 1) rules))
        (omega arith) (rec (k + 1) rules))
      (λ s _ p. record { all = ap suc p.all; left = omega (arith, p.left); kept = p.kept })
share_by_ids mask i n k rules rec (id ∷ more) =
    IfOk-bind (take_special (id ∷ more) rules) _ (λ t. Perm (t.0 ++ t.1) rules) _
      (take_special-perm (id ∷ more) rules)
      (λ t _ q.
        IfOk-bind (share_special mask (i + 1) n t.1 (suc n + k - 1)) _ (IsShared n k t.1) _
          (subst (λ u. IfOk (share_special mask (i + 1) n t.1 u) (IsShared n k t.1)) (omega arith)
            (rec k t.1))
          (λ s _ p. record {
            all = ap suc p.all;
            left = p.left;
            kept =
                subst (λ l. Perm l rules) (sym (append_assoc t.0 (given s.shares) s.rules))
                  (Perm.trans (Perm.append_left t.0 p.kept) q);
          }))

pub share_special-IsShared :
    (mask : Text) (i n k : ℕ) (rules : List Rule)
    → IfOk (share_special mask i n rules (n + k)) (IsShared n k rules)
unfolding share_special
share_special-IsShared mask i zero k rules = record {
  all = refl;
  left = omega arith;
  kept = Perm.refl rules;
}
share_special-IsShared mask i (suc n) k rules =
    IfOk-bind (get_special_rules_for_thread (i + 1) mask) _ (λ _. Unit {0})
      (IsShared (suc n) k rules) (IfOk-trivial _)
      (λ ids _ _.
        share_by_ids mask i n k rules (share_special-IsShared mask (i + 1) n) (numbers_of ids))
