-- ===== src/Security/Filtering.antt =====
-- The rules that remain when some are ignored (`_filter_rules`).
use mmt_security.Prelude.{
  subst, get_elem?-bound, some-injective, ℕ, zero, suc, ◌+◌, ◌-◌, ◌≤◌, ◌<◌, ◌≡◌, refl, sym, ap, ◌∙◌,
  ◌≢◌, ◌↔◌, ◌⊎◌, inl, inr, Option, none, some, List, [], ◌∷◌, true, false, ◌==◌, if◌then◌else◌,
  arith, length, length-set, get_elem?, get_elem?-in, get_elem?-set_self, get_elem?-set_ne, set,
  All, Distinct, ok, ◌>>=◌, Ensures, Bool-cases, ==_iff,
}
use mmt_security.Rule.{Rule}
use mmt_security.Security.{
  last_index, all_but_last, move_last, ignore_rule, ignore_rules, filter_rules,
}
use mmt_security.Utils.Masks.{Text, array_size, expand_number_range, numbers_of, duplicated}
use mmt_security.Utils.Masks.Grammar.{Part, IsPart, all_numbers, write}
use mmt_security.Utils.Masks.Written.{write-pos, expand_number_range-write}

-- The rule is among the rules.
abbrev pub Holds : List Rule → Rule → Type 0
Holds rules r = (i : ℕ) × (get_elem? rules i ≡ some r)

-- No two rules have the same id.
abbrev pub DistinctIds : List Rule → Type 0
DistinctIds rules =
    (i j : ℕ) (r s : Rule)
    → get_elem? rules i ≡ some r
    → get_elem? rules j ≡ some s
    → r.id ≡ s.id
    → i ≡ j

length-all_but_last : (rs : List Rule) → length (all_but_last rs) ≡ length rs - 1
unfolding all_but_last
length-all_but_last [] = refl
length-all_but_last (r ∷ []) = refl
length-all_but_last (r ∷ s ∷ rs) = omega (arith, length-all_but_last (s ∷ rs))

get_elem?-all_but_last :
    (rs : List Rule) (i : ℕ) → suc i < length rs → get_elem? (all_but_last rs) i ≡ get_elem? rs i
unfolding all_but_last
get_elem?-all_but_last [] i h = refl
get_elem?-all_but_last (r ∷ []) i h = absurd (omega arith)
get_elem?-all_but_last (r ∷ s ∷ rs) zero h = refl
get_elem?-all_but_last (r ∷ s ∷ rs) (suc i) h = get_elem?-all_but_last (s ∷ rs) i (omega arith)

-- What the search for an id finds.
abbrev FoundAt : ℕ → List Rule → Option ℕ → Type 0
FoundAt id rules none = (i : ℕ) (r : Rule) → get_elem? rules i ≡ some r → r.id ≢ id
FoundAt id rules (some k) = (r : Rule) × (get_elem? rules k ≡ some r) × (r.id ≡ id)

nowhere-here :
    (id : ℕ) (r : Rule) (rs : List Rule)
    → (id == r.id) ≡ false
    → FoundAt id rs none
    → FoundAt id (r ∷ rs) none
nowhere-here id r rs q h zero s e same =
    let there : id ≡ r.id = sym same ∙ ap (λ t. t.id) (sym (some-injective e)) in
    ground (arith, there)
nowhere-here id r rs q h (suc i) s e same = h i s e same

last_index-FoundAt : (id : ℕ) (rules : List Rule) → FoundAt id rules (last_index id rules)
unfolding last_index
last_index-FoundAt id [] = λ i r e. cc
last_index-FoundAt id (r ∷ rs) =
    found (last_index id rs) (last_index-FoundAt id rs) (Bool-cases (id == r.id))
  where
    found :
        (o : Option ℕ)
        → FoundAt id rs o
        → ((id == r.id) ≡ true) ⊎ ((id == r.id) ≡ false)
        → FoundAt id
            (r ∷ rs)
            (elim o [ some k ↦ some (suc k) | none ↦ if id == r.id then some 0 else none ])
    found (some k) h c = h
    found none h (inl q) = rw q (r, refl, sym ((==_iff id r.id).0 q))
    found none h (inr q) = rw q (nowhere-here id r rs q h)

-- The rule at index `k` gives way to the last one.
module _ (rules : List Rule) (k : ℕ) (gone last : Rule) (here : get_elem? rules k ≡ some gone)
    (there : get_elem? rules (length rules - 1) ≡ some last) where
  move_last_lem : move_last (some k) rules ≡ all_but_last (set rules k last)
  unfolding move_last
  move_last_lem = rw (there, move_last) refl

  -- What stands at an index afterwards.
  after_at :
      (i : ℕ)
      → i + 1 < length rules
      → get_elem? (move_last (some k) rules) i ≡ get_elem? (set rules k last) i
  after_at i h =
      ap (λ l. get_elem? l i) move_last_lem
      ∙ get_elem?-all_but_last (set rules k last) i (omega (arith, length-set rules k last))

  after_bound :
      (i : ℕ) {x : Rule} → get_elem? (move_last (some k) rules) i ≡ some x → i + 1 < length rules
  after_bound i e = omega (
    arith,
    get_elem?-bound (all_but_last (set rules k last)) i
        (ap (λ l. get_elem? l i) (sym move_last_lem) ∙ e),
    length-all_but_last (set rules k last),
    length-set rules k last,
  )

  -- Every other rule stays.
  stays :
      (i : ℕ) {x : Rule} → get_elem? rules i ≡ some x → i ≢ k → Holds (move_last (some k) rules) x
  stays i {x} e n =
      let bound = get_elem?-bound rules i e in
      let bound' = get_elem?-bound rules k here in
      elim (Bool-cases (i + 1 == length rules)) [
        | inl q ↦
            let at : i ≡ length rules - 1 = ground arith in
            let same : some last ≡ some x = sym there ∙ ap (get_elem? rules) (sym at) ∙ e in
            (k, after_at k (ground arith) ∙ get_elem?-set_self rules k last bound' ∙ same)
        | inr q ↦ (i, after_at i (ground arith) ∙ get_elem?-set_ne rules last (λ c. n (sym c)) ∙ e)
      ]

  -- Where a rule that stayed stood before: not at `k`.
  origin : (i : ℕ) → ℕ
  origin i = if i == k then length rules - 1 else i

  origin_lem :
      (i : ℕ) {x : Rule}
      → get_elem? (move_last (some k) rules) i ≡ some x
      → (get_elem? rules (origin i) ≡ some x) × (origin i ≢ k)
  unfolding origin
  origin_lem i e =
      let bound = after_bound i e in
      elim (Bool-cases (i == k)) [
        | inl q ↦
            let at : i ≡ k = (==_iff i k).0 q in
            let before = sym (after_at i bound) ∙ e in
            rw q (
              there
                  ∙ sym (get_elem?-set_self rules k last (omega arith))
                  ∙ ap (get_elem? (set rules k last)) (sym at)
                  ∙ before,
              omega arith,
            )
        | inr q ↦
            let apart : k ≢ i = ground arith in
            rw q (
              sym (get_elem?-set_ne rules last apart) ∙ sym (after_at i bound) ∙ e,
              λ c. apart (sym c),
            )
      ]

  origin-injective :
      (i j : ℕ) → i + 1 < length rules → j + 1 < length rules → origin i ≡ origin j → i ≡ j
  unfolding origin
  origin-injective i j h l e = ground arith

-- The rules that remain: the ids are still distinct, and just those with other ids are there.
abbrev pub Ignores : (ℕ → Type 0) → List Rule → List Rule → Type 0
Ignores Stays rules rules' =
    DistinctIds rules' × ((x : Rule) → Holds rules' x ↔ (Holds rules x × Stays x.id))

move_last-Ignores :
    (id : ℕ) (rules : List Rule) (o : Option ℕ)
    → DistinctIds rules
    → FoundAt id rules o
    → Ignores (λ i. i ≢ id) rules (move_last o rules)
unfolding move_last
move_last-Ignores id rules none d f = (d, λ x. ((λ h. (h, f h.0 x h.1)), λ h. h.0))
move_last-Ignores id rules (some k) d (gone, here, same) =
    let bound = get_elem?-bound rules k here in
    let (last, there) = get_elem?-in rules (length rules - 1) (omega arith) in
    (
      λ i j r s p q e.
          origin-injective rules k gone last here there i j
            (after_bound rules k gone last here there i p)
            (after_bound rules k gone last here there j q)
            (d _ _ r s (origin_lem rules k gone last here there i p).0
              (origin_lem rules k gone last here there j q).0 e),
      λ x. (
        λ h. (
          (_, (origin_lem rules k gone last here there h.0 h.1).0),
          λ e. (origin_lem rules k gone last here there h.0 h.1).1 (
              d _ k x gone (origin_lem rules k gone last here there h.0 h.1).0 here (e ∙ sym same)),
        ),
        λ h. stays rules k gone last here there h.0.0 h.0.1 (λ e.
            h.1
              (ap (λ r. r.id) (some-injective (sym h.0.1 ∙ ap (get_elem? rules) e ∙ here)) ∙ same)),
      ),
    )

ignore_rules-Ignores :
    (ids : List ℕ) (rules : List Rule)
    → DistinctIds rules
    → Ignores (λ i. All (λ id. i ≢ id) ids) rules (ignore_rules ids rules)
unfolding ignore_rules ignore_rule
ignore_rules-Ignores [] rules d = (d, λ x. ((λ h. (h, tt)), λ h. h.0))
ignore_rules-Ignores (id ∷ ids) rules d =
    let (d', others) = ignore_rules-Ignores ids rules d in
    let rest = ignore_rules ids rules in
    let (d'', one) =
      move_last-Ignores id rest (last_index id rest) d' (last_index-FoundAt id rest) in
    (
      d'',
      λ x. (
        λ h.
            let (there, apart) = (one x).0 h in
            let (before, aparts) = (others x).0 there in (before, (apart, aparts)),
        λ h. (one x).1 ((others x).1 (h.0, h.1.1), h.1.0),
      ),
    )

numbers_of-duplicated : (ns : List ℕ) → numbers_of (duplicated ns) ≡ ns
numbers_of-duplicated [] = refl
numbers_of-duplicated (n ∷ ns) = refl

filter_rules-some :
    (t : Text) (rules : List Rule)
    → 0 < length t
    → filter_rules t rules
      ≡ (expand_number_range t >>= λ ids. ok (ignore_rules (numbers_of ids) rules))
unfolding filter_rules
filter_rules-some [] rules h = absurd (omega (arith, h))
filter_rules-some (c ∷ t) rules h = refl

-- If no two rules have the same id, then filtering by a mask that is written as it should be, which
-- names no number twice, leaves rules with different ids, and a rule is among them exactly when it
-- was among the rules before and its id is none of the numbers of the mask.
pub filter_rules-write :
    (ps : List Part) (rules : List Rule)
    → All IsPart ps
    → Distinct (all_numbers ps)
    → length (all_numbers ps) ≤ array_size
    → DistinctIds rules
    → Ensures
        (filter_rules (write ps) rules)
        (Ignores (λ i. All (λ id. i ≢ id) (all_numbers ps)) rules)
unfolding filter_rules
filter_rules-write [] rules h distinct room d = (d, λ x. ((λ h. (h, tt)), λ h. h.0))
filter_rules-write (p ∷ ps) rules h distinct room d =
    let expanded = expand_number_range-write (p ∷ ps) h distinct room in
    rw (filter_rules-some (write (p ∷ ps)) rules (write-pos p ps h.0), expanded)
      (subst
        (λ ns.
          Ignores (λ i. All (λ id. i ≢ id) (all_numbers (p ∷ ps))) rules (ignore_rules ns rules))
        (sym (numbers_of-duplicated (all_numbers (p ∷ ps))))
        (ignore_rules-Ignores (all_numbers (p ∷ ps)) rules d))
