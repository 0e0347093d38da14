-- ===== src/Utils/Masks/Groups.antt =====
-- Masks of rules that are written as they should be (`get_special_rules_for_thread`).
use mmt_security.Prelude.{
  ℕ, zero, suc, ◌≤◌, ◌<◌, ◌≡◌, refl, sym, ap, subst, ◌∙◌, ◌≢◌, Option, none, some, List, [], ◌∷◌,
  ◌++◌, Bool, true, false, not, ◌==◌, if◌then◌else◌, arith, length, length-append, ok, All, All-map,
  All-append, Distinct, Bool-cases, ==_iff, inl, inr,
}
use mmt_security.Prelude.Bits.{u32}
use mmt_security.Utils.Masks.{
  Text, is_digit, is_of_range, read_digits, array_size, take_range, take_id, take_group,
  special_from, duplicated, get_special_rules_for_thread,
}
use mmt_security.Utils.Masks.Grammar.{
  number, range, Part, value, all_numbers, write_part, write, IsNumber, IsPart, skip_digits-append,
  read_digits-append,
}
use mmt_security.Utils.Masks.Written.{expand_number_range-write}

-- The digits of a thread, and the parts of its rules.
abbrev pub Group : Type 0
Group = Text × List Part

abbrev pub write_groups : List Group → Text
write_groups [] = []
write_groups ((ds, ps) ∷ gs) = b'(' ∷ (ds ++ b':' ∷ (write ps ++ b')' ∷ write_groups gs))

abbrev pub IsGroup : Group → Type 0
IsGroup g =
    IsNumber g.0
    × All IsPart g.1
    × Distinct (all_numbers g.1)
    × (length (all_numbers g.1) ≤ array_size)

abbrev pub threads_of : List Group → List ℕ
threads_of [] = []
threads_of (g ∷ gs) = value g.0 ∷ threads_of gs

-- The numbers that a mask gives to a thread; the null pointer if there are none.
unfoldable pub given_to : ℕ → List Group → Option (List ℕ)
given_to thread_id [] = none
given_to thread_id (g ∷ gs) =
    let rest = given_to thread_id gs in
    if value g.0 == thread_id then duplicated (all_numbers g.1) else rest

OfRange : Text → Type 0
OfRange t = All (λ c. is_of_range c ≡ true) t

IsNumber-OfRange : (ds : Text) → All (λ c. is_digit c ≡ true) ds → OfRange ds
unfolding OfRange
IsNumber-OfRange ds h =
    All-map (λ c. is_digit c ≡ true) (λ c. is_of_range c ≡ true) ds (λ c e. ground arith) h

write_part-OfRange : (p : Part) → IsPart p → OfRange (write_part p)
unfolding OfRange
write_part-OfRange (number ds) h = IsNumber-OfRange ds h.digits
write_part-OfRange (range ds es) h =
    All-append (λ c. is_of_range c ≡ true) ds (b'-' ∷ es) (IsNumber-OfRange ds h.0.digits)
      (refl, IsNumber-OfRange es h.1.digits)

write-OfRange : (ps : List Part) → All IsPart ps → OfRange (write ps)
unfolding OfRange
write-OfRange [] h = tt
write-OfRange (p ∷ []) h = write_part-OfRange p h.0
write-OfRange (p ∷ q ∷ ps) h =
    All-append (λ c. is_of_range c ≡ true) (write_part p) (b',' ∷ write (q ∷ ps))
      (write_part-OfRange p h.0) (refl, write-OfRange (q ∷ ps) h.1)

take_range-append :
    (t behind : Text) → OfRange t → take_range (t ++ b')' ∷ behind) ≡ some (t, behind)
unfolding take_range OfRange
take_range-append [] behind h = refl
take_range-append (c ∷ t) behind h =
    let q : (c == b')') ≡ false = ground (arith, h.0) in
    rw (q, h.0, take_range-append t behind h.1) refl

take_id-append :
    (ds rs behind : Text)
    → IsNumber ds
    → OfRange rs
    → take_id (ds ++ b':' ∷ (rs ++ b')' ∷ behind)) ≡ some (value ds, rs, behind)
unfolding take_id
take_id-append [] rs behind n h = absurd (omega (arith, n.some_digit))
take_id-append (d ∷ ds) rs behind n h =
    let t = b':' ∷ (rs ++ b')' ∷ behind) in
    let q : not (is_digit d) ≡ false = ap not n.digits.0 in
    let id : u32 (read_digits 0 (d ∷ (ds ++ t))) ≡ value (d ∷ ds) =
      ap u32 (read_digits-append 0 (d ∷ ds) t n.digits refl) ∙ omega (arith, n.small) in
    rw (q, skip_digits-append ds t n.digits.1 refl, take_range-append rs behind h, id) refl

take_group-write :
    (g : Group) (gs : List Group)
    → IsGroup g
    → take_group (write_groups (g ∷ gs)) ≡ some (value g.0, write g.1, write_groups gs)
unfolding take_group
take_group-write (ds, ps) gs h =
    take_id-append ds (write ps) (write_groups gs) h.0 (write-OfRange ps h.1)

length-write_groups :
    (g : Group) (gs : List Group) → length (write_groups gs) < length (write_groups (g ∷ gs))
length-write_groups (ds, ps) gs = omega (
  arith,
  length-append ds (b':' ∷ (write ps ++ b')' ∷ write_groups gs)),
  length-append (write ps) (b')' ∷ write_groups gs),
)

-- One round of the loop.
special_from-group :
    (fuel thread_id : ℕ) (found : Option (List ℕ)) (g : Group) (gs : List Group)
    → IsGroup g
    → (value g.0 ≡ thread_id → found ≡ none)
    → special_from (suc fuel) thread_id found (write_groups (g ∷ gs))
      ≡ special_from fuel thread_id
          (if value g.0 == thread_id then duplicated (all_numbers g.1) else found)
          (write_groups gs)
unfolding special_from
special_from-group fuel thread_id found (ds, ps) gs h new =
    let e = take_group-write (ds, ps) gs h in
    let goal = λ (b : Bool).
      special_from fuel thread_id (if b then duplicated (all_numbers ps) else found)
        (write_groups gs) in
    elim (Bool-cases (value ds == thread_id)) [
      | inl q ↦
          let first : special_from (suc fuel) thread_id found (write_groups ((ds, ps) ∷ gs))
              ≡ goal true =
            rw
              (
                e,
                special_from,
                q,
                new ((==_iff (value ds) thread_id).0 q),
                expand_number_range-write ps h.1 h.2 h.3,
              )
              refl in
          first ∙ ap goal (sym q)
      | inr q ↦
          let first : special_from (suc fuel) thread_id found (write_groups ((ds, ps) ∷ gs))
              ≡ goal false =
            rw (e, special_from, q) refl in
          first ∙ ap goal (sym q)
    ]

-- Once the rules of the thread are found, they stay.
special_from-found :
    (fuel thread_id : ℕ) (found : Option (List ℕ)) (gs : List Group)
    → All IsGroup gs
    → All (λ t. t ≢ thread_id) (threads_of gs)
    → length (write_groups gs) ≤ fuel
    → special_from fuel thread_id found (write_groups gs) ≡ ok found
unfolding special_from
special_from-found fuel thread_id found [] h others enough = refl
special_from-found zero thread_id found (g ∷ gs) h others enough =
    absurd (omega (arith, length-write_groups g gs))
special_from-found (suc fuel) thread_id found (g ∷ gs) h others enough =
    let q : (value g.0 == thread_id) ≡ false = ground (arith, others.0) in
    special_from-group fuel thread_id found g gs h.0 (λ e. absurd (others.0 e))
    ∙ rw q (
        special_from-found fuel thread_id found gs h.1 others.1
          (omega (arith, length-write_groups g gs)))

special_from-given :
    (fuel thread_id : ℕ) (gs : List Group)
    → All IsGroup gs
    → Distinct (threads_of gs)
    → length (write_groups gs) ≤ fuel
    → special_from fuel thread_id none (write_groups gs) ≡ ok (given_to thread_id gs)
unfolding special_from given_to
special_from-given fuel thread_id [] h distinct enough = refl
special_from-given zero thread_id (g ∷ gs) h distinct enough =
    absurd (omega (arith, length-write_groups g gs))
special_from-given (suc fuel) thread_id (g ∷ gs) h distinct enough =
    let less : length (write_groups gs) ≤ fuel = omega (arith, length-write_groups g gs) in
    special_from-group fuel thread_id none g gs h.0 (λ _. refl)
    ∙ elim (Bool-cases (value g.0 == thread_id)) [
      | inl q ↦
          let same : value g.0 ≡ thread_id = (==_iff (value g.0) thread_id).0 q in
          rw q (
            special_from-found fuel thread_id (duplicated (all_numbers g.1)) gs h.1
              (subst (λ t. All (λ u. u ≢ t) (threads_of gs)) same distinct.0) less)
      | inr q ↦ rw q (special_from-given fuel thread_id gs h.1 distinct.1 less)
    ]

-- If each thread stands at most once in a mask of rules that is written as it should be, then the
-- rules that are found for a thread are exactly the numbers that the mask gives to it, and none if the
-- mask does not name it.
pub get_special_rules_for_thread-write :
    (thread_id : ℕ) (gs : List Group)
    → All IsGroup gs
    → Distinct (threads_of gs)
    → get_special_rules_for_thread thread_id (write_groups gs) ≡ ok (given_to thread_id gs)
unfolding get_special_rules_for_thread
get_special_rules_for_thread-write thread_id gs h distinct =
    special_from-given (length (write_groups gs)) thread_id gs h distinct (omega arith)
