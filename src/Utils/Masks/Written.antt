-- ===== src/Utils/Masks/Written.antt =====
-- Masks of numbers that are written as they should be (`expand_number_range`).
use mmt_security.Prelude.{
  ◌>>=◌, append_one, ℕ, zero, suc, ◌+◌, ◌-◌, ◌≤◌, ◌<◌, ◌≡◌, refl, sym, ap, ◌∙◌, ◌≢◌, some, List, [],
  ◌∷◌, ◌++◌, true, false, not, ◌==◌, ltb, arith, length, length-append, get_or, ok, All, Distinct,
}
use mathlib.Core.List.{append-nil, append_assoc}
use mmt_security.Prelude.Bits.{u32}
use mmt_security.Utils.Search.{index_of}
use mmt_security.Utils.Masks.{
  Text, Reading, is_digit, array_size, add_number, add_range, after_comma, after_range,
  second_number, after_first, expand_from, expand_number_range, duplicated, result_of,
}
use mmt_security.Utils.Masks.Grammar.{
  number, range, Part, value, count_up, part_numbers, all_numbers, write_part, write, IsNumber,
  IsPart, Ends, skip_digits-append, atoi-append,
}

index_of-new : (n : ℕ) (xs : List ℕ) → All (λ x. x ≢ n) xs → index_of n xs ≡ length xs
unfolding index_of
index_of-new n [] h = refl
index_of-new n (x ∷ xs) h = ground (arith, index_of-new n xs h.1, h.0)

-- A number that stands behind different numbers is none of them.
Distinct-new : (xs : List ℕ) (n : ℕ) (ys : List ℕ) → Distinct (xs ++ n ∷ ys) → All (λ x. x ≢ n) xs
Distinct-new [] n ys h = tt
Distinct-new (x ∷ xs) n ys h = (first xs h.0, Distinct-new xs n ys h.1)
  where
    first : (zs : List ℕ) → All (λ y. y ≢ x) (zs ++ n ∷ ys) → x ≢ n
    first [] k = λ e. k.0 (sym e)
    first (z ∷ zs) k = first zs k.1

-- The numbers to come are new, and there is room for them.
abbrev Fits : List ℕ → List ℕ → Type 0
Fits array new = Distinct (array ++ new) × (length (array ++ new) ≤ array_size)

add_number-new :
    (array : List ℕ) (n : ℕ) (new : List ℕ)
    → Fits array (n ∷ new)
    → (add_number array n ≡ ok (array ++ n ∷ [])) × Fits (array ++ n ∷ []) new
unfolding add_number
add_number-new array n new h =
    let e = index_of-new n array (Distinct-new array n new h.0) in
    let q : (index_of n array == length array) ≡ true = ground arith in
    let r : ltb (length array) array_size ≡ true =
      ground (arith, length-append array (n ∷ new), h.1) in
    (rw (q, r) refl, rw (append_one array new n) h)

add_range-new :
    (n i : ℕ) (array new : List ℕ)
    → Fits array (count_up n i ++ new)
    → (add_range n i array ≡ ok (array ++ count_up n i)) × Fits (array ++ count_up n i) new
unfolding add_range
add_range-new zero i array new h = (ap ok (sym (append-nil array)), rw (append-nil array) h)
add_range-new (suc n) i array new h =
    let (e, h') = add_number-new array i (count_up n (i + 1) ++ new) h in
    let (f, h'') = add_range-new n (i + 1) (array ++ i ∷ []) new h' in
    rw (e, ← append_one array (count_up n (i + 1)) i) (f, h'')

get_or-append : (array : List ℕ) (n : ℕ) → get_or (array ++ n ∷ []) (length array) 0 ≡ n
get_or-append [] n = refl
get_or-append (x ∷ xs) n = get_or-append xs n

last_number :
    (array : List ℕ) (n : ℕ) → get_or (array ++ n ∷ []) (length (array ++ n ∷ []) - 1) 0 ≡ n
last_number array n =
    let e : length (array ++ n ∷ []) - 1 ≡ length array =
      omega (arith, length-append array (n ∷ [])) in
    ap (λ (k : ℕ). get_or (array ++ n ∷ []) k 0) e ∙ get_or-append array n

-- Reading the rest of a mask, once the numbers before it are in the array.
abbrev Continues : Reading → Text → List ℕ → Type 0
Continues rest t new = (array : List ℕ) → Fits array new → rest array t ≡ ok (some (array ++ new))

-- What stands behind a part: nothing, or a comma and more, which is read.
abbrev Follows : Reading → Text → List ℕ → Type 0
Follows rest [] new = new ≡ []
Follows rest (c ∷ []) new = ⊥
Follows rest (c ∷ d ∷ cs) new = (c ≡ b',') × Continues rest (d ∷ cs) new

Follows-Ends : (rest : Reading) (t : Text) (new : List ℕ) → Follows rest t new → Ends t
Follows-Ends rest [] new h = tt
Follows-Ends rest (c ∷ []) new h = absurd h
Follows-Ends rest (c ∷ d ∷ cs) new h = rw h.0 refl

after_range-new :
    (rest : Reading) (t : Text) (new : List ℕ)
    → Follows rest t new
    → Continues (after_range rest) t new
unfolding after_range after_comma
after_range-new rest [] new h array fits = ap (λ l. ok (some l)) (sym (rw h (append-nil array)))
after_range-new rest (c ∷ []) new h array fits = absurd h
after_range-new rest (c ∷ d ∷ cs) new h array fits = rw h.0 (h.1 array fits)

after_number-new :
    (rest : Reading) (t : Text) (new : List ℕ)
    → Follows rest t new
    → Continues (after_first rest) t new
unfolding after_first
after_number-new rest [] new h array fits = ap (λ l. ok (some l)) (sym (rw h (append-nil array)))
after_number-new rest (c ∷ []) new h array fits = absurd h
after_number-new rest (c ∷ d ∷ cs) new h array fits =
    let q : (c == b'-') ≡ false = rw h.0 refl in
    rw q (after_range-new rest (c ∷ d ∷ cs) new h array fits)

second_number-new :
    (rest : Reading) (t : Text) (new : List ℕ) (n : ℕ) (es : Text)
    → Follows rest t new
    → IsNumber es
    → n < value es
    → (array : List ℕ) → Fits (array ++ n ∷ []) (count_up (value es - n) (n + 1) ++ new)
    → second_number rest (array ++ n ∷ []) (es ++ t)
      ≡ ok (some ((array ++ n ∷ []) ++ count_up (value es - n) (n + 1) ++ new))
unfolding second_number
second_number-new rest t new n es follows h less array fits =
    let ends = Follows-Ends rest t new follows in
    let i : u32 (get_or (array ++ n ∷ []) (length (array ++ n ∷ []) - 1) 0 + 1) ≡ n + 1 =
      omega (arith, last_number array n, h.small) in
    let q : ltb (value es) (n + 1) ≡ false = ground arith in
    let rounds : value es + 1 - (n + 1) ≡ value es - n = omega arith in
    let (e, fits') = add_range-new (value es - n) (n + 1) (array ++ n ∷ []) new fits in
    rw (i, atoi-append es t h ends, q, rounds, e, skip_digits-append es t h.digits ends)
      (after_range-new rest t new follows ((array ++ n ∷ []) ++ count_up (value es - n) (n + 1))
        fits')

Follows-comma :
    (rest : Reading) (cs : Text) (new : List ℕ)
    → 0 < length cs
    → Continues rest cs new
    → Follows rest (b',' ∷ cs) new
Follows-comma rest [] new h k = absurd (omega (arith, h))
Follows-comma rest (c ∷ cs) new h k = (refl, k)

-- The round that reads one number with digits, and what stands behind it.
round_lem :
    (fuel : ℕ) (ds t : Text) (new array : List ℕ)
    → IsNumber ds
    → Ends t
    → Fits array (value ds ∷ new)
    → (expand_from (suc fuel) array (ds ++ t)
        ≡ after_first (expand_from fuel) (array ++ value ds ∷ []) t)
      × Fits (array ++ value ds ∷ []) new
unfolding expand_from
round_lem fuel [] t new array n ends fits = absurd (omega (arith, n.some_digit))
round_lem fuel (c ∷ ds) t new array n ends fits =
    let (e, fits') = add_number-new array (value (c ∷ ds)) new fits in
    let digit : not (is_digit c) ≡ false = ap not n.digits.0 in
    (
      rw (digit, atoi-append (c ∷ ds) t n ends, e, skip_digits-append ds t n.digits.1 ends) refl,
      fits',
    )

after_first-range :
    (rest : Reading) (array : List ℕ) (t : Text)
    → after_first rest array (b'-' ∷ t) ≡ second_number rest array t
unfolding after_first
after_first-range rest array t = refl

part_lem :
    (fuel : ℕ) (p : Part) (t : Text) (new array : List ℕ)
    → IsPart p
    → Follows (expand_from fuel) t new
    → Fits array (part_numbers p ++ new)
    → expand_from (suc fuel) array (write_part p ++ t)
      ≡ ok (some (array ++ (part_numbers p ++ new)))
part_lem fuel (number ds) t new array h follows fits =
    let ends = Follows-Ends (expand_from fuel) t new follows in
    let (e, fits') = round_lem fuel ds t new array h ends fits in
    e
    ∙ after_number-new (expand_from fuel) t new follows (array ++ value ds ∷ []) fits'
    ∙ ap (λ l. ok (some l)) (append_one array new (value ds))
part_lem fuel (range ds es) t new array h follows fits =
    let more = count_up (value es - value ds) (value ds + 1) in
    let (e, fits') = round_lem fuel ds (b'-' ∷ (es ++ t)) (more ++ new) array h.0 refl fits in
    ap (expand_from (suc fuel) array) (append_assoc ds (b'-' ∷ es) t)
    ∙ e
    ∙ after_first-range (expand_from fuel) (array ++ value ds ∷ []) (es ++ t)
    ∙ second_number-new (expand_from fuel) t new (value ds) es follows h.1 h.2 array fits'
    ∙ ap (λ l. ok (some l))
        (append_assoc (array ++ value ds ∷ []) more new ∙ append_one array (more ++ new) (value ds))

pub write-pos : (p : Part) (ps : List Part) → IsPart p → 0 < length (write (p ∷ ps))
write-pos (number ds) [] h = h.some_digit
write-pos (range ds es) [] h = omega (arith, length-append ds (b'-' ∷ es))
write-pos (number ds) (q ∷ ps) h = omega (arith, length-append ds (b',' ∷ write (q ∷ ps)))
write-pos (range ds es) (q ∷ ps) h =
    omega (arith, length-append (ds ++ b'-' ∷ es) (b',' ∷ write (q ∷ ps)))

written_lem :
    (fuel : ℕ) (ps : List Part)
    → All IsPart ps
    → length (write ps) ≤ fuel
    → Continues (expand_from fuel) (write ps) (all_numbers ps)
unfolding expand_from
written_lem fuel [] h enough array fits = ap (λ l. ok (some l)) (sym (append-nil array))
written_lem zero (p ∷ ps) h enough array fits = absurd (omega (arith, write-pos p ps h.0))
written_lem (suc fuel) (p ∷ []) h enough array fits =
    ap (expand_from (suc fuel) array) (sym (append-nil (write_part p)))
    ∙ part_lem fuel p [] [] array h.0 refl fits
written_lem (suc fuel) (p ∷ q ∷ ps) h enough array fits =
    let less : length (write (q ∷ ps)) ≤ fuel =
      omega (arith, length-append (write_part p) (b',' ∷ write (q ∷ ps))) in
    part_lem fuel p (b',' ∷ write (q ∷ ps)) (all_numbers (q ∷ ps)) array h.0
      (Follows-comma (expand_from fuel) (write (q ∷ ps)) (all_numbers (q ∷ ps))
        (write-pos q ps h.1.0) (written_lem fuel (q ∷ ps) h.1 less))
      fits

-- A mask that is written of numbers and of ranges with commas between them, each number below
-- 2 ^ 32 and the first number of a range below the last, expands to exactly these numbers in their
-- order, if none is named twice and the array has room for them. For an empty mask this is the null
-- pointer.
pub expand_number_range-write :
    (ps : List Part)
    → All IsPart ps
    → Distinct (all_numbers ps)
    → length (all_numbers ps) ≤ array_size
    → expand_number_range (write ps) ≡ ok (duplicated (all_numbers ps))
unfolding expand_number_range
expand_number_range-write ps h distinct room =
    ap (λ r. r >>= λ read. ok (result_of read))
      (written_lem (length (write ps)) ps h (omega arith) [] (distinct, room))
