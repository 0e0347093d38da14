-- ===== src/Smp/Waiting.antt =====
-- The mask of `mmt_smp_sec_process`: for which threads a message still waits.
use mmt_security.Prelude.{
  ℕ, ◌≡◌, refl, sym, ap, ◌∙◌, inl, inr, Option, some, List, [], ◌∷◌, ◌++◌, true, false,
  if◌then◌else◌, arith, get_elem?, Bool-cases, ◌<◌, ◌+◌, ◌%◌, ◌≢◌, zero, suc, length, get_or,
  get_or-set_ne, get_or-set_self, length-set, get_elem?-bound, some-injective,
}
use mmt_security.Message.{Message}
use mmt_security.Smp.{concerns}
use mmt_security.Smp.Lanes.{
  Mask, mask_bit_check, mask_bit_clear, ones, first_bits, Lane, Lanes, clear_unconcerned, mask_for,
}

-- The messages that concern a thread, in their order.
abbrev pub due : ℕ → List (Option Message) → List (Option Message)
due hash [] = []
due hash (x ∷ xs) = if concerns hash x then x ∷ due hash xs else due hash xs

-- What still waits for room in the ring of thread `i`.
abbrev pub held : Lanes → ℕ → List (Option Message)
held s i = if mask_bit_check s.mask i then s.current ∷ [] else []

-- What each thread took, what its ring holds and what waits for room are what is due to it.
pub record IsDelivered (s : Lanes) : Type 0 where
  pub few : length s.lanes < 64
  pub width : length s.mask ≡ 64
  pub delivered :
      (i : ℕ) (l : Lane)
      → get_elem? s.lanes i ≡ some l
      → l.taken ++ (l.queue ++ held s i) ≡ due l.hash s.given

pub due-append :
    (hash : ℕ) (xs : List (Option Message)) (x : Option Message)
    → due hash (xs ++ x ∷ []) ≡ due hash xs ++ (if concerns hash x then x ∷ [] else [])
due-append hash [] x = ground arith
due-append hash (y ∷ xs) x = ground (arith, due-append hash xs x)

length-ones : (k n : ℕ) → length (ones k n) ≡ k
unfolding ones
length-ones zero n = refl
length-ones (suc k) zero = ap suc (length-ones k zero)
length-ones (suc k) (suc n) = ap suc (length-ones k n)

get_or-ones : (k n i : ℕ) → i < n → i < k → get_or (ones k n) i false ≡ true
unfolding ones
get_or-ones zero n i h m = absurd (omega arith)
get_or-ones (suc k) zero i h m = absurd (omega arith)
get_or-ones (suc k) (suc n) zero h m = refl
get_or-ones (suc k) (suc n) (suc i) h m = get_or-ones k n i (omega arith) (omega arith)

clear_unconcerned-below :
    (i : ℕ) (x : Option Message) (ls : List Lane) (mask : Mask) (j : ℕ)
    → i + length ls < 64
    → j < i
    → mask_bit_check (clear_unconcerned i x ls mask) j ≡ mask_bit_check mask j
unfolding clear_unconcerned
clear_unconcerned-below i x [] mask j few h = refl
clear_unconcerned-below i x (l ∷ ls) mask j few h =
    clear_unconcerned-below (i + 1) x ls (if concerns l.hash x then mask else mask_bit_clear mask i)
      j (omega arith) (omega arith)
    ∙ elim (Bool-cases (concerns l.hash x)) [
      | inl q ↦ rw q refl
      | inr q ↦
          let apart : i % 64 ≢ j % 64 = λ e. omega (arith, e) in
          rw q (get_or-set_ne mask false false apart)
    ]

length-clear_unconcerned :
    (i : ℕ) (x : Option Message) (ls : List Lane) (mask : Mask)
    → length (clear_unconcerned i x ls mask) ≡ length mask
unfolding clear_unconcerned
length-clear_unconcerned i x [] mask = refl
length-clear_unconcerned i x (l ∷ ls) mask =
    length-clear_unconcerned (i + 1) x ls
      (if concerns l.hash x then mask else mask_bit_clear mask i)
    ∙ elim (Bool-cases (concerns l.hash x)) [
      | inl q ↦ rw q refl
      | inr q ↦ rw q (length-set mask (i % 64) false)
    ]

-- The bit of a thread after the loop.
clear_unconcerned-bit :
    (i : ℕ) (x : Option Message) (ls : List Lane) (mask : Mask) (k : ℕ) (l : Lane)
    → i + length ls < 64
    → length mask ≡ 64
    → mask_bit_check mask (i + k) ≡ true
    → get_elem? ls k ≡ some l
    → mask_bit_check (clear_unconcerned i x ls mask) (i + k) ≡ concerns l.hash x
unfolding clear_unconcerned
clear_unconcerned-bit i x [] mask k l few width on at_k = cc
clear_unconcerned-bit i x (m ∷ ls) mask zero l few width on at_k =
    let same : m ≡ l = some-injective at_k in
    let mask' = if concerns m.hash x then mask else mask_bit_clear mask i in
    ap (mask_bit_check (clear_unconcerned (i + 1) x ls mask')) (omega arith)
    ∙ clear_unconcerned-below (i + 1) x ls mask' i (omega arith) (omega arith)
    ∙ elim (Bool-cases (concerns m.hash x)) [
      | inl q ↦ rw q (ap (mask_bit_check mask) (omega arith) ∙ on)
      | inr q ↦ rw q (get_or-set_self mask (i % 64) false false (omega (arith, width)))
    ]
    ∙ ap (λ l. concerns l.hash x) same
clear_unconcerned-bit i x (m ∷ ls) mask (suc k) l few width on at_k =
    let mask' = if concerns m.hash x then mask else mask_bit_clear mask i in
    let next : i + suc k ≡ i + 1 + k = omega arith in
    let bound = get_elem?-bound ls k at_k in
    let kept : mask_bit_check mask' (i + 1 + k) ≡ true = elim (Bool-cases (concerns m.hash x)) [
      | inl q ↦ rw q (ap (mask_bit_check mask) (sym next) ∙ on)
      | inr q ↦
          let apart : i % 64 ≢ (i + 1 + k) % 64 = λ e. omega (arith, e, bound, few) in
          rw q (get_or-set_ne mask false false apart ∙ ap (mask_bit_check mask) (sym next) ∙ on)
    ] in
    let width' : length mask' ≡ 64 = elim (Bool-cases (concerns m.hash x)) [
      | inl q ↦ rw q width
      | inr q ↦ rw q (length-set mask (i % 64) false ∙ width)
    ] in
    ap (mask_bit_check (clear_unconcerned (i + 1) x ls mask')) next
    ∙ clear_unconcerned-bit (i + 1) x ls mask' k l (omega arith) width' kept at_k

pub length-mask_for : (x : Option Message) (ls : List Lane) → length (mask_for x ls) ≡ 64
unfolding mask_for
length-mask_for x ls =
    length-clear_unconcerned 0 x ls (first_bits (length ls)) ∙ length-ones 64 (length ls % 64)

pub mask_for-bit :
    (x : Option Message) (ls : List Lane) (i : ℕ) (l : Lane)
    → length ls < 64
    → get_elem? ls i ≡ some l
    → mask_bit_check (mask_for x ls) i ≡ concerns l.hash x
unfolding mask_for
mask_for-bit x ls i l few at_i =
    let bound = get_elem?-bound ls i at_i in
    ap (mask_bit_check (clear_unconcerned 0 x ls (first_bits (length ls)))) (omega arith)
    ∙ clear_unconcerned-bit 0 x ls (first_bits (length ls)) i l (omega (arith, few))
        (length-ones 64 (length ls % 64))
        (get_or-ones 64 (length ls % 64) ((0 + i) % 64) (omega (arith, bound, few)) (omega arith))
        at_i
