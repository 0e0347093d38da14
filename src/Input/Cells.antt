-- ===== src/Input/Cells.antt =====
-- What stands in the buffer of a message after a segment was written (src/lib/message_t.c).
use mmt_security.Prelude.{
  ℕ, zero, suc, ◌+◌, ◌-◌, ◌≤◌, ◌<◌, ◌≡◌, refl, sym, ap, ◌∙◌, List, [], ◌∷◌, ◌++◌, arith, length,
  replicate, Run, ok, ◌>>=◌, ◌==◌, if◌then◌else◌,
}
use mmt_security.Input.{
  Cell, byte, header, within_header, write, segment, byte_cells, read_byte, read_size, read_bytes,
  read_segment,
}

pub write-below :
    (buffer : ℕ → Cell) (p : ℕ) (cs : List Cell) (q : ℕ) → q < p → write buffer p cs q ≡ buffer q
unfolding write
write-below buffer p [] q h = refl
write-below buffer p (c ∷ cs) q h =
    write-below (λ r. if r == p then c else buffer r) (p + 1) cs q (omega arith) ∙ ground arith

write-append :
    (buffer : ℕ → Cell) (p : ℕ) (cs ds : List Cell)
    → write buffer p (cs ++ ds) ≡ write (write buffer p cs) (p + length cs) ds
unfolding write
write-append buffer p [] ds = ap (λ (k : ℕ). write buffer k ds) (omega arith)
write-append buffer p (c ∷ cs) ds =
    write-append (λ q. if q == p then c else buffer q) (p + 1) cs ds
    ∙ ap (λ (k : ℕ). write (write (λ q. if q == p then c else buffer q) (p + 1) cs) k ds)
        (omega arith)

-- A byte, and then the others.
read-cons :
    {c c' : Cell} {r r' : Run (List ℕ)}
    → c ≡ c'
    → r ≡ r'
    → (read_byte c >>= λ b. r >>= λ rest. ok (b ∷ rest))
      ≡ (read_byte c' >>= λ b. r' >>= λ rest. ok (b ∷ rest))
read-cons {c} {c'} {r} {r'} h k =
    ap (λ x. read_byte x >>= λ b. r >>= λ rest. ok (b ∷ rest)) h
    ∙ ap (λ x. read_byte c' >>= λ b. x >>= λ rest. ok (b ∷ rest)) k

read_bytes-same :
    (f g : ℕ → Cell) (p n : ℕ)
    → ((q : ℕ) → q < p + n → f q ≡ g q)
    → read_bytes f p n ≡ read_bytes g p n
unfolding read_bytes
read_bytes-same f g p zero h = refl
read_bytes-same f g p (suc n) h =
    read-cons (h p (omega arith)) (read_bytes-same f g (p + 1) n (λ q l. h q (omega arith)))

read_bytes-write :
    (buffer : ℕ → Cell) (p : ℕ) (bytes : List ℕ) (rest : List Cell)
    → read_bytes (write buffer p (byte_cells bytes ++ rest)) p (length bytes) ≡ ok bytes
unfolding read_bytes write
read_bytes-write buffer p [] rest = refl
read_bytes-write buffer p (b ∷ bytes) rest =
    let inner : ℕ → Cell = λ q. if q == p then byte b else buffer q in
    let here : write inner (p + 1) (byte_cells bytes ++ rest) p ≡ byte b =
      write-below inner (p + 1) (byte_cells bytes ++ rest) p (omega arith) ∙ ground arith in
    read-cons here (read_bytes-write inner (p + 1) bytes rest)

-- A segment that lies below what was written is read as before.
pub read_segment-same :
    (f g : ℕ → Cell) (p n : ℕ)
    → g (p - 16) ≡ header n
    → ((q : ℕ) → q < p + n → f q ≡ g q)
    → 16 ≤ p
    → read_segment f p ≡ read_segment g p
unfolding read_segment
read_segment-same f g p n h same low =
    ap (λ c. read_size c >>= read_bytes f p) (same (p - 16) (omega arith) ∙ h)
    ∙ read_bytes-same f g p n same
    ∙ ap (λ c. read_size c >>= read_bytes g p) (sym h)

-- The header of a segment that was written.
pub segment-header :
    (buffer : ℕ → Cell) (p : ℕ) (bytes : List ℕ)
    → write buffer p (segment bytes) p ≡ header (length bytes)
unfolding write
segment-header buffer p bytes =
    write-below (λ q. if q == p then header (length bytes) else buffer q) (p + 1)
      (replicate 15 within_header ++ (byte_cells bytes ++ byte 0 ∷ [])) p (omega arith)
    ∙ ground arith

pub read_segment-write :
    (buffer : ℕ → Cell) (p : ℕ) (bytes : List ℕ)
    → read_segment (write buffer p (segment bytes)) (p + 16) ≡ ok bytes
unfolding read_segment
read_segment-write buffer p bytes =
    let head : List Cell = header (length bytes) ∷ replicate 15 within_header in
    let start : (p + 16) - 16 ≡ p = omega arith in
    ap (λ c. read_size c >>= read_bytes (write buffer p (segment bytes)) (p + 16))
      (ap (write buffer p (segment bytes)) start ∙ segment-header buffer p bytes)
    ∙ ap (λ f. read_bytes f (p + 16) (length bytes))
        (write-append buffer p head (byte_cells bytes ++ byte 0 ∷ []))
    ∙ read_bytes-write (write buffer p head) (p + 16) bytes (byte 0 ∷ [])
