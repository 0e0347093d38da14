-- ===== src/Input/Stored.antt =====
-- The data that a message holds after an element was set (`set_element_data_message_t`).
use mmt_security.Prelude.{
  ℕ, zero, suc, ◌+◌, ◌-◌, ◌^◌, ◌≤◌, ◌<◌, ◌≡◌, refl, sym, ap, ◌∙◌, subst, inl, inr, Option, none,
  some, List, [], ◌∷◌, false, arith, length, length-set, length-replicate, replicate, get_elem?,
  get_elem?-in, get_elem?-set-cases, set, ltb, ok, Ensures, Ensures-bind, some-injective,
}
use mmt_security.Prelude.Bits.{u32}
use mmt_security.Prelude.Digits.{bit, bit_zero, bit-or_power, bit-or_power_ne}
use mmt_security.Rule.{ProtoAttribute, bit_set}
use mmt_security.Input.{
  Cell, header, Slot, Draft, create_message, write, segment, take_bytes, store_data, read_segment,
}
use mmt_security.Input.Cells.{write-below, read_segment-same, segment-header, read_segment-write}

-- A segment stands in the part of the buffer that is in use.
pub record IsPlaced (buffer : ℕ → Cell) (index p : ℕ) : Type 0 where
  pub bytes : List ℕ
  pub low : 16 ≤ p
  pub head : buffer (p - 16) ≡ header (length bytes)
  pub content : read_segment buffer p ≡ ok bytes
  pub high : p + length bytes < index

-- The digit of the mask that belongs to a slot.
abbrev pub told : Option ℕ → ℕ
told none = 0
told (some p) = 1

-- A message of some registered attributes: there is a slot for each, the part in use lies in the
-- buffer, each pointer leads to a segment in it, and the mask tells which pointers are not null.
pub record IsDraft (registered : List ProtoAttribute) (d : Draft) : Type 0 where
  pub count : length d.elements ≡ length registered
  pub room : d.data_index ≤ d.data_length
  pub width : d.data_length < 2 ^ 32
  pub placed :
      (i : ℕ) (e : Slot) (p : ℕ)
      → get_elem? d.elements i ≡ some e
      → e.content ≡ some p
      → IsPlaced d.buffer d.data_index p
  pub mask : (i : ℕ) (e : Slot) → get_elem? d.elements i ≡ some e → bit d.hash i ≡ told e.content

none_not_some : {p : ℕ} → none ≡ some p → ⊥
none_not_some e = cc

-- A message that was created is well formed.
pub create_message-IsDraft :
    (registered : List ProtoAttribute) (max_message_size : ℕ) (buffer : ℕ → Cell)
    → IsDraft registered (create_message registered max_message_size buffer)
unfolding create_message
create_message-IsDraft registered max_message_size buffer =
    let n = length registered in
    let blank : Slot = record { proto_id = 0; att_id = 0; data_type = 0; content = none } in
    record {
      count = length-replicate n blank;
      room = omega arith;
      width = omega arith;
      placed = λ i e p at_i at_p. absurd (blank_has_none n i e p at_i at_p);
      mask = λ i e at_i. bit_zero i ∙ no_content n i e at_i;
    }
  where
    no_content :
        (n i : ℕ) (e : Slot)
        → get_elem?
            (replicate n (record { proto_id = 0; att_id = 0; data_type = 0; content = none }))
            i
          ≡ some e
        → 0 ≡ told e.content
    no_content zero i e h = cc
    no_content (suc n) zero e h = ap (λ s. told s.content) (some-injective h)
    no_content (suc n) (suc i) e h = no_content n i e h

    blank_has_none :
        (n i : ℕ) (e : Slot) (p : ℕ)
        → get_elem?
            (replicate n (record { proto_id = 0; att_id = 0; data_type = 0; content = none }))
            i
          ≡ some e
        → e.content ≡ some p
        → ⊥
    blank_has_none zero i e p h k = cc
    blank_has_none (suc n) zero e p h k = none_not_some (ap (λ s. s.content) (some-injective h) ∙ k)
    blank_has_none (suc n) (suc i) e p h k = blank_has_none n i e p h k

take_bytes-all : (bytes : List ℕ) → take_bytes (length bytes) bytes ≡ ok bytes
unfolding take_bytes
take_bytes-all [] = refl
take_bytes-all (b ∷ bytes) = rw (take_bytes-all bytes) refl

pub take_bytes-Ensures :
    (n : ℕ) (bytes : List ℕ) → n ≤ length bytes → Ensures (take_bytes n bytes) (λ _. Unit {0})
unfolding take_bytes
take_bytes-Ensures zero bytes h = tt
take_bytes-Ensures (suc n) [] h = absurd (omega arith)
take_bytes-Ensures (suc n) (b ∷ bytes) h =
    Ensures-bind (take_bytes n bytes) _ (λ _. Unit {0}) _ (take_bytes-Ensures n bytes (omega arith))
      (λ _ _ _. tt)

-- The message after the data was stored.
abbrev pub stored : Draft → ℕ → Slot → List ℕ → Draft
stored d i slot bytes = record d {
  elements = set d.elements i slot;
  hash = bit_set d.hash i;
  buffer = write d.buffer d.data_index (segment bytes);
  data_index = d.data_index + length bytes + 17;
}

abbrev pub slot_of : Draft → ℕ → ℕ → ℕ → Slot
slot_of d proto_id att_id data_type = record {
  proto_id = proto_id;
  att_id = att_id;
  data_type = data_type;
  content = some (d.data_index + 16);
}

pub store_data-stored :
    (registered : List ProtoAttribute) (d : Draft) (i proto_id att_id : ℕ) (bytes : List ℕ)
    (data_type : ℕ)
    → IsDraft registered d
    → i < length registered
    → d.data_index + length bytes + 17 < d.data_length
    → store_data d i proto_id att_id bytes data_type (length bytes)
      ≡ ok (stored d i (slot_of d proto_id att_id data_type) bytes)
unfolding store_data
store_data-stored registered d i proto_id att_id bytes data_type c bound fits =
    let (e, at_i) = get_elem?-in d.elements i (omega (arith, c.count, bound)) in
    let next : u32 (d.data_index + length bytes + 16 + 1) ≡ d.data_index + length bytes + 17 =
      omega (arith, c.width, fits) in
    let inside : ltb d.data_length (d.data_index + length bytes + 16 + 1) ≡ false = ground arith in
    rw (at_i, take_bytes-all bytes, inside, next) refl

-- What is placed stays as it was.
pub IsPlaced-stored :
    (d : Draft) (i : ℕ) (slot : Slot) (bytes : List ℕ) (p : ℕ)
    → IsPlaced d.buffer d.data_index p
    → IsPlaced (stored d i slot bytes).buffer (stored d i slot bytes).data_index p
      × (read_segment (stored d i slot bytes).buffer p ≡ read_segment d.buffer p)
IsPlaced-stored d i slot bytes p c =
    let b = d.buffer in
    let b' = write b d.data_index (segment bytes) in
    let kept : (q : ℕ) → q < p + length c.bytes → b' q ≡ b q =
      λ q h. write-below b d.data_index (segment bytes) q (omega (arith, h, c.high)) in
    let same = read_segment-same b' b p (length c.bytes) c.head kept c.low in
    (
      record {
        bytes = c.bytes;
        low = c.low;
        head = kept (p - 16) (omega (arith, c.low)) ∙ c.head;
        content = same ∙ c.content;
        high = omega (arith, c.high);
      },
      same,
    )

IsPlaced-new :
    (d : Draft) (i : ℕ) (slot : Slot) (bytes : List ℕ)
    → IsPlaced (stored d i slot bytes).buffer (stored d i slot bytes).data_index (d.data_index + 16)
IsPlaced-new d i slot bytes =
    let b' = write d.buffer d.data_index (segment bytes) in
    let start : d.data_index + 16 - 16 ≡ d.data_index = omega arith in
    record {
      bytes = bytes;
      low = omega arith;
      head = ap b' start ∙ segment-header d.buffer d.data_index bytes;
      content = read_segment-write d.buffer d.data_index bytes;
      high = omega arith;
    }

pub stored-IsDraft :
    (registered : List ProtoAttribute) (d : Draft) (i proto_id att_id data_type : ℕ)
    (bytes : List ℕ)
    → IsDraft registered d
    → d.data_index + length bytes + 17 < d.data_length
    → IsDraft registered (stored d i (slot_of d proto_id att_id data_type) bytes)
stored-IsDraft registered d i proto_id att_id data_type bytes c fits =
    let slot = slot_of d proto_id att_id data_type in
    record {
      count = length-set d.elements i slot ∙ c.count;
      room = omega (arith, fits);
      width = c.width;
      placed = λ j e p at_j at_p. elim (get_elem?-set-cases d.elements i j slot at_j) [
        | inl (_, same) ↦
            let here : d.data_index + 16 ≡ p =
              some-injective (ap (λ s. s.content) (sym same) ∙ at_p) in
            subst
              (λ (q : ℕ).
                IsPlaced (stored d i slot bytes).buffer (stored d i slot bytes).data_index q)
              here (IsPlaced-new d i slot bytes)
        | inr (_, before) ↦ (IsPlaced-stored d i slot bytes p (c.placed j e p before at_p)).0
      ];
      mask = λ j e at_j. elim (get_elem?-set-cases d.elements i j slot at_j) [
        | inl (here, same) ↦
            ap (bit (bit_set d.hash i)) here
            ∙ bit-or_power d.hash i
            ∙ ap (λ s. told s.content) (sym same)
        | inr (other, before) ↦ bit-or_power_ne d.hash i j (λ e. other (sym e)) ∙ c.mask j e before
      ];
    }
