-- ===== src/Input/Reading.antt =====
-- What is read from a message after an element was set (`set_element_data_message_t`,
-- `get_element_data_message_t`).
use mmt_security.Prelude.{
  ℕ, ◌+◌, ◌^◌, ◌≤◌, ◌<◌, ◌≡◌, ◌≢◌, refl, ap, ◌∙◌, ◌⊎◌, inl, inr, Option, none, some, List, ◌==◌,
  Bool, true, not, ◌&&◌, arith, length, get_elem?, get_elem?-set_self, get_elem?-set_ne, ltb, Run,
  ok, ◌>>=◌, present, Ensures, Ensures-bind, Bool-cases, ==_iff,
}
use mmt_security.Prelude.Bits.{u64}
use mmt_security.Rule.{ProtoAttribute}
use mmt_security.Attribute.{hash_proto_attribute}
use mmt_security.Input.{
  Cell, Slot, Draft, Status, msg_continue, msg_overflow, take_bytes, is_zero_double, is_unset_flag,
  set_element_data, read_segment, get_element_data,
}
use mmt_security.Input.Cells.{read_segment-write}
use mmt_security.Input.Stored.{
  IsPlaced, IsDraft, stored, slot_of, store_data-stored, stored-IsDraft, IsPlaced-stored,
  take_bytes-Ensures,
}

-- What `get_element_data` does with a slot.
abbrev data_of : (ℕ → Cell) → Slot → Run (Option (List ℕ))
data_of buffer e = elim e.content [
  | none ↦ ok none
  | some p ↦ do bytes ← read_segment buffer p; ok (some bytes)
]

get_element_data-stored :
    (d : Draft) (i proto_id att_id data_type : ℕ) (bytes : List ℕ)
    → i < length d.elements
    → get_element_data (stored d i (slot_of d proto_id att_id data_type) bytes) i ≡ ok (some bytes)
unfolding get_element_data
get_element_data-stored d i proto_id att_id data_type bytes h =
    rw
      (
        get_elem?-set_self d.elements i (slot_of d proto_id att_id data_type) h,
        read_segment-write d.buffer d.data_index bytes,
      )
      refl

same_slot :
    (d : Draft) (i : ℕ) (slot : Slot) (bytes : List ℕ) (e : Slot)
    → ((p : ℕ) → e.content ≡ some p → IsPlaced d.buffer d.data_index p)
    → data_of (stored d i slot bytes).buffer e ≡ data_of d.buffer e
same_slot d i slot bytes e placed = by_content e.content placed
  where
    by_content :
        (o : Option ℕ)
        → ((p : ℕ) → o ≡ some p → IsPlaced d.buffer d.data_index p)
        → data_of (stored d i slot bytes).buffer (record e { content = o })
          ≡ data_of d.buffer (record e { content = o })
    by_content none h = refl
    by_content (some p) h =
        ap (λ r. r >>= λ bytes. ok (some bytes)) (IsPlaced-stored d i slot bytes p (h p refl)).1

get_element_data-other :
    (registered : List ProtoAttribute) (d : Draft) (i j : ℕ) (slot : Slot) (bytes : List ℕ)
    → IsDraft registered d
    → i ≢ j
    → get_element_data (stored d i slot bytes) j ≡ get_element_data d j
unfolding get_element_data
get_element_data-other registered d i j slot bytes c other =
    ap (λ o. present o >>= data_of (stored d i slot bytes).buffer)
      (get_elem?-set_ne d.elements slot other)
    ∙ by_slot (get_elem? d.elements j) (λ e at_j p. c.placed j e p at_j)
  where
    by_slot :
        (o : Option Slot)
        → ((e : Slot)
            → o ≡ some e
            → (p : ℕ) → e.content ≡ some p
            → IsPlaced d.buffer d.data_index p)
        → (present o >>= data_of (stored d i slot bytes).buffer) ≡ (present o >>= data_of d.buffer)
    by_slot none h = refl
    by_slot (some e) h = same_slot d i slot bytes e (h e refl)

is_unset_flag-Ensures :
    (proto_id att_id data_type : ℕ) (bytes : List ℕ)
    → (data_type ≡ 0 → 8 ≤ length bytes)
    → Ensures (is_unset_flag proto_id att_id data_type bytes) (λ _. Unit {0})
unfolding is_unset_flag is_zero_double
is_unset_flag-Ensures proto_id att_id data_type bytes h =
    elim (Bool-cases (not (proto_id == 354 && data_type == 0))) [
      | inl q ↦ rw q tt
      | inr q ↦
          let numeric : data_type ≡ 0 = ground arith in
          rw q (
            Ensures-bind (is_zero_double bytes) _ (λ _. Unit {0}) (λ _. Unit {0})
              (Ensures-bind (take_bytes 8 bytes) _ (λ _. Unit {0}) (λ _. Unit {0})
                (take_bytes-Ensures 8 bytes (h numeric)) (λ _ _ _. tt))
              (λ _ _ _. tt))
    ]

-- The outcomes of setting the element `i`: there is no room, and nothing changes; the data is empty or
-- a flag that is not set, and nothing changes; or it is read back, and all else is read as before.
abbrev pub IsAssigned : Draft → ℕ → List ℕ → Run Bool → Draft → Status → Type 0
IsAssigned d i bytes unset d' msg_overflow =
    (d' ≡ d) × (d.data_length ≤ d.data_index + length bytes + 17)
IsAssigned d i bytes unset d' msg_continue =
    ((d' ≡ d) × ((length bytes ≡ 0) ⊎ (unset ≡ ok true)))
    ⊎ ((get_element_data d' i ≡ ok (some bytes))
        × ((j : ℕ) → i ≢ j → get_element_data d' j ≡ get_element_data d j))

-- Data that is set is read back: let a message be well formed, the attribute registered, and the data
-- shorter than 2^32 bytes and, if it is a number, of at least 8. Then setting it ends, without a wild
-- access, in a well-formed message. If there is no room, the message is as before; if the data is
-- empty or a flag of TCP that is not set, too; else the data is read back, and what is read of every
-- other element is as before.
pub set_element_data-IsAssigned :
    (registered : List ProtoAttribute) (d : Draft) (proto_id att_id data_type i : ℕ)
    (bytes : List ℕ)
    → IsDraft registered d
    → hash_proto_attribute registered proto_id att_id ≡ ok i
    → i < length registered
    → length bytes < 2 ^ 32
    → (data_type ≡ 0 → 8 ≤ length bytes)
    → Ensures
        (set_element_data registered d proto_id att_id (some bytes) data_type (length bytes))
        λ (d', status).
          IsDraft registered d'
          × IsAssigned d i bytes (is_unset_flag proto_id att_id data_type bytes) d' status
unfolding set_element_data
set_element_data-IsAssigned registered d proto_id att_id data_type i bytes c at_i bound short
      numeric =
    let sum : u64 (d.data_index + length bytes + 16 + 1) ≡ d.data_index + length bytes + 17 =
      omega (arith, c.room, c.width) in
    elim (Bool-cases (not (ltb (d.data_index + length bytes + 17) d.data_length))) [
      | inl q ↦ rw (sum, q) (c, (refl, ground arith))
      | inr q ↦ elim (Bool-cases (length bytes == 0)) [
        | inl z ↦ rw (sum, q, z) (c, inl (refl, inl ((==_iff (length bytes) 0).0 z)))
        | inr z ↦
            let fits : d.data_index + length bytes + 17 < d.data_length = ground arith in
            rw (sum, q, z)
              (Ensures-bind (is_unset_flag proto_id att_id data_type bytes) _ (λ _. Unit {0}) _
                (is_unset_flag-Ensures proto_id att_id data_type bytes numeric)
                (λ unset e _. elim (Bool-cases unset) [
                  | inl u ↦ rw u (c, inl (refl, inr (e ∙ ap ok u)))
                  | inr u ↦
                      let slot = slot_of d proto_id att_id data_type in
                      rw
                        (
                          u,
                          at_i,
                          store_data-stored registered d i proto_id att_id bytes data_type c bound
                              fits,
                        )
                        (
                          stored-IsDraft registered d i proto_id att_id data_type bytes c fits,
                          inr (
                            get_element_data-stored d i proto_id att_id data_type bytes
                                (omega (arith, c.count, bound)),
                            λ j other. get_element_data-other registered d i j slot bytes c other,
                          ),
                        )
                ]))
      ]
    ]
