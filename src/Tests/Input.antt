-- ===== src/Tests/Input.antt =====
-- The building of a message of two elements (`create_message_t`, `set_element_data_message_t`).
use mmt_security.Prelude.{ℕ, ◌≡◌, refl, some, Option, List, [], ◌∷◌, arith, Run, ok, ◌>>=◌, Ensures}
use mmt_security.Attribute.{hash_proto_attribute, hash_from}
use mmt_security.Input.{
  byte, Draft, Status, msg_continue, create_message, write, take_bytes, is_zero_double,
  is_unset_flag, store_data, set_element_data, read_bytes, read_segment, get_element_data,
}
use mmt_security.Input.Stored.{IsDraft, create_message-IsDraft}
use mmt_security.Input.Reading.{IsAssigned, set_element_data-IsAssigned}
use mmt_security.Tests.Engine.{registered}

abbrev empty_message : Draft
empty_message = create_message registered 64 (λ p. byte 7)

-- The number 1 as a double.
abbrev one : List ℕ
one = 0 ∷ 0 ∷ 0 ∷ 0 ∷ 0 ∷ 0 ∷ 240 ∷ 63 ∷ []

-- The number 0 as a double.
abbrev zero_double : List ℕ
zero_double = 0 ∷ 0 ∷ 0 ∷ 0 ∷ 0 ∷ 0 ∷ 0 ∷ 0 ∷ []

abbrev set_flag : List ℕ → Draft → Run (Draft × Status)
set_flag value d = set_element_data registered d 354 6 (some value) 0 8

building : Unit {0}
unfolding hash_proto_attribute hash_from create_message write take_bytes is_zero_double
    is_unset_flag store_data set_element_data read_bytes read_segment get_element_data
building = tt

abbrev read_both : Run (ℕ × Option (List ℕ) × Option (List ℕ))
read_both = do
  (d, status) ← set_element_data registered empty_message 178 12 (some (10 ∷ 0 ∷ 0 ∷ 1 ∷ [])) 2 4
  (d', status') ← set_flag one d
  first ← get_element_data d' 1
  second ← get_element_data d' 2
  ok (d'.hash, first, second)

-- An address and a flag are read back, and the mask tells of both.
both_read : read_both ≡ ok (6, some (10 ∷ 0 ∷ 0 ∷ 1 ∷ []), some one)
unfolding building
both_read = refl

-- A flag that is not set leaves the message as it is.
unset_flag : set_flag zero_double empty_message ≡ ok (empty_message, msg_continue)
unfolding building
unset_flag = refl

registered_flag : hash_proto_attribute registered 354 6 ≡ ok 2
unfolding building
registered_flag = refl

set_element_data-IsAssigned_example : Ensures (set_flag one empty_message) λ (d, status).
    IsDraft registered d × IsAssigned empty_message 2 one (is_unset_flag 354 6 0 one) d status
set_element_data-IsAssigned_example =
    set_element_data-IsAssigned registered empty_message 354 6 0 2 one
      (create_message-IsDraft registered 64 (λ p. byte 7)) registered_flag (omega arith)
      (omega arith) (λ e. omega arith)
