-- ===== src/Message.antt =====
-- The messages that rules are verified against (src/lib/message_t.h).
use mmt_security.Prelude.{ℕ, Option, List}

-- `message_element_t`. `content` is the segment behind `data`, `none` for a null pointer.
pub record Element : Type 0 where
  pub proto_id : ℕ
  pub att_id : ℕ
  pub data_type : ℕ
  pub content : Option (List ℕ)

-- `message_t` without the buffer that its elements point into and without `user_data`.
-- A message is passed by reference and not changed once it is given to the library, so that a
-- trace may hold it by value; the counts of references are not modelled.
pub record Message : Type 0 where
  pub counter : ℕ
  pub timestamp : ℕ
  pub flow_id : ℕ
  pub elements : List Element
  pub hash : ℕ
