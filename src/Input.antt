-- ===== src/Input.antt =====
-- The building of messages (src/lib/message_t.c).
pub mod Cells
pub mod Stored
pub mod Reading
use mmt_security.Prelude.{
  ℕ, zero, suc, ◌+◌, ◌-◌, ◌*◌, ◌^◌, ◌==◌, Option, none, some, List, [], ◌∷◌, ◌++◌, Bool, true,
  false, not, ◌&&◌, ◌||◌, if◌then◌else◌, ltb, leb, length, replicate, set, Run, ok, fault, wild,
  ◌>>=◌, at,
}
use mmt_security.Prelude.Bits.{u32, u64}
use mmt_security.Rule.{ProtoAttribute, bit_set}
use mmt_security.Attribute.{hash_proto_attribute}

-- A byte of the buffer `_data`. The header `mmt_memory_t` of a segment takes 16 bytes: the first tells
-- the size, and the others are not told apart.
pub data Cell : Type 0 where
  byte : ℕ → Cell
  header : ℕ → Cell
  within_header : Cell

-- `message_element_t`; `content`, the pointer `data`, is a position in the buffer, `none` the null pointer.
pub record Slot : Type 0 where
  pub proto_id : ℕ
  pub att_id : ℕ
  pub data_type : ℕ
  pub content : Option ℕ

-- `message_t` while it is built; the length of `elements` is `elements_count`.
pub record Draft : Type 0 where
  pub elements : List Slot
  pub hash : ℕ
  pub buffer : ℕ → Cell
  pub data_index : ℕ
  pub data_length : ℕ

-- `MSG_CONTINUE`, `MSG_OVERFLOW`
pub data Status : Type 0 where
  msg_continue msg_overflow : Status

-- `SIZE_OF_MMT_MEMORY_T`
abbrev pub size_of_memory : ℕ
size_of_memory = 16

-- `create_message_t`, of which `buffer` is what its memory holds.
unfoldable pub create_message : List ProtoAttribute → ℕ → (ℕ → Cell) → Draft
create_message registered max_message_size buffer = record {
  elements =
      replicate (length registered)
        (record { proto_id = 0; att_id = 0; data_type = 0; content = none });
  hash = 0;
  buffer = buffer;
  data_index = 0;
  data_length = u32 (max_message_size + length registered * size_of_memory);
}

-- The cells are written from position `p` on.
unfoldable pub write : (ℕ → Cell) → ℕ → List Cell → ℕ → Cell
write buffer p [] = buffer
write buffer p (c ∷ cs) = write (λ q. if q == p then c else buffer q) (p + 1) cs

-- The first `n` bytes of what is read.
unfoldable pub take_bytes : ℕ → List ℕ → Run (List ℕ)
take_bytes zero bytes = ok []
take_bytes (suc n) [] = fault wild
take_bytes (suc n) (b ∷ bytes) = do rest ← take_bytes n bytes; ok (b ∷ rest)

-- `*(double *) data == 0` on a little-endian machine: all bits but that of the sign are 0.
unfoldable pub is_zero_double : List ℕ → Run Bool
is_zero_double bytes = do eight ← take_bytes 8 bytes; ok (is_zero 7 eight)
  where
    is_zero : ℕ → List ℕ → Bool
    is_zero n [] = true
    is_zero zero (b ∷ bs) = b == 0 || b == 128
    is_zero (suc n) (b ∷ bs) = b == 0 && is_zero n bs

-- A flag of TCP that is not set is passed over.
unfoldable pub is_unset_flag : ℕ → ℕ → ℕ → List ℕ → Run Bool
is_unset_flag proto_id att_id data_type bytes =
    if not (proto_id == 354 && data_type == 0)
    then ok false
    else do z ← is_zero_double bytes; ok (z && leb 6 att_id && leb att_id 14)

abbrev pub byte_cells : List ℕ → List Cell
byte_cells [] = []
byte_cells (b ∷ bytes) = byte b ∷ byte_cells bytes

-- The header of a segment, its bytes and the one behind them.
abbrev pub segment : List ℕ → List Cell
segment bytes =
    header (length bytes) ∷ replicate 15 within_header ++ (byte_cells bytes ++ byte 0 ∷ [])

-- The end of `set_element_data_message_t`, once the index is known.
unfoldable pub store_data : Draft → ℕ → ℕ → ℕ → List ℕ → ℕ → ℕ → Run Draft
store_data d index proto_id att_id bytes data_type data_length = do
  element ← at d.elements index
  copied ← take_bytes data_length bytes
  let next = d.data_index + data_length + size_of_memory + 1
  let slot : Slot = record {
    proto_id = proto_id;
    att_id = att_id;
    data_type = data_type;
    content = some (d.data_index + size_of_memory);
  }
  if ltb d.data_length next
      then fault wild
      else ok (record d {
        elements = set d.elements index slot;
        hash = bit_set d.hash index;
        buffer = write d.buffer d.data_index (segment copied);
        data_index = u32 next;
      })

-- `set_element_data_message_t`; `content` is what the pointer leads to, of which `data_length` bytes are
-- meant.
unfoldable pub set_element_data :
    List ProtoAttribute → Draft → ℕ → ℕ → Option (List ℕ) → ℕ → ℕ → Run (Draft × Status)
set_element_data registered d proto_id att_id content data_type data_length =
    if not (ltb (u64 (d.data_index + data_length + size_of_memory + 1)) d.data_length)
    then ok (d, msg_overflow)
    else elim content [
      | none ↦ ok (d, msg_continue)
      | some bytes ↦ if data_length == 0 then ok (d, msg_continue) else do
        unset ← is_unset_flag proto_id att_id data_type bytes
        if unset then ok (d, msg_continue) else do
          index ← hash_proto_attribute registered proto_id att_id
          d' ← store_data d index proto_id att_id bytes data_type data_length
          ok (d', msg_continue)
    ]

abbrev pub read_byte : Cell → Run ℕ
read_byte (byte b) = ok b
read_byte (header size) = fault wild
read_byte within_header = fault wild

abbrev pub read_size : Cell → Run ℕ
read_size (header size) = ok size
read_size (byte b) = fault wild
read_size within_header = fault wild

unfoldable pub read_bytes : (ℕ → Cell) → ℕ → ℕ → Run (List ℕ)
read_bytes buffer p zero = ok []
read_bytes buffer p (suc n) = do
  b ← read_byte (buffer p)
  rest ← read_bytes buffer (p + 1) n
  ok (b ∷ rest)

-- `mmt_mem_size` and the bytes of the segment that a data pointer leads to
unfoldable pub read_segment : (ℕ → Cell) → ℕ → Run (List ℕ)
read_segment buffer p = do size ← read_size (buffer (p - size_of_memory)); read_bytes buffer p size

-- `get_element_data_message_t`, with what the pointer leads to
unfoldable pub get_element_data : Draft → ℕ → Run (Option (List ℕ))
get_element_data d index = do
  element ← at d.elements index
  elim element.content [
    | none ↦ ok none
    | some p ↦ do bytes ← read_segment d.buffer p; ok (some bytes)
  ]
