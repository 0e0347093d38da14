-- ===== src/Flows.antt =====
-- The set of the flows whose messages are ignored, and what it is made of: a table with open
-- addressing, a ring of the slots in their order of use, and a filter of bytes
-- (src/lib/mmt_set_uint64.h, mmt_set.h, mmt_ring.h, mmt_filter.h, mmt_bit.h).
pub mod Bit
pub mod Filter
pub mod Ring
pub mod Queue
pub mod Table
pub mod FlowSet
