-- ===== src/Utils.antt =====
-- Small routines of src/lib/mmt_utils.h.
pub mod Codes
pub mod Search
pub mod Masks
pub mod Sorting
pub mod BinarySearch
