-- ===== src/Flows/Filter.antt =====
-- A filter of numbers by their bytes (src/lib/mmt_filter.h), on a little-endian machine.
pub mod Members
use mmt_security.Prelude.{ℕ, ◌*◌, ◌/◌, ◌%◌, ◌^◌, Bool, ◌&&◌}
use mmt_security.Flows.Bit.{Bits, no_bits, bit_set, bit_clear, bit_check}

-- The byte `i` of a number, as the pointer to bytes reads it.
abbrev pub byte : ℕ → ℕ → ℕ
byte val i = val / 2 ^ (8 * i) % 256

-- The word `i` of a number of 64 bits.
abbrev pub word : ℕ → ℕ → ℕ
word val i = val / 2 ^ (32 * i) % 2 ^ 32

-- `mmt_filter32_t`: one set of bytes for each of the four bytes
pub record Filter32 : Type 0 where
  pub data0 : Bits
  pub data1 : Bits
  pub data2 : Bits
  pub data3 : Bits

unfoldable pub filter32_create : Filter32
filter32_create = record { data0 = no_bits; data1 = no_bits; data2 = no_bits; data3 = no_bits }

unfoldable pub filter32_add : Filter32 → ℕ → Filter32
filter32_add f val = record {
  data0 = bit_set f.data0 (byte val 0);
  data1 = bit_set f.data1 (byte val 1);
  data2 = bit_set f.data2 (byte val 2);
  data3 = bit_set f.data3 (byte val 3);
}

unfoldable pub filter32_check : Filter32 → ℕ → Bool
filter32_check f val =
    bit_check f.data0 (byte val 0)
    && (bit_check f.data1 (byte val 1)
        && (bit_check f.data2 (byte val 2) && bit_check f.data3 (byte val 3)))

unfoldable pub filter32_rm : Filter32 → ℕ → Filter32
filter32_rm f val = record {
  data0 = bit_clear f.data0 (byte val 0);
  data1 = bit_clear f.data1 (byte val 1);
  data2 = bit_clear f.data2 (byte val 2);
  data3 = bit_clear f.data3 (byte val 3);
}

-- `mmt_filter64_t`
pub record Filter64 : Type 0 where
  pub low : Filter32
  pub high : Filter32

unfoldable pub filter64_create : Filter64
filter64_create = record { low = filter32_create; high = filter32_create }

unfoldable pub filter64_add : Filter64 → ℕ → Filter64
filter64_add f val = record {
  low = filter32_add f.low (word val 0);
  high = filter32_add f.high (word val 1);
}

unfoldable pub filter64_check : Filter64 → ℕ → Bool
filter64_check f val = filter32_check f.low (word val 0) && filter32_check f.high (word val 1)

unfoldable pub filter64_rm : Filter64 → ℕ → Filter64
filter64_rm f val = record {
  low = filter32_rm f.low (word val 0);
  high = filter32_rm f.high (word val 1);
}
