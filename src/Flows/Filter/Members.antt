-- ===== src/Flows/Filter/Members.antt =====
-- Which numbers a filter lets through after additions and removals.
use mmt_security.Prelude.{ℕ, ◌<◌, ◌≡◌, refl, Bool, true, false, ◌&&◌, arith}
use mmt_security.Flows.Bit.{
  Bits, IsBits, no_bits-IsBits, bit_set, bit_check, bit_set-IsBits, bit_clear-IsBits,
  bit_check-bit_set, bit_check-bit_clear,
}
use mmt_security.Flows.Filter.{
  Filter32, Filter64, byte, word, filter32_add, filter32_check, filter32_rm, filter32_create,
  filter64_create, filter64_add, filter64_check, filter64_rm,
}

pub record IsFilter32 (f : Filter32) : Type 0 where
  pub data0 : IsBits f.data0
  pub data1 : IsBits f.data1
  pub data2 : IsBits f.data2
  pub data3 : IsBits f.data3

pub record IsFilter (f : Filter64) : Type 0 where
  pub low : IsFilter32 f.low
  pub high : IsFilter32 f.high

byte_small : (val i : ℕ) → byte val i < 256
byte_small val i = omega arith

bit_check-bit_set_self : (b : Bits) (i : ℕ) → IsBits b → i < 256 → bit_check (bit_set b i) i ≡ true
bit_check-bit_set_self b i h small = ground (arith, bit_check-bit_set b i i h small)

bit_check-bit_set_keeps :
    (b : Bits) (i j : ℕ)
    → IsBits b
    → i < 256
    → bit_check b j ≡ true
    → bit_check (bit_set b i) j ≡ true
bit_check-bit_set_keeps b i j h small on = ground (arith, bit_check-bit_set b i j h small)

filter32_add_self :
    (f : Filter32) (v : ℕ) → IsFilter32 f → filter32_check (filter32_add f v) v ≡ true
unfolding filter32_check filter32_add
filter32_add_self f v h =
    rw
      (
        bit_check-bit_set_self f.data0 (byte v 0) h.data0 (byte_small v 0),
        bit_check-bit_set_self f.data1 (byte v 1) h.data1 (byte_small v 1),
        bit_check-bit_set_self f.data2 (byte v 2) h.data2 (byte_small v 2),
        bit_check-bit_set_self f.data3 (byte v 3) h.data3 (byte_small v 3),
      )
      refl

and4 :
    (a b c d : Bool)
    → (a && (b && (c && d))) ≡ true
    → (a ≡ true) × (b ≡ true) × (c ≡ true) × (d ≡ true)
and4 a b c d h = ground arith

filter32_add_keeps :
    (f : Filter32) (v w : ℕ)
    → IsFilter32 f
    → filter32_check f w ≡ true
    → filter32_check (filter32_add f v) w ≡ true
unfolding filter32_check filter32_add
filter32_add_keeps f v w h on =
    let (p, q, r, s) = and4 _ _ _ _ on in
    rw
      (
        bit_check-bit_set_keeps f.data0 (byte v 0) (byte w 0) h.data0 (byte_small v 0) p,
        bit_check-bit_set_keeps f.data1 (byte v 1) (byte w 1) h.data1 (byte_small v 1) q,
        bit_check-bit_set_keeps f.data2 (byte v 2) (byte w 2) h.data2 (byte_small v 2) r,
        bit_check-bit_set_keeps f.data3 (byte v 3) (byte w 3) h.data3 (byte_small v 3) s,
      )
      refl

pub filter64_add-IsFilter : (f : Filter64) (v : ℕ) → IsFilter f → IsFilter (filter64_add f v)
unfolding filter64_add filter32_add
filter64_add-IsFilter f v h = record {
  low = added f.low (word v 0) h.low;
  high = added f.high (word v 1) h.high;
}
  where
    added : (g : Filter32) (u : ℕ) → IsFilter32 g → IsFilter32 (filter32_add g u)
    added g u k = record {
      data0 = bit_set-IsBits g.data0 (byte u 0) k.data0;
      data1 = bit_set-IsBits g.data1 (byte u 1) k.data1;
      data2 = bit_set-IsBits g.data2 (byte u 2) k.data2;
      data3 = bit_set-IsBits g.data3 (byte u 3) k.data3;
    }

pub filter64_rm-IsFilter : (f : Filter64) (v : ℕ) → IsFilter f → IsFilter (filter64_rm f v)
unfolding filter64_rm filter32_rm
filter64_rm-IsFilter f v h = record {
  low = removed f.low (word v 0) h.low;
  high = removed f.high (word v 1) h.high;
}
  where
    removed : (g : Filter32) (u : ℕ) → IsFilter32 g → IsFilter32 (filter32_rm g u)
    removed g u k = record {
      data0 = bit_clear-IsBits g.data0 (byte u 0) k.data0;
      data1 = bit_clear-IsBits g.data1 (byte u 1) k.data1;
      data2 = bit_clear-IsBits g.data2 (byte u 2) k.data2;
      data3 = bit_clear-IsBits g.data3 (byte u 3) k.data3;
    }

pub filter64_create-IsFilter : IsFilter filter64_create
unfolding filter64_create filter32_create
filter64_create-IsFilter = record {
  low = record {
    data0 = no_bits-IsBits;
    data1 = no_bits-IsBits;
    data2 = no_bits-IsBits;
    data3 = no_bits-IsBits;
  };
  high = record {
    data0 = no_bits-IsBits;
    data1 = no_bits-IsBits;
    data2 = no_bits-IsBits;
    data3 = no_bits-IsBits;
  };
}

-- A number that is added passes the filter, and a number that passes still does when another is
-- added.
pub filter64_check-filter64_add :
    (f : Filter64) (v w : ℕ)
    → IsFilter f
    → (filter64_check (filter64_add f v) v ≡ true)
      × (filter64_check f w ≡ true → filter64_check (filter64_add f v) w ≡ true)
unfolding filter64_check filter64_add
filter64_check-filter64_add f v w h = (
  rw (filter32_add_self f.low (word v 0) h.low, filter32_add_self f.high (word v 1) h.high) refl,
  λ on.
      rw
        (
          filter32_add_keeps f.low (word v 0) (word w 0) h.low (ground arith),
          filter32_add_keeps f.high (word v 1) (word w 1) h.high (ground arith),
        )
        refl,
)

filter32_rm_hides :
    (f : Filter32) (v w : ℕ)
    → IsFilter32 f
    → byte v 0 ≡ byte w 0
    → filter32_check (filter32_rm f v) w ≡ false
unfolding filter32_check filter32_rm
filter32_rm_hides f v w h e =
    rw (bit_check-bit_clear f.data0 (byte v 0) (byte w 0) h.data0 (byte_small v 0)) (ground arith)

-- Removing a number from the filter removes every number that has the same lowest byte.
pub filter64_rm_hides :
    (f : Filter64) (v w : ℕ)
    → IsFilter f
    → byte (word v 0) 0 ≡ byte (word w 0) 0
    → filter64_check (filter64_rm f v) w ≡ false
unfolding filter64_check filter64_rm
filter64_rm_hides f v w h e = rw (filter32_rm_hides f.low (word v 0) (word w 0) h.low e) refl
