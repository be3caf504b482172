-- ===== src/Core/Crc.antt =====
-- crates/quantydb-core/src/crc.rs: the checksum of pages, sixteen bytes at a time. A mask of low bits
-- is a remainder, and a shift to the right a quotient.
pub mod Linear
pub mod BitByBit
pub mod Blocks
mod Tests
use quanty_database.Prelude.{
  ℕ, zero, suc, ◌+◌, ◌-◌, ◌*◌, ◌/◌, ◌%◌, ◌^◌, List, [], ◌∷◌, ◌==◌, if◌then◌else◌, length, drop,
}
use quanty_database.Prelude.Bytes.{from_le}
use quanty_database.Prelude.Buffer.{slice}
use Prim.Native.Nat.{bit_xor}

abbrev pub poly : ℕ
poly = 0x82f63b78

-- One bit through the polynomial.
unfoldable pub step_bit : ℕ → ℕ
step_bit crc = if crc % 2 == 1 then bit_xor (crc / 2) poly else crc / 2

unfoldable pub step_bits : ℕ → ℕ → ℕ
step_bits zero crc = crc
step_bits (suc n) crc = step_bits n (step_bit crc)

-- `TABLES[level][index]`, for an index below 256 and a level below 16.
unfoldable pub table : ℕ → ℕ → ℕ
table zero index = step_bits 8 index
table (suc level) index =
    let previous = table level index in bit_xor (previous / 256) (step_bits 8 (previous % 256))

-- The four tables for the bytes of a word, the lowest byte in the last of them.
unfoldable pub word_tables : ℕ → ℕ → ℕ
word_tables level w =
    bit_xor
      (bit_xor (bit_xor (table (level + 3) (w % 256)) (table (level + 2) (w / 256 % 256)))
        (table (level + 1) (w / 256 / 256 % 256)))
      (table level (w / 256 / 256 / 256 % 256))

-- A block of sixteen bytes.
unfoldable pub crc_block : ℕ → List ℕ → ℕ
crc_block crc chunk =
    bit_xor
      (bit_xor
        (bit_xor (word_tables 12 (bit_xor (from_le (slice 0 4 chunk)) crc))
          (word_tables 8 (from_le (slice 4 4 chunk))))
        (word_tables 4 (from_le (slice 8 4 chunk))))
      (word_tables 0 (from_le (slice 12 4 chunk)))

unfoldable pub crc_tail : ℕ → List ℕ → ℕ
crc_tail crc [] = crc
crc_tail crc (byte ∷ tail) = crc_tail (bit_xor (crc / 256) (table 0 (bit_xor crc byte % 256))) tail

-- The blocks that are left, then the tail.
unfoldable pub crc_blocks : ℕ → ℕ → List ℕ → ℕ
crc_blocks zero crc bytes = crc_tail crc bytes
crc_blocks (suc blocks) crc bytes =
    crc_blocks blocks (crc_block crc (slice 0 16 bytes)) (drop 16 bytes)

-- `!x` on 32 bits.
abbrev pub complement : ℕ → ℕ
complement x = 2 ^ 32 - 1 - x

unfoldable pub crc32c_append : ℕ → List ℕ → ℕ
crc32c_append previous bytes =
    complement (crc_blocks (length bytes / 16) (complement previous) bytes)

unfoldable pub crc32c : List ℕ → ℕ
crc32c bytes = crc32c_append 0 bytes
