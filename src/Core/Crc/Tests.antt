-- ===== src/Core/Crc/Tests.antt =====
-- Tests: the published check value, and seventeen bytes.
use quanty_database.Prelude.{ℕ, ◌^◌, ◌<◌, ◌≡◌, refl, List, arith}
use quanty_database.Prelude.Bytes.{ascii, from_le, le_bytes, le_bytes-IsByte}
use quanty_database.Prelude.Buffer.{slice}
use quanty_database.Core.Crc.{
  step_bit, step_bits, table, word_tables, crc_block, crc_tail, crc_blocks, complement, crc32c,
  crc32c_append,
}
use quanty_database.Core.Crc.BitByBit.{bit_by_bit}
use quanty_database.Core.Crc.Blocks.{crc32c_append-bit_by_bit}

check_value : crc32c (ascii "123456789") ≡ 0xe3069283
unfolding crc32c crc32c_append crc_blocks crc_tail table step_bits step_bit
check_value = refl

fox : crc32c (ascii "The quick brown fox jumps over the lazy dog") ≡ 0x22620404
unfolding crc32c crc32c_append crc_blocks crc_block crc_tail word_tables table step_bits step_bit
    slice from_le
fox = refl

abbrev twenty : List ℕ
twenty = le_bytes 20 0x0123456789abcdef0123456789abcdef

crc32c_append-bit_by_bit_example :
    (crc32c_append 5 twenty ≡ complement (bit_by_bit (complement 5) twenty))
    × (crc32c_append 5 twenty < 2 ^ 32)
crc32c_append-bit_by_bit_example =
    crc32c_append-bit_by_bit 5 twenty (omega arith)
      (le_bytes-IsByte 20 0x0123456789abcdef0123456789abcdef)
