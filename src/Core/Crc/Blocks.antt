-- ===== src/Core/Crc/Blocks.antt =====
-- For `crc32c_append` of crates/quantydb-core/src/crc.rs: blocks of sixteen bytes, and single bytes.
use quanty_database.Prelude.{
  ℕ, zero, suc, ◌+◌, ◌*◌, ◌/◌, ◌%◌, ◌^◌, ◌≤◌, ◌<◌, ◌≡◌, refl, sym, ap, ◌∙◌, List, [], ◌∷◌, ◌++◌,
  arith, All, length, take, drop, take-append-drop, length-take, length-drop, drop-drop, drop-le,
}
use quanty_database.Prelude.Bytes.{IsByte, from_le}
use quanty_database.Prelude.Buffer.{slice}
use quanty_database.Prelude.Bits.{
  bit_xor_comm, bit_xor_assoc, bit_xor_half, shl, shl-bit_xor, bit_xor_lt, zero-bit_xor,
}
use quanty_database.Core.Crc.{
  step_bit, step_bits, table, crc_block, crc_tail, crc_blocks, complement, crc32c_append, crc32c,
}
use quanty_database.Core.Crc.Linear.{
  step_bits-bit_xor, step_bits-shl, table-step_bits, shl_eight, step_bit-lt,
}
use quanty_database.Core.Crc.BitByBit.{
  bit_by_bit, advance, advance-bit_xor, advance-advance, word_tables-advance,
}
use native.Mathlib.Nat.{pow-suc}
use Prim.Native.Nat.{bit_xor}

step_bits-lt : (n x : ℕ) → x < 2 ^ 32 → step_bits n x < 2 ^ 32
unfolding step_bits
step_bits-lt zero x h = h
step_bits-lt (suc n) x h = step_bits-lt n (step_bit x) (step_bit-lt x h)

bit_by_bit-lt :
    (crc : ℕ) (bytes : List ℕ) → crc < 2 ^ 32 → All IsByte bytes → bit_by_bit crc bytes < 2 ^ 32
unfolding bit_by_bit
bit_by_bit-lt crc [] h k = h
bit_by_bit-lt crc (b ∷ bytes) h (k, ks) =
    bit_by_bit-lt (step_bits 8 (bit_xor crc b)) bytes
      (step_bits-lt 8 (bit_xor crc b) (bit_xor_lt 32 crc b h (omega arith))) ks

bit_by_bit-append :
    (crc : ℕ) (xs ys : List ℕ) → bit_by_bit crc (xs ++ ys) ≡ bit_by_bit (bit_by_bit crc xs) ys
unfolding bit_by_bit
bit_by_bit-append crc [] ys = refl
bit_by_bit-append crc (x ∷ xs) ys = bit_by_bit-append (step_bits 8 (bit_xor crc x)) xs ys

-- A byte goes into the register, with the bytes behind it as a number.
byte_in :
    (crc b r : ℕ)
    → b < 256
    → step_bits 8 (bit_xor crc (b + 256 * r)) ≡ bit_xor (step_bits 8 (bit_xor crc b)) r
byte_in crc b r h =
    let meet : b + 256 * r ≡ bit_xor b (shl 8 r) =
      omega (arith, shl_eight r, shl-bit_xor 8 r b (omega arith), bit_xor_comm b (shl 8 r)) in
    ap (λ t. step_bits 8 (bit_xor crc t)) meet
    ∙ ap (λ t. step_bits 8 t) (sym (bit_xor_assoc crc b (shl 8 r)))
    ∙ step_bits-bit_xor 8 (bit_xor crc b) (shl 8 r)
    ∙ ap (λ t. bit_xor (step_bits 8 (bit_xor crc b)) t) (step_bits-shl 8 r)

-- Some bytes at once, as a number.
bit_by_bit-advance :
    (crc : ℕ) (bytes : List ℕ)
    → All IsByte bytes
    → bit_by_bit crc bytes ≡ advance (length bytes) (bit_xor crc (from_le bytes))
unfolding bit_by_bit advance from_le
bit_by_bit-advance crc [] h = sym (bit_xor_comm crc 0 ∙ zero-bit_xor crc)
bit_by_bit-advance crc (b ∷ bytes) (h, hs) =
    bit_by_bit-advance (step_bits 8 (bit_xor crc b)) bytes hs
    ∙ ap (λ t. advance (length bytes) t) (sym (byte_in crc b (from_le bytes) h))

from_le-lt : (bytes : List ℕ) → All IsByte bytes → from_le bytes < 256 ^ length bytes
unfolding from_le
from_le-lt [] h = omega arith
from_le-lt (b ∷ bytes) (h, hs) = omega (arith, from_le-lt bytes hs, pow-suc 256 (length bytes))

take-IsByte : (n : ℕ) (bytes : List ℕ) → All IsByte bytes → All IsByte (take n bytes)
take-IsByte zero bytes h = tt
take-IsByte (suc n) [] h = tt
take-IsByte (suc n) (b ∷ bytes) (h, hs) = (h, take-IsByte n bytes hs)

drop-IsByte : (n : ℕ) (bytes : List ℕ) → All IsByte bytes → All IsByte (drop n bytes)
drop-IsByte zero bytes h = h
drop-IsByte (suc n) [] h = tt
drop-IsByte (suc n) (b ∷ bytes) (h, hs) = drop-IsByte n bytes hs

-- Four bytes, from a register.
word_in :
    (crc : ℕ) (bytes : List ℕ)
    → length bytes ≡ 4
    → All IsByte bytes
    → bit_by_bit crc bytes ≡ advance 4 (bit_xor crc (from_le bytes))
word_in crc bytes long h =
    bit_by_bit-advance crc bytes h ∙ ap (λ n. advance n (bit_xor crc (from_le bytes))) long

-- A register and a word, some zero bytes behind.
advance_word :
    (n x w : ℕ)
    → advance n (advance 4 (bit_xor x w)) ≡ bit_xor (advance (4 + n) x) (advance (4 + n) w)
advance_word n x w = advance-advance n 4 (bit_xor x w) ∙ advance-bit_xor (4 + n) x w

-- Four words, one behind the other.
four_words :
    (crc a b c d : ℕ) (t u v : ℕ)
    → t ≡ advance 4 (bit_xor crc a)
    → u ≡ advance 4 (bit_xor t b)
    → v ≡ advance 4 (bit_xor u c)
    → advance 4 (bit_xor v d)
      ≡ bit_xor
          (bit_xor (bit_xor (advance 16 (bit_xor crc a)) (advance 12 b)) (advance 8 c))
          (advance 4 d)
four_words crc a b c d t u v e f g =
    let third = ap (λ x. advance 12 x) e ∙ advance-advance 12 4 (bit_xor crc a) in
    let second =
      ap (λ x. advance 8 x) f ∙ advance_word 8 t b ∙ ap (λ x. bit_xor x (advance 12 b)) third in
    let first =
      ap (λ x. advance 4 x) g ∙ advance_word 4 u c ∙ ap (λ x. bit_xor x (advance 8 c)) second in
    advance-bit_xor 4 v d ∙ ap (λ x. bit_xor x (advance 4 d)) first

split_at :
    (n crc : ℕ) (bytes : List ℕ)
    → bit_by_bit crc bytes ≡ bit_by_bit (bit_by_bit crc (take n bytes)) (drop n bytes)
split_at n crc bytes =
    ap (λ t. bit_by_bit crc t) (sym (take-append-drop n bytes))
    ∙ bit_by_bit-append crc (take n bytes) (drop n bytes)

word_lt : (bytes : List ℕ) → length bytes ≡ 4 → All IsByte bytes → from_le bytes < 2 ^ 32
word_lt bytes e h =
    let power : 256 ^ length bytes ≡ 256 ^ 4 = ap (λ n. 256 ^ n) e in
    omega (arith, from_le-lt bytes h, power)

-- The next word of a block.
next_word :
    (at crc : ℕ) (chunk : List ℕ)
    → at + 4 ≤ length chunk
    → All IsByte chunk
    → (bit_by_bit crc (drop at chunk)
        ≡ bit_by_bit (advance 4 (bit_xor crc (from_le (slice at 4 chunk)))) (drop (at + 4) chunk))
      × (from_le (slice at 4 chunk) < 2 ^ 32)
unfolding slice
next_word at crc chunk h k =
    let left = length-drop at chunk in
    let long = length-take 4 (drop at chunk) (omega arith) in
    let word = take-IsByte 4 (drop at chunk) (drop-IsByte at chunk k) in
    (
      split_at 4 crc (drop at chunk)
          ∙ ap (λ t. bit_by_bit (bit_by_bit crc (take 4 (drop at chunk))) t)
              (sym (drop-drop at 4 chunk))
          ∙ ap (λ t. bit_by_bit t (drop (at + 4) chunk))
              (word_in crc (take 4 (drop at chunk)) long word),
      word_lt (take 4 (drop at chunk)) long word,
    )

-- A block by the tables.
crc_block-bit_by_bit :
    (crc : ℕ) (chunk : List ℕ)
    → crc < 2 ^ 32
    → length chunk ≡ 16
    → All IsByte chunk
    → crc_block crc chunk ≡ bit_by_bit crc chunk
unfolding crc_block
crc_block-bit_by_bit crc chunk h long k =
    let a = from_le (slice 0 4 chunk) in
    let b = from_le (slice 4 4 chunk) in
    let c = from_le (slice 8 4 chunk) in
    let d = from_le (slice 12 4 chunk) in
    let t = advance 4 (bit_xor crc a) in
    let u = advance 4 (bit_xor t b) in
    let v = advance 4 (bit_xor u c) in
    let (first, a_lt) = next_word 0 crc chunk (omega arith) k in
    let (second, b_lt) = next_word 4 t chunk (omega arith) k in
    let (third, c_lt) = next_word 8 u chunk (omega arith) k in
    let (fourth, d_lt) = next_word 12 v chunk (omega arith) k in
    let rest = ap (λ x. bit_by_bit (advance 4 (bit_xor v d)) x) (drop-le 16 chunk (omega arith)) in
    let swapped : bit_xor a crc ≡ bit_xor crc a = bit_xor_comm a crc in
    rw
      (
        swapped,
        word_tables-advance 12 (bit_xor crc a) (bit_xor_lt 32 crc a h a_lt),
        word_tables-advance 8 b b_lt,
        word_tables-advance 4 c c_lt,
        word_tables-advance 0 d d_lt,
      )
      (sym (
        first
        ∙ second
        ∙ third
        ∙ fourth
        ∙ rest
        ∙ (unfold bit_by_bit in four_words crc a b c d t u v refl refl refl)))

-- A shift to the right, one bit after the other.
unfoldable shr : ℕ → ℕ → ℕ
shr zero a = a
shr (suc k) a = shr k (a / 2)

shr-bit_xor : (k a b : ℕ) → shr k (bit_xor a b) ≡ bit_xor (shr k a) (shr k b)
unfolding shr
shr-bit_xor zero a b = refl
shr-bit_xor (suc k) a b = ap (λ t. shr k t) (bit_xor_half a b) ∙ shr-bit_xor k (a / 2) (b / 2)

shr_eight : (a : ℕ) → shr 8 a ≡ a / 256
unfolding shr
shr_eight a = omega arith

-- A byte does not reach the higher bytes of the register.
quotient-bit_xor : (crc b : ℕ) → b < 256 → bit_xor crc b / 256 ≡ crc / 256
quotient-bit_xor crc b h =
    let none_left : b / 256 ≡ 0 = omega arith in
    sym (shr_eight (bit_xor crc b))
    ∙ shr-bit_xor 8 crc b
    ∙ (rw (shr_eight crc, shr_eight b, none_left)
        (bit_xor_comm (crc / 256) 0 ∙ zero-bit_xor (crc / 256)))

crc_tail-bit_by_bit :
    (crc : ℕ) (bytes : List ℕ) → All IsByte bytes → crc_tail crc bytes ≡ bit_by_bit crc bytes
unfolding crc_tail bit_by_bit
crc_tail-bit_by_bit crc [] h = refl
crc_tail-bit_by_bit crc (b ∷ bytes) (h, hs) =
    let one : bit_xor (crc / 256) (table 0 (bit_xor crc b % 256)) ≡ step_bits 8 (bit_xor crc b) =
      ap (λ t. bit_xor t (table 0 (bit_xor crc b % 256))) (sym (quotient-bit_xor crc b h))
      ∙ (unfold table in table-step_bits (bit_xor crc b)) in
    ap (λ t. crc_tail t bytes) one ∙ crc_tail-bit_by_bit (step_bits 8 (bit_xor crc b)) bytes hs

crc_blocks-bit_by_bit :
    (blocks crc : ℕ) (bytes : List ℕ)
    → blocks * 16 ≤ length bytes
    → crc < 2 ^ 32
    → All IsByte bytes
    → crc_blocks blocks crc bytes ≡ bit_by_bit crc bytes
unfolding crc_blocks
crc_blocks-bit_by_bit zero crc bytes enough h k = crc_tail-bit_by_bit crc bytes k
crc_blocks-bit_by_bit (suc blocks) crc bytes enough h k =
    let chunk = take 16 bytes in
    let chunk_bytes = take-IsByte 16 bytes k in
    let block = crc_block-bit_by_bit crc chunk h (length-take 16 bytes (omega arith)) chunk_bytes in
    let first : crc_block crc (slice 0 16 bytes) ≡ bit_by_bit crc chunk = unfold slice in block in
    ap (λ t. crc_blocks blocks t (drop 16 bytes)) first
    ∙ crc_blocks-bit_by_bit blocks (bit_by_bit crc chunk) (drop 16 bytes)
        (omega (arith, length-drop 16 bytes)) (bit_by_bit-lt crc chunk h chunk_bytes)
        (drop-IsByte 16 bytes k)
    ∙ sym (split_at 16 crc bytes)

-- The sixteen tables compute the checksum as its polynomial defines it: each byte into the register, and
-- the register bit by bit through the polynomial, with the register complemented before and behind. The
-- result has 32 bits. Conditions: the bytes are bytes, and the checksum so far has 32 bits.
pub crc32c_append-bit_by_bit :
    (previous : ℕ) (bytes : List ℕ)
    → previous < 2 ^ 32
    → All IsByte bytes
    → (crc32c_append previous bytes ≡ complement (bit_by_bit (complement previous) bytes))
      × (crc32c_append previous bytes < 2 ^ 32)
unfolding crc32c_append
crc32c_append-bit_by_bit previous bytes h k =
    let same =
      crc_blocks-bit_by_bit (length bytes / 16) (complement previous) bytes (omega arith)
        (omega arith) k in
    (ap (λ t. complement t) same, omega arith)

-- Whatever it is taken of, the checksum has 32 bits.
pub crc32c_lt : (bytes : List ℕ) → crc32c bytes < 2 ^ 32
unfolding crc32c crc32c_append
crc32c_lt bytes = omega arith
