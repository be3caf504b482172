-- ===== src/Core/Crc/BitByBit.antt =====
-- For `crc32c_append` of crates/quantydb-core/src/crc.rs: the tables, and the definition bit by bit.
use quanty_database.Prelude.{
  ℕ, zero, suc, ◌+◌, ◌/◌, ◌%◌, ◌^◌, ◌<◌, ◌≡◌, refl, sym, ap, ◌∙◌, List, [], ◌∷◌, arith,
}
use quanty_database.Prelude.Bits.{bit_xor_comm, bit_xor_assoc}
use quanty_database.Core.Crc.{step_bits, table, word_tables}
use quanty_database.Core.Crc.Linear.{step_bits-bit_xor, table-step_bits}
use Prim.Native.Nat.{bit_xor}

-- The definition: each byte goes into the register, and then bit by bit through the polynomial.
unfoldable pub bit_by_bit : ℕ → List ℕ → ℕ
bit_by_bit crc [] = crc
bit_by_bit crc (byte ∷ bytes) = bit_by_bit (step_bits 8 (bit_xor crc byte)) bytes

-- As many zero bytes.
unfoldable pub advance : ℕ → ℕ → ℕ
advance zero x = x
advance (suc n) x = advance n (step_bits 8 x)

pub advance-bit_xor : (n x y : ℕ) → advance n (bit_xor x y) ≡ bit_xor (advance n x) (advance n y)
unfolding advance
advance-bit_xor zero x y = refl
advance-bit_xor (suc n) x y =
    ap (λ t. advance n t) (step_bits-bit_xor 8 x y)
    ∙ advance-bit_xor n (step_bits 8 x) (step_bits 8 y)

pub advance-advance : (m n x : ℕ) → advance m (advance n x) ≡ advance (n + m) x
unfolding advance
advance-advance m zero x = let e : zero + m ≡ m = omega arith in rw e refl
advance-advance m (suc n) x =
    let e : suc n + m ≡ suc (n + m) = omega arith in rw e (advance-advance m n (step_bits 8 x))

step_bits-advance : (n x : ℕ) → step_bits 8 (advance n x) ≡ advance (suc n) x
unfolding advance
step_bits-advance zero x = refl
step_bits-advance (suc n) x = step_bits-advance n (step_bits 8 x)

pub table-advance : (level index : ℕ) → table level index ≡ advance (suc level) index
unfolding table
table-advance zero index = unfold advance in refl
table-advance (suc level) index =
    let p = table level index in
    table-step_bits p
    ∙ ap (λ t. step_bits 8 t) (table-advance level index)
    ∙ step_bits-advance (suc level) index

-- The lowest byte is taken off.
advance_peel :
    (n x : ℕ) → advance (suc n) x ≡ bit_xor (advance n (x / 256)) (advance (suc n) (x % 256))
unfolding advance
advance_peel n x =
    ap (λ t. advance n t) (sym (table-step_bits x))
    ∙ advance-bit_xor n (x / 256) (step_bits 8 (x % 256))

reverse_four :
    (a b c d : ℕ) → bit_xor (bit_xor (bit_xor a b) c) d ≡ bit_xor (bit_xor (bit_xor d c) b) a
reverse_four a b c d =
    bit_xor_comm (bit_xor (bit_xor a b) c) d
    ∙ ap (λ t. bit_xor d t)
        (bit_xor_comm (bit_xor a b) c
          ∙ ap (λ t. bit_xor c t) (bit_xor_comm a b)
          ∙ sym (bit_xor_assoc c b a))
    ∙ sym (bit_xor_assoc d (bit_xor c b) a)
    ∙ ap (λ t. bit_xor t a) (sym (bit_xor_assoc d c b))

-- The tables of a word.
pub word_tables-advance : (level w : ℕ) → w < 2 ^ 32 → word_tables level w ≡ advance (level + 4) w
unfolding word_tables
word_tables-advance level w h =
    let q = w / 256 in
    let r = w / 256 / 256 in
    let s = w / 256 / 256 / 256 in
    let top : s % 256 ≡ s = omega arith in
    let one : level + 2 ≡ suc (level + 1) = omega arith in
    let two : level + 3 ≡ suc (level + 2) = omega arith in
    let three : level + 4 ≡ suc (level + 3) = omega arith in
    let zero_up : level + 1 ≡ suc level = omega arith in
    let low = ap (λ n. advance n w) three ∙ advance_peel (level + 3) w in
    let mid = ap (λ n. advance n q) two ∙ advance_peel (level + 2) q in
    let high = ap (λ n. advance n r) one ∙ advance_peel (level + 1) r in
    let tables : bit_xor
          (bit_xor (bit_xor (table (level + 3) (w % 256)) (table (level + 2) (q % 256)))
            (table (level + 1) (r % 256)))
          (table level (s % 256))
        ≡ bit_xor
            (bit_xor
              (bit_xor (advance (suc (level + 3)) (w % 256)) (advance (suc (level + 2)) (q % 256)))
              (advance (suc (level + 1)) (r % 256)))
            (advance (level + 1) s) =
      rw
        (
          table-advance (level + 3) (w % 256),
          table-advance (level + 2) (q % 256),
          table-advance (level + 1) (r % 256),
          table-advance level (s % 256),
          top,
          zero_up,
        )
        refl in
    tables
    ∙ reverse_four (advance (suc (level + 3)) (w % 256)) (advance (suc (level + 2)) (q % 256))
        (advance (suc (level + 1)) (r % 256)) (advance (level + 1) s)
    ∙ sym (
        low
        ∙ ap (λ t. bit_xor t (advance (suc (level + 3)) (w % 256)))
            (mid ∙ ap (λ t. bit_xor t (advance (suc (level + 2)) (q % 256))) high))
