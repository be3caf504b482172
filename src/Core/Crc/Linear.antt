-- ===== src/Core/Crc/Linear.antt =====
-- For the tables of crates/quantydb-core/src/crc.rs: a byte through the polynomial is linear.
use quanty_database.Prelude.{
  ℕ, zero, suc, ◌*◌, ◌/◌, ◌%◌, ◌^◌, ◌<◌, ◌≡◌, refl, sym, ap, ◌∙◌, ◌⊎◌, inl, inr, true, false,
  Bool-cases, arith, ◌==◌,
}
use quanty_database.Prelude.Bits.{
  bit_xor_comm, bit_xor_assoc, bit_xor_self, bit_xor_half, bit_xor_odd, bit_xor_swap, zero-bit_xor,
  shl, shl-bit_xor, bit_xor_lt,
}
use quanty_database.Core.Crc.{poly, step_bit, step_bits}
use Prim.Native.Nat.{bit_xor}

step_bit-even : (x : ℕ) → x % 2 ≡ 0 → step_bit x ≡ x / 2
unfolding step_bit
step_bit-even x h = let e : (x % 2 == 1) ≡ false = ground arith in rw e refl

step_bit-odd : (x : ℕ) → x % 2 ≡ 1 → step_bit x ≡ bit_xor (x / 2) poly
unfolding step_bit
step_bit-odd x h = let e : (x % 2 == 1) ≡ true = ground arith in rw e refl

digit_cases : (x : ℕ) → (x % 2 ≡ 0) ⊎ (x % 2 ≡ 1)
digit_cases x = elim (Bool-cases (x % 2 == 0)) [
  | inl e ↦ inl (ground arith)
  | inr e ↦ inr (ground arith)
]

bit_xor-zero : (a : ℕ) → bit_xor a 0 ≡ a
bit_xor-zero a = bit_xor_comm a 0 ∙ zero-bit_xor a

step_bit-bit_xor : (x y : ℕ) → step_bit (bit_xor x y) ≡ bit_xor (step_bit x) (step_bit y)
step_bit-bit_xor x y = elim (digit_cases x) [
  | inl e ↦ elim (digit_cases y) [
    | inl f ↦
        rw
          (
            step_bit-even (bit_xor x y) (omega (arith, bit_xor_odd x y)),
            step_bit-even x e,
            step_bit-even y f,
            bit_xor_half x y,
          )
          refl
    | inr f ↦
        rw
          (
            step_bit-odd (bit_xor x y) (omega (arith, bit_xor_odd x y)),
            step_bit-even x e,
            step_bit-odd y f,
            bit_xor_half x y,
          )
          (bit_xor_assoc (x / 2) (y / 2) poly)
  ]
  | inr e ↦ elim (digit_cases y) [
    | inl f ↦
        rw
          (
            step_bit-odd (bit_xor x y) (omega (arith, bit_xor_odd x y)),
            step_bit-odd x e,
            step_bit-even y f,
            bit_xor_half x y,
          )
          (bit_xor_assoc (x / 2) (y / 2) poly
            ∙ ap (λ t. bit_xor (x / 2) t) (bit_xor_comm (y / 2) poly)
            ∙ sym (bit_xor_assoc (x / 2) poly (y / 2)))
    | inr f ↦
        rw
          (
            step_bit-even (bit_xor x y) (omega (arith, bit_xor_odd x y)),
            step_bit-odd x e,
            step_bit-odd y f,
            bit_xor_half x y,
          )
          (sym (
            bit_xor_swap (x / 2) poly (y / 2) poly
            ∙ ap (λ t. bit_xor (bit_xor (x / 2) (y / 2)) t) (bit_xor_self poly)
            ∙ bit_xor-zero (bit_xor (x / 2) (y / 2))))
  ]
]

pub step_bits-bit_xor :
    (n x y : ℕ) → step_bits n (bit_xor x y) ≡ bit_xor (step_bits n x) (step_bits n y)
unfolding step_bits
step_bits-bit_xor zero x y = refl
step_bits-bit_xor (suc n) x y =
    ap (λ t. step_bits n t) (step_bit-bit_xor x y) ∙ step_bits-bit_xor n (step_bit x) (step_bit y)

-- Zeroes go through without the polynomial.
pub step_bits-shl : (k a : ℕ) → step_bits k (shl k a) ≡ a
unfolding step_bits shl
step_bits-shl zero a = refl
step_bits-shl (suc k) a =
    let half : shl k a * 2 / 2 ≡ shl k a = omega arith in
    ap (λ t. step_bits k t) (step_bit-even (shl k a * 2) (omega arith) ∙ half) ∙ step_bits-shl k a

pub shl_eight : (a : ℕ) → shl 8 a ≡ a * 256
unfolding shl
shl_eight a = omega arith

-- A number is its lowest byte and the rest.
byte_split : (x : ℕ) → bit_xor (x / 256 * 256) (x % 256) ≡ x
byte_split x =
    let meet = shl-bit_xor 8 (x / 256) (x % 256) (omega arith) in
    rw (sym (shl_eight (x / 256))) (meet ∙ omega (arith, shl_eight (x / 256)))

-- A byte more through the first table.
pub table-step_bits : (x : ℕ) → bit_xor (x / 256) (step_bits 8 (x % 256)) ≡ step_bits 8 x
table-step_bits x =
    let high : step_bits 8 (x / 256 * 256) ≡ x / 256 =
      ap (λ t. step_bits 8 t) (sym (shl_eight (x / 256))) ∙ step_bits-shl 8 (x / 256) in
    sym (
      ap (λ t. step_bits 8 t) (sym (byte_split x))
      ∙ step_bits-bit_xor 8 (x / 256 * 256) (x % 256)
      ∙ ap (λ t. bit_xor t (step_bits 8 (x % 256))) high)

pub step_bit-lt : (x : ℕ) → x < 2 ^ 32 → step_bit x < 2 ^ 32
step_bit-lt x h = elim (digit_cases x) [
  | inl e ↦ rw (step_bit-even x e) (omega arith)
  | inr e ↦ rw (step_bit-odd x e) (bit_xor_lt 32 (x / 2) poly (omega arith) (omega arith))
]
