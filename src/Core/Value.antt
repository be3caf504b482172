-- ===== src/Core/Value.antt =====
-- The values of crates/quantydb-core/src/encoding.rs. An `i64` is an integer in range, an `f64` is
-- its bit pattern, and text is its bytes, which are UTF-8.
use quanty_database.Prelude.{
  ℕ, ◌+◌, ◌-◌, ◌^◌, ◌<◌, ◌%◌, ◌≡◌, Bool, true, List, ltb, if◌then◌else◌, All, arith,
}
use quanty_database.Prelude.Int.{ℤ, pos, negsuc}
use quanty_database.Prelude.Bytes.{IsByte, IsU64, is_utf8}

pub data Value : Type 0 where
  null : Value
  bool : Bool → Value
  int : ℤ → Value
  float : ℕ → Value
  text : List ℕ → Value
  bytes : List ℕ → Value

abbrev pub IsI64 : ℤ → Type 0
IsI64 (pos n) = n < 2 ^ 63
IsI64 (negsuc n) = n < 2 ^ 63

-- What the types of the fields promise: ranges, and that text is UTF-8.
abbrev pub IsValue : Value → Type 0
IsValue null = Unit
IsValue (bool b) = Unit
IsValue (int i) = IsI64 i
IsValue (float f) = IsU64 f
IsValue (text s) = All IsByte s × (is_utf8 s ≡ true)
IsValue (bytes b) = All IsByte b

-- `i as u64` and `w as i64`.
unfoldable pub as_u64 : ℤ → ℕ
as_u64 (pos n) = n
as_u64 (negsuc n) = 2 ^ 64 - (n + 1)

unfoldable pub as_i64 : ℕ → ℤ
as_i64 w = if ltb w (2 ^ 63) then pos w else negsuc (2 ^ 64 - (w + 1))

pub as_u64-IsU64 : (i : ℤ) → IsI64 i → IsU64 (as_u64 i)
unfolding as_u64
as_u64-IsU64 (pos n) h = omega arith
as_u64-IsU64 (negsuc n) h = omega arith

pub as_i64-as_u64 : (i : ℤ) → IsI64 i → as_i64 (as_u64 i) ≡ i
unfolding as_u64 as_i64
as_i64-as_u64 (pos n) h = ground arith
as_i64-as_u64 (negsuc n) h = ground arith

-- `w ^ (1 << 63)`: flipping the top bit adds 2 ^ 63 modulo 2 ^ 64.
abbrev pub flip_sign : ℕ → ℕ
flip_sign w = (w + 2 ^ 63) % 2 ^ 64

-- `!w`
abbrev pub invert : ℕ → ℕ
invert w = 2 ^ 64 - 1 - w
