-- ===== src/Core/Page.antt =====
-- crates/quantydb-core/src/page.rs: the header of a page, and fields in it.
pub mod Seal
use quanty_database.Prelude.{
  ℕ, ◌+◌, ◌^◌, ◌≤◌, ◌<◌, ◌≡◌, refl, ap, ◌⊎◌, inl, inr, Option, none, some, List, [], ◌∷◌, arith,
  ◌==◌, if◌then◌else◌, length,
}
use quanty_database.Prelude.Bytes.{le_bytes, from_le, length-le_bytes, from_le-le_bytes}
use quanty_database.Prelude.Result.{Result, ok, ok_or}
use quanty_database.Core.Error.{Error, corrupted}
use quanty_database.Prelude.Buffer.{
  slice, write_at, length-write_at, slice-write_at, slice-write_at_before, slice-write_at_after,
}

abbrev pub PageId : Type 0
PageId = ℕ

abbrev pub Buf : Type 0
Buf = List ℕ

abbrev pub nil_page : PageId
nil_page = 0

abbrev pub page_header_len : ℕ
page_header_len = 16

abbrev pub min_page_size : ℕ
min_page_size = 512

abbrev pub max_page_size : ℕ
max_page_size = 65536

pub data PageType : Type 0 where
  meta branch leaf overflow free_list blob commit : PageType

unfoldable pub type_byte : PageType → ℕ
type_byte meta = 0
type_byte branch = 1
type_byte leaf = 2
type_byte overflow = 3
type_byte free_list = 4
type_byte blob = 5
type_byte commit = 6

unfoldable pub type_of_byte : ℕ → Option PageType
type_of_byte v =
    if v == 0
    then some meta
    else if v == 1
    then some branch
    else if v == 2
    then some leaf
    else if v == 3
    then some overflow
    else if v == 4
    then some free_list
    else if v == 5
    then some blob
    else if v == 6
    then some commit
    else none

unfoldable pub init_header : PageType → Buf → Buf
init_header t buf =
    write_at 6 (0 ∷ 0 ∷ []) (write_at 5 (0 ∷ []) (write_at 4 (type_byte t ∷ []) buf))

unfoldable pub u8_at : ℕ → Buf → ℕ
u8_at off buf = from_le (slice off 1 buf)

unfoldable pub page_type : Buf → Result Error PageType
unfolding type_of_byte
page_type buf = ok_or (type_of_byte (u8_at 4 buf)) (corrupted none)

unfoldable pub u64_at : ℕ → Buf → ℕ
u64_at off buf = from_le (slice off 8 buf)

unfoldable pub u16_at : ℕ → Buf → ℕ
u16_at off buf = from_le (slice off 2 buf)

unfoldable pub put_u64 : ℕ → ℕ → Buf → Buf
put_u64 off v buf = write_at off (le_bytes 8 v) buf

unfoldable pub put_u16 : ℕ → ℕ → Buf → Buf
put_u16 off v buf = write_at off (le_bytes 2 v) buf

unfoldable pub zeroes : ℕ → Buf
zeroes ℕ.zero = []
zeroes (ℕ.suc n) = 0 ∷ zeroes n

pub type_of_byte-type_byte : (t : PageType) → type_of_byte (type_byte t) ≡ some t
unfolding type_of_byte type_byte
type_of_byte-type_byte meta = refl
type_of_byte-type_byte branch = refl
type_of_byte-type_byte leaf = refl
type_of_byte-type_byte overflow = refl
type_of_byte-type_byte free_list = refl
type_of_byte-type_byte blob = refl
type_of_byte-type_byte commit = refl

from_le_byte : (b : ℕ) → from_le (b ∷ []) ≡ b
unfolding from_le
from_le_byte b = omega arith

pub length-init_header : (t : PageType) (buf : Buf) → length (init_header t buf) ≡ length buf
unfolding init_header
length-init_header t buf = rw (length-write_at, length-write_at, length-write_at)

pub page_type-init_header :
    (t : PageType) (buf : Buf) → page_header_len ≤ length buf → page_type (init_header t buf) ≡ ok t
unfolding page_type init_header u8_at
page_type-init_header t buf h = rw (
  slice-write_at_before {A = ℕ} 4 1 6 (0 ∷ 0 ∷ []) _ (omega arith),
  slice-write_at_before {A = ℕ} 4 1 5 (0 ∷ []) _ (omega arith),
  slice-write_at 4 1 (type_byte t ∷ []) buf refl (omega arith),
  from_le_byte (type_byte t),
  type_of_byte-type_byte t,
)

pub length-put_u64 : (off v : ℕ) (buf : Buf) → length (put_u64 off v buf) ≡ length buf
unfolding put_u64
length-put_u64 off v buf = length-write_at off (le_bytes 8 v) buf

pub length-put_u16 : (off v : ℕ) (buf : Buf) → length (put_u16 off v buf) ≡ length buf
unfolding put_u16
length-put_u16 off v buf = length-write_at off (le_bytes 2 v) buf

pub u64_at-put_u64 :
    (off v : ℕ) (buf : Buf) → v < 2 ^ 64 → off + 8 ≤ length buf → u64_at off (put_u64 off v buf) ≡ v
unfolding u64_at put_u64
u64_at-put_u64 off v buf h fits =
    rw (slice-write_at off 8 (le_bytes 8 v) buf (length-le_bytes 8 v) fits, from_le-le_bytes 8 v h)

pub u16_at-put_u16 :
    (off v : ℕ) (buf : Buf) → v < 2 ^ 16 → off + 2 ≤ length buf → u16_at off (put_u16 off v buf) ≡ v
unfolding u16_at put_u16
u16_at-put_u16 off v buf h fits =
    rw (slice-write_at off 2 (le_bytes 2 v) buf (length-le_bytes 2 v) fits, from_le-le_bytes 2 v h)

-- A slice before or behind a field is left by a write to the field.
pub slice-put_u64 :
    (a n off v : ℕ) (buf : Buf)
    → (a + n ≤ off) ⊎ (off + 8 ≤ a)
    → slice a n (put_u64 off v buf) ≡ slice a n buf
unfolding put_u64
slice-put_u64 a n off v buf (inl h) = slice-write_at_before a n off (le_bytes 8 v) buf h
slice-put_u64 a n off v buf (inr h) =
    slice-write_at_after a n off (le_bytes 8 v) buf (omega (arith, length-le_bytes 8 v))

pub slice-put_u16 :
    (a n off v : ℕ) (buf : Buf)
    → (a + n ≤ off) ⊎ (off + 2 ≤ a)
    → slice a n (put_u16 off v buf) ≡ slice a n buf
unfolding put_u16
slice-put_u16 a n off v buf (inl h) = slice-write_at_before a n off (le_bytes 2 v) buf h
slice-put_u16 a n off v buf (inr h) =
    slice-write_at_after a n off (le_bytes 2 v) buf (omega (arith, length-le_bytes 2 v))

-- A field is what its slice says.
pub u64_at-slice :
    (off : ℕ) (a b : Buf) → slice off 8 a ≡ slice off 8 b → u64_at off a ≡ u64_at off b
unfolding u64_at
u64_at-slice off a b h = ap from_le h

pub u16_at-slice :
    (off : ℕ) (a b : Buf) → slice off 2 a ≡ slice off 2 b → u16_at off a ≡ u16_at off b
unfolding u16_at
u16_at-slice off a b h = ap from_le h

pub u64_at-put_u64_below :
    (a off v : ℕ) (buf : Buf) → a + 8 ≤ off → u64_at a (put_u64 off v buf) ≡ u64_at a buf
u64_at-put_u64_below a off v buf h = u64_at-slice a _ buf (slice-put_u64 a 8 off v buf (inl h))

pub page_type-put_u64 :
    (off v : ℕ) (buf : Buf) → page_header_len ≤ off → page_type (put_u64 off v buf) ≡ page_type buf
unfolding page_type u8_at
page_type-put_u64 off v buf h = rw (slice-put_u64 4 1 off v buf (inl (omega arith)))
