-- ===== src/Prelude/Bytes.antt =====
-- Byte sequences as lists of numbers: fixed-width integers in both byte orders, the order that
-- `[u8]` has in Rust, and the test that `String::from_utf8` makes.
use Prim.Native.Nat.{ℕ, zero, suc, ◌+◌, ◌*◌, ◌/◌, ◌%◌, ◌^◌, ◌≤◌, ◌<◌, compare, Ordering}
use Prim.Native.Nat.Ordering.{lt, eq, gt}
use Prim.Native.Char.{code}
use Prim.Native.String.{String}
use mathlib.Core.Path.{◌≡◌, refl, ap}
use mathlib.Core.Bool.{Bool, true, false, ◌&&◌}
use mathlib.Core.Option.{Option, none, some}
use mathlib.Core.List.{List, [], ◌∷◌, ◌++◌}
use native.Mathlib.Nat.{
  pow-zero, pow-suc, one-le-pow, div-add-mod, mod-lt, mod-eq_of_lt, div-lt_iff_lt-mul,
}
use native.Mathlib.Omega.{arith}
use quanty_database.Prelude.Tests.{lt→ltb, ltb, leb, ◌==◌, if◌then◌else◌}
use quanty_database.Prelude.Lists.{length, All}

abbrev pub IsByte : ℕ → Type 0
IsByte b = b < 256

abbrev pub IsU64 : ℕ → Type 0
IsU64 v = v < 2 ^ 64

abbrev pub IsU32 : ℕ → Type 0
IsU32 v = v < 2 ^ 32

-- `to_le_bytes` of an integer of `k` bytes.
unfoldable pub le_bytes : ℕ → ℕ → List ℕ
le_bytes zero v = []
le_bytes (suc k) v = (v % 256) ∷ le_bytes k (v / 256)

-- `from_le_bytes`.
unfoldable pub from_le : List ℕ → ℕ
from_le [] = 0
from_le (b ∷ bs) = b + 256 * from_le bs

pub length-le_bytes : (k v : ℕ) → length (le_bytes k v) ≡ k
unfolding le_bytes
length-le_bytes zero v = refl
length-le_bytes (suc k) v = omega (arith, length-le_bytes k (v / 256))

pub le_bytes-IsByte : (k v : ℕ) → All IsByte (le_bytes k v)
unfolding le_bytes
le_bytes-IsByte zero v = tt
le_bytes-IsByte (suc k) v = (omega arith, le_bytes-IsByte k (v / 256))

pub from_le-le_bytes : (k v : ℕ) → v < 256 ^ k → from_le (le_bytes k v) ≡ v
unfolding le_bytes from_le
from_le-le_bytes zero v h = omega arith
from_le-le_bytes (suc k) v h =
    omega (arith, from_le-le_bytes k (v / 256) (omega (arith, pow-suc 256 k)))

-- `to_be_bytes` of an integer of `k` bytes.
unfoldable pub be_bytes : ℕ → ℕ → List ℕ
be_bytes zero v = []
be_bytes (suc k) v = (v / 256 ^ k % 256) ∷ be_bytes k (v % 256 ^ k)

-- `Ordering::then`: the second order decides where the first is a tie.
abbrev pub then_cmp : Ordering → Ordering → Ordering
then_cmp lt o = lt
then_cmp eq o = o
then_cmp gt o = gt

-- How `[u8]` compares: the first difference, then the length.
unfoldable pub bytes_cmp : List ℕ → List ℕ → Ordering
bytes_cmp [] [] = eq
bytes_cmp [] (y ∷ ys) = lt
bytes_cmp (x ∷ xs) [] = gt
bytes_cmp (x ∷ xs) (y ∷ ys) = then_cmp (compare x y) (bytes_cmp xs ys)

mul_mono : (x y p : ℕ) → x < y → p * x + p ≤ p * y
mul_mono x y p h = grind arith

split_compare :
    (p a b : ℕ) → 0 < p → compare a b ≡ then_cmp (compare (a / p) (b / p)) (compare (a % p) (b % p))
split_compare p a b h = ground (
  arith,
  div-add-mod a p,
  div-add-mod b p,
  mod-lt a h,
  mod-lt b h,
  mul_mono (a / p) (b / p) p,
  mul_mono (b / p) (a / p) p,
)

then_cmp_assoc : (a b c : Ordering) → then_cmp a (then_cmp b c) ≡ then_cmp (then_cmp a b) c
then_cmp_assoc lt b c = refl
then_cmp_assoc eq b c = refl
then_cmp_assoc gt b c = refl

pow256_pos : (k : ℕ) → 0 < 256 ^ k
pow256_pos k = one-le-pow k 256 (omega arith)

top_byte : (k v : ℕ) → v < 256 ^ suc k → v / 256 ^ k % 256 ≡ v / 256 ^ k
top_byte k v h = mod-eq_of_lt ((div-lt_iff_lt-mul (pow256_pos k)).1 (omega (arith, pow-suc 256 k)))

-- Big endian keeps the order.
pub bytes_cmp-be_bytes :
    (k a b : ℕ) (r s : List ℕ)
    → a < 256 ^ k
    → b < 256 ^ k
    → bytes_cmp (be_bytes k a ++ r) (be_bytes k b ++ s) ≡ then_cmp (compare a b) (bytes_cmp r s)
unfolding be_bytes bytes_cmp
bytes_cmp-be_bytes zero a b r s ha hb = ground (arith, pow-zero 256)
bytes_cmp-be_bytes (suc k) a b r s ha hb =
    rw
      (
        top_byte k a ha,
        top_byte k b hb,
        bytes_cmp-be_bytes k (a % 256 ^ k) (b % 256 ^ k) r s (mod-lt a (pow256_pos k))
            (mod-lt b (pow256_pos k)),
        split_compare (256 ^ k) a b (pow256_pos k),
      )
      (then_cmp_assoc (compare (a / 256 ^ k) (b / 256 ^ k)) (compare (a % 256 ^ k) (b % 256 ^ k))
        (bytes_cmp r s))

pub length-be_bytes : (k v : ℕ) → length (be_bytes k v) ≡ k
unfolding be_bytes
length-be_bytes zero v = refl
length-be_bytes (suc k) v = omega (arith, length-be_bytes k (v % 256 ^ k))

-- `from_be_bytes`, the bytes read so far in front.
unfoldable pub from_be : ℕ → List ℕ → ℕ
from_be acc [] = acc
from_be acc (b ∷ bs) = from_be (acc * 256 + b) bs

from_be_step :
    (acc k v : ℕ) → (acc * 256 + v / 256 ^ k) * 256 ^ k + v % 256 ^ k ≡ acc * 256 ^ suc k + v
from_be_step acc k v =
    omega (arith, ap (λ (t : ℕ). acc * t) (pow-suc 256 k), div-add-mod v (256 ^ k))

pub from_be-be_bytes : (k acc v : ℕ) → v < 256 ^ k → from_be acc (be_bytes k v) ≡ acc * 256 ^ k + v
unfolding from_be be_bytes
from_be-be_bytes zero acc v h = omega (arith, pow-zero 256)
from_be-be_bytes (suc k) acc v h =
    rw
      (
        top_byte k v h,
        from_be-be_bytes k (acc * 256 + v / 256 ^ k) (v % 256 ^ k) (mod-lt v (pow256_pos k)),
      )
      (from_be_step acc k v)

pub bytes_cmp_refl : (xs : List ℕ) → bytes_cmp xs xs ≡ eq
unfolding bytes_cmp
bytes_cmp_refl [] = refl
bytes_cmp_refl (x ∷ xs) = ground (arith, bytes_cmp_refl xs)

-- Only equal sequences compare as equal.
pub eq_of_bytes_cmp : (xs ys : List ℕ) → bytes_cmp xs ys ≡ eq → xs ≡ ys
unfolding bytes_cmp
eq_of_bytes_cmp [] [] h = refl
eq_of_bytes_cmp [] (y ∷ ys) h = cc
eq_of_bytes_cmp (x ∷ xs) [] h = cc
eq_of_bytes_cmp (x ∷ xs) (y ∷ ys) h = ground (arith, eq_of_bytes_cmp xs ys)

-- The bytes that may follow a first byte of UTF-8: how many, and the range of the next one.
utf8_lead : ℕ → Option (ℕ × ℕ × ℕ)
utf8_lead b =
    if ltb b 0x80
    then some (0, 0, 0)
    else if ltb b 0xc2
    then none
    else if leb b 0xdf
    then some (1, 0x80, 0xbf)
    else if b == 0xe0
    then some (2, 0xa0, 0xbf)
    else if b == 0xed
    then some (2, 0x80, 0x9f)
    else if leb b 0xef
    then some (2, 0x80, 0xbf)
    else if b == 0xf0
    then some (3, 0x90, 0xbf)
    else if leb b 0xf3
    then some (3, 0x80, 0xbf)
    else if b == 0xf4
    then some (3, 0x80, 0x8f)
    else none

utf8_run : ℕ → ℕ → ℕ → List ℕ → Bool
utf8_run zero lo hi [] = true
utf8_run (suc n) lo hi [] = false
utf8_run zero lo hi (b ∷ r) = elim (utf8_lead b) [
  | none ↦ false
  | some (n, l, h) ↦ utf8_run n l h r
]
utf8_run (suc n) lo hi (b ∷ r) = leb lo b && leb b hi && utf8_run n 0x80 0xbf r

-- What `str::from_utf8` accepts: no overlong forms, no surrogates, nothing above U+10FFFF.
unfoldable pub is_utf8 : List ℕ → Bool
unfolding utf8_run utf8_lead
is_utf8 bytes = utf8_run 0 0 0 bytes

-- Equality of byte sequences.
unfoldable pub bytes_eq : List ℕ → List ℕ → Bool
bytes_eq [] [] = true
bytes_eq [] (y ∷ ys) = false
bytes_eq (x ∷ xs) [] = false
bytes_eq (x ∷ xs) (y ∷ ys) = x == y && bytes_eq xs ys

pub bytes_eq_refl : (xs : List ℕ) → bytes_eq xs xs ≡ true
unfolding bytes_eq
bytes_eq_refl [] = refl
bytes_eq_refl (x ∷ xs) = ground (arith, bytes_eq_refl xs)

pub eq_of_bytes_eq : (xs ys : List ℕ) → bytes_eq xs ys ≡ true → xs ≡ ys
unfolding bytes_eq
eq_of_bytes_eq [] [] h = refl
eq_of_bytes_eq [] (y ∷ ys) h = cc
eq_of_bytes_eq (x ∷ xs) [] h = cc
eq_of_bytes_eq (x ∷ xs) (y ∷ ys) h = ground (arith, eq_of_bytes_eq xs ys)

-- The bytes of an ASCII text.
abbrev pub ascii : String → List ℕ
ascii String.[] = []
ascii (String.◌∷◌ c s) = code c ∷ ascii s

-- ASCII is UTF-8.
abbrev pub IsAscii : ℕ → Type 0
IsAscii b = b < 0x80

utf8_lead_ascii : (b : ℕ) → IsAscii b → utf8_lead b ≡ some (0, 0, 0)
unfolding utf8_lead
utf8_lead_ascii b h = rw (lt→ltb b 0x80 h)

utf8_run_ascii : (bytes : List ℕ) (lo hi : ℕ) → All IsAscii bytes → utf8_run 0 lo hi bytes ≡ true
unfolding utf8_run
utf8_run_ascii [] lo hi h = refl
utf8_run_ascii (b ∷ bytes) lo hi (h, hs) =
    rw (utf8_run, utf8_lead_ascii b h) (utf8_run_ascii bytes 0 0 hs)

pub is_utf8_ascii : (bytes : List ℕ) → All IsAscii bytes → is_utf8 bytes ≡ true
unfolding is_utf8
is_utf8_ascii bytes h = utf8_run_ascii bytes 0 0 h

pub IsByte-ascii : (bytes : List ℕ) → All IsAscii bytes → All IsByte bytes
IsByte-ascii [] h = tt
IsByte-ascii (b ∷ bytes) (h, hs) = (omega arith, IsByte-ascii bytes hs)
