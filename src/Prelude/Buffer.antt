-- ===== src/Prelude/Buffer.antt =====
-- Fixed buffers of bytes: slices, and writes into them, as `copy_from_slice` makes them.
use Prim.Native.Nat.{ℕ, zero, suc, ◌+◌, ◌≤◌}
use mathlib.Core.Path.{◌≡◌, refl, ap, ◌∙◌}
use mathlib.Core.List.{List, [], ◌∷◌, ◌++◌}
use mathlib.Core.Bool.{Bool, true, ◌&&◌, ◌||◌}
use mathlib.Core.Logic.{inl, inr}
use mathlib.Core.Option.{Option, none, some, some-injective}
use quanty_database.Prelude.Tests.{leb, ◌==◌, if◌then◌else◌, Bool-cases}
use native.Mathlib.Omega.{arith}
use quanty_database.Prelude.Lists.{length, take, drop}

module _ {ℓ} {A : Type ℓ} where
  -- `&buf[off..off + n]`
  unfoldable pub slice : ℕ → ℕ → List A → List A
  slice off n buf = take n (drop off buf)

  -- `buf[off..off + bytes.len()].copy_from_slice(bytes)`. What is past the end is not written; the
  -- source panics there.
  unfoldable pub write_at : ℕ → List A → List A → List A
  write_at zero [] buf = buf
  write_at zero (x ∷ xs) [] = []
  write_at zero (x ∷ xs) (b ∷ buf) = x ∷ write_at zero xs buf
  write_at (suc off) bytes [] = []
  write_at (suc off) bytes (b ∷ buf) = b ∷ write_at off bytes buf

  pub length-write_at :
      (off : ℕ) (bytes buf : List A) → length (write_at off bytes buf) ≡ length buf
  unfolding write_at
  length-write_at zero [] buf = refl
  length-write_at zero (x ∷ xs) [] = refl
  length-write_at zero (x ∷ xs) (b ∷ buf) = ap suc (length-write_at zero xs buf)
  length-write_at (suc off) bytes [] = refl
  length-write_at (suc off) bytes (b ∷ buf) = ap suc (length-write_at off bytes buf)

  -- What was written is read back.
  pub slice-write_at :
      (off n : ℕ) (bytes buf : List A)
      → length bytes ≡ n
      → off + n ≤ length buf
      → slice off n (write_at off bytes buf) ≡ bytes
  unfolding slice write_at
  slice-write_at zero zero [] buf e h = refl
  slice-write_at zero zero (x ∷ bytes) buf e h = absurd (omega arith)
  slice-write_at zero (suc n) [] buf e h = absurd (omega arith)
  slice-write_at zero (suc n) (x ∷ bytes) [] e h = absurd (omega arith)
  slice-write_at zero (suc n) (x ∷ bytes) (b ∷ buf) e h =
      rw (slice-write_at zero n bytes buf (omega arith) (omega arith))
  slice-write_at (suc off) n [] [] e h = absurd (omega arith)
  slice-write_at (suc off) n (x ∷ bytes) [] e h = absurd (omega arith)
  slice-write_at (suc off) n bytes (b ∷ buf) e h = slice-write_at off n bytes buf e (omega arith)

  -- A write leaves the bytes before it.
  pub slice-write_at_before :
      (a n off : ℕ) (bytes buf : List A)
      → a + n ≤ off
      → slice a n (write_at off bytes buf) ≡ slice a n buf
  unfolding slice write_at
  slice-write_at_before zero zero off bytes buf h = refl
  slice-write_at_before zero (suc n) zero bytes buf h = absurd (omega arith)
  slice-write_at_before zero (suc n) (suc off) bytes [] h = refl
  slice-write_at_before zero (suc n) (suc off) bytes (b ∷ buf) h =
      rw (slice-write_at_before zero n off bytes buf (omega arith))
  slice-write_at_before (suc a) n zero bytes buf h = absurd (omega arith)
  slice-write_at_before (suc a) n (suc off) bytes [] h = refl
  slice-write_at_before (suc a) n (suc off) bytes (b ∷ buf) h =
      slice-write_at_before a n off bytes buf (omega arith)

  -- A write leaves the bytes behind it.
  pub slice-write_at_after :
      (a n off : ℕ) (bytes buf : List A)
      → off + length bytes ≤ a
      → slice a n (write_at off bytes buf) ≡ slice a n buf
  unfolding slice write_at
  slice-write_at_after a n zero [] buf h = refl
  slice-write_at_after zero n zero (x ∷ bytes) buf h = absurd (omega arith)
  slice-write_at_after (suc a) n zero (x ∷ bytes) [] h = refl
  slice-write_at_after (suc a) n zero (x ∷ bytes) (b ∷ buf) h =
      slice-write_at_after a n zero bytes buf (omega arith)
  slice-write_at_after zero n (suc off) bytes buf h = absurd (omega arith)
  slice-write_at_after (suc a) n (suc off) bytes [] h = refl
  slice-write_at_after (suc a) n (suc off) bytes (b ∷ buf) h =
      slice-write_at_after a n off bytes buf (omega arith)

-- A list of writes, the last one in front.
module _ {ℓ} {A : Type ℓ} where
  unfoldable pub patch : List (ℕ × List A) → List A → List A
  patch [] buf = buf
  patch ((off, bytes) ∷ fields) buf = write_at off bytes (patch fields buf)

  -- Whether no write meets the `n` bytes from an offset.
  unfoldable pub all_apart : ℕ → ℕ → List (ℕ × List A) → Bool
  all_apart off n [] = true
  all_apart off n ((at, bytes) ∷ fields) =
      (leb (off + n) at || leb (at + length bytes) off) && all_apart off n fields

  pub length-patch :
      (fields : List (ℕ × List A)) (buf : List A) → length (patch fields buf) ≡ length buf
  unfolding patch
  length-patch [] buf = refl
  length-patch ((off, bytes) ∷ fields) buf = rw (length-write_at, length-patch fields buf)

  pub slice-patch_apart :
      (off n : ℕ) (fields : List (ℕ × List A)) (buf : List A)
      → all_apart off n fields ≡ true
      → slice off n (patch fields buf) ≡ slice off n buf
  unfolding patch all_apart
  slice-patch_apart off n [] buf h = refl
  slice-patch_apart off n ((at, bytes) ∷ fields) buf h =
      let rest : all_apart off n fields ≡ true = ground arith in
      elim (Bool-cases (leb (off + n) at)) [
        | inl e ↦
            slice-write_at_before off n at bytes (patch fields buf) (ground arith)
            ∙ slice-patch_apart off n fields buf rest
        | inr e ↦
            slice-write_at_after off n at bytes (patch fields buf) (ground arith)
            ∙ slice-patch_apart off n fields buf rest
      ]

  -- A field is read under writes that do not meet it.
  pub slice-patch :
      (off n : ℕ) (bytes : List A) (later fields : List (ℕ × List A)) (buf : List A)
      → length bytes ≡ n
      → off + n ≤ length buf
      → all_apart off n later ≡ true
      → slice off n (patch (later ++ (off, bytes) ∷ fields) buf) ≡ bytes
  unfolding patch all_apart
  slice-patch off n bytes [] fields buf e fits h =
      slice-write_at off n bytes (patch fields buf) e (omega (arith, length-patch fields buf))
  slice-patch off n bytes ((at, other) ∷ later) fields buf e fits h =
      let rest : all_apart off n later ≡ true = ground arith in
      elim (Bool-cases (leb (off + n) at)) [
        | inl k ↦
            slice-write_at_before off n at other (patch (later ++ (off, bytes) ∷ fields) buf)
              (ground arith)
            ∙ slice-patch off n bytes later fields buf e fits rest
        | inr k ↦
            slice-write_at_after off n at other (patch (later ++ (off, bytes) ∷ fields) buf)
              (ground arith)
            ∙ slice-patch off n bytes later fields buf e fits rest
      ]

  -- A write at the front leaves what is behind it.
  pub drop-write_at :
      (n : ℕ) (bytes buf : List A) → length bytes ≤ n → drop n (write_at 0 bytes buf) ≡ drop n buf
  unfolding write_at
  drop-write_at n [] buf h = refl
  drop-write_at zero (x ∷ bytes) buf h = absurd (omega arith)
  drop-write_at (suc n) (x ∷ bytes) [] h = refl
  drop-write_at (suc n) (x ∷ bytes) (b ∷ buf) h = drop-write_at n bytes buf (omega arith)

  -- The last write at an offset, if the later ones do not meet it.
  unfoldable pub written : ℕ → ℕ → List (ℕ × List A) → Option (List A)
  written off n [] = none
  written off n ((at, bytes) ∷ fields) =
      let rest = written off n fields in
      if at == off && length bytes == n
      then some bytes
      else if leb (off + n) at || leb (at + length bytes) off
      then rest
      else none

  pub slice-written :
      (off n : ℕ) (fields : List (ℕ × List A)) (bytes buf : List A)
      → written off n fields ≡ some bytes
      → off + n ≤ length buf
      → slice off n (patch fields buf) ≡ bytes
  unfolding patch written
  slice-written off n [] bytes buf h fits = absurd (cc h)
  slice-written off n ((at, other) ∷ fields) bytes buf h fits =
      elim (Bool-cases (at == off && length other == n)) [
        | inl e ↦
            (let here : at ≡ off = ground arith in
              let long : length other ≡ n = ground arith in
              let same : other ≡ bytes = some-injective other bytes (rw e at h) in
              rw
                (
                  here,
                  slice-write_at off n other (patch fields buf) long
                      (omega (arith, length-patch fields buf)),
                )
                same)
        | inr e ↦ elim (Bool-cases (leb (off + n) at)) [
          | inl k ↦
              slice-write_at_before off n at other (patch fields buf) (ground arith)
              ∙ slice-written off n fields bytes buf (rw (e, k) at h) fits
          | inr k ↦ elim (Bool-cases (leb (at + length other) off)) [
            | inl l ↦
                slice-write_at_after off n at other (patch fields buf) (ground arith)
                ∙ slice-written off n fields bytes buf (rw (e, k, l) at h) fits
            | inr l ↦ absurd (cc (rw (e, k, l) at h))
          ]
        ]
      ]

-- A slice of the front of a list.
pub slice-append {ℓ} :
    {A : Type ℓ} (off n : ℕ) (xs ys : List A)
    → off + n ≤ length xs
    → slice off n (xs ++ ys) ≡ slice off n xs
unfolding slice
slice-append zero zero xs ys h = refl
slice-append zero (suc n) [] ys h = absurd (omega arith)
slice-append zero (suc n) (x ∷ xs) ys h = ap (λ t. x ∷ t) (slice-append zero n xs ys (omega arith))
slice-append (suc off) zero [] ys h = absurd (omega arith)
slice-append (suc off) (suc n) [] ys h = absurd (omega arith)
slice-append (suc off) n (x ∷ xs) ys h = slice-append off n xs ys (omega arith)
