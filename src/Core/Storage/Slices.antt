-- ===== src/Core/Storage/Slices.antt =====
-- For `MemStorage` of crates/quantydb-core/src/storage.rs: what is read behind a write.
use quanty_database.Prelude.{
  ℕ, ◌+◌, ◌-◌, ◌≤◌, ◌≡◌, refl, ◌∙◌, inl, inr, true, Bool-cases, ◌||◌, List, arith, leb, ltb,
  if◌then◌else◌, length, length-append,
}
use quanty_database.Prelude.Buffer.{
  slice, slice-append, length-write_at, slice-write_at, slice-write_at_before, slice-write_at_after,
}
use quanty_database.Core.Page.{zeroes}
use quanty_database.Core.Meta.RoundTrip.{length-zeroes}
use quanty_database.Core.Storage.{Storage, store_at, grown}

-- The storage that `store_at` writes into.
abbrev room : ℕ → Storage → Storage
room n s = if ltb (length s) n then grown n s else s

length-room : (n : ℕ) (s : Storage) → (n ≤ length (room n s)) × (length s ≤ length (room n s))
unfolding grown
length-room n s = elim (Bool-cases (ltb (length s) n)) [
  | inl e ↦ rw e (
    omega (arith, length-append s (zeroes (n - length s)), length-zeroes (n - length s)),
    omega (arith, length-append s (zeroes (n - length s))),
  )
  | inr e ↦ rw e (ground arith, omega arith)
]

slice-room :
    (off k n : ℕ) (s : Storage) → off + k ≤ length s → slice off k (room n s) ≡ slice off k s
unfolding grown
slice-room off k n s h = elim (Bool-cases (ltb (length s) n)) [
  | inl e ↦ rw e (slice-append off k s (zeroes (n - length s)) h)
  | inr e ↦ rw e refl
]

pub length-store_at :
    (off : ℕ) (bytes : List ℕ) (s : Storage)
    → (off + length bytes ≤ length (store_at off bytes s))
      × (length s ≤ length (store_at off bytes s))
unfolding store_at
length-store_at off bytes s =
    rw (length-write_at off bytes (room (off + length bytes) s))
      (length-room (off + length bytes) s)

-- A read at the place of a write.
pub slice-store_at :
    (off n : ℕ) (bytes : List ℕ) (s : Storage)
    → length bytes ≡ n
    → slice off n (store_at off bytes s) ≡ bytes
unfolding store_at
slice-store_at off n bytes s e =
    slice-write_at off n bytes (room (off + length bytes) s) e
      (omega (arith, e, (length-room (off + length bytes) s).0))

-- A read that does not meet a write.
pub slice-store_at_apart :
    (a n off : ℕ) (bytes : List ℕ) (s : Storage)
    → a + n ≤ length s
    → (leb (a + n) off || leb (off + length bytes) a) ≡ true
    → slice a n (store_at off bytes s) ≡ slice a n s
unfolding store_at
slice-store_at_apart a n off bytes s h apart = elim (Bool-cases (leb (a + n) off)) [
  | inl e ↦
      slice-write_at_before a n off bytes (room (off + length bytes) s) (ground arith)
      ∙ slice-room a n (off + length bytes) s h
  | inr e ↦
      slice-write_at_after a n off bytes (room (off + length bytes) s) (ground arith)
      ∙ slice-room a n (off + length bytes) s h
]
