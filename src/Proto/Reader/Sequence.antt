-- ===== src/Proto/Reader/Sequence.antt =====
-- For `Reader::count` of crates/quantydb-proto/src/codec.rs and the loops that it drives.
use quanty_database.Prelude.{
  ℕ, ◌*◌, ◌/◌, ◌^◌, ◌≤◌, ◌<◌, ◌≡◌, List, [], ◌∷◌, ◌++◌, append_assoc, append-nil, arith, length,
  length-append, All,
}
use Prim.Native.Nat.{max}
use native.Mathlib.Nat.{le-div_iff_mul-le}
use quanty_database.Prelude.Bytes.{le_bytes}
use quanty_database.Prelude.Result.{Result, ok}
use quanty_database.Proto.Error.{ProtoError}
use quanty_database.Proto.Reader.{Reader, at, count, times, u32-at, remaining-at}

pub count-at :
    (m limit n : ℕ) (p s : List ℕ)
    → n < 2 ^ 32
    → n ≤ limit
    → 0 < m
    → n * m ≤ length s
    → count m limit (at p (le_bytes 4 n ++ s)) ≡ ok (n, at (p ++ le_bytes 4 n) s)
unfolding count
count-at m limit n p s h hl hm hs =
    rw (u32-at n p s h, remaining-at (p ++ le_bytes 4 n) s) (ground (arith, below, one))
  where
    one : max m 1 ≡ m
    one = omega arith

    below : n ≤ length s / m
    below = (le-div_iff_mul-le hm).1 hs

module _ {A : Type 0} (encode : A → List ℕ) where
  -- The encodings of all elements, one after another.
  unfoldable pub joined : List A → List ℕ
  joined [] = []
  joined (x ∷ xs) = encode x ++ joined xs

  pub length-joined :
      (m : ℕ)
      → ((a : A) → m ≤ length (encode a))
      → (xs : List A) → length xs * m ≤ length (joined xs)
  unfolding joined
  length-joined m each [] = omega arith
  length-joined m each (x ∷ xs) =
      omega (arith, each x, length-joined m each xs, length-append (encode x) (joined xs))

  module _ (P : A → Type 0) (read : Reader → Result ProtoError (A × Reader))
      (each : (a : A) (p s : List ℕ)
        → P a
        → read (at p (encode a ++ s)) ≡ ok (a, at (p ++ encode a) s)) where
    pub times-at :
        (xs out : List A) (p s : List ℕ)
        → All P xs
        → times read (length xs) out (at p (joined xs ++ s)) ≡ ok (out ++ xs, at (p ++ joined xs) s)
    unfolding joined times
    times-at [] out p s h = rw (append-nil out, append-nil p)
    times-at (x ∷ xs) out p s (h, hs) = rw (
      append_assoc (encode x) (joined xs) s,
      each x p (joined xs ++ s) h,
      times-at xs (out ++ x ∷ []) (p ++ encode x) s hs,
      append_assoc out (x ∷ []) xs,
      append_assoc p (encode x) (joined xs),
    )
