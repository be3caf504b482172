-- ===== src/Proto/Reader.antt =====
-- `Reader` of crates/quantydb-proto/src/codec.rs: primitives read from a body that is not trusted.
-- Each method returns the value and the reader after it; the error path leaves no reader, as `?` does.
pub mod Sequence
use quanty_database.Prelude.{
  ℕ, zero, suc, ◌+◌, ◌-◌, ◌/◌, ◌^◌, ◌≤◌, ◌<◌, ◌≡◌, refl, sym, ap, ◌∙◌, Bool, true, false, List, [],
  ◌∷◌, ◌++◌, append_assoc, arith, ltb, ◌==◌, if◌then◌else◌, length, take as first, drop,
  length-append, take-append, drop-append,
}
use Prim.Native.Nat.{max}
use quanty_database.Prelude.Int.{ℤ}
use quanty_database.Prelude.Bytes.{
  IsU64, is_utf8, le_bytes, from_le, from_le-le_bytes, length-le_bytes,
}
use quanty_database.Prelude.Result.{Result, ok, err, ◌>>=◌, ◌>>◌, ensure}
use quanty_database.Core.Value.{as_i64}
use quanty_database.Proto.Error.{
  ProtoError, truncated, too_large, too_many_elements, malformed, bool_byte, bad_utf8,
  trailing_bytes,
}

pub record Reader : Type 0 where
  pub buf : List ℕ
  pub pos : ℕ

unfoldable pub new : List ℕ → Reader
new buf = record { buf = buf; pos = 0 }

unfoldable pub remaining : Reader → ℕ
remaining r = length r.buf - r.pos

unfoldable pub finish : Reader → Result ProtoError (Unit {0})
unfolding remaining
finish r = if remaining r == 0 then ok tt else err (trailing_bytes (remaining r))

-- `checked_add` fails past 2 ^ 64, which is past the end of every buffer, and the two tests of the
-- code answer with the same error.
unfoldable pub take : ℕ → Reader → Result ProtoError (List ℕ × Reader)
unfolding remaining
take n r =
    let end = r.pos + n in
    if ltb (length r.buf) end
    then err (truncated n (remaining r))
    else ok (first n (drop r.pos r.buf), record r { pos = end })

unfoldable pub raw : ℕ → Reader → Result ProtoError (List ℕ × Reader)
raw n r = take n r

-- The one byte of a slice of length one.
abbrev head_byte : List ℕ → ℕ
head_byte [] = 0
head_byte (b ∷ bs) = b

unfoldable pub u8 : Reader → Result ProtoError (ℕ × Reader)
u8 r = do (b, r') ← take 1 r; ok (head_byte b, r')

unfoldable pub u16 : Reader → Result ProtoError (ℕ × Reader)
u16 r = do (b, r') ← take 2 r; ok (from_le b, r')

unfoldable pub u32 : Reader → Result ProtoError (ℕ × Reader)
u32 r = do (b, r') ← take 4 r; ok (from_le b, r')

unfoldable pub u64 : Reader → Result ProtoError (ℕ × Reader)
u64 r = do (b, r') ← take 8 r; ok (from_le b, r')

unfoldable pub i64 : Reader → Result ProtoError (ℤ × Reader)
i64 r = do (w, r') ← u64 r; ok (as_i64 w, r')

unfoldable pub f64 : Reader → Result ProtoError (ℕ × Reader)
f64 r = u64 r

unfoldable pub bool : Reader → Result ProtoError (Bool × Reader)
bool r = do
  (b, r') ← u8 r
  if b == 0 then ok (false, r') else if b == 1 then ok (true, r') else err (malformed bool_byte)

unfoldable pub bytes : Reader → Result ProtoError (List ℕ × Reader)
bytes r = do (n, r') ← u32 r; take n r'

unfoldable pub text : Reader → Result ProtoError (List ℕ × Reader)
text r = do (b, r') ← bytes r; if is_utf8 b then ok (b, r') else err bad_utf8

unfoldable pub count : ℕ → ℕ → Reader → Result ProtoError (ℕ × Reader)
unfolding remaining
count min_bytes_each hard_max r = do
  (n, r') ← u32 r
  if ltb hard_max n
      then err (too_many_elements n hard_max)
      else (let ceiling = remaining r' / max min_bytes_each 1 in
          if ltb ceiling n then err (too_large n ceiling) else ok (n, r'))

-- `for _ in 0..n { out.push(read(r)?) }`
unfoldable pub times :
    {A : Type 0}
    → (Reader → Result ProtoError (A × Reader))
    → ℕ
    → List A
    → Reader
    → Result ProtoError (List A × Reader)
times read zero out r = ok (out, r)
times read (suc n) out r = do (a, r') ← read r; times read n (out ++ a ∷ []) r'

-- A reader that has passed `p` and has `s` before it.
unfoldable pub at : List ℕ → List ℕ → Reader
at p s = record { buf = p ++ s; pos = length p }

take-at-length : (p a s : List ℕ) → take (length a) (at p (a ++ s)) ≡ ok (a, at (p ++ a) s)
unfolding take at
take-at-length p a s =
    rw (in_range, drop-append p (a ++ s), take-append a s, append_assoc p a s, length-append p a)
  where
    in_range : ltb (length (p ++ (a ++ s))) (length p + length a) ≡ false
    in_range = ground (arith, length-append p (a ++ s), length-append a s)

-- Reading what stands before the reader moves it past.
pub take-at :
    (n : ℕ) (p a s : List ℕ) → length a ≡ n → take n (at p (a ++ s)) ≡ ok (a, at (p ++ a) s)
take-at n p a s h = rw (← h) (take-at-length p a s)

pub u8-at : (b : ℕ) (p s : List ℕ) → u8 (at p (b ∷ s)) ≡ ok (b, at (p ++ b ∷ []) s)
unfolding u8
u8-at b p s = rw (take-at 1 p (b ∷ []) s refl)

pub u16-at :
    (v : ℕ) (p s : List ℕ)
    → v < 2 ^ 16
    → u16 (at p (le_bytes 2 v ++ s)) ≡ ok (v, at (p ++ le_bytes 2 v) s)
unfolding u16
u16-at v p s h = rw (take-at 2 p (le_bytes 2 v) s (length-le_bytes 2 v), from_le-le_bytes 2 v h)

pub u32-at :
    (v : ℕ) (p s : List ℕ)
    → v < 2 ^ 32
    → u32 (at p (le_bytes 4 v ++ s)) ≡ ok (v, at (p ++ le_bytes 4 v) s)
unfolding u32
u32-at v p s h = rw (take-at 4 p (le_bytes 4 v) s (length-le_bytes 4 v), from_le-le_bytes 4 v h)

pub u64-at :
    (v : ℕ) (p s : List ℕ)
    → IsU64 v
    → u64 (at p (le_bytes 8 v ++ s)) ≡ ok (v, at (p ++ le_bytes 8 v) s)
unfolding u64
u64-at v p s h = rw (take-at 8 p (le_bytes 8 v) s (length-le_bytes 8 v), from_le-le_bytes 8 v h)

pub remaining-at : (p s : List ℕ) → remaining (at p s) ≡ length s
unfolding remaining at
remaining-at p s = omega (arith, length-append p s)

pub finish-at : (p : List ℕ) → finish (at p []) ≡ ok tt
unfolding finish
finish-at p = rw (remaining-at p [])

pub bytes-at :
    (v p s : List ℕ)
    → length v < 2 ^ 32
    → bytes (at p (le_bytes 4 (length v) ++ (v ++ s)))
      ≡ ok (v, at ((p ++ le_bytes 4 (length v)) ++ v) s)
unfolding bytes
bytes-at v p s h =
    rw (u32-at (length v) p (v ++ s) h) (take-at (length v) (p ++ le_bytes 4 (length v)) v s refl)

pub new-at : (s : List ℕ) → new s ≡ at [] s
unfolding new at
new-at s = refl
