-- ===== src/Proto/Writer.antt =====
-- `Writer` of crates/quantydb-proto/src/codec.rs: a buffer that keeps the first error of the writing.
use quanty_database.Prelude.{
  ℕ, ◌≤◌, ◌≡◌, refl, Bool, true, false, Option, none, some, List, [], ◌∷◌, ◌++◌, append_assoc,
  arith, ltb, if◌then◌else◌, length,
}
use quanty_database.Prelude.Int.{ℤ}
use quanty_database.Prelude.Bytes.{le_bytes}
use quanty_database.Prelude.Result.{Result, ok, err}
use quanty_database.Core.Value.{as_u64}
use quanty_database.Proto.Error.{ProtoError, too_large, too_many_elements}
use quanty_database.Proto.Limits.{max_body}

pub record Writer : Type 0 where
  pub buf : List ℕ
  pub failure : Option ProtoError

unfoldable pub new : Writer
new = record { buf = []; failure = none }

unfoldable pub finish : Writer → Result ProtoError (List ℕ)
finish w = elim w.failure [ some e ↦ err e | none ↦ ok w.buf ]

-- Only the first error is kept.
unfoldable pub fail : ProtoError → Writer → Writer
fail e w = elim w.failure [ none ↦ record w { failure = some e } | some _ ↦ w ]

-- `self.buf.extend_from_slice`
unfoldable pub extend : List ℕ → Writer → Writer
extend bs w = record w { buf = w.buf ++ bs }

unfoldable pub u8 : ℕ → Writer → Writer
u8 v w = extend (v ∷ []) w

unfoldable pub u16 : ℕ → Writer → Writer
u16 v w = extend (le_bytes 2 v) w

unfoldable pub u32 : ℕ → Writer → Writer
u32 v w = extend (le_bytes 4 v) w

unfoldable pub u64 : ℕ → Writer → Writer
u64 v w = extend (le_bytes 8 v) w

unfoldable pub i64 : ℤ → Writer → Writer
i64 v w = u64 (as_u64 v) w

unfoldable pub f64 : ℕ → Writer → Writer
f64 v w = u64 v w

abbrev pub bit : Bool → ℕ
bit true = 1
bit false = 0

unfoldable pub bool : Bool → Writer → Writer
bool v w = u8 (bit v) w

-- `v.len() as u32` is the length modulo 2 ^ 32, of which `le_bytes 4` takes the bytes.
unfoldable pub bytes : List ℕ → Writer → Writer
bytes v w =
    if ltb max_body (length v)
    then fail (too_large (length v) max_body) w
    else extend v (u32 (length v) w)

unfoldable pub text : List ℕ → Writer → Writer
text v w = bytes v w

unfoldable pub count : ℕ → ℕ → Writer → Writer
count n hard_max w = if ltb hard_max n then fail (too_many_elements n hard_max) w else u32 n w

-- A writer that has written `p` and has not failed.
unfoldable pub wrote : List ℕ → Writer
wrote p = record { buf = p; failure = none }

pub new-wrote : new ≡ wrote []
unfolding new wrote
new-wrote = refl

pub finish-wrote : (p : List ℕ) → finish (wrote p) ≡ ok p
unfolding finish wrote
finish-wrote p = refl

pub extend-wrote : (a p : List ℕ) → extend a (wrote p) ≡ wrote (p ++ a)
unfolding extend wrote
extend-wrote a p = refl

-- A byte string behind its length.
unfoldable pub prefixed : List ℕ → List ℕ
prefixed v = le_bytes 4 (length v) ++ v

pub bytes-wrote : (v p : List ℕ) → length v ≤ max_body → bytes v (wrote p) ≡ wrote (p ++ prefixed v)
unfolding bytes u32 prefixed extend wrote
bytes-wrote v p h = ground (arith, append_assoc p (le_bytes 4 (length v)) v)

pub text-wrote : (v p : List ℕ) → length v ≤ max_body → text v (wrote p) ≡ wrote (p ++ prefixed v)
unfolding text
text-wrote v p h = bytes-wrote v p h

pub count-wrote : (n m : ℕ) (p : List ℕ) → n ≤ m → count n m (wrote p) ≡ wrote (p ++ le_bytes 4 n)
unfolding count u32 extend wrote
count-wrote n m p h = ground arith
