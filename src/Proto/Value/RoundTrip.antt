-- ===== src/Proto/Value/RoundTrip.antt =====
-- For crates/quantydb-proto/src/value.rs: what the writers append and the readers take.
use quanty_database.Prelude.{
  ℕ, ◌+◌, ◌≤◌, ◌≡◌, refl, true, false, List, [], ◌∷◌, ◌++◌, append_assoc, append-nil, arith, length,
  length-append, All,
}
use quanty_database.Prelude.Int.{ℤ}
use quanty_database.Prelude.Bytes.{IsU64, is_utf8, le_bytes, length-le_bytes}
use quanty_database.Prelude.Result.{ok}
use quanty_database.Core.Value.{
  Value, null, bool, int, float, text, bytes, IsValue, IsI64, as_u64, as_u64-IsU64, as_i64-as_u64,
}
use quanty_database.Proto.Limits.{max_body, max_values_per_row}
use quanty_database.Proto.Reader
use quanty_database.Proto.Reader.{Reader, at, u8-at, u64-at, bytes-at}
use quanty_database.Proto.Reader.Sequence.{count-at, joined, length-joined, times-at}
use quanty_database.Proto.Writer
use quanty_database.Proto.Writer.{
  Writer, wrote, prefixed, extend-wrote, bytes-wrote, text-wrote, count-wrote, bit,
}
use quanty_database.Proto.Value.{
  write_value, read_value, encoded_value_len, values_len, encoded_row_len, write_values, write_row,
  read_row,
}

-- What one value is on the wire.
unfoldable pub wire : Value → List ℕ
wire null = 0x01 ∷ []
wire (bool b) = 0x02 ∷ bit b ∷ []
wire (int i) = 0x03 ∷ le_bytes 8 (as_u64 i)
wire (float f) = 0x04 ∷ le_bytes 8 f
wire (text s) = 0x05 ∷ prefixed s
wire (bytes b) = 0x06 ∷ prefixed b

-- A string that the protocol can carry.
abbrev pub FitsWire : Value → Type 0
FitsWire (text s) = length s ≤ max_body
FitsWire (bytes b) = length b ≤ max_body
FitsWire _ = Unit

abbrev pub IsWireValue : Value → Type 0
IsWireValue v = IsValue v × FitsWire v

abbrev pub IsWireRow : List Value → Type 0
IsWireRow row = All IsWireValue row × (length row ≤ max_values_per_row)

pub prefixed-length : (v : List ℕ) → length (prefixed v) ≡ 4 + length v
unfolding prefixed
prefixed-length v =
    omega (arith, length-append (le_bytes 4 (length v)) v, length-le_bytes 4 (length v))

pub length-wire : (v : Value) → length (wire v) ≡ encoded_value_len v
unfolding wire encoded_value_len
length-wire null = refl
length-wire (bool b) = refl
length-wire (int i) = omega (arith, length-le_bytes 8 (as_u64 i))
length-wire (float f) = omega (arith, length-le_bytes 8 f)
length-wire (text s) = omega (arith, prefixed-length s)
length-wire (bytes b) = omega (arith, prefixed-length b)

write_value-wrote :
    (v : Value) (p : List ℕ) → FitsWire v → write_value v (wrote p) ≡ wrote (p ++ wire v)
unfolding write_value wire Writer.u8 Writer.u64 Writer.bool Writer.i64 Writer.f64
write_value-wrote null p h = rw extend-wrote
write_value-wrote (bool b) p h = rw (extend-wrote, extend-wrote, append_assoc)
write_value-wrote (int i) p h = rw (extend-wrote, extend-wrote, append_assoc)
write_value-wrote (float f) p h = rw (extend-wrote, extend-wrote, append_assoc)
write_value-wrote (text s) p h = rw (extend-wrote, text-wrote s (p ++ 0x05 ∷ []) h, append_assoc)
write_value-wrote (bytes b) p h = rw (extend-wrote, bytes-wrote b (p ++ 0x06 ∷ []) h, append_assoc)

pub bytes-prefixed :
    (v p s : List ℕ)
    → length v ≤ max_body
    → Reader.bytes (at p (prefixed v ++ s)) ≡ ok (v, at (p ++ prefixed v) s)
unfolding prefixed
bytes-prefixed v p s h =
    rw (append_assoc (le_bytes 4 (length v)) v s, bytes-at v p s (omega arith), append_assoc)

pub text-prefixed :
    (v p s : List ℕ)
    → length v ≤ max_body
    → is_utf8 v ≡ true
    → Reader.text (at p (prefixed v ++ s)) ≡ ok (v, at (p ++ prefixed v) s)
unfolding Reader.text
text-prefixed v p s h valid = rw (bytes-prefixed v p s h, valid)

bool-true : (p s : List ℕ) → Reader.bool (at p (1 ∷ s)) ≡ ok (true, at (p ++ 1 ∷ []) s)
unfolding Reader.bool
bool-true p s = rw u8-at

bool-false : (p s : List ℕ) → Reader.bool (at p (0 ∷ s)) ≡ ok (false, at (p ++ 0 ∷ []) s)
unfolding Reader.bool
bool-false p s = rw u8-at

i64-at :
    (i : ℤ) (p s : List ℕ)
    → IsI64 i
    → Reader.i64 (at p (le_bytes 8 (as_u64 i) ++ s)) ≡ ok (i, at (p ++ le_bytes 8 (as_u64 i)) s)
unfolding Reader.i64
i64-at i p s h = rw (u64-at (as_u64 i) p s (as_u64-IsU64 i h), as_i64-as_u64 i h)

f64-at :
    (f : ℕ) (p s : List ℕ)
    → IsU64 f
    → Reader.f64 (at p (le_bytes 8 f ++ s)) ≡ ok (f, at (p ++ le_bytes 8 f) s)
unfolding Reader.f64
f64-at f p s h = u64-at f p s h

pub read_value-at :
    (v : Value) (p s : List ℕ)
    → IsWireValue v
    → read_value (at p (wire v ++ s)) ≡ ok (v, at (p ++ wire v) s)
unfolding read_value wire
read_value-at null p s h = rw u8-at
read_value-at (bool true) p s h =
    rw (u8-at 0x02 p (1 ∷ s), bool-true (p ++ 0x02 ∷ []) s, append_assoc)
read_value-at (bool false) p s h =
    rw (u8-at 0x02 p (0 ∷ s), bool-false (p ++ 0x02 ∷ []) s, append_assoc)
read_value-at (int i) p s (h, _) =
    rw (u8-at 0x03 p (le_bytes 8 (as_u64 i) ++ s), i64-at i (p ++ 0x03 ∷ []) s h, append_assoc)
read_value-at (float f) p s (h, _) =
    rw (u8-at 0x04 p (le_bytes 8 f ++ s), f64-at f (p ++ 0x04 ∷ []) s h, append_assoc)
read_value-at (text t) p s ((_, valid), h) =
    rw (u8-at 0x05 p (prefixed t ++ s), text-prefixed t (p ++ 0x05 ∷ []) s h valid, append_assoc)
read_value-at (bytes b) p s (_, h) =
    rw (u8-at 0x06 p (prefixed b ++ s), bytes-prefixed b (p ++ 0x06 ∷ []) s h, append_assoc)

-- What a row is on the wire.
unfoldable pub wire_row : List Value → List ℕ
wire_row row = le_bytes 4 (length row) ++ joined wire row

write_values-wrote :
    (vs : List Value) (p : List ℕ)
    → All IsWireValue vs
    → write_values vs (wrote p) ≡ wrote (p ++ joined wire vs)
unfolding write_values joined
write_values-wrote [] p h = rw append-nil
write_values-wrote (v ∷ vs) p ((_, h), hs) = rw (
  write_value-wrote v p h,
  write_values-wrote vs (p ++ wire v) hs,
  append_assoc p (wire v) (joined wire vs),
)

pub write_row-wrote :
    (row : List Value) (p : List ℕ)
    → IsWireRow row
    → write_row row (wrote p) ≡ wrote (p ++ wire_row row)
unfolding write_row wire_row
write_row-wrote row p (h, fits) = rw (
  count-wrote (length row) max_values_per_row p fits,
  write_values-wrote row (p ++ le_bytes 4 (length row)) h,
  append_assoc,
)

wire-pos : (v : Value) → 1 ≤ length (wire v)
unfolding wire
wire-pos null = omega arith
wire-pos (bool b) = omega arith
wire-pos (int i) = omega arith
wire-pos (float f) = omega arith
wire-pos (text s) = omega arith
wire-pos (bytes b) = omega arith

pub read_row-at :
    (row : List Value) (p s : List ℕ)
    → IsWireRow row
    → read_row (at p (wire_row row ++ s)) ≡ ok (row, at (p ++ wire_row row) s)
unfolding read_row wire_row
read_row-at row p s (h, fits) = rw (
  append_assoc (le_bytes 4 (length row)) (joined wire row) s,
  count-at 1 max_values_per_row (length row) p (joined wire row ++ s) (omega arith) fits
      (omega arith)
      (omega (arith, length-joined wire 1 wire-pos row, length-append (joined wire row) s)),
  times-at wire IsWireValue read_value read_value-at row [] (p ++ le_bytes 4 (length row)) s h,
  append_assoc p (le_bytes 4 (length row)) (joined wire row),
)

length-values : (vs : List Value) → length (joined wire vs) ≡ values_len vs
unfolding joined values_len
length-values [] = refl
length-values (v ∷ vs) =
    omega (arith, length-append (wire v) (joined wire vs), length-wire v, length-values vs)

-- `encoded_row_len` is exactly what a row takes.
pub length-wire_row : (row : List Value) → length (wire_row row) ≡ encoded_row_len row
unfolding wire_row encoded_row_len
length-wire_row row = omega (
  arith,
  length-append (le_bytes 4 (length row)) (joined wire row),
  length-le_bytes 4 (length row),
  length-values row,
)
