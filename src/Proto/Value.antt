-- ===== src/Proto/Value.antt =====
-- crates/quantydb-proto/src/value.rs: values and rows on the wire.
pub mod RoundTrip
use quanty_database.Prelude.{
  ℕ, zero, suc, ◌+◌, ◌/◌, ◌^◌, ◌≤◌, ◌<◌, ◌≡◌, refl, sym, ap, ◌∙◌, Bool, true, false, List, [], ◌∷◌,
  ◌++◌, append_assoc, arith, ltb, ◌==◌, if◌then◌else◌, length, length-append, All,
}
use quanty_database.Prelude.Bytes.{IsU64, is_utf8, le_bytes, length-le_bytes}
use quanty_database.Prelude.Result.{Result, ok, err, ◌>>=◌}
use quanty_database.Core.Value.{
  Value, null, bool, int, float, text, bytes, IsValue, as_u64, as_u64-IsU64, as_i64-as_u64,
}
use quanty_database.Proto.Error.{ProtoError, unknown_tag}
use quanty_database.Proto.Limits.{max_body, max_values_per_row, min_value_len}
use quanty_database.Proto.Reader
use quanty_database.Proto.Reader.{Reader, at}
use quanty_database.Proto.Writer
use quanty_database.Proto.Writer.{Writer, wrote, prefixed}

unfoldable pub write_value : Value → Writer → Writer
write_value null w = Writer.u8 0x01 w
write_value (bool b) w = Writer.bool b (Writer.u8 0x02 w)
write_value (int i) w = Writer.i64 i (Writer.u8 0x03 w)
write_value (float f) w = Writer.f64 f (Writer.u8 0x04 w)
write_value (text s) w = Writer.text s (Writer.u8 0x05 w)
write_value (bytes b) w = Writer.bytes b (Writer.u8 0x06 w)

unfoldable pub read_value : Reader → Result ProtoError (Value × Reader)
read_value r = do
  (tag, r') ← Reader.u8 r
  if tag == 0x01
      then ok (null, r')
      else if tag == 0x02
      then (do (b, s) ← Reader.bool r'; ok (bool b, s))
      else if tag == 0x03
      then (do (i, s) ← Reader.i64 r'; ok (int i, s))
      else if tag == 0x04
      then (do (f, s) ← Reader.f64 r'; ok (float f, s))
      else if tag == 0x05
      then (do (t, s) ← Reader.text r'; ok (text t, s))
      else if tag == 0x06
      then (do (b, s) ← Reader.bytes r'; ok (bytes b, s))
      else err (unknown_tag tag)

unfoldable pub encoded_value_len : Value → ℕ
encoded_value_len null = 1 + 0
encoded_value_len (bool b) = 1 + 1
encoded_value_len (int i) = 1 + 8
encoded_value_len (float f) = 1 + 8
encoded_value_len (text s) = 1 + (4 + length s)
encoded_value_len (bytes b) = 1 + (4 + length b)

unfoldable pub values_len : List Value → ℕ
values_len [] = 0
values_len (v ∷ vs) = encoded_value_len v + values_len vs

unfoldable pub encoded_row_len : List Value → ℕ
unfolding values_len
encoded_row_len row = 4 + values_len row

pub write_values : List Value → Writer → Writer
write_values [] w = w
write_values (v ∷ vs) w = write_values vs (write_value v w)

unfoldable pub write_row : List Value → Writer → Writer
unfolding write_values
write_row row w = write_values row (Writer.count (length row) max_values_per_row w)

unfoldable pub read_row : Reader → Result ProtoError (List Value × Reader)
read_row r = do
  (n, r') ← Reader.count min_value_len max_values_per_row r
  Reader.times read_value n [] r'
