-- ===== src/Core/Encoding.antt =====
-- crates/quantydb-core/src/encoding.rs: the encoding and decoding of keys.
mod Escape
pub mod Order
pub mod RoundTrip
pub mod Prefix
mod Tests
use quanty_database.Prelude.{
  ℕ, zero, suc, ◌+◌, ◌^◌, ◌<◌, Bool, true, false, Option, none, some, List, [], ◌∷◌, ◌++◌, leb, ltb,
  ◌==◌, if◌then◌else◌, length, take, drop,
}
use quanty_database.Prelude.Bytes.{be_bytes, from_be, is_utf8}
use quanty_database.Prelude.Result.{Result, ok, err, ◌>>=◌, ◌>>◌, ensure, ok_or}
use quanty_database.Core.Value.{
  Value, null, bool, int, float, text, bytes, as_u64, as_i64, flip_sign, invert,
}

-- The reasons of `Error::corrupted(None, "key decode: ...")`. `no_fuel` is none of the code's: the
-- loop of `decode_key` ran out of rounds.
pub data KeyError : Type 0 where
  empty truncated_bool bad_bool_byte truncated_int truncated_float unterminated_text : KeyError
  text_not_utf8 unterminated_bytes unknown_tag no_fuel : KeyError

unfoldable pub tag_of : Value → ℕ
tag_of null = 0x01
tag_of (bool b) = 0x02
tag_of (int i) = 0x03
tag_of (float f) = 0x04
tag_of (text s) = 0x05
tag_of (bytes b) = 0x06

-- `escape_into`: each byte, a zero followed by 0xff, and a zero at the end.
pub escape_into : List ℕ → List ℕ → List ℕ
escape_into [] out = out ++ 0x00 ∷ []
escape_into (b ∷ data') out =
    escape_into data' (if b == 0x00 then out ++ b ∷ 0xff ∷ [] else out ++ b ∷ [])

-- The bits of an `f64`, so that their order as numbers is the order of the floats.
pub ordered_bits : ℕ → ℕ
ordered_bits bits = if leb (2 ^ 63) bits then invert bits else flip_sign bits

bits_of_ordered : ℕ → ℕ
bits_of_ordered ordered = if leb (2 ^ 63) ordered then flip_sign ordered else invert ordered

unfoldable pub bool_byte : Bool → ℕ
bool_byte true = 1
bool_byte false = 0

-- `Value::encode_into`
pub encode_into : Value → List ℕ → List ℕ
unfolding tag_of
encode_into null out = out ++ tag_of null ∷ []
encode_into (bool b) out = out ++ tag_of (bool b) ∷ bool_byte b ∷ []
encode_into (int i) out = (out ++ tag_of (int i) ∷ []) ++ be_bytes 8 (flip_sign (as_u64 i))
encode_into (float f) out = (out ++ tag_of (float f) ∷ []) ++ be_bytes 8 (ordered_bits f)
encode_into (text s) out = escape_into s (out ++ tag_of (text s) ∷ [])
encode_into (bytes b) out = escape_into b (out ++ tag_of (bytes b) ∷ [])

pub encode_key_into : List Value → List ℕ → List ℕ
encode_key_into [] out = out
encode_key_into (v ∷ values) out = encode_key_into values (encode_into v out)

pub encode_key : List Value → List ℕ
encode_key values = encode_key_into values []

-- `unescape`: the loop with the bytes read so far in front. The list is what `i` has not passed.
pub unescape : List ℕ → List ℕ → Option (List ℕ × List ℕ)
unescape out [] = none
unescape out (b ∷ []) = if b == 0x00 then some (out, []) else none
unescape out (b ∷ c ∷ rest) = elim (b == 0x00) [
  | true ↦ elim (c == 0xff) [
    | true ↦ unescape (out ++ 0x00 ∷ []) rest
    | false ↦ some (out, c ∷ rest)
  ]
  | false ↦ unescape (out ++ b ∷ []) (c ∷ rest)
]

decode_bool : List ℕ → Result KeyError (Value × List ℕ)
decode_bool [] = err truncated_bool
decode_bool (b ∷ rest) =
    if b == 0
    then ok (bool false, rest)
    else if b == 1
    then ok (bool true, rest)
    else err bad_bool_byte

decode_int : List ℕ → Result KeyError (Value × List ℕ)
decode_int rest = do
  ensure (leb 8 (length rest)) truncated_int
  ok (int (as_i64 (flip_sign (from_be 0 (take 8 rest)))), drop 8 rest)

decode_float : List ℕ → Result KeyError (Value × List ℕ)
decode_float rest = do
  ensure (leb 8 (length rest)) truncated_float
  ok (float (bits_of_ordered (from_be 0 (take 8 rest))), drop 8 rest)

decode_text : List ℕ → Result KeyError (Value × List ℕ)
decode_text rest = do
  (s, rest') ← ok_or (unescape [] rest) unterminated_text
  ensure (is_utf8 s) text_not_utf8
  ok (text s, rest')

decode_bytes : List ℕ → Result KeyError (Value × List ℕ)
decode_bytes rest = do (b, rest') ← ok_or (unescape [] rest) unterminated_bytes; ok (bytes b, rest')

pub decode_one : List ℕ → Result KeyError (Value × List ℕ)
decode_one [] = err empty
decode_one (tag ∷ rest) =
    if tag == 0x01
    then ok (null, rest)
    else if tag == 0x02
    then decode_bool rest
    else if tag == 0x03
    then decode_int rest
    else if tag == 0x04
    then decode_float rest
    else if tag == 0x05
    then decode_text rest
    else if tag == 0x06
    then decode_bytes rest
    else err unknown_tag

pub decode_loop : ℕ → List ℕ → List Value → Result KeyError (List Value)
decode_loop fuel [] out = ok out
decode_loop zero (b ∷ buf) out = err no_fuel
decode_loop (suc fuel) (b ∷ buf) out = do
  (value, rest) ← decode_one (b ∷ buf)
  decode_loop fuel rest (out ++ value ∷ [])

-- Each round takes a byte at least, so `length buf` rounds are enough.
pub decode_key : List ℕ → Result KeyError (List Value)
decode_key buf = decode_loop (length buf) buf []
