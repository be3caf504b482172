-- ===== src/Core/Encoding/Tests.antt =====
-- Concrete keys, and the theorems at concrete tuples.
use Prim.Native.Nat.Ordering.{lt}
use quanty_database.Prelude.{◌≡◌, ◌≢◌, ◌↔◌, refl, List, [], ◌∷◌, ◌++◌, arith, All}
use quanty_database.Prelude.Int.{negsuc}
use quanty_database.Prelude.Bytes.{is_utf8, bytes_cmp, be_bytes}
use quanty_database.Prelude.Result.{ok, err}
use quanty_database.Core.Value.{Value, int, text, bytes, IsValue, as_u64}
use quanty_database.Core.Encoding.{
  no_fuel, bad_bool_byte, text_not_utf8, encode_into, escape_into, encode_key_into, encode_key,
  decode_one, decode_loop, decode_key, decode_bool, decode_text, unescape,
}
use quanty_database.Core.Encoding.Order.{logical_cmp, value_cmp, int_cmp, encode_key-order}
use quanty_database.Core.Encoding.RoundTrip.{decode_key-encode_key, decode_key-ne-no_fuel}
use quanty_database.Core.Encoding.Prefix.{Follows, encode_key-prefix}

abbrev low : List Value
low = int (negsuc 4) ∷ text (0x61 ∷ 0x00 ∷ []) ∷ []

abbrev high : List Value
high = int (negsuc 4) ∷ text (0x61 ∷ 0x00 ∷ 0x62 ∷ []) ∷ bytes (0x00 ∷ 0xff ∷ []) ∷ []

low-IsValue : All IsValue low
unfolding is_utf8
low-IsValue = (omega arith, ((omega arith, refl), tt))

high-IsValue : All IsValue high
unfolding is_utf8
high-IsValue = (omega arith, ((omega arith, refl), (omega arith, tt)))

-- -5 is 0x7fff_ffff_ffff_fffb with the sign flipped.
key_of_low :
    encode_key low
    ≡ 0x03 ∷ 0x7f ∷ 0xff ∷ 0xff ∷ 0xff ∷ 0xff ∷ 0xff ∷ 0xff ∷ 0xfb ∷ 0x05 ∷ 0x61 ∷ 0x00 ∷ 0xff
      ∷ 0x00 ∷ []
unfolding encode_key encode_key_into encode_into escape_into as_u64 be_bytes
key_of_low = refl

bool_refused : decode_key (0x02 ∷ 7 ∷ []) ≡ err bad_bool_byte
unfolding decode_key decode_loop decode_one decode_bool
bool_refused = refl

invalid_utf8 : decode_key (0x05 ∷ 0xc0 ∷ 0x00 ∷ []) ≡ err text_not_utf8
unfolding decode_key decode_loop decode_one decode_text unescape is_utf8
invalid_utf8 = refl

encode_key-order_example : bytes_cmp (encode_key low) (encode_key high) ≡ logical_cmp low high
encode_key-order_example = encode_key-order low high low-IsValue high-IsValue

low_below_high : logical_cmp low high ≡ lt
unfolding logical_cmp value_cmp int_cmp bytes_cmp
low_below_high = refl

-- The key of a shorter text is in front of a longer one's, and the longer one is no extension.
escaped_next :
    encode_key (text (0x61 ∷ 0 ∷ 0x62 ∷ []) ∷ [])
    ≡ encode_key (text (0x61 ∷ []) ∷ []) ++ 0xff ∷ 0x62 ∷ 0 ∷ []
unfolding encode_key encode_key_into encode_into escape_into
escaped_next = refl

both-IsValue : All IsValue (low ++ high)
unfolding is_utf8
both-IsValue =
    (omega arith, ((omega arith, refl), (omega arith, ((omega arith, refl), (omega arith, tt)))))

encode_key-prefix_example :
    Follows low (low ++ high) ↔ ((ys : List Value) × (low ++ high ≡ low ++ ys))
encode_key-prefix_example = encode_key-prefix low (low ++ high) low-IsValue both-IsValue

decode_key-encode_key_example : decode_key (encode_key high) ≡ ok high
decode_key-encode_key_example = decode_key-encode_key high high-IsValue

decode_key-ne-no_fuel_example : decode_key (0x03 ∷ 1 ∷ 2 ∷ []) ≢ err no_fuel
decode_key-ne-no_fuel_example = decode_key-ne-no_fuel (0x03 ∷ 1 ∷ 2 ∷ [])
