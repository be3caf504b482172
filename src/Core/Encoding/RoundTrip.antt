-- ===== src/Core/Encoding/RoundTrip.antt =====
-- For `decode_key` and `encode_key` of crates/quantydb-core/src/encoding.rs.
use quanty_database.Prelude.{
  ℕ, zero, suc, ◌≤◌, ◌<◌, ◌≡◌, ◌≢◌, refl, inl, inr, true, false, some, Option-cases, List, [], ◌∷◌,
  ◌++◌, append_assoc, append-nil, arith, leb, All, length, take, drop, length-append, length-drop,
}
use quanty_database.Prelude.Bytes.{IsU64, be_bytes, from_be, from_be-be_bytes, length-be_bytes}
use quanty_database.Prelude.Result.{ok, err, Result-cases}
use quanty_database.Core.Value.{
  Value, null, bool, int, float, text, bytes, IsValue, as_u64, as_u64-IsU64, as_i64-as_u64,
  flip_sign,
}
use quanty_database.Core.Encoding.{
  no_fuel, tag_of, ordered_bits, bits_of_ordered, bool_byte, encode_key, decode_bool, decode_int,
  decode_float, decode_text, decode_bytes, decode_one, decode_loop, decode_key, unescape,
}
use quanty_database.Core.Encoding.Escape.{LowHead, unescape-escape}
use quanty_database.Core.Encoding.Order.{payload, encoded, encode_key-encoded, encoded-LowHead}

-- Eight bytes in front of a rest.
take-be_bytes : (v : ℕ) (rest : List ℕ) → take 8 (be_bytes 8 v ++ rest) ≡ be_bytes 8 v
take-be_bytes v rest = unfold be_bytes in refl

drop-be_bytes : (v : ℕ) (rest : List ℕ) → drop 8 (be_bytes 8 v ++ rest) ≡ rest
drop-be_bytes v rest = unfold be_bytes in refl

has_eight : (v : ℕ) (rest : List ℕ) → leb 8 (length (be_bytes 8 v ++ rest)) ≡ true
has_eight v rest = ground (arith, length-append (be_bytes 8 v) rest, length-be_bytes 8 v)

read_eight : (v : ℕ) (rest : List ℕ) → IsU64 v → from_be 0 (take 8 (be_bytes 8 v ++ rest)) ≡ v
read_eight v rest h = rw take-be_bytes (omega (arith, from_be-be_bytes 8 0 v h))

flip_flip : (w : ℕ) → IsU64 w → flip_sign (flip_sign w) ≡ w
flip_flip w h = omega arith

bits_of_ordered-ordered_bits : (w : ℕ) → IsU64 w → bits_of_ordered (ordered_bits w) ≡ w
unfolding bits_of_ordered ordered_bits
bits_of_ordered-ordered_bits w h = ground arith

ordered_bits-lt : (w : ℕ) → IsU64 w → IsU64 (ordered_bits w)
unfolding ordered_bits
ordered_bits-lt w h = ground arith

pub decode_one-payload :
    (v : Value) (rest : List ℕ)
    → IsValue v
    → LowHead rest
    → decode_one (tag_of v ∷ (payload v ++ rest)) ≡ ok (v, rest)
unfolding decode_one tag_of payload
decode_one-payload null rest hv hr = refl
decode_one-payload (bool true) rest hv hr = unfold decode_bool bool_byte in refl
decode_one-payload (bool false) rest hv hr = unfold decode_bool bool_byte in refl
decode_one-payload (int i) rest hv hr =
    unfold decode_int in
    rw (
      has_eight (flip_sign (as_u64 i)) rest,
      read_eight (flip_sign (as_u64 i)) rest (omega arith),
      drop-be_bytes (flip_sign (as_u64 i)) rest,
      flip_flip (as_u64 i) (as_u64-IsU64 i hv),
      as_i64-as_u64 i hv,
    )
decode_one-payload (float f) rest hv hr =
    unfold decode_float in
    rw (
      has_eight (ordered_bits f) rest,
      read_eight (ordered_bits f) rest (ordered_bits-lt f hv),
      drop-be_bytes (ordered_bits f) rest,
      bits_of_ordered-ordered_bits f hv,
    )
decode_one-payload (text s) rest (_, valid) hr =
    unfold decode_text in rw (unescape-escape s [] rest hr, valid)
decode_one-payload (bytes b) rest hv hr = unfold decode_bytes in rw (unescape-escape b [] rest hr)

decode_loop-encoded :
    (vs : List Value) (fuel : ℕ) (out : List Value)
    → All IsValue vs
    → length (encoded vs) ≤ fuel
    → decode_loop fuel (encoded vs) out ≡ ok (out ++ vs)
unfolding decode_loop encoded
decode_loop-encoded [] zero out hv h = rw append-nil
decode_loop-encoded [] (suc fuel) out hv h = rw append-nil
decode_loop-encoded (v ∷ vs) zero out hv h = absurd (omega arith)
decode_loop-encoded (v ∷ vs) (suc fuel) out (hv, hvs) h = rw (
  decode_one-payload v (encoded vs) hv (encoded-LowHead vs),
  decode_loop-encoded vs fuel (out ++ v ∷ []) hvs
      (omega (arith, length-append (payload v) (encoded vs))),
  append_assoc out (v ∷ []) vs,
)

-- `decode_key` returns exactly the tuple that was encoded, for values that the types admit.
pub decode_key-encode_key : (vs : List Value) → All IsValue vs → decode_key (encode_key vs) ≡ ok vs
unfolding decode_key
decode_key-encode_key vs h =
    rw (encode_key-encoded vs) (decode_loop-encoded vs (length (encoded vs)) [] h (omega arith))

-- What `unescape` leaves is shorter than its input.
unescape_shorter :
    (out buf b rest : List ℕ) → unescape out buf ≡ some (b, rest) → length rest < length buf
unfolding unescape
unescape_shorter out [] b rest e = cc
unescape_shorter out (x ∷ []) b rest e = ground arith
unescape_shorter out (x ∷ y ∷ buf) b rest e = ground (
  arith,
  unescape_shorter (out ++ 0x00 ∷ []) buf b rest,
  unescape_shorter (out ++ x ∷ []) (y ∷ buf) b rest,
)

decode_bool_shorter :
    (buf : List ℕ) {v : Value} {rest : List ℕ}
    → decode_bool buf ≡ ok (v, rest)
    → length rest ≤ length buf
unfolding decode_bool
decode_bool_shorter [] e = cc
decode_bool_shorter (b ∷ buf) e = ground arith

decode_int_shorter :
    (buf : List ℕ) {v : Value} {rest : List ℕ}
    → decode_int buf ≡ ok (v, rest)
    → length rest ≤ length buf
unfolding decode_int
decode_int_shorter buf e = ground (arith, length-drop 8 buf)

decode_float_shorter :
    (buf : List ℕ) {v : Value} {rest : List ℕ}
    → decode_float buf ≡ ok (v, rest)
    → length rest ≤ length buf
unfolding decode_float
decode_float_shorter buf e = ground (arith, length-drop 8 buf)

decode_text_shorter :
    (buf : List ℕ) {v : Value} {rest : List ℕ}
    → decode_text buf ≡ ok (v, rest)
    → length rest ≤ length buf
unfolding decode_text
decode_text_shorter buf {rest = rest} e = elim (Option-cases (unescape [] buf)) [
  | inl p ↦ ground arith
  | inr ((s, left), p) ↦ ground (arith, unescape_shorter [] buf s left p)
]

decode_bytes_shorter :
    (buf : List ℕ) {v : Value} {rest : List ℕ}
    → decode_bytes buf ≡ ok (v, rest)
    → length rest ≤ length buf
unfolding decode_bytes
decode_bytes_shorter buf {rest = rest} e = elim (Option-cases (unescape [] buf)) [
  | inl p ↦ ground arith
  | inr ((s, left), p) ↦ ground (arith, unescape_shorter [] buf s left p)
]

decode_one_shorter :
    (buf : List ℕ) (v : Value) (rest : List ℕ)
    → decode_one buf ≡ ok (v, rest)
    → length rest < length buf
unfolding decode_one
decode_one_shorter [] v rest e = cc
decode_one_shorter (t ∷ buf) v rest e = ground (
  arith,
  decode_bool_shorter buf {v = v} {rest = rest},
  decode_int_shorter buf {v = v} {rest = rest},
  decode_float_shorter buf {v = v} {rest = rest},
  decode_text_shorter buf {v = v} {rest = rest},
  decode_bytes_shorter buf {v = v} {rest = rest},
)

decode_one-ne-no_fuel : (buf : List ℕ) → decode_one buf ≢ err no_fuel
unfolding decode_one decode_bool decode_int decode_float decode_text decode_bytes
decode_one-ne-no_fuel [] e = cc
decode_one-ne-no_fuel (t ∷ []) e = ground arith
decode_one-ne-no_fuel (t ∷ b ∷ buf) e = ground arith

decode_loop-ne-no_fuel :
    (fuel : ℕ) (buf : List ℕ) (out : List Value)
    → length buf ≤ fuel
    → decode_loop fuel buf out ≢ err no_fuel
unfolding decode_loop
decode_loop-ne-no_fuel fuel [] out h = λ e. cc
decode_loop-ne-no_fuel zero (b ∷ buf) out h = absurd (omega arith)
decode_loop-ne-no_fuel (suc fuel) (b ∷ buf) out h = elim (Result-cases (decode_one (b ∷ buf))) [
  | inl ((v, rest), p) ↦ rw p (
      decode_loop-ne-no_fuel fuel rest (out ++ v ∷ [])
        (omega (arith, decode_one_shorter (b ∷ buf) v rest p)))
  | inr (x, p) ↦ rw p (λ e. decode_one-ne-no_fuel (b ∷ buf) (cc))
]

-- The loop of `decode_key` ends on every input: the decoder answers with a tuple or with one of the
-- errors of the code, whatever the bytes are.
pub decode_key-ne-no_fuel : (buf : List ℕ) → decode_key buf ≢ err no_fuel
unfolding decode_key
decode_key-ne-no_fuel buf = decode_loop-ne-no_fuel (length buf) buf [] (omega arith)
