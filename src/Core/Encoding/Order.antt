-- ===== src/Core/Encoding/Order.antt =====
-- For crates/quantydb-core/src/encoding.rs: the logical order of tuples, and the bytes of keys.
use Prim.Native.Nat.Ordering.{lt, eq, gt}
use quanty_database.Prelude.{
  ℕ, ◌+◌, ◌^◌, ◌≡◌, refl, sym, ap, ◌∙◌, Bool, true, false, List, [], ◌∷◌, ◌++◌, append_assoc,
  append-nil, arith, ltb, if◌then◌else◌, compare, Ordering, All,
}
use quanty_database.Prelude.Int.{ℤ, pos, negsuc, pos_part, neg_part}
use quanty_database.Prelude.Bytes.{IsU64, be_bytes, bytes_cmp, then_cmp, bytes_cmp-be_bytes}
use quanty_database.Core.Value.{
  Value, null, bool, int, float, text, bytes, IsValue, IsI64, as_u64, flip_sign,
}
use quanty_database.Core.Encoding.{
  tag_of, ordered_bits, bool_byte, encode_into, encode_key_into, encode_key,
}
use quanty_database.Core.Encoding.Escape.{escape, escape_into-escape, LowHead, bytes_cmp-escape}

-- The logical order, defined without the encoding (as `logical_cmp` of the tests does): integers
-- by value, floats by sign and magnitude, which is `f64::total_cmp`, strings by bytes, and values
-- of two types by the rank of the type.
unfoldable pub int_cmp : ℤ → ℤ → Ordering
int_cmp a b = compare (pos_part a + neg_part b) (pos_part b + neg_part a)

pub total_cmp : ℕ → ℕ → Ordering
total_cmp a b =
    if ltb a (2 ^ 63)
    then (if ltb b (2 ^ 63) then compare a b else gt)
    else if ltb b (2 ^ 63)
    then lt
    else compare b a

pub bool_cmp : Bool → Bool → Ordering
bool_cmp false true = lt
bool_cmp true false = gt
bool_cmp _ _ = eq

pub rank : Value → ℕ
rank null = 1
rank (bool b) = 2
rank (int i) = 3
rank (float f) = 4
rank (text s) = 5
rank (bytes b) = 6

unfoldable pub value_cmp : Value → Value → Ordering
value_cmp (bool p) (bool q) = bool_cmp p q
value_cmp (int p) (int q) = int_cmp p q
value_cmp (float p) (float q) = total_cmp p q
value_cmp (text p) (text q) = bytes_cmp p q
value_cmp (bytes p) (bytes q) = bytes_cmp p q
value_cmp x y = compare (rank x) (rank y)

unfoldable pub logical_cmp : List Value → List Value → Ordering
logical_cmp [] [] = eq
logical_cmp [] (y ∷ ys) = lt
logical_cmp (x ∷ xs) [] = gt
logical_cmp (x ∷ xs) (y ∷ ys) = then_cmp (value_cmp x y) (logical_cmp xs ys)

-- The encoding of one value, without the buffer that it is appended to.
unfoldable pub payload : Value → List ℕ
payload null = []
payload (bool b) = bool_byte b ∷ []
payload (int i) = be_bytes 8 (flip_sign (as_u64 i))
payload (float f) = be_bytes 8 (ordered_bits f)
payload (text s) = escape s
payload (bytes b) = escape b

pub encode_into-payload :
    (v : Value) (out : List ℕ) → encode_into v out ≡ out ++ tag_of v ∷ payload v
unfolding encode_into payload
encode_into-payload null out = refl
encode_into-payload (bool b) out = refl
encode_into-payload (int i) out = append_assoc out (tag_of (int i) ∷ []) (payload (int i))
encode_into-payload (float f) out = append_assoc out (tag_of (float f) ∷ []) (payload (float f))
encode_into-payload (text s) out =
    escape_into-escape s (out ++ tag_of (text s) ∷ []) ∙ append_assoc out (tag_of (text s) ∷ []) _
encode_into-payload (bytes b) out =
    escape_into-escape b (out ++ tag_of (bytes b) ∷ []) ∙ append_assoc out (tag_of (bytes b) ∷ []) _

-- All encodings one after another.
unfoldable pub encoded : List Value → List ℕ
encoded [] = []
encoded (v ∷ vs) = tag_of v ∷ (payload v ++ encoded vs)

pub encode_key_into-encoded :
    (vs : List Value) (out : List ℕ) → encode_key_into vs out ≡ out ++ encoded vs
unfolding encode_key_into encoded
encode_key_into-encoded [] out = sym (append-nil out)
encode_key_into-encoded (v ∷ vs) out =
    rw (encode_key_into-encoded vs (encode_into v out), encode_into-payload v out)
      (append_assoc out (tag_of v ∷ payload v) (encoded vs))

pub encode_key-encoded : (vs : List Value) → encode_key vs ≡ encoded vs
unfolding encode_key
encode_key-encoded vs = encode_key_into-encoded vs []

pub encoded-LowHead : (vs : List Value) → LowHead (encoded vs)
unfolding encoded tag_of
encoded-LowHead [] = tt
encoded-LowHead (null ∷ vs) = omega arith
encoded-LowHead (bool b ∷ vs) = omega arith
encoded-LowHead (int i ∷ vs) = omega arith
encoded-LowHead (float f ∷ vs) = omega arith
encoded-LowHead (text s ∷ vs) = omega arith
encoded-LowHead (bytes b ∷ vs) = omega arith

compare-as_u64 :
    (a b : ℤ)
    → IsI64 a
    → IsI64 b
    → compare (flip_sign (as_u64 a)) (flip_sign (as_u64 b)) ≡ int_cmp a b
unfolding as_u64 int_cmp
compare-as_u64 (pos m) (pos n) ha hb = ground arith
compare-as_u64 (pos m) (negsuc n) ha hb = ground arith
compare-as_u64 (negsuc m) (pos n) ha hb = ground arith
compare-as_u64 (negsuc m) (negsuc n) ha hb = ground arith

compare-ordered_bits :
    (a b : ℕ) → IsU64 a → IsU64 b → compare (ordered_bits a) (ordered_bits b) ≡ total_cmp a b
unfolding ordered_bits total_cmp
compare-ordered_bits a b ha hb = ground arith

ordered_bits-IsU64 : (a : ℕ) → IsU64 a → IsU64 (ordered_bits a)
unfolding ordered_bits
ordered_bits-IsU64 a h = ground arith

-- The order of two encodings is decided by the values, and by what follows where they are equal.
bytes_cmp-payload :
    (x y : Value) (r s : List ℕ)
    → IsValue x
    → IsValue y
    → LowHead r
    → LowHead s
    → bytes_cmp (tag_of x ∷ (payload x ++ r)) (tag_of y ∷ (payload y ++ s))
      ≡ then_cmp (value_cmp x y) (bytes_cmp r s)
unfolding bytes_cmp tag_of payload value_cmp rank
bytes_cmp-payload null null r s hx hy hr hs = refl
bytes_cmp-payload (bool p) (bool q) r s hx hy hr hs = unfold bool_byte bool_cmp in ground arith
bytes_cmp-payload (int p) (int q) r s hx hy hr hs =
    bytes_cmp-be_bytes 8 (flip_sign (as_u64 p)) (flip_sign (as_u64 q)) r s (omega arith)
      (omega arith)
    ∙ ap (λ o. then_cmp o (bytes_cmp r s)) (compare-as_u64 p q hx hy)
bytes_cmp-payload (float p) (float q) r s hx hy hr hs =
    bytes_cmp-be_bytes 8 (ordered_bits p) (ordered_bits q) r s (ordered_bits-IsU64 p hx)
      (ordered_bits-IsU64 q hy)
    ∙ ap (λ o. then_cmp o (bytes_cmp r s)) (compare-ordered_bits p q hx hy)
bytes_cmp-payload (text p) (text q) r s hx hy hr hs = bytes_cmp-escape p q r s hr hs
bytes_cmp-payload (bytes p) (bytes q) r s hx hy hr hs = bytes_cmp-escape p q r s hr hs
bytes_cmp-payload _ _ r s hx hy hr hs = refl

bytes_cmp-encoded :
    (xs ys : List Value)
    → All IsValue xs
    → All IsValue ys
    → bytes_cmp (encoded xs) (encoded ys) ≡ logical_cmp xs ys
unfolding encoded logical_cmp
bytes_cmp-encoded [] [] hx hy = unfold bytes_cmp in refl
bytes_cmp-encoded [] (y ∷ ys) hx hy = unfold bytes_cmp in refl
bytes_cmp-encoded (x ∷ xs) [] hx hy = unfold bytes_cmp in refl
bytes_cmp-encoded (x ∷ xs) (y ∷ ys) (hx, hxs) (hy, hys) =
    bytes_cmp-payload x y (encoded xs) (encoded ys) hx hy (encoded-LowHead xs) (encoded-LowHead ys)
    ∙ ap (then_cmp (value_cmp x y)) (bytes_cmp-encoded xs ys hxs hys)

-- Comparing two encoded keys byte by byte gives the logical order of the tuples, for tuples of
-- values that the types of the program admit.
pub encode_key-order :
    (xs ys : List Value)
    → All IsValue xs
    → All IsValue ys
    → bytes_cmp (encode_key xs) (encode_key ys) ≡ logical_cmp xs ys
encode_key-order xs ys hx hy =
    rw (encode_key-encoded xs, encode_key-encoded ys) (bytes_cmp-encoded xs ys hx hy)

pub encoded-append : (xs ys : List Value) → encoded (xs ++ ys) ≡ encoded xs ++ encoded ys
unfolding encoded
encoded-append [] ys = refl
encoded-append (x ∷ xs) ys =
    rw (encoded-append xs ys, append_assoc (payload x) (encoded xs) (encoded ys))
