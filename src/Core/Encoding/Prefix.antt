-- ===== src/Core/Encoding/Prefix.antt =====
-- For `encode_key` of crates/quantydb-core/src/encoding.rs: which keys begin with the key of a tuple.
use quanty_database.Prelude.{
  ℕ, ◌≡◌, ◌↔◌, refl, sym, ap, ◌∙◌, List, [], ◌∷◌, ◌++◌, append_assoc, All,
}
use quanty_database.Prelude.Result.{ok-injective}
use quanty_database.Core.Value.{Value, IsValue}
use quanty_database.Core.Encoding.{tag_of, encode_key}
use quanty_database.Core.Encoding.Escape.{LowHead}
use quanty_database.Core.Encoding.Order.{
  payload, encoded, encode_key-encoded, encoded-LowHead, encoded-append,
}
use quanty_database.Core.Encoding.RoundTrip.{decode_one-payload}

encoded_LowHead : (vs : List Value) (rest : List ℕ) → LowHead rest → LowHead (encoded vs ++ rest)
unfolding encoded
encoded_LowHead [] rest h = h
encoded_LowHead (v ∷ vs) rest h = encoded-LowHead (v ∷ vs)

-- The first value and what follows it can be told from the bytes.
first_same :
    (x z : Value) (after after' : List ℕ)
    → IsValue x
    → IsValue z
    → LowHead after
    → LowHead after'
    → tag_of z ∷ (payload z ++ after') ≡ tag_of x ∷ (payload x ++ after)
    → (z ≡ x) × (after' ≡ after)
first_same x z after after' hx hz low low' e =
    let same =
      ok-injective (z, after') (x, after)
        (sym (decode_one-payload z after' hz low') ∙ rw e (decode_one-payload x after hx low)) in
    (ap (λ p. p.0) same, ap (λ p. p.1) same)

encoded-split :
    (xs zs : List Value) (rest : List ℕ)
    → All IsValue xs
    → All IsValue zs
    → LowHead rest
    → encoded zs ≡ encoded xs ++ rest
    → (ys : List Value) × (zs ≡ xs ++ ys)
unfolding encoded
encoded-split [] zs rest hx hz low e = (zs, refl)
encoded-split (x ∷ xs) [] rest hx hz low e = absurd (cc e)
encoded-split (x ∷ xs) (z ∷ zs) rest (hx, hxs) (hz, hzs) low e =
    let (same, tails) =
      first_same x z (encoded xs ++ rest) (encoded zs) hx hz (encoded_LowHead xs rest low)
        (encoded-LowHead zs)
        (e ∙ ap (λ t. tag_of x ∷ t) (append_assoc (payload x) (encoded xs) rest)) in
    let (ys, split) = encoded-split xs zs rest hxs hzs low tails in (ys, rw (same, split) refl)

-- What follows the key of a tuple, where a value can end: nothing, or a byte below 0xff.
pub record Follows (xs zs : List Value) : Type 0 where
  pub rest : List ℕ
  pub low : LowHead rest
  pub bytes : encode_key zs ≡ encode_key xs ++ rest

-- The key of a tuple begins with the key of another, with nothing or a byte below 0xff next,
-- exactly when the tuple begins with the other. Both are tuples of values that the types of the
-- program admit.
pub encode_key-prefix :
    (xs zs : List Value)
    → All IsValue xs
    → All IsValue zs
    → Follows xs zs ↔ ((ys : List Value) × (zs ≡ xs ++ ys))
encode_key-prefix xs zs hx hz = (
  λ f.
      encoded-split xs zs f.rest hx hz f.low
        (sym (encode_key-encoded zs) ∙ f.bytes ∙ ap (λ t. t ++ f.rest) (encode_key-encoded xs)),
  λ (ys, e). record {
    rest = encoded ys;
    low = encoded-LowHead ys;
    bytes = rw (e, encode_key-encoded (xs ++ ys), encode_key-encoded xs) (encoded-append xs ys);
  },
)
