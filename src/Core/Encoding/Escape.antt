-- ===== src/Core/Encoding/Escape.antt =====
-- For `escape_into` and `unescape` of crates/quantydb-core/src/encoding.rs.
use quanty_database.Prelude.{
  ℕ, ◌<◌, ◌≡◌, ◌≢◌, refl, some, List, [], ◌∷◌, ◌++◌, append_assoc, append-nil, arith, ◌==◌,
  if◌then◌else◌,
}
use quanty_database.Prelude.Bytes.{bytes_cmp, then_cmp}
use quanty_database.Core.Encoding.{escape_into, unescape}

-- The escaped form of a byte string, terminator included.
pub escape : List ℕ → List ℕ
escape [] = 0x00 ∷ []
escape (b ∷ bs) = if b == 0x00 then b ∷ 0xff ∷ escape bs else b ∷ escape bs

pub escape_into-escape : (bs out : List ℕ) → escape_into bs out ≡ out ++ escape bs
unfolding escape_into escape
escape_into-escape [] out = refl
escape_into-escape (b ∷ bs) out = ground (
  arith,
  escape_into-escape bs (out ++ b ∷ []),
  escape_into-escape bs (out ++ b ∷ 0xff ∷ []),
  append_assoc out (b ∷ []) (escape bs),
  append_assoc out (b ∷ 0xff ∷ []) (escape bs),
)

-- What follows an escaped string does not begin with 0xff.
abbrev pub LowHead : List ℕ → Type 0
LowHead [] = Unit
LowHead (b ∷ bs) = b < 0xff

unescape_plain :
    (b : ℕ) (out rest : List ℕ) → b ≢ 0 → unescape out (b ∷ rest) ≡ unescape (out ++ b ∷ []) rest
unfolding unescape
unescape_plain b out [] h = ground arith
unescape_plain b out (c ∷ rest) h = ground arith

unescape_zero :
    (out rest : List ℕ) → unescape out (0x00 ∷ 0xff ∷ rest) ≡ unescape (out ++ 0x00 ∷ []) rest
unfolding unescape
unescape_zero out rest = refl

unescape_end : (out rest : List ℕ) → LowHead rest → unescape out (0x00 ∷ rest) ≡ some (out, rest)
unfolding unescape
unescape_end out [] h = refl
unescape_end out (c ∷ rest) h = ground arith

pub unescape-escape :
    (bs out rest : List ℕ)
    → LowHead rest
    → unescape out (escape bs ++ rest) ≡ some (out ++ bs, rest)
unfolding escape
unescape-escape [] out rest h = rw append-nil (unescape_end out rest h)
unescape-escape (b ∷ bs) out rest h = ground (
  arith,
  unescape_plain b out (escape bs ++ rest),
  unescape_zero out (escape bs ++ rest),
  unescape-escape bs (out ++ b ∷ []) rest h,
  append_assoc out (b ∷ []) bs,
)

pub bytes_cmp-escape :
    (a b r s : List ℕ)
    → LowHead r
    → LowHead s
    → bytes_cmp (escape a ++ r) (escape b ++ s) ≡ then_cmp (bytes_cmp a b) (bytes_cmp r s)
unfolding bytes_cmp escape
bytes_cmp-escape [] [] r s hr hs = ground arith
bytes_cmp-escape [] (y ∷ ys) [] s hr hs = ground arith
bytes_cmp-escape [] (y ∷ ys) (c ∷ r) s hr hs = ground arith
bytes_cmp-escape (x ∷ xs) [] r [] hr hs = ground arith
bytes_cmp-escape (x ∷ xs) [] r (c ∷ s) hr hs = ground arith
bytes_cmp-escape (x ∷ xs) (y ∷ ys) r s hr hs = ground (arith, bytes_cmp-escape xs ys r s)
