-- ===== src/Proto/Frame/Laws.antt =====
-- For crates/quantydb-proto/src/frame.rs: headers, hellos and the negotiation.
use quanty_database.Prelude.{
  ℕ, ◌^◌, ◌≤◌, ◌<◌, ◌≡◌, ◌↔◌, refl, ap, List, [], ◌∷◌, ◌++◌, arith, length, take, drop,
}
use quanty_database.Prelude.Bytes.{le_bytes, from_le, from_le-le_bytes, bytes_eq_refl}
use quanty_database.Prelude.Result.{ok}
use quanty_database.Proto.Limits.{max_body}
use quanty_database.Proto.Reader
use quanty_database.Proto.Reader.{at, new-at, take-at, u8-at, u16-at}
use quanty_database.Proto.Writer
use quanty_database.Proto.Writer.{extend-wrote, new-wrote, finish-wrote}
use quanty_database.Proto.Frame.{
  header_len, encode_header, decode_header, version_too_old, version_too_new, bad_magic_bytes,
  refusal_byte, refusal_from_u8, magic, version, encode_client_hello, decode_client_hello,
  ServerHello, accepted, refused, encode_server_hello, decode_server_hello, negotiate, frame,
}

take_five : (v : ℕ) (body : List ℕ) → take 4 (le_bytes 4 v ++ body) ≡ le_bytes 4 v
take_five v body = unfold le_bytes in refl

pub decode-encode_header :
    (t n : ℕ)
    → n ≤ max_body
    → decode_header (encode_header (record { msg_type = t; body_len = n }))
      ≡ ok (record { msg_type = t; body_len = n })
unfolding encode_header decode_header
decode-encode_header t n h = rw header_len (ground arith)
  where
    header_len : from_le (take 4 (le_bytes 4 n)) ≡ n
    header_len = unfold le_bytes in from_le-le_bytes 4 n (omega arith)

frame_shape :
    (t : ℕ) (body : List ℕ)
    → length body ≤ max_body
    → frame t body ≡ ok (encode_header (record { msg_type = t; body_len = length body }) ++ body)
unfolding frame encode_header Writer.u8 Writer.u32
frame_shape t body h = rw (new-wrote, extend-wrote, extend-wrote, finish-wrote) (ground arith)

-- A body within the cap is framed, the first five bytes of the frame decode to the message type and
-- to the length of the body, and the body is what follows them.
pub frame_header_body :
    (t : ℕ) (body : List ℕ)
    → length body ≤ max_body
    → (f : List ℕ) × (frame t body ≡ ok f)
      × (decode_header (take header_len f) ≡ ok (record { msg_type = t; body_len = length body }))
      × (drop header_len f ≡ body)
frame_header_body t body h = (
  encode_header (record { msg_type = t; body_len = length body }) ++ body,
  frame_shape t body h,
  unfold encode_header in unfold le_bytes in decode-encode_header t (length body) h,
  unfold encode_header in unfold le_bytes in refl,
)

-- The hello of a client reads back, for every version that two bytes hold.
pub decode-encode_client_hello :
    (v : ℕ) → v < 2 ^ 16 → decode_client_hello (encode_client_hello v) ≡ ok v
unfolding encode_client_hello decode_client_hello Reader.raw
decode-encode_client_hello v h = rw (
  new-at (magic ++ (le_bytes 2 v ++ 0 ∷ [])),
  take-at 6 [] magic (le_bytes 2 v ++ 0 ∷ []) refl,
  bytes_eq_refl magic,
  u16-at v magic (0 ∷ []) h,
  u8-at 0 (magic ++ le_bytes 2 v) [],
)

abbrev pub IsServerHello : ServerHello → Type 0
IsServerHello (accepted v) = v < 2 ^ 16
IsServerHello (refused r) = Unit

-- The answer of the server reads back.
pub decode-encode_server_hello :
    (s : ServerHello) → IsServerHello s → decode_server_hello (encode_server_hello s) ≡ ok s
unfolding encode_server_hello decode_server_hello
decode-encode_server_hello (accepted v) h =
    ap (λ t. ok (accepted t)) (unfold le_bytes in from_le-le_bytes 2 v h)
decode-encode_server_hello (refused version_too_old) h = unfold refusal_byte refusal_from_u8 in refl
decode-encode_server_hello (refused version_too_new) h = unfold refusal_byte refusal_from_u8 in refl
decode-encode_server_hello (refused bad_magic_bytes) h = unfold refusal_byte refusal_from_u8 in refl

-- The server accepts exactly the versions from 1 to its own, and then with the version that the
-- client asked for.
pub negotiate_lem :
    (asked v : ℕ) → (negotiate asked ≡ accepted v) ↔ ((v ≡ asked) × (1 ≤ asked) × (asked ≤ version))
unfolding negotiate
negotiate_lem asked v = (λ e. ground arith, λ (e, lo, hi). ground arith)
