-- ===== src/Proto/Frame.antt =====
-- crates/quantydb-proto/src/frame.rs: frame headers and the handshake. A fixed array is a list.
pub mod Laws
use quanty_database.Prelude.{
  ℕ, zero, suc, ◌+◌, ◌^◌, ◌≤◌, ◌<◌, ◌≡◌, refl, Bool, true, false, not, Option, none, some, List, [],
  ◌∷◌, ◌++◌, arith, ltb, ◌==◌, if◌then◌else◌, length, take, drop,
}
use Prim.Native.Nat.{min}
use quanty_database.Prelude.Bytes.{le_bytes, from_le, bytes_eq}
use quanty_database.Prelude.Result.{Result, ok, err, ◌>>=◌, ◌>>◌, ensure, ok_or}
use quanty_database.Proto.Error.{
  ProtoError, too_large, bad_magic, malformed, reserved_byte, refusal_reason, handshake_status,
}
use quanty_database.Proto.Limits.{max_body}
use quanty_database.Proto.Reader
use quanty_database.Proto.Writer

abbrev pub header_len : ℕ
header_len = 5

abbrev pub version : ℕ
version = 1

-- "QUANTY"
abbrev pub magic : List ℕ
magic = b'Q' ∷ b'U' ∷ b'A' ∷ b'N' ∷ b'T' ∷ b'Y' ∷ []

abbrev pub client_hello_len : ℕ
client_hello_len = 9

-- `bytes[i]`
abbrev pub byte_at : List ℕ → ℕ → ℕ
byte_at [] i = 0
byte_at (b ∷ bs) zero = b
byte_at (b ∷ bs) (suc i) = byte_at bs i

pub record FrameHeader : Type 0 where
  pub msg_type : ℕ
  pub body_len : ℕ

unfoldable pub encode_header : FrameHeader → List ℕ
encode_header h = h.msg_type ∷ le_bytes 4 h.body_len

unfoldable pub decode_header : List ℕ → Result ProtoError FrameHeader
decode_header bytes =
    let body_len = from_le (take 4 (drop 1 bytes)) in
    if ltb max_body body_len
    then err (too_large body_len max_body)
    else ok (record { msg_type = byte_at bytes 0; body_len = body_len })

pub data Refusal : Type 0 where
  version_too_old version_too_new bad_magic_bytes : Refusal

unfoldable pub refusal_byte : Refusal → ℕ
refusal_byte version_too_old = 0x01
refusal_byte version_too_new = 0x02
refusal_byte bad_magic_bytes = 0x03

unfoldable pub refusal_from_u8 : ℕ → Option Refusal
refusal_from_u8 v =
    if v == 0x01
    then some version_too_old
    else if v == 0x02
    then some version_too_new
    else if v == 0x03
    then some bad_magic_bytes
    else none

-- `ClientHello`, of which the version is the only field.
unfoldable pub encode_client_hello : ℕ → List ℕ
encode_client_hello version' = magic ++ (le_bytes 2 version' ++ 0 ∷ [])

unfoldable pub decode_client_hello : List ℕ → Result ProtoError ℕ
decode_client_hello bytes = do
  (front, r) ← Reader.raw (length magic) (Reader.new bytes)
  ensure (bytes_eq front magic) bad_magic
  (version', r') ← Reader.u16 r
  (reserved, r'') ← Reader.u8 r'
  ensure (reserved == 0) (malformed reserved_byte)
  ok version'

pub data ServerHello : Type 0 where
  accepted : ℕ → ServerHello
  refused : Refusal → ServerHello

unfoldable pub encode_server_hello : ServerHello → List ℕ
encode_server_hello (accepted version') = 0x01 ∷ (le_bytes 2 version' ++ 0 ∷ [])
encode_server_hello (refused r) = 0x00 ∷ 0 ∷ 0 ∷ refusal_byte r ∷ []

unfoldable pub decode_server_hello : List ℕ → Result ProtoError ServerHello
decode_server_hello bytes =
    if byte_at bytes 0 == 0x01
    then ok (accepted (from_le (take 2 (drop 1 bytes))))
    else if byte_at bytes 0 == 0x00
    then (do
      r ← ok_or (refusal_from_u8 (byte_at bytes 3)) (malformed refusal_reason)
      ok (refused r))
    else err (malformed handshake_status)

-- `negotiate`, on the version that the hello asks for.
unfoldable pub negotiate : ℕ → ServerHello
negotiate asked =
    if asked == 0
    then refused version_too_old
    else if ltb version asked
    then refused version_too_new
    else accepted (min asked version)

unfoldable pub frame : ℕ → List ℕ → Result ProtoError (List ℕ)
frame msg_type body =
    if ltb max_body (length body) then err (too_large (length body) max_body) else (do
      out ← Writer.finish (Writer.u32 (length body) (Writer.u8 msg_type Writer.new))
      ok (out ++ body))
