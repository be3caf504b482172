-- ===== src/Proto/Tests.antt =====
-- The protocol at concrete messages and rows.
use quanty_database.Prelude.{
  ℕ, inr, ◌≡◌, ◌↔◌, refl, true, some, List, [], ◌∷◌, ◌++◌, ◌≤◌, arith, All, map, take, drop,
}
use quanty_database.Prelude.Int.{negsuc}
use quanty_database.Prelude.Bytes.{is_utf8, ascii}
use quanty_database.Prelude.Result.{ok, err}
use quanty_database.Core.Value.{null, bool, int, text}
use quanty_database.Proto.Error.{too_large}
use quanty_database.Proto.Frame.{
  header_len, version, decode_header, frame, negotiate, accepted, refused, version_too_new,
  encode_client_hello, decode_client_hello, encode_server_hello, decode_server_hello,
}
use quanty_database.Proto.Frame.Laws.{
  frame_header_body, decode-encode_client_hello, decode-encode_server_hello, negotiate_lem,
}
use quanty_database.Proto.Value.{encoded_value_len, values_len, encoded_row_len}
use quanty_database.Proto.Message.{
  query, row_batch, client_body, client_decode, client_type, server_body, server_decode,
  server_type,
}
use quanty_database.Proto.Message.RoundTrip.{IsClientWire, client_round_trip}
use quanty_database.Proto.Message.Server.{IsServerWire, server_round_trip}
use quanty_database.Proto.Message.Batch.{Row, batch_rows, batch_budget}
use quanty_database.Proto.Message.Batch.Fits.{
  FitsBatch, IsSendable, IsUnsendable, IsBatch, concat, batch_rows_exact, batch_rows_refuses,
}

abbrev row : Row
row = int (negsuc 0) ∷ text (0xc3 ∷ 0xbc ∷ []) ∷ null ∷ bool true ∷ []

abbrev rows : List Row
rows = row ∷ [] ∷ row ∷ []

rows-IsServerWire : IsServerWire (row_batch rows)
unfolding is_utf8
rows-IsServerWire = (
  (
    (
      ((omega arith, tt), (((omega arith, refl), omega arith), ((tt, tt), ((tt, tt), tt)))),
      omega arith,
    ),
    (
      ((tt, omega arith)),
      (
        (
          ((omega arith, tt), (((omega arith, refl), omega arith), ((tt, tt), ((tt, tt), tt)))),
          omega arith,
        ),
        tt,
      ),
    ),
  ),
  omega arith,
)

query-IsClientWire : IsClientWire (query (ascii "get users"))
unfolding is_utf8
query-IsClientWire = (omega arith, refl)

client_round_trip_example :
    (body : List ℕ) × (client_body (query (ascii "get users")) ≡ ok body)
    × (client_decode (client_type (query (ascii "get users"))) body
        ≡ ok (query (ascii "get users")))
client_round_trip_example = client_round_trip (query (ascii "get users")) query-IsClientWire

server_round_trip_example :
    (body : List ℕ) × (server_body (row_batch rows) ≡ ok body)
    × (server_decode (server_type (row_batch rows)) body ≡ ok (row_batch rows))
server_round_trip_example = server_round_trip (row_batch rows) rows-IsServerWire

rows-FitsBatch : All FitsBatch rows
unfolding encoded_row_len values_len encoded_value_len
rows-FitsBatch = (refl, (refl, (refl, tt)))

batch_rows_exact_example :
    (bs : List (List Row)) × (batch_rows rows ≡ some (ok (map row_batch bs)))
    × (concat bs ≡ rows)
    × All IsBatch bs
batch_rows_exact_example = batch_rows_exact rows rows-FitsBatch

-- A row of 4097 values is over the width that the protocol allows.
abbrev nulls : ℕ → Row
nulls ℕ.zero = []
nulls (ℕ.suc n) = null ∷ nulls n

rows-IsSendable : All IsSendable rows
unfolding encoded_row_len values_len encoded_value_len
rows-IsSendable = omega arith

wide-IsUnsendable : IsUnsendable (nulls 4097)
wide-IsUnsendable = inr (omega arith)

batch_rows_refuses_example :
    batch_rows (rows ++ nulls 4097 ∷ rows)
    ≡ some (err (too_large (encoded_row_len (nulls 4097)) batch_budget))
batch_rows_refuses_example =
    batch_rows_refuses rows rows (nulls 4097) rows-IsSendable wide-IsUnsendable

frame_header_body_example :
    (f : List ℕ) × (frame 0x11 (ascii "abc") ≡ ok f)
    × (decode_header (take header_len f) ≡ ok (record { msg_type = 0x11; body_len = 3 }))
    × (drop header_len f ≡ ascii "abc")
frame_header_body_example = frame_header_body 0x11 (ascii "abc") (omega arith)

decode-encode_client_hello_example : decode_client_hello (encode_client_hello 513) ≡ ok 513
decode-encode_client_hello_example = decode-encode_client_hello 513 (omega arith)

decode-encode_server_hello_example :
    decode_server_hello (encode_server_hello (refused version_too_new))
    ≡ ok (refused version_too_new)
decode-encode_server_hello_example = decode-encode_server_hello (refused version_too_new) tt

negotiate_lem_example : (negotiate 1 ≡ accepted 1) ↔ (◌≡◌ {A = ℕ} 1 1 × (1 ≤ 1) × (1 ≤ version))
negotiate_lem_example = negotiate_lem 1 1
