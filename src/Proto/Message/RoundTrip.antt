-- ===== src/Proto/Message/RoundTrip.antt =====
-- For `ClientMessage` of crates/quantydb-proto/src/message.rs: requests, written and decoded.
use quanty_database.Prelude.{ℕ, ◌≤◌, ◌≡◌, true, List, [], append-nil, length}
use quanty_database.Prelude.Bytes.{is_utf8}
use quanty_database.Prelude.Result.{ok}
use quanty_database.Proto.Limits.{max_body}
use quanty_database.Proto.Reader
use quanty_database.Proto.Reader.{Reader, at, new-at, finish-at}
use quanty_database.Proto.Writer.{prefixed, new-wrote, finish-wrote, bytes-wrote, text-wrote}
use quanty_database.Proto.Value.RoundTrip.{bytes-prefixed, text-prefixed}
use quanty_database.Proto.Message.{
  ClientMessage, auth, query, query_sql, close, client_type, client_body, client_decode,
}

-- A text that the protocol can carry.
abbrev pub IsWireText : List ℕ → Type 0
IsWireText s = (length s ≤ max_body) × (is_utf8 s ≡ true)

-- A message within the limits of the protocol.
abbrev pub IsClientWire : ClientMessage → Type 0
IsClientWire (auth t) = length t ≤ max_body
IsClientWire (query s) = IsWireText s
IsClientWire (query_sql s) = IsWireText s
IsClientWire close = Unit

client_wire : ClientMessage → List ℕ
client_wire (auth t) = prefixed t
client_wire (query s) = prefixed s
client_wire (query_sql s) = prefixed s
client_wire close = []

client_body-wire : (m : ClientMessage) → IsClientWire m → client_body m ≡ ok (client_wire m)
unfolding client_body client_wire
client_body-wire (auth t) h = rw (new-wrote, bytes-wrote t [] h, finish-wrote)
client_body-wire (query s) h = rw (new-wrote, text-wrote s [] h.0, finish-wrote)
client_body-wire (query_sql s) h = rw (new-wrote, text-wrote s [] h.0, finish-wrote)
client_body-wire close h = rw (new-wrote, finish-wrote)

pub text_alone :
    (s : List ℕ) → IsWireText s → Reader.text (at [] (prefixed s)) ≡ ok (s, at (prefixed s) [])
text_alone s (h, valid) = rw (append-nil (prefixed s)) at (text-prefixed s [] [] h valid)

bytes_alone :
    (t : List ℕ)
    → length t ≤ max_body
    → Reader.bytes (at [] (prefixed t)) ≡ ok (t, at (prefixed t) [])
bytes_alone t h = rw (append-nil (prefixed t)) at (bytes-prefixed t [] [] h)

client_decode-wire :
    (m : ClientMessage) → IsClientWire m → client_decode (client_type m) (client_wire m) ≡ ok m
unfolding client_decode client_type client_wire
client_decode-wire (auth t) h = rw (new-at, bytes_alone t h, finish-at)
client_decode-wire (query s) h = rw (new-at, text_alone s h, finish-at)
client_decode-wire (query_sql s) h = rw (new-at, text_alone s h, finish-at)
client_decode-wire close h = rw (new-at, finish-at)

-- A request within the limits is written, and what is written decodes, under its type, to the same
-- request.
pub client_round_trip :
    (m : ClientMessage)
    → IsClientWire m
    → (body : List ℕ) × (client_body m ≡ ok body) × (client_decode (client_type m) body ≡ ok m)
client_round_trip m h = (client_wire m, client_body-wire m h, client_decode-wire m h)
