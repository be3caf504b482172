-- ===== src/Proto/Message/Server.antt =====
-- For `ServerMessage` of crates/quantydb-proto/src/message.rs: answers, written and decoded.
use quanty_database.Prelude.{
  ℕ, ◌^◌, ◌≤◌, ◌<◌, ◌≡◌, refl, List, [], ◌∷◌, ◌++◌, append_assoc, append-nil, arith, length, All,
}
use quanty_database.Prelude.Bytes.{IsU64, le_bytes}
use quanty_database.Prelude.Result.{ok}
use quanty_database.Core.Value.{Value}
use quanty_database.Proto.Limits.{max_lines, max_rows_per_batch, max_values_per_row}
use quanty_database.Proto.Reader
use quanty_database.Proto.Reader.{Reader, at, new-at, finish-at, u16-at, u64-at}
use quanty_database.Proto.Reader.Sequence.{count-at, joined, length-joined, times-at}
use quanty_database.Proto.Writer
use quanty_database.Proto.Writer.{
  wrote, prefixed, new-wrote, finish-wrote, extend-wrote, bytes-wrote, text-wrote, count-wrote,
}
use quanty_database.Proto.Value.{read_row, encoded_row_len}
use quanty_database.Proto.Value.RoundTrip.{
  IsWireRow, wire_row, length-wire_row, write_row-wrote, read_row-at, text-prefixed,
  prefixed-length,
}
use quanty_database.Proto.Message.{
  ServerMessage, ready, done, count, rows_begin, row_batch, rows_end, lines, error, server_type,
  write_texts, write_rows, server_write, server_body, parse_count, parse_rows_begin,
  parse_row_batch, parse_lines, parse_error, server_parse, server_decode,
}
use quanty_database.Proto.Message.RoundTrip.{IsWireText}

-- An answer within the limits of the protocol.
abbrev pub IsServerWire : ServerMessage → Type 0
IsServerWire ready = Unit
IsServerWire done = Unit
IsServerWire (count verb n) = IsWireText verb × IsU64 n
IsServerWire (rows_begin columns) = All IsWireText columns × (length columns ≤ max_values_per_row)
IsServerWire (row_batch rows) = All IsWireRow rows × (length rows ≤ max_rows_per_batch)
IsServerWire rows_end = Unit
IsServerWire (lines ls) = All IsWireText ls × (length ls ≤ max_lines)
IsServerWire (error code message) = (code < 2 ^ 16) × IsWireText message

write_texts-wrote :
    (ts : List (List ℕ)) (p : List ℕ)
    → All IsWireText ts
    → write_texts ts (wrote p) ≡ wrote (p ++ joined prefixed ts)
unfolding write_texts joined
write_texts-wrote [] p h = rw append-nil
write_texts-wrote (t ∷ ts) p ((h, _), hs) = rw (
  text-wrote t p h,
  write_texts-wrote ts (p ++ prefixed t) hs,
  append_assoc p (prefixed t) (joined prefixed ts),
)

write_rows-wrote :
    (rows : List (List Value)) (p : List ℕ)
    → All IsWireRow rows
    → write_rows rows (wrote p) ≡ wrote (p ++ joined wire_row rows)
unfolding write_rows joined
write_rows-wrote [] p h = rw append-nil
write_rows-wrote (row ∷ rows) p (h, hs) = rw (
  write_row-wrote row p h,
  write_rows-wrote rows (p ++ wire_row row) hs,
  append_assoc p (wire_row row) (joined wire_row rows),
)

-- A list behind its count.
counted_texts : List (List ℕ) → List ℕ
counted_texts ts = le_bytes 4 (length ts) ++ joined prefixed ts

counted_rows : List (List Value) → List ℕ
counted_rows rows = le_bytes 4 (length rows) ++ joined wire_row rows

server_wire : ServerMessage → List ℕ
server_wire ready = []
server_wire done = []
server_wire (count verb n) = prefixed verb ++ le_bytes 8 n
server_wire (rows_begin columns) = counted_texts columns
server_wire (row_batch rows) = counted_rows rows
server_wire rows_end = []
server_wire (lines ls) = counted_texts ls
server_wire (error code message) = le_bytes 2 code ++ prefixed message

server_write-wrote :
    (m : ServerMessage) → IsServerWire m → server_write m (wrote []) ≡ wrote (server_wire m)
unfolding server_wire counted_texts counted_rows server_write Writer.u64 Writer.u16
server_write-wrote ready h = refl
server_write-wrote done h = refl
server_write-wrote (count verb n) ((h, _), _) = rw (text-wrote verb [] h, extend-wrote)
server_write-wrote (rows_begin cs) (h, fits) =
    rw (count-wrote (length cs) max_values_per_row [] fits, write_texts-wrote cs _ h)
server_write-wrote (row_batch rows) (h, fits) =
    rw (count-wrote (length rows) max_rows_per_batch [] fits, write_rows-wrote rows _ h)
server_write-wrote rows_end h = refl
server_write-wrote (lines ls) (h, fits) =
    rw (count-wrote (length ls) max_lines [] fits, write_texts-wrote ls _ h)
server_write-wrote (error code message) (_, (h, _)) = rw (extend-wrote, text-wrote message _ h)

server_body-wire : (m : ServerMessage) → IsServerWire m → server_body m ≡ ok (server_wire m)
unfolding server_body
server_body-wire m h = rw (new-wrote, server_write-wrote m h, finish-wrote)

prefixed-four : (t : List ℕ) → 4 ≤ length (prefixed t)
prefixed-four t = omega (arith, prefixed-length t)

wire_row-four : (row : List Value) → 4 ≤ length (wire_row row)
wire_row-four row = unfold encoded_row_len in omega (arith, length-wire_row row)

read_text-at :
    (t p s : List ℕ)
    → IsWireText t
    → Reader.text (at p (prefixed t ++ s)) ≡ ok (t, at (p ++ prefixed t) s)
read_text-at t p s (h, valid) = text-prefixed t p s h valid

module _ (limit : ℕ) (small : limit < 2 ^ 32) where
  count_texts :
      (ts : List (List ℕ))
      → length ts ≤ limit
      → Reader.count 4 limit (at [] (counted_texts ts))
        ≡ ok (length ts, at (le_bytes 4 (length ts)) (joined prefixed ts))
  unfolding counted_texts
  count_texts ts h =
      count-at 4 limit (length ts) [] (joined prefixed ts) (omega arith) h (omega arith)
        (length-joined prefixed 4 prefixed-four ts)

  count_rows :
      (rows : List (List Value))
      → length rows ≤ limit
      → Reader.count 4 limit (at [] (counted_rows rows))
        ≡ ok (length rows, at (le_bytes 4 (length rows)) (joined wire_row rows))
  unfolding counted_rows
  count_rows rows h =
      count-at 4 limit (length rows) [] (joined wire_row rows) (omega arith) h (omega arith)
        (length-joined wire_row 4 wire_row-four rows)

read_texts :
    (ts : List (List ℕ))
    → All IsWireText ts
    → Reader.times Reader.text (length ts) [] (at (le_bytes 4 (length ts)) (joined prefixed ts))
      ≡ ok (ts, at (counted_texts ts) [])
unfolding counted_texts
read_texts ts h =
    rw (append-nil (joined prefixed ts)) at
      (times-at prefixed IsWireText Reader.text read_text-at ts [] (le_bytes 4 (length ts)) [] h)

read_rows :
    (rows : List (List Value))
    → All IsWireRow rows
    → Reader.times read_row (length rows) [] (at (le_bytes 4 (length rows)) (joined wire_row rows))
      ≡ ok (rows, at (counted_rows rows) [])
unfolding counted_rows
read_rows rows h =
    rw (append-nil (joined wire_row rows)) at
      (times-at wire_row IsWireRow read_row read_row-at rows [] (le_bytes 4 (length rows)) [] h)

server_parse-wire :
    (m : ServerMessage)
    → IsServerWire m
    → server_parse (server_type m) (at [] (server_wire m)) ≡ ok (m, at (server_wire m) [])
unfolding server_parse server_type server_wire
server_parse-wire ready h = refl
server_parse-wire done h = refl
server_parse-wire (count verb n) ((h, valid), hn) =
    unfold parse_count in
    rw (
      text-prefixed verb [] (le_bytes 8 n) h valid,
      rw (append-nil (le_bytes 8 n)) at (u64-at n (prefixed verb) [] hn),
    )
server_parse-wire (rows_begin cs) (h, fits) =
    unfold parse_rows_begin in
    rw (count_texts max_values_per_row (omega arith) cs fits, read_texts cs h)
server_parse-wire (row_batch rows) (h, fits) =
    unfold parse_row_batch in
    rw (count_rows max_rows_per_batch (omega arith) rows fits, read_rows rows h)
server_parse-wire rows_end h = refl
server_parse-wire (lines ls) (h, fits) =
    unfold parse_lines in rw (count_texts max_lines (omega arith) ls fits, read_texts ls h)
server_parse-wire (error code message) (hc, (h, valid)) =
    unfold parse_error in
    rw (
      u16-at code [] (prefixed message) hc,
      rw (append-nil (prefixed message)) at (text-prefixed message (le_bytes 2 code) [] h valid),
    )

-- An answer within the limits is written, and what is written decodes, under its type, to the same
-- answer, whatever rows it holds.
pub server_round_trip :
    (m : ServerMessage)
    → IsServerWire m
    → (body : List ℕ) × (server_body m ≡ ok body) × (server_decode (server_type m) body ≡ ok m)
unfolding server_decode
server_round_trip m h = (
  server_wire m,
  server_body-wire m h,
  rw (new-at (server_wire m), server_parse-wire m h, finish-at (server_wire m)),
)
