-- ===== src/Proto/Message.antt =====
-- crates/quantydb-proto/src/message.rs: the messages, their bodies and frames.
pub mod RoundTrip
pub mod Server
pub mod Batch
use quanty_database.Prelude.{ℕ, Bool, true, false, List, [], ◌∷◌, ◌==◌, if◌then◌else◌, length}
use quanty_database.Prelude.Result.{Result, ok, err, ◌>>=◌, ◌>>◌}
use quanty_database.Core.Value.{Value}
use quanty_database.Proto.Error.{ProtoError, ErrorCode, unknown_tag, as_u16}
use quanty_database.Proto.Limits.{
  max_lines, max_rows_per_batch, max_values_per_row, min_row_len, min_text_len,
}
use quanty_database.Proto.Reader
use quanty_database.Proto.Reader.{Reader}
use quanty_database.Proto.Writer
use quanty_database.Proto.Writer.{Writer}
use quanty_database.Proto.Value.{read_row, write_row}
use quanty_database.Proto.Frame.{frame}

pub data ClientMessage : Type 0 where
  auth : List ℕ → ClientMessage
  query : List ℕ → ClientMessage
  query_sql : List ℕ → ClientMessage
  close : ClientMessage

pub data ServerMessage : Type 0 where
  ready : ServerMessage
  done : ServerMessage
  count : (verb : List ℕ) → (n : ℕ) → ServerMessage
  rows_begin : List (List ℕ) → ServerMessage
  row_batch : List (List Value) → ServerMessage
  rows_end : ServerMessage
  lines : List (List ℕ) → ServerMessage
  error : (code : ℕ) → (message : List ℕ) → ServerMessage

unfoldable pub is_terminal : ServerMessage → Bool
is_terminal done = true
is_terminal (count verb n) = true
is_terminal rows_end = true
is_terminal (lines ls) = true
is_terminal (error code message) = true
is_terminal m = false

-- `ServerMessage::error`
unfoldable pub of_code : ErrorCode → List ℕ → ServerMessage
of_code code message = error (as_u16 code) message

unfoldable pub client_type : ClientMessage → ℕ
client_type (auth t) = 0x10
client_type (query s) = 0x11
client_type (query_sql s) = 0x12
client_type close = 0x13

unfoldable pub client_body : ClientMessage → Result ProtoError (List ℕ)
client_body (auth t) = Writer.finish (Writer.bytes t Writer.new)
client_body (query s) = Writer.finish (Writer.text s Writer.new)
client_body (query_sql s) = Writer.finish (Writer.text s Writer.new)
client_body close = Writer.finish Writer.new

unfoldable pub client_encode : ClientMessage → Result ProtoError (List ℕ)
client_encode m = do body ← client_body m; frame (client_type m) body

client_parse : ℕ → Reader → Result ProtoError (ClientMessage × Reader)
client_parse t r =
    if t == 0x10
    then (do (b, r') ← Reader.bytes r; ok (auth b, r'))
    else if t == 0x11
    then (do (s, r') ← Reader.text r; ok (query s, r'))
    else if t == 0x12
    then (do (s, r') ← Reader.text r; ok (query_sql s, r'))
    else if t == 0x13
    then ok (close, r)
    else err (unknown_tag t)

unfoldable pub client_decode : ℕ → List ℕ → Result ProtoError ClientMessage
unfolding client_parse
client_decode t body = do (m, r) ← client_parse t (Reader.new body); Reader.finish r; ok m

unfoldable pub server_type : ServerMessage → ℕ
server_type ready = 0x20
server_type done = 0x21
server_type (count verb n) = 0x22
server_type (rows_begin columns) = 0x23
server_type (row_batch rows) = 0x24
server_type rows_end = 0x25
server_type (lines ls) = 0x26
server_type (error code message) = 0x27

unfoldable pub write_texts : List (List ℕ) → Writer → Writer
write_texts [] w = w
write_texts (c ∷ cs) w = write_texts cs (Writer.text c w)

unfoldable pub write_rows : List (List Value) → Writer → Writer
write_rows [] w = w
write_rows (row ∷ rows) w = write_rows rows (write_row row w)

unfoldable pub server_write : ServerMessage → Writer → Writer
server_write ready w = w
server_write done w = w
server_write (count verb n) w = Writer.u64 n (Writer.text verb w)
server_write (rows_begin columns) w =
    write_texts columns (Writer.count (length columns) max_values_per_row w)
server_write (row_batch rows) w = write_rows rows (Writer.count (length rows) max_rows_per_batch w)
server_write rows_end w = w
server_write (lines ls) w = write_texts ls (Writer.count (length ls) max_lines w)
server_write (error code message) w = Writer.text message (Writer.u16 code w)

unfoldable pub server_body : ServerMessage → Result ProtoError (List ℕ)
unfolding server_write write_rows write_texts
server_body m = Writer.finish (server_write m Writer.new)

unfoldable pub server_encode : ServerMessage → Result ProtoError (List ℕ)
server_encode m = do body ← server_body m; frame (server_type m) body

parse_count : Reader → Result ProtoError (ServerMessage × Reader)
parse_count r = do (verb, r') ← Reader.text r; (n, r'') ← Reader.u64 r'; ok (count verb n, r'')

parse_rows_begin : Reader → Result ProtoError (ServerMessage × Reader)
parse_rows_begin r = do
  (n, r') ← Reader.count min_text_len max_values_per_row r
  (columns, r'') ← Reader.times Reader.text n [] r'
  ok (rows_begin columns, r'')

parse_row_batch : Reader → Result ProtoError (ServerMessage × Reader)
parse_row_batch r = do
  (n, r') ← Reader.count min_row_len max_rows_per_batch r
  (rows, r'') ← Reader.times read_row n [] r'
  ok (row_batch rows, r'')

parse_lines : Reader → Result ProtoError (ServerMessage × Reader)
parse_lines r = do
  (n, r') ← Reader.count min_text_len max_lines r
  (ls, r'') ← Reader.times Reader.text n [] r'
  ok (lines ls, r'')

parse_error : Reader → Result ProtoError (ServerMessage × Reader)
parse_error r = do
  (code, r') ← Reader.u16 r
  (message, r'') ← Reader.text r'
  ok (error code message, r'')

server_parse : ℕ → Reader → Result ProtoError (ServerMessage × Reader)
server_parse t r =
    if t == 0x20
    then ok (ready, r)
    else if t == 0x21
    then ok (done, r)
    else if t == 0x22
    then parse_count r
    else if t == 0x23
    then parse_rows_begin r
    else if t == 0x24
    then parse_row_batch r
    else if t == 0x25
    then ok (rows_end, r)
    else if t == 0x26
    then parse_lines r
    else if t == 0x27
    then parse_error r
    else err (unknown_tag t)

unfoldable pub server_decode : ℕ → List ℕ → Result ProtoError ServerMessage
unfolding server_parse parse_count parse_rows_begin parse_row_batch parse_lines parse_error
server_decode t body = do (m, r) ← server_parse t (Reader.new body); Reader.finish r; ok m
