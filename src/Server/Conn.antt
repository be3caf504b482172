-- ===== src/Server/Conn.antt =====
-- crates/quantydb-server/src/conn.rs: one connection, from the handshake to the last answer, with one
-- request in flight. The socket is the list of what its calls answer.
pub mod Handshake
pub mod Requests
pub mod Invariant
pub mod Safety
pub mod Io
mod Tests
use quanty_database.Prelude.{
  ℕ, zero, suc, ◌+◌, Bool, true, false, not, ◌&&◌, ◌||◌, Option, none, some, List, [], ◌∷◌, ◌++◌,
  leb, ltb, if◌then◌else◌, length, take, drop,
}
use quanty_database.Prelude.Bytes.{ascii}
use quanty_database.Prelude.Result.{Result, ok, err}
use quanty_database.Proto.Error.{ProtoError, ErrorCode, protocol}
use quanty_database.Proto.Limits.{max_body}
use quanty_database.Proto.Frame.{
  FrameHeader, header_len, client_hello_len, decode_header, decode_client_hello, ServerHello,
  accepted, refused, bad_magic_bytes, encode_server_hello, negotiate,
}
use quanty_database.Proto.Message.{
  ClientMessage, close, ServerMessage, ready, of_code, server_encode, client_decode,
}

pub data Step : Type 0 where
  opened closed : Step
  submit : ClientMessage → Step

pub data Decoded : Type 0 where
  stalled : Decoded
  request : ClientMessage → Decoded

pub data Phase : Type 0 where
  hello frames draining : Phase

pub record Conn : Type 0 where
  pub phase : Phase
  pub input_closed : Bool
  pub awaiting : Bool
  pub inbuf : List ℕ
  pub outbuf : List ℕ
  pub outpos : ℕ

abbrev pub new : Conn
new = record {
  phase = hello;
  input_closed = false;
  awaiting = false;
  inbuf = [];
  outbuf = [];
  outpos = 0;
}

abbrev pub is_draining : Phase → Bool
is_draining hello = false
is_draining frames = false
is_draining draining = true

unfoldable pub wants_write : Conn → Bool
wants_write c = ltb c.outpos (length c.outbuf)

unfoldable pub is_finished : Conn → Bool
unfolding wants_write
is_finished c = (is_draining c.phase || c.input_closed) && not (wants_write c) && not c.awaiting

unfoldable pub state : Conn → Step
unfolding is_finished
state c = if is_finished c then closed else opened

unfoldable pub peer_done : Conn → Conn
peer_done c = record c { input_closed = true }

pub push_bytes : Result ProtoError (List ℕ) → Conn → Conn
push_bytes (ok bytes) c = record c { outbuf = c.outbuf ++ bytes }
push_bytes (err e) c = record c { phase = draining }

unfoldable pub push : ServerMessage → Conn → Conn
unfolding push_bytes
push message c = push_bytes (server_encode message) c

pub push_all : List ServerMessage → Conn → Conn
push_all [] c = c
push_all (m ∷ messages) c = push_all messages (push m c)

unfoldable pub resume : List ServerMessage → Conn → Conn
unfolding push_all
resume messages c = push_all messages (record c { awaiting = false })

-- `fail`: an error for the client, and nothing more is read.
unfoldable pub fail : ErrorCode → List ℕ → Conn → Decoded × Conn
fail code detail c = (stalled, record (push (of_code code detail) c) { phase = draining })

abbrev pub reply_to : Result ProtoError ℕ → ServerHello
reply_to (ok asked) = negotiate asked
reply_to (err e) = refused bad_magic_bytes

pub answer_hello : ServerHello → Conn → Bool × Conn
answer_hello (accepted v) c = (true, push ready (record c { phase = frames }))
answer_hello (refused r) c = (false, record c { phase = draining })

-- `step_hello`: false when the loop of `step` has to stop.
unfoldable pub step_hello : Conn → Bool × Conn
unfolding answer_hello
step_hello c =
    if ltb (length c.inbuf) client_hello_len
    then (false, c)
    else (let reply = reply_to (decode_client_hello (take client_hello_len c.inbuf)) in
        answer_hello reply (record c {
          inbuf = drop client_hello_len c.inbuf;
          outbuf = c.outbuf ++ encode_server_hello reply;
        }))

pub take_request : Result ProtoError ClientMessage → Conn → Decoded × Conn
take_request (err e) c = fail protocol (ascii "malformed message") c
take_request (ok close) c = (stalled, record c { phase = draining })
take_request (ok m) c = (request m, c)

pub take_body : Result ProtoError FrameHeader → Conn → Decoded × Conn
unfolding take_request
take_body (err e) c = fail protocol (ascii "frame too large") c
take_body (ok header) c =
    if ltb (length c.inbuf) (header_len + header.body_len)
    then (stalled, c)
    else take_request
        (client_decode header.msg_type (take header.body_len (drop header_len c.inbuf)))
        (record c { inbuf = drop (header_len + header.body_len) c.inbuf })

unfoldable pub step_frame : Conn → Decoded × Conn
unfolding take_body
step_frame c =
    if ltb (length c.inbuf) header_len
    then (stalled, c)
    else take_body (decode_header (take header_len c.inbuf)) c

pub after_hello : (Conn → Option (Step × Conn)) → Bool × Conn → Option (Step × Conn)
after_hello again (true, c) = again c
after_hello again (false, c) = some (state c, c)

pub after_frame : Decoded × Conn → Option (Step × Conn)
after_frame (stalled, c) = some (state c, c)
after_frame (request m, c) = some (submit m, record c { awaiting = true })

pub by_phase : Phase → (Conn → Option (Step × Conn)) → Conn → Option (Step × Conn)
by_phase hello again c = after_hello again (step_hello c)
by_phase frames again c = after_frame (step_frame c)
by_phase draining again c = some (state c, c)

-- The loop of `step`, with the rounds that are left. `none` means that they ran out.
unfoldable pub step_loop : ℕ → Conn → Option (Step × Conn)
step_loop zero c = none
step_loop (suc fuel) c =
    if is_draining c.phase || c.awaiting || wants_write c
    then some (state c, c)
    else by_phase c.phase (step_loop fuel) c

-- Two rounds are enough: after the handshake there is output to write.
unfoldable pub step : Conn → Option (Step × Conn)
unfolding step_loop by_phase after_hello after_frame
step c = step_loop 2 c

-- What a non-blocking read or write answers. The bytes of a read are at most the 8192 that it asks
-- for.
pub data ReadResult : Type 0 where
  got : List ℕ → ReadResult
  read_would_block read_interrupted read_failed : ReadResult

pub data WriteResult : Type 0 where
  wrote : ℕ → WriteResult
  write_would_block write_interrupted write_failed : WriteResult

-- `fill` over the answers of the socket: whether the peer may send more, or `none` for an error. A
-- list that ends stands for a socket that would block.
unfoldable pub fill : List ReadResult → Conn → Option Bool × Conn
fill [] c = (some true, c)
fill (r ∷ rs) c = if ltb (header_len + max_body) (length c.inbuf) then (some true, c) else elim r [
  | got bytes ↦ elim bytes [
    | [] ↦ (some false, c)
    | b ∷ bs ↦ fill rs (record c { inbuf = c.inbuf ++ b ∷ bs })
  ]
  | read_would_block ↦ (some true, c)
  | read_interrupted ↦ fill rs c
  | read_failed ↦ (none, c)
]

abbrev pub Flush : Type 0
Flush = List (List ℕ) × (Bool × Conn)

abbrev pub after_call : List ℕ → Flush → Flush
after_call bytes (calls, end) = (bytes ∷ calls, end)

-- `flush` over the answers of the socket: the bytes that each call of `socket.write` is given, and
-- whether it succeeded. A list that ends stands for a socket that would block.
unfoldable pub flush : List WriteResult → Conn → Flush
unfolding wants_write
flush [] c =
    if wants_write c then ([], (true, c)) else ([], (true, record c { outbuf = []; outpos = 0 }))
flush (r ∷ rs) c =
    let bytes = drop c.outpos c.outbuf in
    if not (wants_write c) then ([], (true, record c { outbuf = []; outpos = 0 })) else elim r [
      | wrote n ↦ elim n [
        | zero ↦ (bytes ∷ [], (false, c))
        | suc k ↦ after_call bytes (flush rs (record c { outpos = c.outpos + suc k }))
      ]
      | write_would_block ↦ (bytes ∷ [], (true, c))
      | write_interrupted ↦ after_call bytes (flush rs c)
      | write_failed ↦ (bytes ∷ [], (false, c))
    ]
