-- ===== src/Server/Conn/Invariant.antt =====
-- For crates/quantydb-server/src/conn.rs: the invariant of a connection, operation by operation.
use quanty_database.Prelude.{
  ℕ, ◌+◌, ◌≤◌, ◌≡◌, ◌≢◌, refl, Bool, true, false, Bool-cases, inl, inr, ◌&&◌, List, [], ◌∷◌, arith,
  ltb, length, length-append, take, drop,
}
use quanty_database.Prelude.Result.{Result, ok, err}
use quanty_database.Proto.Error.{ProtoError, ErrorCode}
use quanty_database.Proto.Frame.{
  FrameHeader, ServerHello, accepted, refused, header_len, encode_server_hello, decode_header,
  decode_client_hello, client_hello_len,
}
use quanty_database.Proto.Message.{
  ClientMessage, auth, query, query_sql, close, ServerMessage, ready, of_code, server_encode,
  client_decode,
}
use quanty_database.Server.Conn.{
  Decoded, request, Phase, hello, frames, Conn, push, push_bytes, push_all, resume, fail,
  answer_hello, reply_to, take_request, take_body, step_hello, step_frame,
}
use quanty_database.Server.Conn.Handshake.{taken}

abbrev is_hello : Phase → Bool
is_hello hello = true
is_hello _ = false

-- Output is never written past its end, and no request is out before the handshake.
pub record IsConn (c : Conn) : Type 0 where
  pub bounded : c.outpos ≤ length c.outbuf
  pub greeted : (c.awaiting && is_hello c.phase) ≡ false

push_bytes-IsConn : (r : Result ProtoError (List ℕ)) (c : Conn) → IsConn c → IsConn (push_bytes r c)
unfolding push_bytes
push_bytes-IsConn (ok bytes) c h = record {
  bounded = omega (arith, h.bounded, length-append c.outbuf bytes);
  greeted = h.greeted;
}
push_bytes-IsConn (err e) c h = record { bounded = h.bounded; greeted = ground arith }

push-IsConn : (m : ServerMessage) (c : Conn) → IsConn c → IsConn (push m c)
unfolding push
push-IsConn m c h = push_bytes-IsConn (server_encode m) c h

push_all-IsConn : (ms : List ServerMessage) (c : Conn) → IsConn c → IsConn (push_all ms c)
unfolding push_all
push_all-IsConn [] c h = h
push_all-IsConn (m ∷ ms) c h = push_all-IsConn ms (push m c) (push-IsConn m c h)

pub resume-IsConn : (ms : List ServerMessage) (c : Conn) → IsConn c → IsConn (resume ms c)
unfolding resume
resume-IsConn ms c h =
    push_all-IsConn ms (record c { awaiting = false })
      (record { bounded = h.bounded; greeted = refl })

fail-IsConn : (code : ErrorCode) (d : List ℕ) (c : Conn) → IsConn c → IsConn (fail code d c).1
unfolding fail
fail-IsConn code d c h =
    let p = push-IsConn (of_code code d) c h in
    record { bounded = p.bounded; greeted = ground arith }

take_request-IsConn :
    (r : Result ProtoError ClientMessage) (c : Conn) → IsConn c → IsConn (take_request r c).1
unfolding take_request
take_request-IsConn (err e) c h = fail-IsConn _ _ c h
take_request-IsConn (ok close) c h = record { bounded = h.bounded; greeted = ground arith }
take_request-IsConn (ok (auth t)) c h = h
take_request-IsConn (ok (query s)) c h = h
take_request-IsConn (ok (query_sql s)) c h = h

take_body-IsConn :
    (r : Result ProtoError FrameHeader) (c : Conn) → IsConn c → IsConn (take_body r c).1
unfolding take_body
take_body-IsConn (err e) c h = fail-IsConn _ _ c h
take_body-IsConn (ok header) c h =
    elim (Bool-cases (ltb (length c.inbuf) (header_len + header.body_len))) [
      | inl short ↦ rw short h
      | inr whole ↦ rw whole (
          take_request-IsConn
            (client_decode header.msg_type (take header.body_len (drop header_len c.inbuf)))
            (record c { inbuf = drop (header_len + header.body_len) c.inbuf })
            (record { bounded = h.bounded; greeted = h.greeted }))
    ]

pub step_frame-IsConn : (c : Conn) → IsConn c → IsConn (step_frame c).1
unfolding step_frame
step_frame-IsConn c h = elim (Bool-cases (ltb (length c.inbuf) header_len)) [
  | inl short ↦ rw short h
  | inr whole ↦ rw whole (take_body-IsConn (decode_header (take header_len c.inbuf)) c h)
]

answer_hello-IsConn : (s : ServerHello) (c : Conn) → IsConn c → IsConn (answer_hello s c).1
unfolding answer_hello
answer_hello-IsConn (accepted v) c h =
    push-IsConn ready (record c { phase = frames })
      (record { bounded = h.bounded; greeted = ground arith })
answer_hello-IsConn (refused r) c h = record { bounded = h.bounded; greeted = ground arith }

pub step_hello-IsConn : (c : Conn) → IsConn c → IsConn (step_hello c).1
unfolding step_hello
step_hello-IsConn c h = elim (Bool-cases (ltb (length c.inbuf) client_hello_len)) [
  | inl short ↦ rw short h
  | inr whole ↦
      let reply = reply_to (decode_client_hello (take client_hello_len c.inbuf)) in
      rw whole (
        answer_hello-IsConn reply (taken c) (record {
          bounded = omega (arith, h.bounded, length-append c.outbuf (encode_server_hello reply));
          greeted = h.greeted;
        }))
]

-- After the handshake a request may go out.
after_request-IsConn :
    (d : Decoded) (c : Conn) → c.phase ≢ hello → IsConn c → IsConn (record c { awaiting = true })
after_request-IsConn d c ne h = record { bounded = h.bounded; greeted = ground arith }

-- What a submitted request was: the decoded body of the complete frame at the front of the buffer.
pub record IsSubmitted (m : ClientMessage) (c c' : Conn) : Type 0 where
  pub header : FrameHeader
  pub header_read : decode_header (take header_len c.inbuf) ≡ ok header
  pub complete : header_len + header.body_len ≤ length c.inbuf
  pub body_read :
      client_decode header.msg_type (take header.body_len (drop header_len c.inbuf)) ≡ ok m
  pub not_close : m ≢ close
  pub after : c' ≡ record c { inbuf = drop (header_len + header.body_len) c.inbuf }

take_request-request :
    (r : Result ProtoError ClientMessage) (m : ClientMessage) (c c' : Conn)
    → take_request r c ≡ (request m, c')
    → (r ≡ ok m) × (m ≢ close) × (c' ≡ c)
unfolding take_request fail
take_request-request (err e) m c c' h = absurd (cc h)
take_request-request (ok close) m c c' h = absurd (cc h)
take_request-request (ok (auth t)) m c c' h = (cc, λ q. cc, cc)
take_request-request (ok (query s)) m c c' h = (cc, λ q. cc, cc)
take_request-request (ok (query_sql s)) m c c' h = (cc, λ q. cc, cc)

take_body-request :
    (r : Result ProtoError FrameHeader) (m : ClientMessage) (c c' : Conn)
    → decode_header (take header_len c.inbuf) ≡ r
    → take_body r c ≡ (request m, c')
    → IsSubmitted m c c'
unfolding take_body
take_body-request (err e) m c c' hr h = unfold fail in absurd (cc h)
take_body-request (ok header) m c c' hr h =
    elim (Bool-cases (ltb (length c.inbuf) (header_len + header.body_len))) [
      | inl short ↦ absurd (cc (rw short at h))
      | inr whole ↦
          let (decoded, ne, e) =
            take_request-request
              (client_decode header.msg_type (take header.body_len (drop header_len c.inbuf))) m
              (record c { inbuf = drop (header_len + header.body_len) c.inbuf }) c'
              (rw whole at h) in
          record {
            header = header;
            header_read = hr;
            complete = ground arith;
            body_read = decoded;
            not_close = ne;
            after = e;
          }
    ]

pub step_frame-request :
    (m : ClientMessage) (c c' : Conn) → step_frame c ≡ (request m, c') → IsSubmitted m c c'
unfolding step_frame
step_frame-request m c c' h = elim (Bool-cases (ltb (length c.inbuf) header_len)) [
  | inl short ↦ absurd (cc (rw short at h))
  | inr whole ↦
      take_body-request (decode_header (take header_len c.inbuf)) m c c' refl (rw whole at h)
]
