-- ===== src/Server/Conn/Requests.antt =====
-- For `step_frame` of crates/quantydb-server/src/conn.rs: whole and partial frames.
use quanty_database.Prelude.{
  ℕ, ◌+◌, ◌≤◌, ◌<◌, ◌≡◌, ◌≢◌, refl, ◌∙◌, true, false, some, List, ◌++◌, arith, ltb, length,
  length-append, take, drop, take-append, drop-append, drop-drop,
}
use quanty_database.Prelude.Bytes.{le_bytes}
use quanty_database.Prelude.Result.{ok}
use quanty_database.Proto.Limits.{max_body}
use quanty_database.Proto.Frame.{header_len, encode_header}
use quanty_database.Proto.Frame.Laws.{decode-encode_header}
use quanty_database.Proto.Message.{
  ClientMessage, auth, query, query_sql, close, client_type, client_decode,
}
use quanty_database.Server.Conn.{
  submit, request, frames, Conn, wants_write, take_request, take_body, step_frame, after_frame,
  step,
}

-- A connection that would decode its next frame.
pub record IsReading (c : Conn) : Type 0 where
  pub frames_phase : c.phase ≡ frames
  pub idle : c.awaiting ≡ false
  pub flushed : wants_write c ≡ false

step-after_frame : (c : Conn) → IsReading c → step c ≡ after_frame (step_frame c)
unfolding step
step-after_frame c h = ground arith

-- The frame of a message type and a body.
abbrev pub frame_of : ℕ → List ℕ → List ℕ
frame_of t body = encode_header (record { msg_type = t; body_len = length body }) ++ body

module _ (t : ℕ) (body rest : List ℕ) where
  header_of_frame :
      take header_len (frame_of t body ++ rest)
      ≡ encode_header (record { msg_type = t; body_len = length body })
  unfolding encode_header le_bytes
  header_of_frame = refl

  behind_header : drop header_len (frame_of t body ++ rest) ≡ body ++ rest
  unfolding encode_header le_bytes
  behind_header = refl

  behind_frame : drop (header_len + length body) (frame_of t body ++ rest) ≡ rest
  behind_frame =
      drop-drop header_len (length body) (frame_of t body ++ rest)
      ∙ rw behind_header (drop-append body rest)

  length-frame_of : length (frame_of t body ++ rest) ≡ header_len + (length body + length rest)
  unfolding encode_header le_bytes
  length-frame_of = omega (arith, length-append body rest)

-- A complete frame at the front of the buffer is taken from it, and its body is decoded.
step_frame_complete :
    (c : Conn) (t : ℕ) (body rest : List ℕ)
    → length body ≤ max_body
    → c.inbuf ≡ frame_of t body ++ rest
    → step_frame c ≡ take_request (client_decode t body) (record c { inbuf = rest })
unfolding step_frame take_body
step_frame_complete c t body rest h e = rw (
  e,
  not_short,
  header_of_frame t body rest,
  decode-encode_header t (length body) h,
  whole,
  behind_header t body rest,
  take-append body rest,
  behind_frame t body rest,
)
  where
    not_short : ltb (length (frame_of t body ++ rest)) header_len ≡ false
    not_short = ground (arith, length-frame_of t body rest)

    whole : ltb (length (frame_of t body ++ rest)) (header_len + length body) ≡ false
    whole = ground (arith, length-frame_of t body rest)

take_request-open :
    (m : ClientMessage) (c : Conn) → m ≢ close → take_request (ok m) c ≡ (request m, c)
unfolding take_request
take_request-open (auth t) c h = refl
take_request-open (query s) c h = refl
take_request-open (query_sql s) c h = refl
take_request-open close c h = absurd (h refl)

-- A connection that is past the handshake, awaits no answer and has nothing to write submits the
-- request whose frame stands at the front of its buffer, takes exactly that frame, and from then on
-- awaits the answer. The request is any but `Close`.
pub step-submit :
    (c : Conn) (m : ClientMessage) (body rest : List ℕ)
    → IsReading c
    → length body ≤ max_body
    → client_decode (client_type m) body ≡ ok m
    → m ≢ close
    → c.inbuf ≡ frame_of (client_type m) body ++ rest
    → step c ≡ some (submit m, record c { inbuf = rest; awaiting = true })
step-submit c m body rest reading h decoded ne e =
    step-after_frame c reading
    ∙ rw
        (
          step_frame_complete c (client_type m) body rest h e,
          decoded,
          take_request-open m (record c { inbuf = rest }) ne,
        )
        (unfold after_frame in refl)

-- The front of a frame: less than a header, or a header with less than its body.
pub data IsPart : List ℕ → Type 0 where
  short : (bytes : List ℕ) → length bytes < header_len → IsPart bytes
  cut :
      (t n : ℕ) (part : List ℕ)
      → n ≤ max_body
      → length part < n
      → IsPart (encode_header (record { msg_type = t; body_len = n }) ++ part)
