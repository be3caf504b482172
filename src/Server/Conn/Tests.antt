-- ===== src/Server/Conn/Tests.antt =====
-- Connections at concrete inputs.
use quanty_database.Prelude.{ℕ, ◌≡◌, ◌≢◌, refl, true, false, none, some, List, [], ◌∷◌, ◌++◌, arith}
use quanty_database.Prelude.Bytes.{is_utf8, from_le, ascii}
use quanty_database.Prelude.Result.{ok}
use quanty_database.Proto.Frame.{encode_header, encode_client_hello}
use quanty_database.Proto.Message.{ClientMessage, query, client_type, client_decode}
use quanty_database.Proto.Reader
use quanty_database.Server.Conn.{
  opened, submit, Phase, Conn, new, frames, step, wants_write, wrote, write_interrupted, flush,
}
use quanty_database.Server.Conn.Handshake.{Answer, step-ne-none, step-handshake}
use quanty_database.Server.Conn.Requests.{IsReading, frame_of, step-submit}
use quanty_database.Server.Conn.Invariant.{IsConn, IsSubmitted}
use quanty_database.Server.Conn.Safety.{step-IsConn, step_submits}
use quanty_database.Server.Conn.Io.{Flushed, sent-flush}

-- "ab" as a query.
abbrev asked : ClientMessage
asked = query (ascii "ab")

abbrev body : List ℕ
body = 2 ∷ 0 ∷ 0 ∷ 0 ∷ 0x61 ∷ 0x62 ∷ []

abbrev reading : Conn
reading = record new { phase = frames; inbuf = frame_of 0x11 body ++ (9 ∷ []) }

reading-IsReading : IsReading reading
unfolding wants_write
reading-IsReading = record { frames_phase = refl; idle = refl; flushed = refl }

body_decodes : client_decode (client_type asked) body ≡ ok asked
unfolding client_decode client_type Reader.new Reader.finish Reader.text Reader.bytes Reader.u32
    Reader.take from_le is_utf8
body_decodes = refl

step-ne-none_example : step reading ≢ none
step-ne-none_example = step-ne-none reading

step-handshake_example :
    (phase' : Phase) × (out : List ℕ) × Answer 7 phase' out
    × (step (record new { inbuf = encode_client_hello 7 ++ (1 ∷ []) })
        ≡ some (opened, record new { phase = phase'; inbuf = 1 ∷ []; outbuf = out }))
step-handshake_example = step-handshake 7 (1 ∷ []) (omega arith)

submitted : step reading ≡ some (submit asked, record reading { inbuf = 9 ∷ []; awaiting = true })
submitted =
    step-submit reading asked body (9 ∷ []) reading-IsReading (omega arith) body_decodes (λ q. cc)
      (unfold client_type in refl)

step-submit_example :
    step reading ≡ some (submit asked, record reading { inbuf = 9 ∷ []; awaiting = true })
step-submit_example =
    step-submit reading asked body (9 ∷ []) reading-IsReading (omega arith) body_decodes (λ q. cc)
      (unfold client_type in refl)

abbrev waiting : Conn
waiting = record new {
  phase = frames;
  inbuf = encode_header (record { msg_type = 0x11; body_len = 6 }) ++ (2 ∷ []);
}

reading-IsConn : IsConn reading
reading-IsConn = record { bounded = omega arith; greeted = refl }

step-IsConn_example : IsConn (record reading { inbuf = 9 ∷ []; awaiting = true })
step-IsConn_example =
    step-IsConn reading (record reading { inbuf = 9 ∷ []; awaiting = true }) (submit asked)
      reading-IsConn submitted

step_submits_example :
    (reading.phase ≡ frames)
    × (reading.awaiting ≡ false)
    × (wants_write reading ≡ false)
    × (d : Conn) × IsSubmitted asked reading d
    × (record reading { inbuf = 9 ∷ []; awaiting = true } ≡ record d { awaiting = true })
step_submits_example =
    step_submits reading (record reading { inbuf = 9 ∷ []; awaiting = true }) asked reading-IsConn
      submitted

abbrev writing : Conn
writing = record new { phase = frames; outbuf = 1 ∷ 2 ∷ 3 ∷ 4 ∷ []; outpos = 1 }

sent-flush_example :
    Flushed
      (wrote 2 ∷ write_interrupted ∷ [])
      writing
      (flush (wrote 2 ∷ write_interrupted ∷ []) writing)
sent-flush_example = sent-flush (wrote 2 ∷ write_interrupted ∷ []) writing
