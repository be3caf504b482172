-- ===== src/Server/Conn/Handshake.antt =====
-- For `step` and `step_hello` of crates/quantydb-server/src/conn.rs.
use quanty_database.Prelude.{
  ℕ, zero, suc, ◌^◌, ◌<◌, ◌≡◌, ◌≢◌, refl, ◌∙◌, true, false, none, some, List, [], ◌∷◌, ◌++◌, arith,
  ltb, length, take, drop,
}
use quanty_database.Prelude.Bytes.{le_bytes}
use quanty_database.Prelude.Result.{Result, ok, err}
use quanty_database.Proto.Error.{ProtoError}
use quanty_database.Proto.Frame.{
  ServerHello, accepted, refused, client_hello_len, encode_client_hello, decode_client_hello,
  encode_server_hello, negotiate, frame, refusal_byte, version_too_new,
}
use quanty_database.Proto.Frame.Laws.{decode-encode_client_hello}
use quanty_database.Proto.Message.{ready, server_encode, server_body, server_type}
use quanty_database.Proto.Writer
use quanty_database.Server.Conn.{
  opened, Phase, hello, frames, draining, Conn, new, wants_write, is_finished, state, push,
  push_bytes, reply_to, answer_hello, step_hello, by_phase, after_hello, after_frame, step_loop,
  step,
}

-- A round that starts behind the handshake is the last.
step_loop-frames : (fuel : ℕ) (c : Conn) → c.phase ≢ hello → step_loop (suc fuel) c ≢ none
unfolding step_loop by_phase after_frame
step_loop-frames fuel c h = ground arith

push_bytes-phase :
    (r : Result ProtoError (List ℕ)) (c : Conn) → c.phase ≢ hello → (push_bytes r c).phase ≢ hello
unfolding push_bytes
push_bytes-phase (ok bytes) c h = h
push_bytes-phase (err e) c h = λ q. cc

answer_hello-phase : (s : ServerHello) (c : Conn) → (answer_hello s c).1.phase ≢ hello
unfolding answer_hello push
answer_hello-phase (accepted v) c =
    push_bytes-phase (server_encode ready) (record c { phase = frames }) (λ q. cc)
answer_hello-phase (refused r) c = λ q. cc

-- The connection after a hello of nine bytes, before the answer.
abbrev pub taken : Conn → Conn
taken c = record c {
  inbuf = drop client_hello_len c.inbuf;
  outbuf =
      c.outbuf
      ++ encode_server_hello (reply_to (decode_client_hello (take client_hello_len c.inbuf)));
}

step_hello-phase : (c : Conn) → (step_hello c).0 ≡ true → (step_hello c).1.phase ≢ hello
unfolding step_hello
step_hello-phase c e = ground (
  arith,
  answer_hello-phase (reply_to (decode_client_hello (take client_hello_len c.inbuf))) (taken c),
)

-- `step` always returns: its loop ends within two rounds, on every connection.
pub step-ne-none : (c : Conn) → step c ≢ none
unfolding step
step-ne-none c = ground (arith, step_hello-phase c)

-- What the server sends to a client that asks for a version.
abbrev pub greeting : ServerHello → List ℕ → List ℕ
greeting (accepted v) ready_frame = encode_server_hello (accepted v) ++ ready_frame
greeting (refused r) ready_frame = encode_server_hello (refused r)

abbrev pub phase_after : ServerHello → Phase
phase_after (accepted v) = frames
phase_after (refused r) = draining

abbrev pub ready_frame : List ℕ
ready_frame = 0x20 ∷ 0 ∷ 0 ∷ 0 ∷ 0 ∷ []

pub server_encode-ready : server_encode ready ≡ ok ready_frame
unfolding server_encode server_body server_type Writer.new Writer.finish frame Writer.u32 Writer.u8
    Writer.extend le_bytes
server_encode-ready = refl

-- A connection that has read exactly a hello.
abbrev greeted : ServerHello → List ℕ → Conn
greeted s rest = record new { inbuf = rest; outbuf = encode_server_hello s }

nine_bytes :
    (v : ℕ) (rest : List ℕ) → ltb (length (encode_client_hello v ++ rest)) client_hello_len ≡ false
unfolding encode_client_hello le_bytes
nine_bytes v rest = ground arith

take_hello :
    (v : ℕ) (rest : List ℕ)
    → take client_hello_len (encode_client_hello v ++ rest) ≡ encode_client_hello v
unfolding encode_client_hello le_bytes
take_hello v rest = refl

drop_hello : (v : ℕ) (rest : List ℕ) → drop client_hello_len (encode_client_hello v ++ rest) ≡ rest
unfolding encode_client_hello le_bytes
drop_hello v rest = refl

step_hello-hello :
    (v : ℕ) (rest : List ℕ)
    → v < 2 ^ 16
    → step_hello (record new { inbuf = encode_client_hello v ++ rest })
      ≡ answer_hello (negotiate v) (greeted (negotiate v) rest)
unfolding step_hello
step_hello-hello v rest h =
    rw (nine_bytes v rest, take_hello v rest, drop_hello v rest, decode-encode_client_hello v h)

step-after_hello :
    (c : Conn)
    → c.phase ≡ hello
    → c.awaiting ≡ false
    → wants_write c ≡ false
    → step c ≡ after_hello (step_loop 1) (step_hello c)
unfolding step
step-after_hello c hp ha hw = ground arith

after_answer :
    (s : ServerHello) (rest : List ℕ)
    → after_hello (step_loop 1) (answer_hello s (greeted s rest))
      ≡ some (
        opened,
        record new { phase = phase_after s; inbuf = rest; outbuf = greeting s ready_frame },
      )
unfolding after_hello answer_hello
after_answer (accepted v) rest =
    unfold push in
    rw server_encode-ready (
      unfold push_bytes step_loop by_phase state is_finished wants_write encode_server_hello
        le_bytes in
      refl)
after_answer (refused r) rest = unfold state is_finished wants_write encode_server_hello in refl

step-negotiate :
    (v : ℕ) (rest : List ℕ)
    → v < 2 ^ 16
    → step (record new { inbuf = encode_client_hello v ++ rest })
      ≡ some (
        opened,
        record new {
          phase = phase_after (negotiate v);
          inbuf = rest;
          outbuf = greeting (negotiate v) ready_frame;
        },
      )
step-negotiate v rest h =
    step-after_hello (record new { inbuf = encode_client_hello v ++ rest }) refl refl
      (unfold wants_write in refl)
    ∙ rw (step_hello-hello v rest h) (after_answer (negotiate v) rest)

-- The phase that a hello with a version leads to, and the bytes of the answer: the one version that the
-- server speaks is taken, with a `Ready` frame behind, and the version 0 and every later one are
-- refused, each with its own reason.
pub data Answer : ℕ → Phase → List ℕ → Type 0 where
  spoken : Answer 1 frames (1 ∷ 1 ∷ 0 ∷ 0 ∷ 0x20 ∷ 0 ∷ 0 ∷ 0 ∷ 0 ∷ [])
  too_old : Answer 0 draining (0 ∷ 0 ∷ 0 ∷ 1 ∷ [])
  too_new : (v : ℕ) → 1 < v → Answer v draining (0 ∷ 0 ∷ 0 ∷ 2 ∷ [])

negotiate_new : (v : ℕ) → 1 < v → negotiate v ≡ refused version_too_new
unfolding negotiate
negotiate_new v h = ground arith

negotiate-Answer :
    (v : ℕ) → Answer v (phase_after (negotiate v)) (greeting (negotiate v) ready_frame)
unfolding encode_server_hello refusal_byte le_bytes
negotiate-Answer zero = unfold negotiate in too_old
negotiate-Answer (suc zero) = unfold negotiate in spoken
negotiate-Answer (suc (suc v)) =
    rw (negotiate_new (suc (suc v)) (omega arith)) (too_new (suc (suc v)) (omega arith))

-- A fresh connection that has received the hello of a client, and perhaps more, answers in one
-- step. A hello with the version 1, the one that the server speaks, is answered with that version
-- and a `Ready` frame, and frames are read from then on; the version 0 is refused as too old and a
-- later one as too new, and the connection drains. What follows the hello stays in the buffer. The
-- version has 16 bits.
pub step-handshake :
    (v : ℕ) (rest : List ℕ)
    → v < 2 ^ 16
    → (phase' : Phase) × (out : List ℕ) × Answer v phase' out
      × (step (record new { inbuf = encode_client_hello v ++ rest })
          ≡ some (opened, record new { phase = phase'; inbuf = rest; outbuf = out }))
step-handshake v rest h = (
  phase_after (negotiate v),
  greeting (negotiate v) ready_frame,
  negotiate-Answer v,
  step-negotiate v rest h,
)
