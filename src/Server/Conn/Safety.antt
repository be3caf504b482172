-- ===== src/Server/Conn/Safety.antt =====
-- For `step` of crates/quantydb-server/src/conn.rs: the invariant, and submissions.
use quanty_database.Prelude.{
  ℕ, zero, suc, ◌≤◌, ◌≡◌, ◌≢◌, refl, ap, ◌∙◌, Bool, true, false, Bool-cases, inl, inr, ◌||◌, none,
  some, Option, arith, ltb, length, length-append, take,
}
use quanty_database.Proto.Frame.{
  ServerHello, accepted, refused, client_hello_len, decode_client_hello, encode_server_hello,
}
use quanty_database.Proto.Message.{ClientMessage}
use quanty_database.Server.Conn.{
  Step, submit, Decoded, stalled, request, Phase, hello, frames, draining, Conn, is_draining,
  wants_write, state, push, push_bytes, answer_hello, reply_to, by_phase, after_hello, after_frame,
  step_hello, step_frame, step_loop, step,
}
use quanty_database.Server.Conn.Handshake.{taken, ready_frame, server_encode-ready}
use quanty_database.Server.Conn.Invariant.{
  IsConn, IsSubmitted, step_frame-IsConn, step_hello-IsConn, step_frame-request,
}

abbrev Kept : Option (Step × Conn) → Type 0
Kept none = Unit
Kept (some (s, c)) = IsConn c

after_hello-Kept :
    (again : Conn → Option (Step × Conn)) (r : Bool × Conn)
    → ((c : Conn) → IsConn c → Kept (again c))
    → IsConn r.1
    → Kept (after_hello again r)
unfolding after_hello
after_hello-Kept again (true, c) ih h = ih c h
after_hello-Kept again (false, c) ih h = h

after_frame-Kept :
    (r : Decoded × Conn)
    → IsConn r.1
    → ((m : ClientMessage) → r.0 ≡ request m → r.1.phase ≢ hello)
    → Kept (after_frame r)
unfolding after_frame
after_frame-Kept (stalled, c) h ne = h
after_frame-Kept (request m, c) h ne =
    let ne' : c.phase ≢ hello = ne m refl in record { bounded = h.bounded; greeted = ground arith }

request-phase :
    (m : ClientMessage) (c : Conn)
    → c.phase ≡ frames
    → (step_frame c).0 ≡ request m
    → (step_frame c).1.phase ≢ hello
request-phase m c hp h =
    let s : IsSubmitted m c (step_frame c).1 = step_frame-request m c (step_frame c).1 (cc h) in
    let same : (step_frame c).1.phase ≡ frames = ap (λ (d : Conn). d.phase) s.after ∙ hp in λ q. cc

by_phase-Kept :
    (p : Phase) (again : Conn → Option (Step × Conn)) (c : Conn)
    → c.phase ≡ p
    → IsConn c
    → ((c' : Conn) → IsConn c' → Kept (again c'))
    → Kept (by_phase p again c)
unfolding by_phase
by_phase-Kept hello again c hp h ih =
    after_hello-Kept again (step_hello c) ih (step_hello-IsConn c h)
by_phase-Kept frames again c hp h ih =
    after_frame-Kept (step_frame c) (step_frame-IsConn c h) (λ m e. request-phase m c hp e)
by_phase-Kept draining again c hp h ih = h

step_loop-Kept : (fuel : ℕ) (c : Conn) → IsConn c → Kept (step_loop fuel c)
unfolding step_loop
step_loop-Kept zero c h = tt
step_loop-Kept (suc fuel) c h =
    elim (Bool-cases (is_draining c.phase || c.awaiting || wants_write c)) [
      | inl stop ↦ rw stop h
      | inr go ↦ rw go (by_phase-Kept c.phase (step_loop fuel) c refl h (step_loop-Kept fuel))
    ]

-- A step, whatever it answers, keeps the invariant that the output position is within the output
-- buffer and that no request is out before the handshake.
pub step-IsConn : (c c' : Conn) (s : Step) → IsConn c → step c ≡ some (s, c') → IsConn c'
unfolding step
step-IsConn c c' s h e = rw e at (step_loop-Kept 2 c h)

-- The round that answers a hello leaves output to write, so the next round reads nothing.
answer_hello-writes :
    (s : ServerHello) (c : Conn)
    → c.outpos ≤ length c.outbuf
    → (answer_hello s c).0 ≡ true
    → wants_write (answer_hello s c).1 ≡ true
unfolding answer_hello push
answer_hello-writes (accepted v) c h e =
    rw server_encode-ready
      (unfold push_bytes wants_write in ground (arith, length-append c.outbuf ready_frame))
answer_hello-writes (refused r) c h e = cc

step_hello-writes :
    (c : Conn) → IsConn c → (step_hello c).0 ≡ true → wants_write (step_hello c).1 ≡ true
unfolding step_hello
step_hello-writes c h e = elim (Bool-cases (ltb (length c.inbuf) client_hello_len)) [
  | inl short ↦ absurd (cc (rw short at e))
  | inr whole ↦
      let reply = reply_to (decode_client_hello (take client_hello_len c.inbuf)) in
      rw whole (
        answer_hello-writes reply (taken c)
          (omega (arith, h.bounded, length-append c.outbuf (encode_server_hello reply)))
          (rw whole at e))
]

state-ne-submit : (c : Conn) (m : ClientMessage) → state c ≢ submit m
unfolding state
state-ne-submit c m e = ground arith

-- A round with output to write submits nothing.
writing_round :
    (fuel : ℕ) (c c' : Conn) (m : ClientMessage)
    → wants_write c ≡ true
    → step_loop (suc fuel) c ≢ some (submit m, c')
unfolding step_loop
writing_round fuel c c' m h e = ground (arith, state-ne-submit c m)

submits_after_hello :
    (r : Bool × Conn) (c' : Conn) (m : ClientMessage)
    → (r.0 ≡ true → wants_write r.1 ≡ true)
    → after_hello (step_loop 1) r ≢ some (submit m, c')
unfolding after_hello
submits_after_hello (true, c) c' m h e = writing_round 0 c c' m (h refl) e
submits_after_hello (false, c) c' m h e = state-ne-submit c m (cc e)

submits_after_frame :
    (c c' : Conn) (m : ClientMessage) (r : Decoded × Conn)
    → step_frame c ≡ r
    → after_frame r ≡ some (submit m, c')
    → (d : Conn) × IsSubmitted m c d × (c' ≡ record d { awaiting = true })
unfolding after_frame
submits_after_frame c c' m (stalled, d) hr e = absurd (state-ne-submit d m (cc e))
submits_after_frame c c' m (request n, d) hr e = (d, step_frame-request m c d (cc (hr, e)), cc e)

submits_by_phase :
    (p : Phase) (c c' : Conn) (m : ClientMessage)
    → IsConn c
    → by_phase p (step_loop 1) c ≡ some (submit m, c')
    → (p ≡ frames) × ((d : Conn) × IsSubmitted m c d × (c' ≡ record d { awaiting = true }))
unfolding by_phase
submits_by_phase hello c c' m h e =
    absurd (submits_after_hello (step_hello c) c' m (step_hello-writes c h) e)
submits_by_phase frames c c' m h e = (refl, submits_after_frame c c' m (step_frame c) refl e)
submits_by_phase draining c c' m h e = absurd (state-ne-submit c m (cc e))

idle_round :
    (fuel : ℕ) (c c' : Conn) (m : ClientMessage)
    → step_loop (suc fuel) c ≡ some (submit m, c')
    → (c.awaiting ≡ false)
      × (wants_write c ≡ false)
      × (by_phase c.phase (step_loop fuel) c ≡ some (submit m, c'))
unfolding step_loop
idle_round fuel c c' m e = elim (Bool-cases (is_draining c.phase || c.awaiting || wants_write c)) [
  | inl stop ↦ absurd (state-ne-submit c m (cc (rw stop at e)))
  | inr go ↦ (ground arith, ground arith, rw go at e)
]

-- A step submits a request only from a connection behind the handshake that awaits no answer and has
-- written all its output; the request is the body of the complete frame at the front of the buffer and
-- no `Close`; and the step takes that frame, leaves all else, and awaits the answer.
pub step_submits :
    (c c' : Conn) (m : ClientMessage)
    → IsConn c
    → step c ≡ some (submit m, c')
    → (c.phase ≡ frames)
      × (c.awaiting ≡ false)
      × (wants_write c ≡ false)
      × (d : Conn) × IsSubmitted m c d
      × (c' ≡ record d { awaiting = true })
unfolding step
step_submits c c' m h e =
    let (idle, flushed, e') = idle_round 1 c c' m e in
    let (hp, (d, s, after)) = submits_by_phase c.phase c c' m h e' in
    (hp, idle, flushed, d, s, after)
