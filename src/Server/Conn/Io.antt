-- ===== src/Server/Conn/Io.antt =====
-- For `flush` of crates/quantydb-server/src/conn.rs: what reaches the socket.
pub mod Fill
use quanty_database.Prelude.{
  ℕ, zero, suc, ◌+◌, ◌<◌, ◌≡◌, refl, ap, ◌∙◌, ◌⊎◌, Bool, true, false, not, Bool-cases, inl, inr,
  List, [], ◌∷◌, ◌++◌, append_assoc, arith, ltb, length, take, drop, drop-drop, take-append-drop,
  drop-le,
}
use quanty_database.Server.Conn.{
  Conn, wants_write, WriteResult, wrote, write_would_block, write_interrupted, write_failed, Flush,
  after_call, flush,
}

-- The output that the socket has not taken.
unfoldable pub pending : Conn → List ℕ
pending c = drop c.outpos c.outbuf

-- What the socket took: of the bytes that each call was given, as many as it answered.
unfoldable pub sent : List WriteResult → List (List ℕ) → List ℕ
sent [] calls = []
sent (r ∷ rs) [] = []
sent (wrote n ∷ rs) (bytes ∷ calls) = take n bytes ++ sent rs calls
sent (_ ∷ rs) (bytes ∷ calls) = sent rs calls

-- The calls up to the first answer that takes nothing and is no interruption, or all of them.
unfoldable pub calls_until_stop : List WriteResult → ℕ
calls_until_stop [] = 0
calls_until_stop (wrote (suc k) ∷ rs) = suc (calls_until_stop rs)
calls_until_stop (write_interrupted ∷ rs) = suc (calls_until_stop rs)
calls_until_stop (_ ∷ rs) = 1

-- Whether the first such answer is an error, or that nothing can be written.
unfoldable pub stop_fails : List WriteResult → Bool
stop_fails [] = false
stop_fails (wrote zero ∷ rs) = true
stop_fails (wrote (suc k) ∷ rs) = stop_fails rs
stop_fails (write_interrupted ∷ rs) = stop_fails rs
stop_fails (write_would_block ∷ rs) = false
stop_fails (write_failed ∷ rs) = true

-- What flushing did.
pub record Flushed (rs : List WriteResult) (c : Conn) (f : Flush) : Type 0 where
  pub kept : sent rs f.0 ++ pending f.1.1 ≡ pending c
  pub ended :
      (pending f.1.1 ≡ []) × (f.1.0 ≡ true)
      ⊎ (length f.0 ≡ calls_until_stop rs) × (f.1.0 ≡ not (stop_fails rs))

pending-empty : (c : Conn) → wants_write c ≡ false → pending c ≡ []
unfolding pending wants_write
pending-empty c h = drop-le c.outpos c.outbuf (ground arith)

sent-nil : (rs : List WriteResult) → sent rs [] ≡ []
unfolding sent
sent-nil [] = refl
sent-nil (r ∷ rs) = refl

abbrev cleared : Conn → Conn
cleared c = record c { outbuf = []; outpos = 0 }

-- All output is out.
Flushed-cleared :
    (rs : List WriteResult) (c : Conn)
    → wants_write c ≡ false
    → Flushed rs c ([], (true, cleared c))
Flushed-cleared rs c h = record {
  kept = rw (sent-nil rs, pending-empty c h) (unfold pending in refl);
  ended = inl (unfold pending in refl, refl);
}

pending-moved :
    (n : ℕ) (c : Conn) → pending (record c { outpos = c.outpos + n }) ≡ drop n (pending c)
unfolding pending
pending-moved n c = drop-drop c.outpos n c.outbuf

Flushed-wrote :
    (k : ℕ) (rs : List WriteResult) (c : Conn) (f : Flush)
    → Flushed rs (record c { outpos = c.outpos + suc k }) f
    → Flushed (wrote (suc k) ∷ rs) c (after_call (pending c) f)
unfolding sent calls_until_stop stop_fails
Flushed-wrote k rs c f h = record {
  kept =
      append_assoc (take (suc k) (pending c)) (sent rs f.0) (pending f.1.1)
      ∙ ap (λ t. take (suc k) (pending c) ++ t) (h.kept ∙ pending-moved (suc k) c)
      ∙ take-append-drop (suc k) (pending c);
  ended = elim h.ended [ inl e ↦ inl e | inr (n, e) ↦ inr (ap suc n, e) ];
}

Flushed-interrupted :
    (rs : List WriteResult) (c : Conn) (f : Flush)
    → Flushed rs c f
    → Flushed (write_interrupted ∷ rs) c (after_call (pending c) f)
unfolding sent calls_until_stop stop_fails
Flushed-interrupted rs c f h = record {
  kept = h.kept;
  ended = elim h.ended [ inl e ↦ inl e | inr (n, e) ↦ inr (ap suc n, e) ];
}

flush-wrote :
    (k : ℕ) (rs : List WriteResult) (c : Conn)
    → wants_write c ≡ true
    → flush (wrote (suc k) ∷ rs) c
      ≡ after_call (pending c) (flush rs (record c { outpos = c.outpos + suc k }))
unfolding flush pending
flush-wrote k rs c h = rw h refl

flush_interrupted :
    (rs : List WriteResult) (c : Conn)
    → wants_write c ≡ true
    → flush (write_interrupted ∷ rs) c ≡ after_call (pending c) (flush rs c)
unfolding flush pending
flush_interrupted rs c h = rw h refl

flush-empty :
    (rs : List WriteResult) (c : Conn)
    → wants_write c ≡ false
    → flush rs c ≡ ([], (true, cleared c))
unfolding flush
flush-empty [] c h = rw h refl
flush-empty (r ∷ rs) c h = rw h refl

Flushed-empty :
    (rs : List WriteResult) (c : Conn) → wants_write c ≡ false → Flushed rs c (flush rs c)
Flushed-empty rs c h = rw (flush-empty rs c h) (Flushed-cleared rs c h)

-- What the socket took of the bytes that the calls of `write` were given, in the order of the
-- calls, followed by what is still pending, is what was pending before the flush, whatever the
-- socket answers. The flush goes on until nothing is pending, which is a success, or until an
-- answer stops it, or the answers end; a call that takes nothing, or an error other than that the
-- socket would block, is its failure.
pub sent-flush : (rs : List WriteResult) (c : Conn) → Flushed rs c (flush rs c)
sent-flush [] c = elim (Bool-cases (wants_write c)) [
  | inl h ↦
      unfold flush in
      rw h (record {
        kept = unfold sent in refl;
        ended = inr (unfold calls_until_stop in refl, unfold stop_fails in refl);
      })
  | inr h ↦ Flushed-empty [] c h
]
sent-flush (wrote zero ∷ rs) c = elim (Bool-cases (wants_write c)) [
  | inl h ↦
      unfold flush in
      rw h (record {
        kept = unfold sent in rw (sent-nil rs) refl;
        ended = inr (unfold calls_until_stop in refl, unfold stop_fails in refl);
      })
  | inr h ↦ Flushed-empty (wrote zero ∷ rs) c h
]
sent-flush (wrote (suc k) ∷ rs) c = elim (Bool-cases (wants_write c)) [
  | inl h ↦
      (let ih = sent-flush rs (record c { outpos = c.outpos + suc k }) in
        rw (flush-wrote k rs c h) (Flushed-wrote k rs c _ ih))
  | inr h ↦ Flushed-empty (wrote (suc k) ∷ rs) c h
]
sent-flush (write_would_block ∷ rs) c = elim (Bool-cases (wants_write c)) [
  | inl h ↦
      unfold flush in
      rw h (record {
        kept = unfold sent in rw (sent-nil rs) refl;
        ended = inr (unfold calls_until_stop in refl, unfold stop_fails in refl);
      })
  | inr h ↦ Flushed-empty (write_would_block ∷ rs) c h
]
sent-flush (write_interrupted ∷ rs) c = elim (Bool-cases (wants_write c)) [
  | inl h ↦
      (let ih = sent-flush rs c in rw (flush_interrupted rs c h) (Flushed-interrupted rs c _ ih))
  | inr h ↦ Flushed-empty (write_interrupted ∷ rs) c h
]
sent-flush (write_failed ∷ rs) c = elim (Bool-cases (wants_write c)) [
  | inl h ↦
      unfold flush in
      rw h (record {
        kept = unfold sent in rw (sent-nil rs) refl;
        ended = inr (unfold calls_until_stop in refl, unfold stop_fails in refl);
      })
  | inr h ↦ Flushed-empty (write_failed ∷ rs) c h
]
