-- ===== src/Server/Conn/Io/Fill.antt =====
-- For `fill` of crates/quantydb-server/src/conn.rs: what is read from the socket.
use quanty_database.Prelude.{
  ℕ, ◌+◌, ◌≤◌, ◌<◌, ◌≡◌, Bool, true, false, Option, none, some, List, [], ◌∷◌, ◌++◌, ltb, length,
}
use quanty_database.Proto.Limits.{max_body}
use quanty_database.Proto.Frame.{header_len}
use quanty_database.Server.Conn.{Conn, ReadResult, got, read_would_block, read_failed}

-- The bytes of some reads.
unfoldable pub received : List ReadResult → List ℕ
received [] = []
received (got bytes ∷ rs) = bytes ++ received rs
received (_ ∷ rs) = received rs

-- A read hands over at most the 8192 bytes of the chunk.
abbrev pub IsChunk : ReadResult → Type 0
IsChunk (got bytes) = length bytes ≤ 8192
IsChunk _ = Unit

abbrev is_past : Conn → Bool
is_past c = ltb (header_len + max_body) (length c.inbuf)

-- Why filling ended, with the answers from there on: the buffer is past a header and the largest body,
-- the socket would block, the peer is done, or the read failed.
pub data Stopped (c : Conn) : List ReadResult → Option Bool → Type 0 where
  full : (rs : List ReadResult) → header_len + max_body < length c.inbuf → Stopped c rs (some true)
  drained : Stopped c [] (some true)
  blocked : (rs : List ReadResult) → Stopped c (read_would_block ∷ rs) (some true)
  peer_closed : (rs : List ReadResult) → Stopped c (got [] ∷ rs) (some false)
  failed : (rs : List ReadResult) → Stopped c (read_failed ∷ rs) none

-- What filling did: all bytes of the reads that it made are in the buffer, in order, and nothing else
-- changed.
pub record Filled (rs : List ReadResult) (c : Conn) (f : Option Bool × Conn) : Type 0 where
  pub used : List ReadResult
  pub left : List ReadResult
  pub reads : rs ≡ used ++ left
  pub appended : f.1 ≡ record c { inbuf = c.inbuf ++ received used }
  pub stopped : Stopped f.1 left f.0
  pub bound : length f.1.inbuf ≤ header_len + max_body + 8192
