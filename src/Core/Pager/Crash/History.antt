-- ===== src/Core/Pager/Crash/History.antt =====
-- Histories of a database of crates/quantydb-core/src/pager.rs: it is created, batches are committed, and
-- commits crash, after which it is opened again.
use quanty_database.Prelude.{
  ℕ, ◌+◌, Option, none, ◌^◌, ◌≤◌, ◌<◌, ◌≡◌, inl, inr, sym, ◌∙◌, some, List,
}
use quanty_database.Prelude.Bytes.{IsU64}
use quanty_database.Prelude.Result.{ok, ok-injective}
use quanty_database.Core.Page.{Buf}
use quanty_database.Core.Storage.{Storage}
use quanty_database.Core.Meta.{Meta, recover, page_sizes}
use quanty_database.Core.Meta.RoundTrip.{IsMeta}
use quanty_database.Core.FreeList.{ids_per_page}
use quanty_database.Core.Commit.{ReadPages}
use quanty_database.Core.Pager.{Batch}
use quanty_database.Core.Pager.Ownership.{Occurs}
use quanty_database.Core.Pager.Settle.{settle_freelist}
use quanty_database.Core.Pager.Settle.Total.{IsWritable}
use quanty_database.Core.Pager.Durable.{Event, Committed, commit, perform_all}
use quanty_database.Core.Pager.Open.{create}
use quanty_database.Core.Pager.Open.Created.{create-IsTwin, create-page_size}
use quanty_database.Core.Pager.Crash.{Crashed}
use quanty_database.Core.Pager.Crash.Slots.{IsStored, Alone, recover-IsStored}
use quanty_database.Core.Pager.Crash.Atomic.{Detected}
use quanty_database.Core.Pager.Crash.Recovery.{commit-next, commit-perform_all, crash-IsStored}

module _ (checksum : Buf → ℕ) where
  -- A commit that is not refused, of a batch whose pages and free pages are data pages.
  pub record IsCommit (now_ms : ℕ) (src : ReadPages) (s : Storage) (b b' : Batch) (c : Committed)
      : Type 0 where
    pub room : 1 ≤ ids_per_page b.base.page_size
    pub writable : IsWritable b
    pub settled : settle_freelist src b ≡ some (ok tt, b')
    pub accepted : commit checksum now_ms src s b ≡ some (ok c)
    pub fits : IsMeta c.published

  -- A disk that a history leads to, with the meta that the database was last known to have, and that of
  -- a commit that was cut off since, if there is one. Each batch is of the meta that opening the disk
  -- finds, and each disk that is opened has no valid meta page of another page size.
  pub data Reached (page_size : ℕ) : Storage → Meta → Option Meta → Type 0 where
    created :
        (now_ms : ℕ) (s : Storage) (m : Meta) (events : List Event)
        → IsU64 now_ms
        → create checksum page_size now_ms s ≡ ok (m, events)
        → Reached page_size (perform_all events s) m none
    committed :
        (now_ms : ℕ) (src : ReadPages) (s : Storage) (b b' : Batch) (c : Committed) (last : Meta)
        (lost : Option Meta)
        → Reached page_size s last lost
        → Alone checksum s page_size
        → recover checksum s ≡ ok b.base
        → IsCommit now_ms src s b b' c
        → Reached page_size (perform_all c.events s) c.published none
    crashed :
        (now_ms : ℕ) (src : ReadPages) (s disk : Storage) (b b' : Batch) (c : Committed)
        (last : Meta) (lost : Option Meta)
        → Reached page_size s last lost
        → Alone checksum s page_size
        → recover checksum s ≡ ok b.base
        → IsCommit now_ms src s b b' c
        → Crashed s c.events disk
        → Detected checksum s disk b.base c.published
        → Reached page_size disk b.base (some c.published)

  -- What opening may find: the last meta, or the newer one of the commit that was cut off.
  pub data Expected (last : Meta) : Option Meta → Meta → Type 0 where
    the_last : (lost : Option Meta) → Expected last lost last
    the_lost : (m : Meta) → m.txid ≡ last.txid + 1 → Expected last (some m) m

  record Holds (page_size : ℕ) (s : Storage) (last : Meta) (lost : Option Meta) : Type 0 where
    pub found : Meta
    pub stored : IsStored checksum s found
    pub size : found.page_size ≡ page_size
    pub expected : Expected last lost found

  -- Opening finds the meta that is held.
  recover-Holds :
      (page_size : ℕ) (s : Storage) (last : Meta) (lost : Option Meta)
      → Occurs page_size page_sizes
      → Alone checksum s page_size
      → (h : Holds page_size s last lost) → recover checksum s ≡ ok h.found
  recover-Holds page_size s last lost legal alone h =
      recover-IsStored checksum s h.found h.stored (rw (h.size) legal) (rw (h.size) alone)

  -- The batch is of the meta that is held.
  base-IsStored :
      (page_size : ℕ) (s : Storage) (base last : Meta) (lost : Option Meta)
      → Occurs page_size page_sizes
      → Alone checksum s page_size
      → recover checksum s ≡ ok base
      → Holds page_size s last lost
      → IsStored checksum s base × (base.page_size ≡ page_size)
  base-IsStored page_size s base last lost legal alone opened h =
      let same =
        ok-injective h.found base
          (sym (recover-Holds page_size s last lost legal alone h) ∙ opened) in
      (rw (sym same) (h.stored), rw (sym same) (h.size))

  Reached-Holds :
      (page_size : ℕ) (s : Storage) (last : Meta) (lost : Option Meta)
      → ((buf : Buf) → checksum buf < 2 ^ 32)
      → Occurs page_size page_sizes
      → Reached page_size s last lost
      → Holds page_size s last lost
  Reached-Holds page_size _ _ _ bound legal (created now_ms s m events fits e) = record {
    found = m;
    stored = (create-IsTwin checksum page_size now_ms s m events bound fits e).stored;
    size = create-page_size checksum page_size now_ms s m events e;
    expected = the_last none;
  }
  Reached-Holds page_size _ _ _ bound legal
        (committed now_ms src s b b' c last lost before alone opened k) =
      let (stored, size) =
        base-IsStored page_size s b.base last lost legal alone opened
          (Reached-Holds page_size s last lost bound legal before) in
      record {
        found = c.published;
        stored =
            (commit-perform_all checksum now_ms src s b b' c bound k.room k.writable stored
              k.settled k.accepted k.fits).0;
        size =
            (commit-next checksum now_ms src s b b' c k.room k.writable k.settled k.accepted).0
            ∙ size;
        expected = the_last none;
      }
  Reached-Holds page_size _ _ _ bound legal
        (crashed now_ms src s disk b b' c last lost before alone opened k crash detected) =
      let (stored, size) =
        base-IsStored page_size s b.base last lost legal alone opened
          (Reached-Holds page_size s last lost bound legal before) in
      let (same_size, next) =
        commit-next checksum now_ms src s b b' c k.room k.writable k.settled k.accepted in
      elim (crash-IsStored checksum now_ms src s disk b b' c bound k.room k.writable stored
        k.settled k.accepted k.fits crash detected) [
          | inl old ↦ record {
            found = b.base;
            stored = old;
            size = size;
            expected = the_last (some c.published);
          }
          | inr new ↦ record {
            found = c.published;
            stored = new;
            size = same_size ∙ size;
            expected = the_lost c.published next;
          }
        ]

  -- However a database was created, committed to and crashed, in any order, it can be opened, and what
  -- is found is the meta of the last commit that was made, or, if a commit was cut off by a crash since,
  -- the one that this commit was made on, or its own, with the next txid: no commit that was made is
  -- lost, and no older state is found. Conditions: the checksum has 32 bits and the page size is a legal
  -- one; no disk that is opened, the last one included, has a valid meta page of another page size; each
  -- batch is of the meta that opening found, its pages and free pages are data pages, a page has room
  -- for an id of the free list, its commit is not refused and the numbers of its new meta fit; the time
  -- of the creation fits in 64 bits; and after each crash the slot of the new meta holds nothing valid,
  -- what it held, or the new meta.
  pub recover-Reached :
      (page_size : ℕ) (s : Storage) (last : Meta) (lost : Option Meta)
      → ((buf : Buf) → checksum buf < 2 ^ 32)
      → Occurs page_size page_sizes
      → Reached page_size s last lost
      → Alone checksum s page_size
      → (m : Meta) × (recover checksum s ≡ ok m) × Expected last lost m
  recover-Reached page_size s last lost bound legal h alone =
      let held = Reached-Holds page_size s last lost bound legal h in
      (held.found, recover-Holds page_size s last lost legal alone held, held.expected)
