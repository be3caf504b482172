-- ===== src/Core/Pager/Crash.antt =====
-- What a crash leaves of the writes that `commit` of crates/quantydb-core/src/pager.rs makes. A write
-- that no sync stands behind may be on the disk in full, in part or not at all, in any order.
pub mod Phases
pub mod Pages
pub mod Slots
pub mod Sealed
pub mod Atomic
pub mod Recovery
pub mod History
mod HistoryTests
mod Tests
use quanty_database.Prelude.{ℕ, ◌+◌, ◌≤◌, ◌≡◌, Bool, true, List, [], ◌∷◌, length}
use quanty_database.Prelude.Buffer.{slice, all_apart}
use quanty_database.Core.Page.{Buf}
use quanty_database.Core.Storage.{Storage, store_at}
use quanty_database.Core.Pager.Durable.{Event, write, sync}

-- The disk may differ from the last synced state where one of the writes since then goes, and it may
-- be longer.
pub record Unsynced (synced : Storage) (writes : List (ℕ × Buf)) (disk : Storage) : Type 0 where
  pub longer : length synced ≤ length disk
  pub same :
      (off n : ℕ)
      → off + n ≤ length synced
      → all_apart off n writes ≡ true
      → slice off n disk ≡ slice off n synced

-- A crash at any time during some calls of the storage: `synced` is durable, and the writes since then
-- make it `now`.
pub data CrashedAt : Storage → Storage → List (ℕ × Buf) → List Event → Storage → Type 0 where
  cut :
      (synced now : Storage) (writes : List (ℕ × Buf)) (events : List Event) (disk : Storage)
      → Unsynced synced writes disk
      → CrashedAt synced now writes events disk
  written :
      (synced now : Storage) (writes : List (ℕ × Buf)) (off : ℕ) (bytes : Buf) (events : List Event)
      (disk : Storage)
      → CrashedAt synced (store_at off bytes now) ((off, bytes) ∷ writes) events disk
      → CrashedAt synced now writes (write off bytes ∷ events) disk
  flushed :
      (synced now : Storage) (writes : List (ℕ × Buf)) (events : List Event) (disk : Storage)
      → CrashedAt now now [] events disk
      → CrashedAt synced now writes (sync ∷ events) disk

-- A crash during calls that start from a durable state.
abbrev pub Crashed : Storage → List Event → Storage → Type 0
Crashed s events disk = CrashedAt s s [] events disk
