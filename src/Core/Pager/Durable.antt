-- ===== src/Core/Pager/Durable.antt =====
-- `commit` of crates/quantydb-core/src/pager.rs: the writes and syncs by which a batch becomes
-- durable, in their order, and what is published behind the last of them.
use quanty_database.Prelude.{
  ℕ, ◌+◌, ◌*◌, ◌%◌, Bool, ◌||◌, Option, none, some, List, [], ◌∷◌, ◌++◌, ltb, if◌then◌else◌,
}
use quanty_database.Prelude.Result.{Result, ok, err}
use quanty_database.Core.Error.{Error, writer_raced, invalid_argument}
use quanty_database.Core.Page.{PageId, Buf, zeroes}
use quanty_database.Core.Page.Seal.{seal}
use quanty_database.Core.Storage.{Storage, store_at}
use quanty_database.Core.Meta.{Meta, encode_meta, txid_in_slot, is_astray}
use quanty_database.Core.Cache.{PageCache, insert_page}
use quanty_database.Core.Commit.{ReadPages}
use quanty_database.Core.Pager.{Batch, Scalars}
use quanty_database.Core.Pager.Settle.{settle_freelist}

-- A call of the storage.
pub data Event : Type 0 where
  write : (off : ℕ) (bytes : Buf) → Event
  sync : Event

-- What a commit does, if it is not refused.
pub record Committed : Type 0 where
  pub events : List Event
  pub sealed : List (PageId × Buf)
  pub published : Meta

unfoldable pub perform : Event → Storage → Storage
perform (write off bytes) s = store_at off bytes s
perform sync s = s

unfoldable pub perform_all : List Event → Storage → Storage
perform_all [] s = s
perform_all (e ∷ events) s = perform_all events (perform e s)

-- `root != NIL_PAGE && (root < 2 || root >= self.next_page)` for any of the five roots.
unfoldable pub any_root_outside : Scalars → Bool
any_root_outside s =
    is_astray s.next_page s.data_root
    || (is_astray s.next_page s.catalog_root
        || (is_astray s.next_page s.freelist_root
            || (is_astray s.next_page s.commit_page || is_astray s.next_page s.refs_root)))

unfoldable pub new_meta : ℕ → Batch → Meta
new_meta now_ms b = record {
  page_size = b.base.page_size;
  txid = b.base.txid + 1;
  data_root = b.now.data_root;
  catalog_root = b.now.catalog_root;
  freelist_root = b.now.freelist_root;
  page_count = b.now.next_page;
  unix_ts_ms = now_ms;
  commit_page = b.now.commit_page;
  refs_root = b.now.refs_root;
}

-- The writes of the pages, as they are sealed.
unfoldable pub page_writes : ℕ → List (PageId × Buf) → List Event
page_writes ps [] = []
page_writes ps ((id, buf) ∷ pages) = write (id * ps) buf ∷ page_writes ps pages

-- The sealed pages go to the cache.
unfoldable pub publish : List (PageId × Buf) → PageCache → Option PageCache
publish [] c = some c
publish ((id, buf) ∷ pages) c = elim (insert_page id buf c) [
  | none ↦ none
  | some c' ↦ publish pages c'
]

module _ (checksum : Buf → ℕ) where
  unfoldable pub seal_all : ℕ → List (PageId × Buf) → List (PageId × Buf)
  seal_all txid [] = []
  seal_all txid ((id, buf) ∷ pages) = (id, seal checksum txid buf) ∷ seal_all txid pages

  unfoldable pub write_events : ℕ → Batch → Committed
  write_events now_ms b =
      let txid = b.base.txid + 1 in
      let ps = b.base.page_size in
      let sealed = seal_all txid b.dirty in
      let next = new_meta now_ms b in
      record {
        events =
            page_writes ps sealed
            ++ sync ∷ write ((txid % 2) * ps) (encode_meta checksum next (zeroes ps)) ∷ sync ∷ [];
        sealed = sealed;
        published = next;
      }

  unfoldable pub after_settle :
      ℕ → Option (Result Error (Unit {0}) × Batch) → Option (Result Error Committed)
  after_settle now_ms none = none
  after_settle now_ms (some (err e, b)) = some (err e)
  after_settle now_ms (some (ok u, b)) =
      if any_root_outside b.now
      then some (err invalid_argument)
      else some (ok (write_events now_ms b))

  -- `commit` up to its first write; `none` is that `settle_freelist` ran out of rounds.
  unfoldable pub commit : ℕ → ReadPages → Storage → Batch → Option (Result Error Committed)
  commit now_ms src s b =
      let found = txid_in_slot checksum s b.base.page_size ((b.base.txid + 1) % 2) in
      if ltb b.base.txid found
      then some (err (writer_raced b.base.txid found))
      else after_settle now_ms (settle_freelist src b)
