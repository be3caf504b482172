-- ===== src/Core/Pager/Open.antt =====
-- `create` and `read_page` of the `Pager` of crates/quantydb-core/src/pager.rs; its `open` is `recover`.
pub mod Created
mod Tests
use quanty_database.Prelude.{
  ℕ, ◌+◌, ◌*◌, Bool, true, false, not, ◌||◌, Option, none, some, List, [], ◌∷◌, ltb, leb, ◌==◌,
  if◌then◌else◌, length,
}
use quanty_database.Prelude.Result.{Result, ok, err, ◌>>=◌, ◌>>◌}
use quanty_database.Core.Error.{Error, invalid_argument, page_out_of_bounds}
use quanty_database.Core.Page.{
  PageId, Buf, PageType, meta, branch, leaf, overflow, free_list, blob, commit, nil_page, page_type,
  zeroes,
}
use quanty_database.Core.Page.Seal.{verify, valid_page_size}
use quanty_database.Core.Storage.{Storage, storage_len, read_at}
use quanty_database.Core.Meta.{Meta, encode_meta}
use quanty_database.Core.Cache.{PageCache, get_page, insert_page}
use quanty_database.Core.Node.Search.{check_leaf, check_branch}
use quanty_database.Core.Pager.Durable.{Event, write, sync}

unfoldable pub initial_meta : ℕ → ℕ → Meta
initial_meta page_size now_ms = record {
  page_size = page_size;
  txid = 0;
  data_root = nil_page;
  catalog_root = nil_page;
  freelist_root = nil_page;
  page_count = 2;
  unix_ts_ms = now_ms;
  commit_page = nil_page;
  refs_root = nil_page;
}

-- The checks of the structure of a page, as it enters the cache.
unfoldable pub check_structure : PageId → Buf → Result Error PageType → Result Error (Unit {0})
check_structure id buf (ok leaf) = check_leaf buf id >>= λ count. ok tt
check_structure id buf (ok branch) = check_branch buf id >>= λ found. ok tt
check_structure id buf (ok _) = ok tt
check_structure id buf (err e) = ok tt

-- The page goes to the cache; `none` is that the sweep of the cache ran out of turns.
unfoldable pub cached :
    PageId → Result Error Buf → PageCache → Option (Result Error Buf × PageCache)
cached id (err e) cache = some (err e, cache)
cached id (ok buf) cache = elim (insert_page id buf cache) [
  | none ↦ none
  | some cache' ↦ some (ok buf, cache')
]

module _ (checksum : Buf → ℕ) where
  -- `Pager::create`: the first meta, and the calls of the storage.
  unfoldable pub create : ℕ → ℕ → Storage → Result Error (Meta × List Event)
  create page_size now_ms s =
      let first = initial_meta page_size now_ms in
      let buf = encode_meta checksum first (zeroes page_size) in
      if not (valid_page_size page_size)
      then err invalid_argument
      else if not (storage_len s == 0)
      then err invalid_argument
      else ok (first, write 0 buf ∷ write page_size buf ∷ sync ∷ [])

  -- A page as it comes from the storage.
  unfoldable pub load_page : ℕ → Storage → PageId → Result Error Buf
  load_page page_size s id = do
    buf ← read_at (id * page_size) page_size s
    verify checksum buf id
    check_structure id buf (page_type buf)
    ok buf

  unfoldable pub looked_up :
      ℕ → Storage → PageId → Option Buf × PageCache → Option (Result Error Buf × PageCache)
  looked_up page_size s id (some buf, cache) = some (ok buf, cache)
  looked_up page_size s id (none, cache) = cached id (load_page page_size s id) cache

  -- `Pager::read_page`
  unfoldable pub read_page :
      Meta → Storage → PageId → PageCache → Option (Result Error Buf × PageCache)
  read_page committed s id cache =
      if ltb id 2 || leb committed.page_count id
      then some (err (page_out_of_bounds id), cache)
      else looked_up committed.page_size s id (get_page id cache)
