-- ===== src/Core/Pager/WriteRecord.antt =====
-- `write_record` of crates/quantydb-core/src/commit.rs: the commit record of the transaction that a
-- batch is about to commit.
use quanty_database.Prelude.{ℕ, ◌+◌, ◌≤◌, ◌≡◌, refl, some, arith, length}
use quanty_database.Prelude.Assoc.{get, get-insert}
use quanty_database.Prelude.Result.{Result, ok, ◌>>◌}
use quanty_database.Core.Error.{Error}
use quanty_database.Core.Page.{PageId, Buf, PageType, commit, init_header, zeroes}
use quanty_database.Core.Commit.{CommitInfo, ReadPages, fill_record, read_record}
use quanty_database.Core.Commit.Record.{IsInfo, read_record-fill_record}
use quanty_database.Core.Pager.{Batch, allocate, page_mut, write_through, record_page, take_page_id}
use quanty_database.Core.Pager.Steps.{page_bytes, visible}

abbrev pub record_of : Batch → ℕ → PageId → PageId → PageId → ℕ → CommitInfo
record_of b parent_id parent_page data_root catalog_root unix_ts_ms = record {
  commit_id = b.base.txid + 1;
  parent_id = parent_id;
  data_root = data_root;
  catalog_root = catalog_root;
  parent_page = parent_page;
  unix_ts_ms = unix_ts_ms;
}

unfoldable pub named : PageId → Result Error (Unit {0}) × Batch → Result Error PageId × Batch
named id (r, b) = ((r >> ok id), b)

unfoldable pub write_record :
    ReadPages → ℕ → PageId → PageId → PageId → ℕ → Batch → Result Error PageId × Batch
write_record src parent_id parent_page data_root catalog_root unix_ts_ms b =
    let (id, b') = allocate src commit b in
    named id (
      page_mut id
        (fill_record (record_of b parent_id parent_page data_root catalog_root unix_ts_ms)) b')

length-zeroes : (n : ℕ) → length (zeroes n) ≡ n
unfolding zeroes
length-zeroes ℕ.zero = refl
length-zeroes (ℕ.suc n) = omega (arith, length-zeroes n)

get-allocate :
    (src : ReadPages) (t : PageType) (b : Batch)
    → get (allocate src t b).0 (allocate src t b).1.dirty
      ≡ some (init_header t (zeroes b.base.page_size))
unfolding allocate record_page
get-allocate src t b =
    get-insert (take_page_id src b.now).0 (init_header t (zeroes b.base.page_size)) b.dirty

page_mut_owned :
    (id : PageId) (change : Buf → Buf) (b : Batch) (buf : Buf)
    → get id b.dirty ≡ some buf
    → ((page_mut id change b).0 ≡ ok tt)
      × (get id (page_mut id change b).1.dirty ≡ some (change buf))
unfolding page_mut record_page write_through
page_mut_owned id change b buf e = (rw e refl, rw e (get-insert id (change buf) b.dirty))

page_bytes-get :
    (src : ReadPages) (id : PageId) (b : Batch) (buf : Buf)
    → get id b.dirty ≡ some buf
    → page_bytes src id b ≡ ok buf
unfolding page_bytes visible
page_bytes-get src id b buf e = rw e refl

-- Writing a commit record succeeds, and the batch then reads, on the page that is returned, the record
-- whose id is one more than that of the base and whose links are those that were given.
pub read_record-write_record :
    (src : ReadPages) (parent_id : ℕ) (parent_page data_root catalog_root : PageId) (unix_ts_ms : ℕ)
    (b : Batch)
    → IsInfo (record_of b parent_id parent_page data_root catalog_root unix_ts_ms)
    → 512 ≤ b.base.page_size
    → (id : PageId) × ((write_record src parent_id parent_page data_root catalog_root unix_ts_ms
          b).0
        ≡ ok id)
      × (read_record
            (λ at.
              page_bytes src at
                (write_record src parent_id parent_page data_root catalog_root unix_ts_ms b).1)
            id
          ≡ ok (record_of b parent_id parent_page data_root catalog_root unix_ts_ms))
unfolding write_record named
read_record-write_record src parent_id parent_page data_root catalog_root unix_ts_ms b fits size = (
  id,
  rw (owned.0) refl,
  read_record-fill_record info (zeroes b.base.page_size) _ id fits
      (omega (arith, length-zeroes b.base.page_size))
      (page_bytes-get src id _ (fill_record info (init_header commit (zeroes b.base.page_size)))
        owned.1),
)
  where
    info : CommitInfo
    info = record_of b parent_id parent_page data_root catalog_root unix_ts_ms

    id : PageId
    id = (allocate src commit b).0

    owned :
        ((page_mut id (fill_record info) (allocate src commit b).1).0 ≡ ok tt)
        × (get id (page_mut id (fill_record info) (allocate src commit b).1).1.dirty
            ≡ some (fill_record info (init_header commit (zeroes b.base.page_size))))
    owned =
        page_mut_owned id (fill_record info) (allocate src commit b).1
          (init_header commit (zeroes b.base.page_size)) (get-allocate src commit b)
