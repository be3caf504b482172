-- ===== src/Core/Commit.antt =====
-- crates/quantydb-core/src/commit.rs: commit records and the walks over them. A reader of pages is a
-- function from ids to the page or an error.
pub mod History
pub mod Record
use quanty_database.Prelude.{
  ℕ, zero, suc, ◌+◌, ◌^◌, ◌≤◌, ◌<◌, ◌≡◌, ◌≢◌, refl, sym, ◌∙◌, ap, ◌⊎◌, inl, inr, Bool, true, false,
  Bool-cases, ◌&&◌, ◌||◌, not, Option, none, some, List, [], ◌∷◌, ◌++◌, arith, leb, ltb, ◌==◌,
  if◌then◌else◌, length, All,
}
use quanty_database.Prelude.Bytes.{IsU64}
use quanty_database.Prelude.Result.{Result, ok, err, ◌>>=◌, ◌>>◌, ensure}
use quanty_database.Core.Error.{Error, corrupted}
use quanty_database.Core.Page.{
  PageId, Buf, PageType, commit, nil_page, page_header_len, init_header, page_type, u64_at, put_u64,
  u8_at, length-init_header, page_type-init_header, length-put_u64, u64_at-put_u64,
  u64_at-put_u64_below, page_type-put_u64,
}

pub record CommitInfo : Type 0 where
  pub commit_id : ℕ
  pub parent_id : ℕ
  pub data_root : PageId
  pub catalog_root : PageId
  pub parent_page : PageId
  pub unix_ts_ms : ℕ

abbrev pub ReadPages : Type 0
ReadPages = PageId → Result Error Buf

pub is_commit : PageType → Bool
is_commit commit = true
is_commit _ = false

-- What `write_record` puts into the page that it allocated.
unfoldable pub fill_record : CommitInfo → Buf → Buf
fill_record c buf = put_u64 56 c.unix_ts_ms (
    put_u64 48 c.parent_page (
      put_u64 40 c.catalog_root
        (put_u64 32 c.data_root (put_u64 24 c.parent_id (put_u64 16 c.commit_id buf)))))

unfoldable pub read_record : ReadPages → PageId → Result Error CommitInfo
unfolding is_commit
read_record src page_id = do
  buf ← src page_id
  t ← page_type buf
  ensure (is_commit t) (corrupted (some page_id))
  ok (record {
    commit_id = u64_at 16 buf;
    parent_id = u64_at 24 buf;
    data_root = u64_at 32 buf;
    catalog_root = u64_at 40 buf;
    parent_page = u64_at 48 buf;
    unix_ts_ms = u64_at 56 buf;
  })

-- The loop of `find` with the rounds that are left; `none` is that they ran out. The loop of the
-- source has no bound: it ends because ids shrink.
unfoldable pub find_loop :
    ℕ → ReadPages → PageId → ℕ → ℕ → Option (Result Error (Option CommitInfo))
find_loop zero src at floor commit_id = none
find_loop (suc fuel) src at floor commit_id =
    if at == nil_page then some (ok none) else elim (read_record src at) [
      | err e ↦ some (err e)
      | ok r ↦
          (let rest = find_loop fuel src r.parent_page floor commit_id in
            if r.commit_id == commit_id
            then some (ok (some r))
            else if ltb r.commit_id commit_id || leb r.commit_id floor
            then some (ok none)
            else rest)
    ]

unfoldable pub find_at_time_loop :
    ℕ → ReadPages → PageId → ℕ → ℕ → Option (Result Error (Option CommitInfo))
find_at_time_loop zero src at floor unix_ts_ms = none
find_at_time_loop (suc fuel) src at floor unix_ts_ms =
    if at == nil_page then some (ok none) else elim (read_record src at) [
      | err e ↦ some (err e)
      | ok r ↦
          (let rest = find_at_time_loop fuel src r.parent_page floor unix_ts_ms in
            if leb r.unix_ts_ms unix_ts_ms
            then some (ok (some r))
            else if leb r.commit_id floor
            then some (ok none)
            else rest)
    ]
