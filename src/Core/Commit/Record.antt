-- ===== src/Core/Commit/Record.antt =====
-- For crates/quantydb-core/src/commit.rs: the fields of a commit record in its page.
use quanty_database.Prelude.{
  ℕ, ◌+◌, ◌^◌, ◌≤◌, ◌<◌, ◌≡◌, refl, List, [], ◌∷◌, ◌++◌, arith, length, All,
}
use quanty_database.Prelude.Bytes.{IsU64}
use quanty_database.Prelude.Result.{ok}
use quanty_database.Core.Page.{
  PageId, Buf, commit, page_header_len, init_header, page_type, u64_at, put_u64, length-init_header,
  page_type-init_header, length-put_u64, u64_at-put_u64, u64_at-put_u64_below, page_type-put_u64,
}
use quanty_database.Core.Commit.{CommitInfo, ReadPages, read_record, fill_record}

pub record IsInfo (c : CommitInfo) : Type 0 where
  pub commit_id_fits : IsU64 c.commit_id
  pub parent_id_fits : IsU64 c.parent_id
  pub data_root_fits : IsU64 c.data_root
  pub catalog_root_fits : IsU64 c.catalog_root
  pub parent_page_fits : IsU64 c.parent_page
  pub time_fits : IsU64 c.unix_ts_ms

-- The first fields of a record, up to the one at an offset, in a page.
filled : List (ℕ × ℕ) → Buf → Buf
filled [] buf = buf
filled ((off, v) ∷ fields) buf = put_u64 off v (filled fields buf)

length-filled : (fields : List (ℕ × ℕ)) (buf : Buf) → length (filled fields buf) ≡ length buf
unfolding filled
length-filled [] buf = refl
length-filled ((off, v) ∷ fields) buf = rw (length-put_u64, length-filled fields buf)

page_type-filled :
    (fields : List (ℕ × ℕ)) (buf : Buf)
    → All (λ f. page_header_len ≤ f.0) fields
    → page_type (filled fields buf) ≡ page_type buf
unfolding filled
page_type-filled [] buf h = refl
page_type-filled ((off, v) ∷ fields) buf (h, hs) =
    rw (page_type-put_u64 off v _ h, page_type-filled fields buf hs)

-- A field is read under the later fields.
u64_at-filled :
    (off v : ℕ) (later fields : List (ℕ × ℕ)) (buf : Buf)
    → v < 2 ^ 64
    → off + 8 ≤ length buf
    → All (λ f. off + 8 ≤ f.0) later
    → u64_at off (filled (later ++ (off, v) ∷ fields) buf) ≡ v
unfolding filled
u64_at-filled off v [] fields buf h fits hs =
    u64_at-put_u64 off v _ h (omega (arith, length-filled fields buf))
u64_at-filled off v ((a, w) ∷ later) fields buf h fits (above, hs) =
    rw (u64_at-put_u64_below off a w _ above, u64_at-filled off v later fields buf h fits hs)

abbrev fields_of : CommitInfo → List (ℕ × ℕ)
fields_of c =
    (56, c.unix_ts_ms)
    ∷ (48, c.parent_page)
    ∷ (40, c.catalog_root)
    ∷ (32, c.data_root)
    ∷ (24, c.parent_id)
    ∷ (16, c.commit_id)
    ∷ []

fill_record-filled : (c : CommitInfo) (buf : Buf) → fill_record c buf ≡ filled (fields_of c) buf
unfolding fill_record filled
fill_record-filled c buf = refl

-- A commit record is read back as it was written, with all its links, from a page of at least 512
-- bytes.
pub read_record-fill_record :
    (c : CommitInfo) (buf : Buf) (src : ReadPages) (at : PageId)
    → IsInfo c
    → 512 ≤ length buf
    → src at ≡ ok (fill_record c (init_header commit buf))
    → read_record src at ≡ ok c
unfolding read_record
read_record-fill_record c buf src at h size e = rw (
  e,
  fill_record-filled c page,
  page_type-filled (fields_of c) page (omega arith),
  page_type-init_header commit buf (omega arith),
  u64_at-filled 16 c.commit_id
      ((56, c.unix_ts_ms)
        ∷ (48, c.parent_page)
        ∷ (40, c.catalog_root)
        ∷ (32, c.data_root)
        ∷ (24, c.parent_id)
        ∷ [])
      ([]) page h.commit_id_fits (omega (arith, room)) (omega arith),
  u64_at-filled 24 c.parent_id
      ((56, c.unix_ts_ms) ∷ (48, c.parent_page) ∷ (40, c.catalog_root) ∷ (32, c.data_root) ∷ [])
      ((16, c.commit_id) ∷ []) page h.parent_id_fits (omega (arith, room)) (omega arith),
  u64_at-filled 32 c.data_root
      ((56, c.unix_ts_ms) ∷ (48, c.parent_page) ∷ (40, c.catalog_root) ∷ [])
      ((24, c.parent_id) ∷ (16, c.commit_id) ∷ []) page h.data_root_fits (omega (arith, room))
      (omega arith),
  u64_at-filled 40 c.catalog_root ((56, c.unix_ts_ms) ∷ (48, c.parent_page) ∷ [])
      ((32, c.data_root) ∷ (24, c.parent_id) ∷ (16, c.commit_id) ∷ []) page h.catalog_root_fits
      (omega (arith, room)) (omega arith),
  u64_at-filled 48 c.parent_page ((56, c.unix_ts_ms) ∷ [])
      ((40, c.catalog_root) ∷ (32, c.data_root) ∷ (24, c.parent_id) ∷ (16, c.commit_id) ∷ []) page
      h.parent_page_fits (omega (arith, room)) (omega arith),
  u64_at-filled 56 c.unix_ts_ms ([])
      ((48, c.parent_page)
        ∷ (40, c.catalog_root)
        ∷ (32, c.data_root)
        ∷ (24, c.parent_id)
        ∷ (16, c.commit_id)
        ∷ [])
      page h.time_fits (omega (arith, room)) (omega arith),
)
  where
    page : Buf
    page = init_header commit buf

    room : 64 ≤ length page
    room = omega (arith, length-init_header commit buf)
