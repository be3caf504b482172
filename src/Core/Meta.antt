-- ===== src/Core/Meta.antt =====
-- crates/quantydb-core/src/meta.rs: the meta pages and the recovery of the newest one. The checksum of
-- pages is any function.
pub mod RoundTrip
pub mod Newest
use quanty_database.Prelude.{
  ℕ, zero, suc, ◌+◌, ◌*◌, ◌≤◌, Bool, true, false, not, ◌&&◌, ◌||◌, Option, none, some, List, [],
  ◌∷◌, ◌++◌, leb, ltb, ◌==◌, if◌then◌else◌, length,
}
use quanty_database.Prelude.Bytes.{le_bytes, from_le, bytes_eq, ascii}
use quanty_database.Prelude.Buffer.{slice, patch}
use quanty_database.Prelude.Result.{Result, ok, err, ◌>>=◌, ◌>>◌, ensure}
use quanty_database.Core.Error.{Error, corrupted, invalid_format}
use quanty_database.Core.Page.{
  PageId, Buf, nil_page, init_header, meta, u64_at, zeroes, min_page_size, max_page_size,
}
use quanty_database.Core.Page.Seal.{seal, verify, valid_page_size}
use quanty_database.Core.Storage.{Storage, read_at, storage_len}

pub record Meta : Type 0 where
  pub page_size : ℕ
  pub txid : ℕ
  pub data_root : PageId
  pub catalog_root : PageId
  pub freelist_root : PageId
  pub page_count : ℕ
  pub unix_ts_ms : ℕ
  pub commit_page : PageId
  pub refs_root : PageId

abbrev pub magic : List ℕ
magic = ascii "QUANTYDB"

abbrev pub format_version : ℕ
format_version = 2

-- The writes of `Meta::encode` into the body, the last one in front.
abbrev pub meta_fields : Meta → List (ℕ × List ℕ)
meta_fields m =
    (88, le_bytes 8 m.refs_root)
    ∷ (80, le_bytes 8 m.commit_page)
    ∷ (72, le_bytes 8 m.unix_ts_ms)
    ∷ (64, le_bytes 8 m.page_count)
    ∷ (56, le_bytes 8 m.freelist_root)
    ∷ (48, le_bytes 8 m.catalog_root)
    ∷ (40, le_bytes 8 m.data_root)
    ∷ (32, le_bytes 8 m.txid)
    ∷ (28, le_bytes 4 m.page_size)
    ∷ (24, le_bytes 4 format_version)
    ∷ (16, magic)
    ∷ []

-- Whether a root points outside the file or at a meta page.
abbrev pub is_astray : ℕ → PageId → Bool
is_astray page_count root = not (root == nil_page) && (ltb root 2 || leb page_count root)

-- The fields of a page that passed the first checks.
unfoldable pub fields_at : Buf → Meta
fields_at buf = record {
  page_size = from_le (slice 28 4 buf);
  txid = u64_at 32 buf;
  data_root = u64_at 40 buf;
  catalog_root = u64_at 48 buf;
  freelist_root = u64_at 56 buf;
  page_count = u64_at 64 buf;
  unix_ts_ms = u64_at 72 buf;
  commit_page = u64_at 80 buf;
  refs_root = u64_at 88 buf;
}

unfoldable pub checked : Meta → PageId → Result Error Meta
checked m slot = do
  ensure (leb 2 m.page_count) (corrupted (some slot))
  ensure (not (is_astray m.page_count m.data_root)) (corrupted (some slot))
  ensure (not (is_astray m.page_count m.catalog_root)) (corrupted (some slot))
  ensure (not (is_astray m.page_count m.freelist_root)) (corrupted (some slot))
  ensure (not (is_astray m.page_count m.commit_page)) (corrupted (some slot))
  ok m

-- The page sizes that `recover` tries, from one that doubles.
unfoldable pub sizes_from : ℕ → ℕ → List ℕ
sizes_from zero ps = []
sizes_from (suc rounds) ps =
    let rest = sizes_from rounds (ps * 2) in if leb ps max_page_size then ps ∷ rest else []

-- From 512 to 65536 there are eight.
abbrev pub page_sizes : List ℕ
page_sizes = sizes_from 9 min_page_size

module _ (checksum : Buf → ℕ) where
  -- `Meta::encode` into a buffer of the page size.
  unfoldable pub encode_meta : Meta → Buf → Buf
  encode_meta m buf =
      seal checksum m.txid (patch (meta_fields m) (init_header meta (zeroes (length buf))))

  -- `Meta::decode`
  unfoldable pub decode_meta : Buf → PageId → Result Error Meta
  decode_meta buf slot = do
    verify checksum buf slot
    ensure (bytes_eq (slice 16 8 buf) magic) invalid_format
    ensure (from_le (slice 24 4 buf) == format_version) invalid_format
    ensure (valid_page_size (from_le (slice 28 4 buf))) (corrupted (some slot))
    ensure (from_le (slice 28 4 buf) == length buf) (corrupted (some slot))
    checked (fields_at buf) slot

  unfoldable pub txid_or_zero : Result Error Meta → ℕ
  txid_or_zero (ok m) = m.txid
  txid_or_zero (err e) = 0

  unfoldable pub decoded_txid : Result Error Buf → PageId → ℕ
  decoded_txid (err e) slot = 0
  decoded_txid (ok buf) slot = txid_or_zero (decode_meta buf slot)

  -- The storage is in memory, where `len` does not fail.
  unfoldable pub txid_in_slot : Storage → ℕ → PageId → ℕ
  txid_in_slot s page_size slot =
      if ltb (storage_len s) (slot * page_size + page_size)
      then 0
      else decoded_txid (read_at (slot * page_size) page_size s) slot

  -- `best` and `saw_magic` of `recover`.
  unfoldable pub newer : Result Error Meta → Option Meta → Option Meta
  newer (err e) best = best
  newer (ok m) none = some m
  newer (ok m) (some b) = if ltb b.txid m.txid then some m else some b

  unfoldable pub seen : Result Error Buf → PageId → Option Meta × Bool → Option Meta × Bool
  seen (err e) slot (best, saw_magic) = (best, saw_magic)
  seen (ok buf) slot (best, saw_magic) =
      (newer (decode_meta buf slot) best, saw_magic || bytes_eq (slice 16 8 buf) magic)

  unfoldable pub try_slot : Storage → ℕ → PageId → Option Meta × Bool → Option Meta × Bool
  try_slot s ps slot so_far =
      if ltb (storage_len s) (slot * ps + ps)
      then so_far
      else seen (read_at (slot * ps) ps s) slot so_far

  unfoldable pub try_sizes : Storage → List ℕ → Option Meta × Bool → Option Meta × Bool
  try_sizes s [] so_far = so_far
  try_sizes s (ps ∷ sizes) so_far = try_sizes s sizes (try_slot s ps 1 (try_slot s ps 0 so_far))

  unfoldable pub recovered : Option Meta × Bool → Result Error Meta
  recovered (some m, saw_magic) = ok m
  recovered (none, true) = err (corrupted none)
  recovered (none, false) = err invalid_format

  unfoldable pub recover : Storage → Result Error Meta
  recover s = recovered (try_sizes s page_sizes (none, false))
