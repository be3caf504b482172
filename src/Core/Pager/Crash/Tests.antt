-- ===== src/Core/Pager/Crash/Tests.antt =====
-- Tests: a commit onto a database in memory with two pages of 512 bytes and one meta.
use quanty_database.Prelude.{
  ℕ, ◌^◌, ◌<◌, ◌≡◌, refl, ◌⊎◌, inl, inr, true, false, none, some, [], ◌∷◌, arith, All,
}
use quanty_database.Prelude.Result.{ok, err}
use quanty_database.Prelude.Assoc.{get, insert, remove, Increasing}
use quanty_database.Prelude.Buffer.{slice, write_at, patch}
use quanty_database.Prelude.Bytes.{le_bytes, from_le, bytes_eq}
use quanty_database.Core.Page.Seal.{seal, verify, valid_page_size}
use quanty_database.Core.Page.{Buf, zeroes, leaf, free_list, init_header, u64_at, put_u64, put_u16}
use quanty_database.Core.Storage.{Storage, store_at, storage_len, read_at, grown}
use quanty_database.Core.Error.{page_out_of_bounds}
use quanty_database.Core.Crc.{crc32c}
use quanty_database.Core.Crc.Blocks.{crc32c_lt}
use quanty_database.Core.Meta.{
  Meta, decode_meta, checked, fields_at, txid_in_slot, decoded_txid, txid_or_zero, encode_meta,
  recover, page_sizes, sizes_from,
}
use quanty_database.Core.Meta.RoundTrip.{IsMeta, decode-encode_meta, length-zeroes}
use quanty_database.Core.Meta.Newest.{valid, decoded, to_option, recover_newest, Found, NoneNewer}
use quanty_database.Core.Commit.{ReadPages}
use quanty_database.Core.Pager.{Batch, page_mut, write_through, record_page}
use quanty_database.Core.FreeList.{ids_per_page, encode_page, put_ids}
use quanty_database.Core.Pager.Settle.{
  settle_freelist, with_head, settle_loop, to_settle, settle_page, settle_next, chain_slot,
  swap_remove, contains, reuse_page, settling, filled_by,
}
use quanty_database.Core.Pager.Settle.Total.{IsWritable, settle_freelist_total}
use quanty_database.Core.Pager.Durable.{
  commit, write_events, after_settle, any_root_outside, new_meta, perform, perform_all, page_writes,
  seal_all,
}
use quanty_database.Core.Pager.Crash.Pages.{IsPage}
use quanty_database.Core.Pager.Crash.{Crashed, written, flushed, cut}
use quanty_database.Core.Pager.Crash.Recovery.{commit-perform_all, commit_crash}
use quanty_database.Core.Pager.Crash.Atomic.{Landed, Untouched, Detected}
use quanty_database.Core.Pager.Ownership.{Occurs, first}
use quanty_database.Core.Pager.Crash.Slots.{IsStored, Alone, recover-IsStored}

abbrev checksum : Buf → ℕ
checksum b = 7

abbrev page_size : ℕ
page_size = 512

checksum-bound : (b : Buf) → checksum b < 2 ^ 32
checksum-bound b = omega arith

abbrev base : Meta
base = record {
  page_size = page_size;
  txid = 1;
  data_root = 0;
  catalog_root = 0;
  freelist_root = 0;
  page_count = 2;
  unix_ts_ms = 5;
  commit_page = 0;
  refs_root = 0;
}

unfoldable stored : Storage
stored = store_at 512 (encode_meta checksum base (zeroes 512)) (zeroes 1024)

stored-IsStored : IsStored checksum stored base
unfolding stored store_at encode_meta zeroes grown write_at seal le_bytes put_u64 patch init_header
    valid storage_len decoded read_at to_option decode_meta verify from_le slice bytes_eq
    valid_page_size checked fields_at u64_at
stored-IsStored = record { room = omega arith; newest = refl; older = tt }

-- Page 2 is written, and page 3 is free.
abbrev batch : Batch
batch = record {
  base = base;
  now = record {
    next_page = 4;
    data_root = 2;
    catalog_root = 0;
    freelist_root = 0;
    commit_page = 0;
    refs_root = 0;
    reuse_pool = 3 ∷ [];
    chain_cursor = 0;
    deferred_free = [];
    touched_freelist = true;
    allow_reuse = true;
    freelist_override = none;
  };
  dirty = (2, init_header leaf (zeroes 512)) ∷ [];
  mark = none;
  nodes = [];
}

nothing_read : ReadPages
nothing_read id = err (page_out_of_bounds id)

batch-IsWritable : IsWritable batch
unfolding zeroes init_header IsPage write_at
batch-IsWritable = record {
  pages = ((omega arith, refl), tt);
  increasing = (tt, tt);
  past = omega arith;
  pool = (omega arith, tt);
}

settle_freelist_total_example :
    (b' : Batch) × (settle_freelist nothing_read batch ≡ some (ok tt, b'))
    × (b'.base ≡ base)
    × All (IsPage 512) b'.dirty
    × Increasing b'.dirty
settle_freelist_total_example =
    settle_freelist_total nothing_read batch (unfold ids_per_page in omega arith) batch-IsWritable

abbrev settled : Batch
settled = record batch {
  now = record (batch.now) { freelist_root = 3; reuse_pool = []; allow_reuse = false };
  dirty =
      (2, init_header leaf (zeroes 512))
      ∷ (3, encode_page 0 [] (init_header free_list (zeroes 512)))
      ∷ [];
}

settle-batch : settle_freelist nothing_read batch ≡ some (ok tt, settled)
unfolding settle_freelist with_head settle_loop to_settle settle_page settle_next page_mut
    write_through get record_page chain_slot swap_remove contains reuse_page insert settling
    filled_by ids_per_page init_header zeroes write_at remove
settle-batch = refl

slot-empty : txid_in_slot checksum stored 512 0 ≡ 0
unfolding txid_in_slot decoded_txid txid_or_zero stored store_at encode_meta zeroes grown write_at
    seal le_bytes put_u64 patch init_header storage_len read_at decode_meta verify from_le slice
slot-empty = refl

commit-batch :
    commit checksum 9 nothing_read stored batch ≡ some (ok (write_events checksum 9 settled))
unfolding commit after_settle any_root_outside
commit-batch = rw (slot-empty, settle-batch) refl

new-IsMeta : IsMeta (new_meta 9 settled)
unfolding new_meta valid_page_size
new-IsMeta = record {
  size = refl;
  size_fits = omega arith;
  size_room = omega arith;
  txid_fits = omega arith;
  data_fits = omega arith;
  catalog_fits = omega arith;
  freelist_fits = omega arith;
  count_fits = omega arith;
  time_fits = omega arith;
  commit_fits = omega arith;
  refs_fits = omega arith;
  pages = refl;
  data_root = refl;
  catalog_root = refl;
  freelist_root = refl;
  commit_page = refl;
}

commit-perform_all_example :
    IsStored checksum
      (perform_all (write_events checksum 9 settled).events stored)
      (write_events checksum 9 settled).published
    × Landed checksum settled (perform_all (write_events checksum 9 settled).events stored)
unfolding write_events
commit-perform_all_example =
    commit-perform_all checksum 9 nothing_read stored batch settled
      (write_events checksum 9 settled) checksum-bound (unfold ids_per_page in omega arith)
      batch-IsWritable stored-IsStored settle-batch commit-batch new-IsMeta

legal : Occurs 512 page_sizes
unfolding sizes_from
legal = first _

stored-Alone : Alone checksum stored 512
unfolding stored store_at encode_meta zeroes grown write_at seal le_bytes put_u64 patch init_header
    valid storage_len decoded read_at to_option decode_meta verify from_le slice sizes_from
stored-Alone = (
  inl refl,
  (
    inr (refl, refl),
    (
      inr (refl, refl),
      (
        inr (refl, refl),
        (inr (refl, refl), (inr (refl, refl), (inr (refl, refl), (inr (refl, refl), tt)))),
      ),
    ),
  ),
)

recover_newest_example :
    Found checksum stored page_sizes base × NoneNewer checksum stored page_sizes 1
recover_newest_example =
    recover_newest checksum stored base
      (recover-IsStored checksum stored base stored-IsStored legal stored-Alone)

-- The disk when the pages are written, and the meta page is not.
unfoldable half : Storage
half = perform_all (page_writes 512 (seal_all checksum 2 settled.dirty)) stored

half-Alone : Alone checksum half 512
unfolding half perform_all perform page_writes seal_all stored store_at encode_meta zeroes grown
    write_at seal le_bytes put_u64 patch init_header valid storage_len decoded read_at to_option
    decode_meta verify from_le slice sizes_from bytes_eq encode_page put_ids put_u16
half-Alone = (
  inl refl,
  (
    inr (refl, refl),
    (
      inr (refl, refl),
      (
        inr (refl, refl),
        (inr (refl, refl), (inr (refl, refl), (inr (refl, refl), (inr (refl, refl), tt)))),
      ),
    ),
  ),
)

half-Detected : Detected checksum stored half base (new_meta 9 settled)
unfolding new_meta half perform_all perform page_writes seal_all stored store_at encode_meta zeroes
    grown write_at seal le_bytes put_u64 patch init_header valid storage_len decoded read_at
    to_option decode_meta verify from_le slice bytes_eq encode_page put_ids put_u16
half-Detected = inl refl

half-Crashed : Crashed stored (write_events checksum 9 settled).events half
unfolding half write_events perform_all perform page_writes seal_all
half-Crashed = written _ _ _ _ _ _ _ (
    written _ _ _ _ _ _ _ (
      flushed _ _ _ _ _
        (cut _ _ _ _ _ (record { longer = omega arith; same = λ off n fits apart. refl }))))

commit_crash_example :
    Untouched checksum settled stored half
    × ((recover checksum half ≡ ok base)
        ⊎ (recover checksum half ≡ ok (write_events checksum 9 settled).published)
          × Landed checksum settled half)
unfolding write_events
commit_crash_example =
    commit_crash checksum 9 nothing_read stored half batch settled (write_events checksum 9 settled)
      checksum-bound (unfold ids_per_page in omega arith) batch-IsWritable stored-IsStored
      settle-batch commit-batch new-IsMeta half-Crashed half-Detected legal half-Alone

base-IsMeta : IsMeta base
unfolding valid_page_size
base-IsMeta = record {
  size = refl;
  size_fits = omega arith;
  size_room = omega arith;
  txid_fits = omega arith;
  data_fits = omega arith;
  catalog_fits = omega arith;
  freelist_fits = omega arith;
  count_fits = omega arith;
  time_fits = omega arith;
  commit_fits = omega arith;
  refs_fits = omega arith;
  pages = refl;
  data_root = refl;
  catalog_root = refl;
  freelist_root = refl;
  commit_page = refl;
}

-- With the checksum of pages.
decode-encode_meta_example : decode_meta crc32c (encode_meta crc32c base (zeroes 512)) 1 ≡ ok base
decode-encode_meta_example =
    decode-encode_meta crc32c base (zeroes 512) 1 crc32c_lt base-IsMeta (length-zeroes 512)
