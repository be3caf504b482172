-- ===== src/Core/Pager/Crash/HistoryTests.antt =====
-- Tests: a database with pages of 512 bytes is created, a commit crashes, and is made again.
use quanty_database.Prelude.{
  List, ℕ, ◌^◌, ◌<◌, ◌≡◌, refl, inl, inr, true, false, none, some, [], ◌∷◌, arith,
}
use quanty_database.Prelude.Result.{ok, err}
use quanty_database.Prelude.Assoc.{get, insert, remove}
use quanty_database.Prelude.Buffer.{slice, write_at, patch}
use quanty_database.Prelude.Bytes.{le_bytes, from_le, bytes_eq}
use quanty_database.Core.Page.Seal.{seal, verify, valid_page_size}
use quanty_database.Core.Page.{Buf, zeroes, leaf, free_list, init_header, u64_at, put_u64, put_u16}
use quanty_database.Core.Storage.{Storage, store_at, storage_len, read_at, grown}
use quanty_database.Core.Error.{page_out_of_bounds}
use quanty_database.Core.Meta.{
  Meta, decode_meta, checked, fields_at, txid_in_slot, decoded_txid, txid_or_zero, encode_meta,
  recover, page_sizes, sizes_from,
}
use quanty_database.Core.Meta.RoundTrip.{IsMeta}
use quanty_database.Core.Meta.Newest.{valid, decoded, to_option}
use quanty_database.Core.Commit.{ReadPages}
use quanty_database.Core.Pager.{Batch, page_mut, write_through, record_page}
use quanty_database.Core.FreeList.{ids_per_page, encode_page, put_ids}
use quanty_database.Core.Pager.Settle.{
  settle_freelist, with_head, settle_loop, to_settle, settle_page, settle_next, chain_slot,
  swap_remove, contains, reuse_page, settling, filled_by,
}
use quanty_database.Core.Pager.Settle.Total.{IsWritable}
use quanty_database.Core.Pager.Durable.{
  Event, Committed, write, sync, commit, write_events, after_settle, any_root_outside, new_meta,
  perform, perform_all, page_writes, seal_all,
}
use quanty_database.Core.Pager.Crash.Pages.{IsPage}
use quanty_database.Core.Pager.Open.{create, initial_meta}
use quanty_database.Core.Pager.Crash.History.{
  Reached, created, committed, crashed, Expected, IsCommit, recover-Reached,
}
use quanty_database.Core.Pager.Ownership.{Occurs, first}
use quanty_database.Core.Pager.Crash.Slots.{IsStored, Alone, recover-IsStored}
use quanty_database.Core.Pager.Crash.Atomic.{Detected}
use quanty_database.Core.Pager.Crash.{Crashed, written, flushed, cut}
use quanty_database.Core.Pager.Open.Created.{create-IsTwin}

abbrev checksum : Buf → ℕ
checksum b = 7

checksum-bound : (b : Buf) → checksum b < 2 ^ 32
checksum-bound b = omega arith

abbrev first_page : Buf
first_page = encode_meta checksum (initial_meta 512 9) (zeroes 512)

abbrev events : List Event
events = write 0 first_page ∷ write 512 first_page ∷ sync ∷ []

made : create checksum 512 9 [] ≡ ok (initial_meta 512 9, events)
unfolding create valid_page_size storage_len
made = refl

unfoldable fresh : Storage
fresh = perform_all events []

fresh-Reached : Reached checksum 512 fresh (initial_meta 512 9) none
unfolding fresh
fresh-Reached = created 9 [] (initial_meta 512 9) events (omega arith) made

legal : Occurs 512 page_sizes
unfolding sizes_from
legal = first _

fresh-Alone : Alone checksum fresh 512
unfolding fresh initial_meta perform_all perform page_writes seal_all store_at encode_meta zeroes
    grown write_at seal le_bytes put_u64 patch init_header valid storage_len decoded read_at
    to_option decode_meta verify from_le slice sizes_from bytes_eq encode_page put_ids put_u16
    checked fields_at u64_at valid_page_size
fresh-Alone = (
  inl refl,
  (
    inr (refl, refl),
    (
      inr (refl, refl),
      (
        inr (refl, refl),
        (inr (refl, refl), (inr (refl, refl), (inr (refl, refl), (inr (refl, refl), tt)))),
      ),
    ),
  ),
)

fresh-IsStored : IsStored checksum fresh (initial_meta 512 9)
unfolding fresh
fresh-IsStored =
    (create-IsTwin checksum 512 9 [] (initial_meta 512 9) events checksum-bound (omega arith)
      made).stored

fresh_opened : recover checksum fresh ≡ ok (initial_meta 512 9)
fresh_opened =
    recover-IsStored checksum fresh (initial_meta 512 9) fresh-IsStored
      (unfold initial_meta in legal) (unfold initial_meta in fresh-Alone)

-- Page 2 is written, and page 3 is free.
abbrev batch : Batch
batch = record {
  base = initial_meta 512 9;
  now = record {
    next_page = 4;
    data_root = 2;
    catalog_root = 0;
    freelist_root = 0;
    commit_page = 0;
    refs_root = 0;
    reuse_pool = 3 ∷ [];
    chain_cursor = 0;
    deferred_free = [];
    touched_freelist = true;
    allow_reuse = true;
    freelist_override = none;
  };
  dirty = (2, init_header leaf (zeroes 512)) ∷ [];
  mark = none;
  nodes = [];
}

nothing_read : ReadPages
nothing_read id = err (page_out_of_bounds id)

batch-IsWritable : IsWritable batch
unfolding initial_meta zeroes init_header IsPage write_at
batch-IsWritable = record {
  pages = ((omega arith, refl), tt);
  increasing = (tt, tt);
  past = omega arith;
  pool = (omega arith, tt);
}

abbrev settled : Batch
settled = record batch {
  now = record (batch.now) { freelist_root = 3; reuse_pool = []; allow_reuse = false };
  dirty =
      (2, init_header leaf (zeroes 512))
      ∷ (3, encode_page 0 [] (init_header free_list (zeroes 512)))
      ∷ [];
}

settle-batch : settle_freelist nothing_read batch ≡ some (ok tt, settled)
unfolding initial_meta settle_freelist with_head settle_loop to_settle settle_page settle_next
    page_mut write_through get record_page chain_slot swap_remove contains reuse_page insert
    settling filled_by ids_per_page init_header zeroes write_at remove
settle-batch = refl

abbrev next : Committed
next = write_events checksum 9 settled

slot_txid : txid_in_slot checksum fresh 512 1 ≡ 0
unfolding fresh initial_meta txid_in_slot decoded_txid txid_or_zero perform_all perform page_writes
    seal_all store_at encode_meta zeroes grown write_at seal le_bytes put_u64 patch init_header
    valid storage_len decoded read_at to_option decode_meta verify from_le slice sizes_from bytes_eq
    encode_page put_ids put_u16 checked fields_at u64_at valid_page_size
slot_txid = refl

commit-batch : commit checksum 9 nothing_read fresh batch ≡ some (ok next)
unfolding initial_meta commit after_settle any_root_outside
commit-batch = rw (slot_txid, settle-batch) refl

new-IsMeta : IsMeta (new_meta 9 settled)
unfolding initial_meta new_meta valid_page_size
new-IsMeta = record {
  size = refl;
  size_fits = omega arith;
  size_room = omega arith;
  txid_fits = omega arith;
  data_fits = omega arith;
  catalog_fits = omega arith;
  freelist_fits = omega arith;
  count_fits = omega arith;
  time_fits = omega arith;
  commit_fits = omega arith;
  refs_fits = omega arith;
  pages = refl;
  data_root = refl;
  catalog_root = refl;
  freelist_root = refl;
  commit_page = refl;
}

batch-IsCommit : IsCommit checksum 9 nothing_read fresh batch settled next
unfolding initial_meta write_events
batch-IsCommit = record {
  room = (unfold ids_per_page in omega arith);
  writable = batch-IsWritable;
  settled = settle-batch;
  accepted = commit-batch;
  fits = new-IsMeta;
}

-- The first commit is cut off when its pages are written, and its meta page is not.
unfoldable half : Storage
half = perform_all (page_writes 512 (seal_all checksum 1 settled.dirty)) fresh

half-Crashed : Crashed fresh next.events half
unfolding half write_events initial_meta perform_all perform page_writes seal_all
half-Crashed = written _ _ _ _ _ _ _ (
    written _ _ _ _ _ _ _ (
      flushed _ _ _ _ _
        (cut _ _ _ _ _ (record { longer = omega arith; same = λ off n fits apart. refl }))))

half-Detected : Detected checksum fresh half (initial_meta 512 9) next.published
unfolding half fresh write_events new_meta initial_meta perform_all perform page_writes seal_all
    store_at encode_meta zeroes grown write_at seal le_bytes put_u64 patch init_header valid
    storage_len decoded read_at to_option decode_meta verify from_le slice sizes_from bytes_eq
    encode_page put_ids put_u16 checked fields_at u64_at valid_page_size
half-Detected = inr (inl refl)

half-Reached : Reached checksum 512 half (initial_meta 512 9) (some next.published)
half-Reached =
    crashed 9 nothing_read fresh half batch settled next (initial_meta 512 9) none fresh-Reached
      fresh-Alone fresh_opened batch-IsCommit half-Crashed half-Detected

half-Alone : Alone checksum half 512
unfolding half fresh initial_meta perform_all perform page_writes seal_all store_at encode_meta
    zeroes grown write_at seal le_bytes put_u64 patch init_header valid storage_len decoded read_at
    to_option decode_meta verify from_le slice sizes_from bytes_eq encode_page put_ids put_u16
    checked fields_at u64_at valid_page_size
half-Alone = (
  inl refl,
  (
    inr (refl, refl),
    (
      inr (refl, refl),
      (
        inr (refl, refl),
        (inr (refl, refl), (inr (refl, refl), (inr (refl, refl), (inr (refl, refl), tt)))),
      ),
    ),
  ),
)

half-IsStored : IsStored checksum half (initial_meta 512 9)
unfolding half fresh initial_meta perform_all perform page_writes seal_all store_at encode_meta
    zeroes grown write_at seal le_bytes put_u64 patch init_header valid storage_len decoded read_at
    to_option decode_meta verify from_le slice sizes_from bytes_eq encode_page put_ids put_u16
    checked fields_at u64_at valid_page_size
half-IsStored = record { room = omega arith; newest = refl; older = inr refl }

half_opened : recover checksum half ≡ ok (initial_meta 512 9)
half_opened =
    recover-IsStored checksum half (initial_meta 512 9) half-IsStored (unfold initial_meta in legal)
      (unfold initial_meta in half-Alone)

-- After the crash the same batch is committed.
half_slot : txid_in_slot checksum half 512 1 ≡ 0
unfolding half fresh initial_meta txid_in_slot decoded_txid txid_or_zero perform_all perform
    page_writes seal_all store_at encode_meta zeroes grown write_at seal le_bytes put_u64 patch
    init_header valid storage_len decoded read_at to_option decode_meta verify from_le slice
    sizes_from bytes_eq encode_page put_ids put_u16 checked fields_at u64_at valid_page_size
half_slot = refl

again-IsCommit : IsCommit checksum 9 nothing_read half batch settled next
unfolding initial_meta write_events
again-IsCommit = record {
  room = (unfold ids_per_page in omega arith);
  writable = batch-IsWritable;
  settled = settle-batch;
  accepted = unfold commit after_settle any_root_outside in rw (half_slot, settle-batch) refl;
  fits = new-IsMeta;
}

unfoldable after : Storage
after = perform_all next.events half

after-Reached : Reached checksum 512 after next.published none
unfolding after
after-Reached =
    committed 9 nothing_read half batch settled next (initial_meta 512 9) (some next.published)
      half-Reached half-Alone half_opened again-IsCommit

after-Alone : Alone checksum after 512
unfolding after half fresh write_events new_meta initial_meta perform_all perform page_writes
    seal_all store_at encode_meta zeroes grown write_at seal le_bytes put_u64 patch init_header
    valid storage_len decoded read_at to_option decode_meta verify from_le slice sizes_from bytes_eq
    encode_page put_ids put_u16 checked fields_at u64_at valid_page_size
after-Alone = (
  inl refl,
  (
    inr (refl, refl),
    (
      inr (refl, refl),
      (
        inr (refl, refl),
        (inr (refl, refl), (inr (refl, refl), (inr (refl, refl), (inr (refl, refl), tt)))),
      ),
    ),
  ),
)

recover-Reached_example :
    (m : Meta) × (recover checksum after ≡ ok m) × Expected checksum next.published none m
recover-Reached_example =
    recover-Reached checksum 512 after next.published none checksum-bound legal after-Reached
      after-Alone
