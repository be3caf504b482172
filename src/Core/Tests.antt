-- ===== src/Core/Tests.antt =====
-- Pages, commit records and write batches at concrete inputs.
use quanty_database.Prelude.{
  if◌then◌else◌, ◌≡◌, refl, some, List, [], ◌∷◌, arith, length, ◌≤◌, compare, Ordering,
}
use quanty_database.Prelude.Bytes.{ascii}
use quanty_database.Prelude.Buffer.{write_at}
use quanty_database.Prelude.Result.{ok, err}
use quanty_database.Core.Error.{page_out_of_bounds, invalid_argument}
use quanty_database.Core.Value.{text}
use quanty_database.Core.Encoding.{decode_key}
use quanty_database.Core.Page.{PageId, Buf, zeroes, init_header, free_list, commit, leaf}
use quanty_database.Core.FreeList.{encode_page, decode_page, ids_per_page, decode-encode_page}
use quanty_database.Core.Refs.{
  BranchRef, IsRef, encode_ref, decode_ref, decode-encode_ref, branch_key, validate_name,
  decode_key-branch_key, all_name_chars, starts_alphanumeric,
}
use quanty_database.Core.Commit.{
  CommitInfo, ReadPages, fill_record, read_record, find_loop, find_at_time_loop,
}
use quanty_database.Core.Commit.Record.{IsInfo, read_record-fill_record}
use quanty_database.Core.Commit.History.{
  History, root, linked, find_in, find_at_time_in, find_loop-History, find_at_time_loop-History,
}
use quanty_database.Core.Meta.{Meta}
use quanty_database.Core.Pager.{begin, savepoint, rollback_savepoint}
use quanty_database.Core.Pager.Steps.{Op, alloc, write, free_all, run, page_bytes}
use quanty_database.Core.Pager.Rollback.{Restored, rollback-run}
use quanty_database.Core.Pager.CopyOnWrite.{
  committed, IsBatch, begin-IsBatch, nil-Listed, run-IsBatch, page_bytes-run,
}
use quanty_database.Core.Pager.WriteRecord.{record_of, write_record, read_record-write_record}
use quanty_database.Core.Pager.Suspend.{interrupted, joined, is_alone, interrupted-joined}

abbrev blank : Buf
blank = zeroes 512

blank_size : (512 ≤ length blank) × (length blank ≤ 65536)
unfolding zeroes
blank_size = omega arith

two_ids : length {A = PageId} (3 ∷ 9 ∷ []) ≤ ids_per_page (length blank)
unfolding zeroes ids_per_page
two_ids = omega arith

decode-encode_page_example :
    decode_page (encode_page 7 (3 ∷ 9 ∷ []) (init_header free_list blank)) 5 ≡ ok (7, 3 ∷ 9 ∷ [])
decode-encode_page_example =
    decode-encode_page 7 (3 ∷ 9 ∷ []) blank 5 (omega arith) (omega arith) blank_size.0 blank_size.1
      two_ids

abbrev head : BranchRef
head = record { head_id = 7; head_page = 42; floor_id = 3 }

head-IsRef : IsRef head
head-IsRef = record {
  head_id_fits = omega arith;
  head_page_fits = omega arith;
  floor_id_fits = omega arith;
}

decode-encode_ref_example : decode_ref (encode_ref head) ≡ ok head
decode-encode_ref_example = decode-encode_ref head head-IsRef

feature_is_name : validate_name (ascii "feature-1") ≡ ok tt
unfolding validate_name all_name_chars starts_alphanumeric
feature_is_name = refl

decode_key-branch_key_example :
    decode_key (branch_key (ascii "feature-1"))
    ≡ ok (text (ascii "branch") ∷ text (ascii "feature-1") ∷ [])
decode_key-branch_key_example = decode_key-branch_key (ascii "feature-1") feature_is_name

abbrev older : CommitInfo
older = record {
  commit_id = 1;
  parent_id = 0;
  data_root = 2;
  catalog_root = 3;
  parent_page = 0;
  unix_ts_ms = 100;
}

abbrev newer : CommitInfo
newer = record {
  commit_id = 2;
  parent_id = 1;
  data_root = 5;
  catalog_root = 3;
  parent_page = 4;
  unix_ts_ms = 200;
}

older-IsInfo : IsInfo older
older-IsInfo = record {
  commit_id_fits = omega arith;
  parent_id_fits = omega arith;
  data_root_fits = omega arith;
  catalog_root_fits = omega arith;
  parent_page_fits = omega arith;
  time_fits = omega arith;
}

newer-IsInfo : IsInfo newer
newer-IsInfo = record {
  commit_id_fits = omega arith;
  parent_id_fits = omega arith;
  data_root_fits = omega arith;
  catalog_root_fits = omega arith;
  parent_page_fits = omega arith;
  time_fits = omega arith;
}

-- The record of `older` is on page 4, that of `newer` on page 6.
pages : ReadPages
pages at = elim (compare at 4) [
  | Ordering.eq ↦ ok (fill_record older (init_header commit blank))
  | Ordering.lt ↦ err (page_out_of_bounds at)
  | Ordering.gt ↦ ok (fill_record newer (init_header commit blank))
]

pages_4 : pages 4 ≡ ok (fill_record older (init_header commit blank))
unfolding pages
pages_4 = refl

pages_6 : pages 6 ≡ ok (fill_record newer (init_header commit blank))
unfolding pages
pages_6 = refl

read_record-fill_record_example : read_record pages 4 ≡ ok older
read_record-fill_record_example =
    read_record-fill_record older blank pages 4 older-IsInfo blank_size.0 pages_4

history : History pages 6 (newer ∷ older ∷ [])
history =
    linked 6 newer (older ∷ []) (λ e. absurd (omega arith))
      (read_record-fill_record newer blank pages 6 newer-IsInfo blank_size.0 pages_6) (omega arith)
      (linked 4 older [] (λ e. absurd (omega arith)) read_record-fill_record_old tt root)
  where
    read_record-fill_record_old : read_record pages 4 ≡ ok older
    read_record-fill_record_old =
        read_record-fill_record older blank pages 4 older-IsInfo blank_size.0 pages_4

find_loop-History_example : find_loop 3 pages 6 0 1 ≡ some (ok (find_in 0 1 (newer ∷ older ∷ [])))
find_loop-History_example =
    find_loop-History pages 6 (newer ∷ older ∷ []) 0 1 3 history (omega arith)

found : find_in 0 1 (newer ∷ older ∷ []) ≡ some older
unfolding find_in
found = refl

find_at_time_loop-History_example :
    find_at_time_loop 3 pages 6 0 150 ≡ some (ok (find_at_time_in 0 150 (newer ∷ older ∷ [])))
find_at_time_loop-History_example =
    find_at_time_loop-History pages 6 (newer ∷ older ∷ []) 0 150 3 history (omega arith)

abbrev base : Meta
base = record {
  page_size = 512;
  txid = 2;
  data_root = 5;
  catalog_root = 3;
  freelist_root = 0;
  page_count = 7;
  unix_ts_ms = 200;
  commit_page = 6;
  refs_root = 0;
}

-- A page is allocated, written, and a committed page is refused.
abbrev statement : List Op
statement =
    alloc leaf ∷ write 7 (write_at 20 (1 ∷ 2 ∷ [])) ∷ write 4 (λ buf. []) ∷ free_all (3 ∷ []) ∷ []

rollback-run_example :
    Restored
      (begin base)
      (rollback_savepoint (run (committed pages base) statement (savepoint (begin base))))
rollback-run_example = rollback-run (committed pages base) statement (begin base)

run-IsBatch_example : IsBatch pages base (run (committed pages base) statement (begin base))
run-IsBatch_example = run-IsBatch pages base statement (begin base) (begin-IsBatch pages base)

page_bytes-run_example :
    page_bytes (committed pages base) 4 (run (committed pages base) statement (begin base))
    ≡ committed pages base 4
page_bytes-run_example =
    page_bytes-run pages base statement 4 (omega arith) (λ l. nil-Listed pages base 4 l)

-- After the second statement another writer has committed.
abbrev statements : List (List Op × Meta)
statements = (statement, base) ∷ (statement, record base { txid = 3 }) ∷ []

interrupted-joined_example : interrupted pages statements (begin base) ≡ (
    if is_alone (begin base).base.txid statements
    then ok (run pages (joined statements) (begin base))
    else err invalid_argument)
unfolding begin
interrupted-joined_example = interrupted-joined pages statements (begin base) refl

new_record-IsInfo : IsInfo (record_of (begin base) 2 6 5 3 300)
unfolding begin
new_record-IsInfo = record {
  commit_id_fits = omega arith;
  parent_id_fits = omega arith;
  data_root_fits = omega arith;
  catalog_root_fits = omega arith;
  parent_page_fits = omega arith;
  time_fits = omega arith;
}

read_record-write_record_example :
    (id : PageId) × ((write_record pages 2 6 5 3 300 (begin base)).0 ≡ ok id)
    × (read_record (λ at. page_bytes pages at (write_record pages 2 6 5 3 300 (begin base)).1) id
        ≡ ok (record_of (begin base) 2 6 5 3 300))
unfolding begin
read_record-write_record_example =
    read_record-write_record pages 2 6 5 3 300 (begin base) new_record-IsInfo (omega arith)
