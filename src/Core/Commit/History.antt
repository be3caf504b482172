-- ===== src/Core/Commit/History.antt =====
-- For `find` and `find_at_time` of crates/quantydb-core/src/commit.rs: histories as lists.
use quanty_database.Prelude.{
  ℕ, zero, suc, ◌<◌, ◌≡◌, ◌≢◌, refl, false, Option, none, some, List, [], ◌∷◌, arith, leb, ◌==◌,
  if◌then◌else◌, length, All,
}
use quanty_database.Prelude.Result.{ok}
use quanty_database.Core.Page.{PageId, nil_page}
use quanty_database.Core.Commit.{CommitInfo, ReadPages, read_record, find_loop, find_at_time_loop}

-- The history behind a page: its records from the newest to the oldest, each linked to the next by
-- `parent_page`, and with ids that shrink.
pub data History (src : ReadPages) : PageId → List CommitInfo → Type 0 where
  root : History src nil_page []
  linked :
      (at : PageId) (r : CommitInfo) (older : List CommitInfo)
      → at ≢ nil_page
      → read_record src at ≡ ok r
      → All (λ o. o.commit_id < r.commit_id) older
      → History src r.parent_page older
      → History src at (r ∷ older)

-- What `find` looks for, in a history as a list.
unfoldable pub find_in : ℕ → ℕ → List CommitInfo → Option CommitInfo
find_in floor commit_id [] = none
find_in floor commit_id (r ∷ older) =
    let rest = find_in floor commit_id older in
    if r.commit_id == commit_id then some r else if leb r.commit_id floor then none else rest

-- What `find_at_time` looks for, in a history as a list.
unfoldable pub find_at_time_in : ℕ → ℕ → List CommitInfo → Option CommitInfo
find_at_time_in floor unix_ts_ms [] = none
find_at_time_in floor unix_ts_ms (r ∷ older) =
    let rest = find_at_time_in floor unix_ts_ms older in
    if leb r.unix_ts_ms unix_ts_ms then some r else if leb r.commit_id floor then none else rest

-- Below an id that is passed, nothing is found.
find_in-none :
    (floor commit_id : ℕ) (older : List CommitInfo)
    → All (λ o. o.commit_id < commit_id) older
    → find_in floor commit_id older ≡ none
unfolding find_in
find_in-none floor commit_id [] h = refl
find_in-none floor commit_id (r ∷ older) (h, hs) =
    let ih = find_in-none floor commit_id older hs in ground arith

All-lt :
    (a b : ℕ) (older : List CommitInfo)
    → a < b
    → All (λ o. o.commit_id < a) older
    → All (λ o. o.commit_id < b) older
All-lt a b [] lt h = tt
All-lt a b (r ∷ older) lt (h, hs) = (omega arith, All-lt a b older lt hs)

-- On a history, the walk of `find` ends, with no error, and gives the record with the id that is
-- asked for, if it is in the history and no record above it is at or below the floor.
pub find_loop-History :
    (src : ReadPages) (at : PageId) (records : List CommitInfo) (floor commit_id fuel : ℕ)
    → History src at records
    → length records < fuel
    → find_loop fuel src at floor commit_id ≡ some (ok (find_in floor commit_id records))
unfolding find_loop find_in
find_loop-History src at records floor commit_id zero h enough = absurd (omega arith)
find_loop-History src at [] floor commit_id (suc fuel) root enough = refl
find_loop-History src at (r ∷ older) floor commit_id (suc fuel) (linked _ _ _ ne read shrink rest)
      enough =
    let ih = find_loop-History src r.parent_page older floor commit_id fuel rest (omega arith) in
    let away : (at == nil_page) ≡ false = ground arith in
    let below : r.commit_id < commit_id → find_in floor commit_id older ≡ none =
      λ lt. find_in-none floor commit_id older (All-lt r.commit_id commit_id older lt shrink) in
    rw (away, read) (ground arith)

-- On a history, the walk of `find_at_time` ends, with no error, and gives the newest record that is
-- not after the time, if no record above it is at or below the floor.
pub find_at_time_loop-History :
    (src : ReadPages) (at : PageId) (records : List CommitInfo) (floor unix_ts_ms fuel : ℕ)
    → History src at records
    → length records < fuel
    → find_at_time_loop fuel src at floor unix_ts_ms
      ≡ some (ok (find_at_time_in floor unix_ts_ms records))
unfolding find_at_time_loop find_at_time_in
find_at_time_loop-History src at records floor unix_ts_ms zero h enough = absurd (omega arith)
find_at_time_loop-History src at [] floor unix_ts_ms (suc fuel) root enough = refl
find_at_time_loop-History src at (r ∷ older) floor unix_ts_ms (suc fuel)
      (linked _ _ _ ne read shrink rest) enough =
    let ih =
      find_at_time_loop-History src r.parent_page older floor unix_ts_ms fuel rest (omega arith) in
    let away : (at == nil_page) ≡ false = ground arith in rw (away, read) (ground arith)
