-- ===== src/Proto/Message/Batch.antt =====
-- `RowBatcher` and `batch_rows` of crates/quantydb-proto/src/message.rs: rows split into messages.
pub mod Collect
pub mod Fits
use quanty_database.Prelude.{
  ℕ, zero, suc, ◌+◌, ◌-◌, ◌≤◌, ◌<◌, Bool, true, false, not, ◌&&◌, ◌||◌, Option, none, some, List,
  [], ◌∷◌, ◌++◌, leb, ltb, if◌then◌else◌, length, map,
}
use quanty_database.Prelude.Result.{Result, ok, err, ◌>>=◌}
use quanty_database.Core.Value.{Value}
use quanty_database.Proto.Error.{ProtoError, too_large}
use quanty_database.Proto.Limits.{max_body, max_values_per_row, max_rows_per_batch}
use quanty_database.Proto.Value.{encoded_row_len}
use quanty_database.Proto.Message.{ServerMessage, row_batch}

abbrev pub Row : Type 0
Row = List Value

abbrev pub batch_budget : ℕ
batch_budget = max_body - 4

-- The iterator of rows is the list of those that it has not given out.
pub record RowBatcher : Type 0 where
  pub rows : List Row
  pub pending : List Row
  pub used : ℕ
  pub finished : Bool

unfoldable pub new : List Row → RowBatcher
new rows = record { rows = rows; pending = []; used = 0; finished = false }

abbrev pub is_empty : List Row → Bool
is_empty [] = true
is_empty (r ∷ rs) = false

abbrev pub Item : Type 0
Item = Option (Result ProtoError ServerMessage)

-- A row that no batch can hold.
abbrev pub is_oversized : Row → Bool
is_oversized row = ltb batch_budget (encoded_row_len row) || ltb max_values_per_row (length row)

-- Whether a row of `size` bytes has no room beside the pending rows.
abbrev pub is_full : ℕ → ℕ → List Row → Bool
is_full used size pending =
    ltb batch_budget (used + size) || leb max_rows_per_batch (length pending)

unfoldable pub next_loop : List Row → List Row → ℕ → Item × RowBatcher
next_loop [] pending used = (
  if is_empty pending then none else some (ok (row_batch pending)),
  record { rows = []; pending = []; used = used; finished = true },
)
next_loop (row ∷ rows) pending used =
    let size = encoded_row_len row in
    let rest = next_loop rows (pending ++ row ∷ []) (used + size) in
    if is_oversized row
    then (
      some (err (too_large size batch_budget)),
      record { rows = rows; pending = pending; used = used; finished = true },
    )
    else if not (is_empty pending) && is_full used size pending
    then (
      some (ok (row_batch pending)),
      record { rows = rows; pending = row ∷ []; used = size; finished = false },
    )
    else rest

unfoldable pub next : RowBatcher → Item × RowBatcher
unfolding next_loop
next b = if b.finished then (none, b) else next_loop b.rows b.pending b.used

-- `collect` into a `Result`: it ends at the first `None` or error. `none` means that the rounds ran
-- out.
unfoldable pub collect :
    ℕ → RowBatcher → List ServerMessage → Option (Result ProtoError (List ServerMessage))
collect zero b out = none
collect (suc fuel) b out =
    let (item, b') = next b in
    elim item [
      | none ↦ some (ok out)
      | some (err e) ↦ some (err e)
      | some (ok m) ↦ collect fuel b' (out ++ m ∷ [])
    ]

-- Each round but the last two takes a row at least.
unfoldable pub batch_rows : List Row → Option (Result ProtoError (List ServerMessage))
unfolding new
batch_rows rows = collect (length rows + 2) (new rows) []
