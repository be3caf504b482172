-- ===== src/Proto/Message/Batch/Collect.antt =====
-- For `batch_rows` of crates/quantydb-proto/src/message.rs: a plain recursion over the rows.
use quanty_database.Prelude.{
  ℕ, zero, suc, ◌+◌, ◌<◌, ◌≡◌, refl, ◌∙◌, inl, inr, true, false, Bool-cases, not, ◌&&◌, Option,
  none, some, List, [], ◌∷◌, ◌++◌, append_assoc, append-nil, arith, if◌then◌else◌, length, map,
}
use quanty_database.Prelude.Result.{Result, ok, err, ◌>>=◌}
use quanty_database.Proto.Error.{ProtoError, too_large}
use quanty_database.Proto.Value.{encoded_row_len}
use quanty_database.Proto.Message.{ServerMessage, row_batch}
use quanty_database.Proto.Message.Batch.{
  Row, batch_budget, Item, RowBatcher, is_empty, is_oversized, is_full, next, next_loop, collect,
}

-- The batches, from the rows that are pending, the bytes they take and the rows to come.
unfoldable pub split : List Row → ℕ → List Row → Result ProtoError (List (List Row))
split pending used [] = if is_empty pending then ok [] else ok (pending ∷ [])
split pending used (row ∷ rows) =
    let size = encoded_row_len row in
    let more = split (row ∷ []) size rows in
    let rest = split (pending ++ row ∷ []) (used + size) rows in
    if is_oversized row
    then err (too_large size batch_budget)
    else if not (is_empty pending) && is_full used size pending
    then (do bs ← more; ok (pending ∷ bs))
    else rest

-- The messages of a split, behind those already given out.
unfoldable pub messages :
    List ServerMessage
    → Result ProtoError (List (List Row))
    → Result ProtoError (List ServerMessage)
messages out (ok bs) = ok (out ++ map row_batch bs)
messages out (err e) = err e

abbrev pub open_batcher : List Row → List Row → ℕ → RowBatcher
open_batcher rows pending used = record {
  rows = rows;
  pending = pending;
  used = used;
  finished = false;
}

-- What `collect` does with an item and the batcher behind it.
give : ℕ → List ServerMessage → Item × RowBatcher → Option (Result ProtoError (List ServerMessage))
give fuel out (none, b) = some (ok out)
give fuel out (some (err e), b) = some (err e)
give fuel out (some (ok m), b) = collect fuel b (out ++ m ∷ [])

collect-give :
    (fuel : ℕ) (b : RowBatcher) (out : List ServerMessage)
    → collect (suc fuel) b out ≡ give fuel out (next b)
unfolding collect
collect-give fuel b out = by_item (next b)
  where
    by_item :
        (r : Item × RowBatcher)
        → elim r.0 [
          | none ↦ some (ok out)
          | some (err e) ↦ some (err e)
          | some (ok m) ↦ collect fuel r.1 (out ++ m ∷ [])
        ]
          ≡ give fuel out r
    by_item (none, b') = unfold give in refl
    by_item (some (err e), b') = unfold give in refl
    by_item (some (ok m), b') = unfold give in refl

messages-cons :
    (p : List Row) (out : List ServerMessage) (r : Result ProtoError (List (List Row)))
    → messages (out ++ row_batch p ∷ []) r ≡ messages out (r >>= λ bs. ok (p ∷ bs))
unfolding messages
messages-cons p out (ok bs) = rw (append_assoc out (row_batch p ∷ []) (map row_batch bs))
messages-cons p out (err e) = refl

-- A full batch is given out, and the loop goes on with the row that had no room.
give_full :
    (rows pending rest : List Row) (used fuel : ℕ) (out : List ServerMessage)
    (r : Result ProtoError (List (List Row)))
    → give fuel (out ++ row_batch pending ∷ []) (next_loop rows rest used)
      ≡ some (messages (out ++ row_batch pending ∷ []) r)
    → give (suc fuel) out (some (ok (row_batch pending)), open_batcher rows rest used)
      ≡ some (messages out (r >>= λ bs. ok (pending ∷ bs)))
give_full rows pending rest used fuel out r h = rw (← messages-cons pending out r) (
    unfold give next in
    (collect-give fuel (open_batcher rows rest used) (out ++ row_batch pending ∷ []) ∙ h))

give_big :
    (e : ProtoError) (b : RowBatcher) (fuel : ℕ) (out : List ServerMessage)
    → give fuel out (some (err e), b) ≡ some (messages out (err e))
unfolding give messages
give_big e b fuel out = refl

give-split :
    (rows pending : List Row) (used fuel : ℕ) (out : List ServerMessage)
    → length rows < fuel
    → give fuel out (next_loop rows pending used) ≡ some (messages out (split pending used rows))
unfolding next_loop split
give-split [] [] used fuel out h = unfold give messages in rw append-nil
give-split [] (p ∷ ps) used zero out h = absurd (omega arith)
give-split [] (p ∷ ps) used (suc fuel) out h = unfold give messages next in rw collect-give
give-split (row ∷ rows) pending used zero out h = absurd (omega arith)
give-split (row ∷ rows) pending used (suc fuel) out h = elim (Bool-cases (is_oversized row)) [
  | inl big ↦ rw big (
      give_big (too_large (encoded_row_len row) batch_budget)
        (record { rows = rows; pending = pending; used = used; finished = true }) (suc fuel) out)
  | inr fits ↦
      elim (Bool-cases (not (is_empty pending) && is_full used (encoded_row_len row) pending)) [
        | inl full ↦
            rw (fits, full)
              (give_full rows pending (row ∷ []) (encoded_row_len row) fuel out
                (split (row ∷ []) (encoded_row_len row) rows)
                (give-split rows (row ∷ []) (encoded_row_len row) fuel
                  (out ++ row_batch pending ∷ []) (omega arith)))
        | inr room ↦
            rw (fits, room)
              (give-split rows (pending ++ row ∷ []) (used + encoded_row_len row) (suc fuel) out
                (omega arith))
      ]
]

pub collect-split :
    (rows pending : List Row) (used fuel : ℕ) (out : List ServerMessage)
    → length rows + 1 < fuel
    → collect fuel (open_batcher rows pending used) out
      ≡ some (messages out (split pending used rows))
unfolding next
collect-split rows pending used zero out h = absurd (omega arith)
collect-split rows pending used (suc fuel) out h =
    rw collect-give (give-split rows pending used fuel out (omega arith))
