-- ===== src/Proto/Message/Batch/Fits.antt =====
-- For `batch_rows` of crates/quantydb-proto/src/message.rs: what is in the batches.
use quanty_database.Prelude.{
  ℕ, ◌+◌, ◌≤◌, ◌<◌, ◌⊎◌, ◌≡◌, ◌≢◌, refl, ap, ◌∙◌, inl, inr, true, false, Bool-cases, not, ◌&&◌,
  some, List, [], ◌∷◌, ◌++◌, append_assoc, arith, length, length-append, map, All,
}
use quanty_database.Prelude.Result.{ok, err, >>=-eq-ok}
use quanty_database.Proto.Error.{too_large}
use quanty_database.Proto.Limits.{max_body, max_values_per_row, max_rows_per_batch}
use quanty_database.Proto.Value.{encoded_row_len}
use quanty_database.Proto.Message.{row_batch}
use quanty_database.Proto.Message.Batch.{
  Row, batch_budget, is_empty, is_oversized, is_full, batch_rows,
}
use quanty_database.Proto.Message.Batch.Collect.{split, messages, collect-split}

-- The bytes that the rows of a batch take.
unfoldable pub rows_len : List Row → ℕ
rows_len [] = 0
rows_len (r ∷ rs) = encoded_row_len r + rows_len rs

rows_len-append : (a b : List Row) → rows_len (a ++ b) ≡ rows_len a + rows_len b
unfolding rows_len
rows_len-append [] b = omega arith
rows_len-append (r ∷ rs) b = omega (arith, rows_len-append rs b)

unfoldable pub concat : List (List Row) → List Row
concat [] = []
concat (b ∷ bs) = b ++ concat bs

-- What a batch promises the frame that carries it.
pub record IsBatch (b : List Row) : Type 0 where
  pub nonempty : b ≢ []
  pub bytes : rows_len b ≤ batch_budget
  pub rows : length b ≤ max_rows_per_batch
  pub widths : All (λ r. length r ≤ max_values_per_row) b

widths_snoc :
    (m : ℕ) (xs : List Row) (x : Row)
    → All (λ r. length r ≤ m) xs
    → length x ≤ m
    → All (λ r. length r ≤ m) (xs ++ x ∷ [])
widths_snoc m [] x h hx = (hx, tt)
widths_snoc m (y ∷ ys) x (hy, h) hx = (hy, widths_snoc m ys x h hx)

-- The pending rows, while they are no batch yet: there may be none.
record IsPending (pending : List Row) (used : ℕ) : Type 0 where
  counted : used ≡ rows_len pending
  bytes : used ≤ batch_budget
  rows : length pending ≤ max_rows_per_batch
  widths : All (λ r. length r ≤ max_values_per_row) pending

IsPending-start :
    (row : Row) → is_oversized row ≡ false → IsPending (row ∷ []) (encoded_row_len row)
unfolding rows_len
IsPending-start row h = record {
  counted = omega arith;
  bytes = ground arith;
  rows = omega arith;
  widths = (ground arith, tt);
}

IsPending-add :
    (row : Row) (pending : List Row) (used : ℕ)
    → is_oversized row ≡ false
    → (not (is_empty pending) && is_full used (encoded_row_len row) pending) ≡ false
    → IsPending pending used
    → IsPending (pending ++ row ∷ []) (used + encoded_row_len row)
unfolding rows_len
IsPending-add row [] used h room p = record {
  counted = omega (arith, p.counted);
  bytes = let zero : used ≡ 0 = p.counted in ground arith;
  rows = omega arith;
  widths = (ground arith, tt);
}
IsPending-add row (q ∷ qs) used h room p = record {
  counted = omega (arith, p.counted, rows_len-append qs (row ∷ []));
  bytes = ground arith;
  rows = ground (arith, length-append qs (row ∷ []));
  widths = widths_snoc max_values_per_row (q ∷ qs) row p.widths (ground arith);
}

IsPending-IsBatch :
    (pending : List Row) (used : ℕ)
    → IsPending pending used
    → is_empty pending ≡ false
    → IsBatch pending
IsPending-IsBatch [] used h e = cc
IsPending-IsBatch (p ∷ ps) used h e = record {
  nonempty = λ q. cc;
  bytes = omega (arith, h.counted, h.bytes);
  rows = h.rows;
  widths = h.widths;
}

module _ (row : Row) (rows pending : List Row) (used : ℕ) (bs : List (List Row)) where
  split_big : is_oversized row ≡ true → split pending used (row ∷ rows) ≡ ok bs → ⊥
  unfolding split
  split_big big e = cc (rw big at e)

  split_full :
      is_oversized row ≡ false
      → (not (is_empty pending) && is_full used (encoded_row_len row) pending) ≡ true
      → split pending used (row ∷ rows) ≡ ok bs
      → (more : List (List Row)) × ((split (row ∷ []) (encoded_row_len row) rows ≡ ok more)
          × (bs ≡ pending ∷ more))
  unfolding split
  split_full fits full e =
      let (more, em, eb) =
        >>=-eq-ok (split (row ∷ []) (encoded_row_len row) rows) (λ ms. ok (pending ∷ ms))
          (rw (fits, full) at e) in
      (more, (em, cc eb))

  split_room :
      is_oversized row ≡ false
      → (not (is_empty pending) && is_full used (encoded_row_len row) pending) ≡ false
      → split pending used (row ∷ rows) ≡ ok bs
      → split (pending ++ row ∷ []) (used + encoded_row_len row) rows ≡ ok bs
  unfolding split
  split_room fits room e = rw (fits, room) at e

IsPending-none : IsPending [] 0
unfolding rows_len
IsPending-none = record { counted = refl; bytes = omega arith; rows = omega arith; widths = tt }

split_batches :
    (rows pending : List Row) (used : ℕ) (bs : List (List Row))
    → IsPending pending used
    → split pending used rows ≡ ok bs
    → (concat bs ≡ pending ++ rows) × All IsBatch bs
unfolding concat
split_batches [] [] used bs h e = let q : bs ≡ [] = unfold split in cc in rw q (refl, tt)
split_batches [] (p ∷ ps) used bs h e =
    let q : bs ≡ (p ∷ ps) ∷ [] = unfold split in cc in
    rw q (refl, (IsPending-IsBatch (p ∷ ps) used h refl, tt))
split_batches (row ∷ rows) pending used bs h e = elim (Bool-cases (is_oversized row)) [
  | inl big ↦ absurd (split_big row rows pending used bs big e)
  | inr fits ↦
      elim (Bool-cases (not (is_empty pending) && is_full used (encoded_row_len row) pending)) [
        | inl full ↦
            let (more, (em, eb)) = split_full row rows pending used bs fits full e in
            let (ih, hs) =
              split_batches rows (row ∷ []) (encoded_row_len row) more (IsPending-start row fits)
                em in
            rw eb (ap (λ t. pending ++ t) ih, (IsPending-IsBatch pending used h (ground arith), hs))
        | inr room ↦
            let (ih, hs) =
              split_batches rows (pending ++ row ∷ []) (used + encoded_row_len row) bs
                (IsPending-add row pending used fits room h)
                (split_room row rows pending used bs fits room e) in
            (ih ∙ append_assoc pending (row ∷ []) rows, hs)
      ]
]

abbrev pub FitsBatch : Row → Type 0
FitsBatch row = is_oversized row ≡ false

split_total :
    (rows pending : List Row) (used : ℕ)
    → All FitsBatch rows
    → (bs : List (List Row)) × (split pending used rows ≡ ok bs)
unfolding split
split_total [] pending used h = elim (Bool-cases (is_empty pending)) [
  | inl e ↦ ([], rw e)
  | inr e ↦ (pending ∷ [], rw e)
]
split_total (row ∷ rows) pending used (h, hs) =
    elim (Bool-cases (not (is_empty pending) && is_full used (encoded_row_len row) pending)) [
      | inl full ↦
          let (bs, e) = split_total rows (row ∷ []) (encoded_row_len row) hs in
          (pending ∷ bs, rw (h, full, e))
      | inr room ↦
          let (bs, e) = split_total rows (pending ++ row ∷ []) (used + encoded_row_len row) hs in
          (bs, rw (h, room) e)
    ]

split_refuses :
    (front pending back : List Row) (row : Row) (used : ℕ)
    → All FitsBatch front
    → is_oversized row ≡ true
    → split pending used (front ++ row ∷ back) ≡ err (too_large (encoded_row_len row) batch_budget)
unfolding split
split_refuses [] pending back row used h big = rw big
split_refuses (r ∷ front) pending back row used (h, hs) big =
    elim (Bool-cases (not (is_empty pending) && is_full used (encoded_row_len r) pending)) [
      | inl full ↦ rw (h, full, split_refuses front (r ∷ []) back row (encoded_row_len r) hs big)
      | inr room ↦
          rw (h, room)
            (split_refuses front (pending ++ r ∷ []) back row (used + encoded_row_len r) hs big)
    ]

batch_rows-split : (rows : List Row) → batch_rows rows ≡ some (messages [] (split [] 0 rows))
unfolding batch_rows
batch_rows-split rows = collect-split rows [] 0 (length rows + 2) [] (omega arith)

-- Rows that each fit a frame are batched: the result is row batches that hold the rows in order, each
-- once; no batch is empty, and each keeps to the row count, the row widths and the bytes of a frame.
pub batch_rows_exact :
    (rows : List Row)
    → All FitsBatch rows
    → (bs : List (List Row)) × (batch_rows rows ≡ some (ok (map row_batch bs)))
      × (concat bs ≡ rows)
      × All IsBatch bs
batch_rows_exact rows h =
    let (bs, e) = split_total rows [] 0 h in
    let (joined, each) = split_batches rows [] 0 bs IsPending-none e in
    (bs, rw (batch_rows-split rows, e) (unfold messages in refl), joined, each)

-- What the protocol can send as a row: with the count of the rows it is within a body, and it is not
-- wider than a row may be.
abbrev pub IsSendable : Row → Type 0
IsSendable row = (4 + encoded_row_len row ≤ max_body) × (length row ≤ max_values_per_row)

-- What it cannot: too long, or too wide.
abbrev pub IsUnsendable : Row → Type 0
IsUnsendable row = (max_body < 4 + encoded_row_len row) ⊎ (max_values_per_row < length row)

sendable-FitsBatch : (rows : List Row) → All IsSendable rows → All FitsBatch rows
sendable-FitsBatch [] h = tt
sendable-FitsBatch (row ∷ rows) ((short, narrow), hs) = (ground arith, sendable-FitsBatch rows hs)

unsendable-is_oversized : (row : Row) → IsUnsendable row → is_oversized row ≡ true
unsendable-is_oversized row (inl h) = ground arith
unsendable-is_oversized row (inr h) = ground arith

-- A row that is too long for a body or wider than a row may be makes the whole result an error, however
-- many rows fit before it and whatever follows: no message is given out. The error is `TooLarge` with
-- the length of that row and the room of a body, also where the row is only too wide. The condition is
-- that the rows before it can be sent, so that it is the first that cannot.
pub batch_rows_refuses :
    (front back : List Row) (row : Row)
    → All IsSendable front
    → IsUnsendable row
    → batch_rows (front ++ row ∷ back) ≡ some (err (too_large (encoded_row_len row) batch_budget))
batch_rows_refuses front back row h big =
    rw
      (
        batch_rows-split (front ++ row ∷ back),
        split_refuses front [] back row 0 (sendable-FitsBatch front h)
            (unsendable-is_oversized row big),
      )
      (unfold messages in refl)
