-- ===== src/Core/Node/Search.antt =====
-- The searches in the bytes of a page of crates/quantydb-core/src/node.rs: `branch_child`,
-- `leaf_cell_at`, `find_in_leaf`, `check_leaf`, `check_branch`, `branch_rank` and `branch_child_at`.
use quanty_database.Prelude.{
  ℕ, zero, suc, ◌+◌, ◌-◌, Bool, true, Option, none, some, List, ltb, ◌==◌, if◌then◌else◌, length,
  drop, Ordering,
}
use Prim.Native.Nat.{lt, eq, gt}
use quanty_database.Prelude.Bytes.{bytes_cmp}
use quanty_database.Prelude.Buffer.{slice}
use quanty_database.Prelude.Result.{Result, ok, err, ◌>>=◌, ◌>>◌, ensure, ok_or}
use quanty_database.Core.Error.{Error}
use quanty_database.Core.Page.{PageId, Buf, page_header_len, u16_at}
use quanty_database.Core.Node.Codec.{
  read_u32, read_u64, read_key, read_branch_cell, bad, bytes_lt, vflag_inline, vflag_overflow,
}

-- The range of a value in the page, or where it overflows to.
pub data CellValue : Type 0 where
  inline_at : (start stop : ℕ) → CellValue
  overflowed_at : (head : PageId) → (len : ℕ) → CellValue

-- The range of the key, the value, and the place of the next cell.
pub record Cell : Type 0 where
  pub key_start : ℕ
  pub key_end : ℕ
  pub value : CellValue
  pub following : ℕ

unfoldable pub inline_cell : PageId → ℕ → ℕ → ℕ × Buf → Result Error Cell
inline_cell id key_start key_end (len, rest) =
    if ltb (length rest) len
    then err (bad id)
    else ok (record {
      key_start = key_start;
      key_end = key_end;
      value = inline_at (key_end + 4) (key_end + 4 + len);
      following = key_end + 4 + len;
    })

unfoldable pub overflow_cell : PageId → ℕ → ℕ → ℕ × Buf → Result Error Cell
overflow_cell id key_start key_end (head, rest) = do
  (len, rest') ← ok_or (read_u64 rest) (bad id)
  ok (record {
    key_start = key_start;
    key_end = key_end;
    value = overflowed_at head len;
    following = key_end + 16;
  })

unfoldable pub value_at : PageId → ℕ → ℕ → ℕ → Buf → Result Error Cell
value_at id vflag key_start key_end rest =
    if vflag == vflag_inline
    then (ok_or (read_u32 rest) (bad id) >>= inline_cell id key_start key_end)
    else if vflag == vflag_overflow
    then (ok_or (read_u64 rest) (bad id) >>= overflow_cell id key_start key_end)
    else err (bad id)

unfoldable pub leaf_cell_at : Buf → ℕ → PageId → Result Error Cell
leaf_cell_at buf at id = do
  (key, vflag, rest) ← ok_or (read_key (drop at buf)) (bad id)
  value_at id vflag (at + 3) (at + 3 + length key) rest

-- `&buf[ks..ke]`
abbrev pub key_of : Buf → Cell → List ℕ
key_of buf c = slice c.key_start (c.key_end - c.key_start) buf

-- What a cell answers, and how the search goes on otherwise.
unfoldable pub found_or :
    Ordering → CellValue → Result Error (Option CellValue) → Result Error (Option CellValue)
found_or lt value rest = rest
found_or eq value rest = ok (some value)
found_or gt value rest = ok none

unfoldable pub find_loop : ℕ → ℕ → Buf → PageId → List ℕ → Result Error (Option CellValue)
find_loop zero at buf id key = ok none
find_loop (suc n) at buf id key = do
  c ← leaf_cell_at buf at id
  found_or (bytes_cmp (key_of buf c) key) c.value (find_loop n c.following buf id key)

unfoldable pub find_in_leaf : Buf → PageId → List ℕ → Result Error (Option CellValue)
find_in_leaf buf id key = find_loop (u16_at 6 buf) page_header_len buf id key

unfoldable pub child_loop : ℕ → PageId → List ℕ → PageId → Buf → Result Error PageId
child_loop zero id key child cur = ok child
child_loop (suc n) id key child cur = do
  ((cell_key, next), rest) ← read_branch_cell id cur
  let behind = child_loop n id key next rest
  if bytes_lt key cell_key then ok child else behind

unfoldable pub branch_child : Buf → PageId → List ℕ → Result Error PageId
branch_child buf id key = do
  (first_child, cur) ← ok_or (read_u64 (drop page_header_len buf)) (bad id)
  child_loop (u16_at 6 buf) id key first_child cur

-- Whether a key is behind the one before it, if there is one.
unfoldable pub is_behind : Option (List ℕ) → List ℕ → Bool
is_behind none key = true
is_behind (some prev) key = bytes_lt prev key

unfoldable pub check_branch_loop : ℕ → PageId → Option (List ℕ) → Buf → Result Error (Unit {0})
check_branch_loop zero id prev cur = ok tt
check_branch_loop (suc n) id prev cur = do
  ((key, next), rest) ← read_branch_cell id cur
  ensure (is_behind prev key) (bad id)
  check_branch_loop n id (some key) rest

unfoldable pub check_branch : Buf → PageId → Result Error (PageId × ℕ)
check_branch buf id = do
  (first_child, cur) ← ok_or (read_u64 (drop page_header_len buf)) (bad id)
  let count = u16_at 6 buf
  check_branch_loop count id none cur
  ok (first_child, count)

unfoldable pub check_leaf_loop : ℕ → ℕ → Option (List ℕ) → Buf → PageId → Result Error (Unit {0})
check_leaf_loop zero at prev buf id = ok tt
check_leaf_loop (suc n) at prev buf id = do
  c ← leaf_cell_at buf at id
  ensure (is_behind prev (key_of buf c)) (bad id)
  check_leaf_loop n c.following (some (key_of buf c)) buf id

unfoldable pub check_leaf : Buf → PageId → Result Error ℕ
check_leaf buf id = do
  let count = u16_at 6 buf
  check_leaf_loop count page_header_len none buf id
  ok count

-- The rank and the child of a branch that was checked: a cell that cannot be read makes the source
-- panic, and is `none` here.
unfoldable pub rank_on : (ℕ → Buf → Option ℕ) → List ℕ → ℕ → Option (List ℕ × ℕ × Buf) → Option ℕ
rank_on again key rank none = none
rank_on again key rank (some (cell_key, flag, rest)) =
    if bytes_lt key cell_key
    then some rank
    else if ltb (length rest) 8
    then none
    else again (rank + 1) (drop 8 rest)

unfoldable pub rank_loop : ℕ → List ℕ → ℕ → Buf → Option ℕ
rank_loop zero key rank cur = some rank
rank_loop (suc n) key rank cur = rank_on (rank_loop n key) key rank (read_key cur)

unfoldable pub branch_rank : Buf → List ℕ → Option ℕ
branch_rank buf key = rank_loop (u16_at 6 buf) key 0 (drop (page_header_len + 8) buf)

unfoldable pub child_in : Option (ℕ × Buf) → Option PageId
child_in none = none
child_in (some (child, rest)) = some child

unfoldable pub child_behind : Option (List ℕ × ℕ × Buf) → Option PageId
child_behind none = none
child_behind (some (cell_key, flag, rest)) = child_in (read_u64 rest)

unfoldable pub skip_on : (Buf → Option PageId) → Option (List ℕ × ℕ × Buf) → Option PageId
skip_on again none = none
skip_on again (some (cell_key, flag, rest)) =
    if ltb (length rest) 8 then none else again (drop 8 rest)

-- The child behind as many cells as are skipped.
unfoldable pub skip_loop : ℕ → Buf → Option PageId
skip_loop zero cur = child_behind (read_key cur)
skip_loop (suc n) cur = skip_on (skip_loop n) (read_key cur)

unfoldable pub branch_child_at : Buf → ℕ → Option PageId
branch_child_at buf zero = child_in (read_u64 (drop page_header_len buf))
branch_child_at buf (suc i) = skip_loop i (drop (page_header_len + 8) buf)
