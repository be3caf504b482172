-- ===== src/Core/Node/Codec.antt =====
-- `Node::decode` and `Node::encode_into` of crates/quantydb-core/src/node.rs, with what they read and
-- write cells by.
use quanty_database.Prelude.{
  ℕ, zero, suc, ◌+◌, ◌-◌, Bool, true, false, ◌&&◌, Option, none, some, List, [], ◌∷◌, ◌++◌, ltb,
  ◌==◌, if◌then◌else◌, length, take, drop, Ordering,
}
use Prim.Native.Nat.{lt, eq, gt}
use quanty_database.Prelude.Bytes.{le_bytes, from_le, bytes_cmp}
use quanty_database.Prelude.Buffer.{write_at}
use quanty_database.Prelude.Result.{Result, ok, err, ◌>>=◌, ◌>>◌, ensure, ok_or}
use quanty_database.Core.Error.{Error, corrupted}
use quanty_database.Core.Page.{
  PageId, Buf, PageType, leaf, branch, page_type, init_header, page_header_len, u16_at, put_u16,
  zeroes,
}
use quanty_database.Core.Node.{ValueRef, inline, overflowed, Node, leaf_node, branch_node}

abbrev pub vflag_inline : ℕ
vflag_inline = 0

abbrev pub vflag_overflow : ℕ
vflag_overflow = 1

-- The first `n` bytes as a number, and the rest.
unfoldable pub read_number : ℕ → Buf → Option (ℕ × Buf)
read_number n buf = if ltb (length buf) n then none else some (from_le (take n buf), drop n buf)

abbrev pub read_u32 : Buf → Option (ℕ × Buf)
read_u32 buf = read_number 4 buf

abbrev pub read_u64 : Buf → Option (ℕ × Buf)
read_u64 buf = read_number 8 buf

-- `read_key` and `read_key_ref`, which differ in a copy.
unfoldable pub split_key : ℕ → ℕ → Buf → Option (List ℕ × ℕ × Buf)
split_key klen flag rest =
    if ltb (length rest) klen then none else some (take klen rest, flag, drop klen rest)

unfoldable pub read_key : Buf → Option (List ℕ × ℕ × Buf)
read_key buf =
    if ltb (length buf) 3
    then none
    else split_key (from_le (take 2 buf)) (from_le (take 1 (drop 2 buf))) (drop 3 buf)

abbrev pub bad : PageId → Error
bad id = corrupted (some id)

unfoldable pub split_value : PageId → ℕ × Buf → Result Error (ValueRef × Buf)
split_value id (len, rest) =
    if ltb (length rest) len then err (bad id) else ok (inline (take len rest), drop len rest)

unfoldable pub overflow_value : PageId → ℕ × Buf → Result Error (ValueRef × Buf)
overflow_value id (head, rest) = do
  (len, rest') ← ok_or (read_u64 rest) (bad id)
  ok (overflowed head len, rest')

-- The value of a leaf cell, by its flag.
unfoldable pub read_value : PageId → ℕ → Buf → Result Error (ValueRef × Buf)
read_value id vflag cur =
    if vflag == vflag_inline
    then (ok_or (read_u32 cur) (bad id) >>= split_value id)
    else if vflag == vflag_overflow
    then (ok_or (read_u64 cur) (bad id) >>= overflow_value id)
    else err (bad id)

-- One round of the loops of `decode`.
unfoldable pub read_leaf_cell : PageId → Buf → Result Error ((List ℕ × ValueRef) × Buf)
read_leaf_cell id cur = do
  (key, vflag, rest) ← ok_or (read_key cur) (bad id)
  (value, rest') ← read_value id vflag rest
  ok ((key, value), rest')

unfoldable pub read_branch_cell : PageId → Buf → Result Error ((List ℕ × PageId) × Buf)
read_branch_cell id cur = do
  (key, child_hi, rest) ← ok_or (read_key cur) (bad id)
  ensure (child_hi == 0) (bad id)
  (child, rest') ← ok_or (read_u64 rest) (bad id)
  ok ((key, child), rest')

module _ {E : Type 0} where
  unfoldable pub read_cells : (Buf → Result Error (E × Buf)) → ℕ → Buf → Result Error (List E)
  read_cells cell zero cur = ok []
  read_cells cell (suc n) cur = do
    (entry, rest) ← cell cur
    entries ← read_cells cell n rest
    ok (entry ∷ entries)

abbrev pub is_lt : Ordering → Bool
is_lt lt = true
is_lt eq = false
is_lt gt = false

-- `a < b` on byte strings.
unfoldable pub bytes_lt : List ℕ → List ℕ → Bool
bytes_lt a b = is_lt (bytes_cmp a b)

module _ {V : Type 0} where
  -- `entries.windows(2).all(|w| w[0].0 < w[1].0)`
  unfoldable pub is_ascending : List (List ℕ × V) → Bool
  is_ascending [] = true
  is_ascending ((k, v) ∷ []) = true
  is_ascending ((k, v) ∷ (l, w) ∷ entries) = bytes_lt k l && is_ascending ((l, w) ∷ entries)

unfoldable pub decode_leaf : PageId → ℕ → Buf → Result Error Node
decode_leaf id count body = do
  entries ← read_cells (read_leaf_cell id) count body
  ensure (is_ascending entries) (bad id)
  ok (leaf_node entries)

unfoldable pub decode_branch : PageId → ℕ → Buf → Result Error Node
decode_branch id count body = do
  (first_child, cur) ← ok_or (read_u64 body) (bad id)
  entries ← read_cells (read_branch_cell id) count cur
  ensure (is_ascending entries) (bad id)
  ok (branch_node first_child entries)

unfoldable pub decode_as : PageId → ℕ → Buf → PageType → Result Error Node
decode_as id count body leaf = decode_leaf id count body
decode_as id count body branch = decode_branch id count body
decode_as id count body _ = err (bad id)

unfoldable pub decode_node : Buf → PageId → Result Error Node
decode_node buf id = page_type buf >>= decode_as id (u16_at 6 buf) (drop page_header_len buf)

-- Writers take the buffer and a place in it, and give the place behind what they write.
unfoldable pub write_key : List ℕ → ℕ → ℕ × Buf → ℕ × Buf
write_key key flag (at, buf) = (
  at + 3 + length key,
  write_at (at + 3) key (write_at (at + 2) (flag ∷ []) (write_at at (le_bytes 2 (length key)) buf)),
)

unfoldable pub write_u64 : ℕ → ℕ × Buf → ℕ × Buf
write_u64 v (at, buf) = (at + 8, write_at at (le_bytes 8 v) buf)

unfoldable pub write_inline : List ℕ → ℕ × Buf → ℕ × Buf
write_inline v (at, buf) =
    (at + 4 + length v, write_at (at + 4) v (write_at at (le_bytes 4 (length v)) buf))

unfoldable pub write_leaf_cell : List ℕ × ValueRef → ℕ × Buf → ℕ × Buf
write_leaf_cell (key, inline v) to = write_inline v (write_key key vflag_inline to)
write_leaf_cell (key, overflowed head len) to =
    write_u64 len (write_u64 head (write_key key vflag_overflow to))

unfoldable pub write_branch_cell : List ℕ × PageId → ℕ × Buf → ℕ × Buf
write_branch_cell (key, child) to = write_u64 child (write_key key 0 to)

module _ {E : Type 0} where
  unfoldable pub write_cells : (E → ℕ × Buf → ℕ × Buf) → List E → ℕ × Buf → ℕ × Buf
  write_cells cell [] to = to
  write_cells cell (e ∷ entries) to = write_cells cell entries (cell e to)

-- `buf[at..].fill(0)`
unfoldable pub fill_tail : ℕ × Buf → ℕ × Buf
fill_tail (at, buf) = (at, take at buf ++ zeroes (length buf - at))

-- How many bytes the encoding uses, and the page.
unfoldable pub encode_into : Node → Buf → ℕ × Buf
encode_into (leaf_node entries) buf = fill_tail (
    write_cells write_leaf_cell entries
      (page_header_len, put_u16 6 (length entries) (init_header leaf buf)))
encode_into (branch_node first_child entries) buf = fill_tail (
    write_cells write_branch_cell entries (
      write_u64 first_child (page_header_len, put_u16 6 (length entries) (init_header branch buf))))
