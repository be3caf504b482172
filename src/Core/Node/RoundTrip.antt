-- ===== src/Core/Node/RoundTrip.antt =====
-- For `Node::decode` and `Node::encode_into` of crates/quantydb-core/src/node.rs: the page of a node.
use quanty_database.Prelude.{
  ℕ, suc, ◌+◌, ◌-◌, ◌*◌, ◌^◌, ◌≤◌, ◌<◌, ◌≡◌, refl, sym, ap, ◌∙◌, true, false, some, List, [], ◌∷◌,
  ◌++◌, arith, append_assoc, length, take, drop, length-append, length-take, take-append_at,
  drop-append_at, take-append-drop, inl, ltb, All,
}
use quanty_database.Prelude.Bytes.{le_bytes, from_le, length-le_bytes, from_le-le_bytes, IsU64}
use quanty_database.Prelude.Buffer.{slice, slice-append}
use quanty_database.Prelude.Result.{Result, ok}
use quanty_database.Core.Error.{Error}
use quanty_database.Core.Page.{
  PageId, Buf, page_type, u8_at, u16_at, page_header_len, init_header, length-put_u16,
  length-init_header, slice-put_u16, page_type-init_header, u16_at-put_u16, u16_at-slice, zeroes,
}
use quanty_database.Core.Node.{
  ValueRef, inline, overflowed, Node, leaf_node, branch_node, encoded_size, leaf_cell_size,
  branch_cell_size, leaf_cells_size, branch_cells_size,
}
use quanty_database.Core.Node.Codec.{
  read_number, read_key, split_key, split_value, overflow_value, read_value, read_leaf_cell,
  read_branch_cell, read_cells, is_ascending, decode_leaf, decode_branch, decode_as, decode_node,
  encode_into, vflag_inline, vflag_overflow,
}
use quanty_database.Core.Node.Bytes.{
  key_bytes, length-key_bytes, leaf_cell_bytes, branch_cell_bytes, cells_bytes, body_bytes,
  node_type, count_of, header, encode_into-bytes,
}

-- A value that a cell can say: its length and its numbers fit.
abbrev pub IsValueRef : ValueRef → Type 0
IsValueRef (inline v) = length v < 2 ^ 32
IsValueRef (overflowed head len) = IsU64 head × IsU64 len

abbrev pub IsLeafEntry : List ℕ × ValueRef → Type 0
IsLeafEntry (key, value) = (length key < 2 ^ 16) × IsValueRef value

abbrev pub IsBranchEntry : List ℕ × PageId → Type 0
IsBranchEntry (key, child) = (length key < 2 ^ 16) × IsU64 child

read_number-append :
    (n v : ℕ) (rest : Buf) → v < 256 ^ n → read_number n (le_bytes n v ++ rest) ≡ some (v, rest)
unfolding read_number
read_number-append n v rest h =
    let long = length-le_bytes n v in
    let enough : ltb (length (le_bytes n v ++ rest)) n ≡ false =
      (let size = length-append (le_bytes n v) rest in ground arith) in
    rw
      (
        enough,
        take-append_at n (le_bytes n v) rest long,
        drop-append_at n (le_bytes n v) rest long,
        from_le-le_bytes n v h,
      )
      refl

-- A key is read back, with its flag.
read_key-append :
    (key : List ℕ) (flag : ℕ) (rest : Buf)
    → length key < 2 ^ 16
    → read_key (key_bytes key flag ++ rest) ≡ some (key, flag, rest)
unfolding read_key key_bytes split_key le_bytes from_le
read_key-append key flag rest h =
    let low = from_le-le_bytes 2 (length key) (omega arith) in
    let size = length-append key rest in
    let enough : ltb (length (key ++ rest)) (length key) ≡ false = ground arith in
    let long : ltb (suc (suc (suc (length (key ++ rest))))) 3 ≡ false = ground arith in
    let same : flag + 256 * 0 ≡ flag = omega arith in
    rw
      (
        long,
        low,
        same,
        enough,
        take-append_at (length key) key rest refl,
        drop-append_at (length key) key rest refl,
      )
      refl

read_value-inline :
    (id : PageId) (v : List ℕ) (rest : Buf)
    → length v < 2 ^ 32
    → read_value id vflag_inline (le_bytes 4 (length v) ++ (v ++ rest)) ≡ ok (inline v, rest)
unfolding read_value split_value
read_value-inline id v rest h =
    let size = length-append v rest in
    let enough : ltb (length (v ++ rest)) (length v) ≡ false = ground arith in
    rw
      (
        read_number-append 4 (length v) (v ++ rest) (omega arith),
        enough,
        take-append_at (length v) v rest refl,
        drop-append_at (length v) v rest refl,
      )
      refl

read_value-overflowed :
    (id : PageId) (head len : ℕ) (rest : Buf)
    → IsU64 head
    → IsU64 len
    → read_value id vflag_overflow (le_bytes 8 head ++ (le_bytes 8 len ++ rest))
      ≡ ok (overflowed head len, rest)
unfolding read_value overflow_value
read_value-overflowed id head len rest h k =
    rw
      (
        read_number-append 8 head (le_bytes 8 len ++ rest) (omega arith),
        read_number-append 8 len rest (omega arith),
      )
      refl

read_leaf_cell-append :
    (id : PageId) (e : List ℕ × ValueRef) (rest : Buf)
    → IsLeafEntry e
    → read_leaf_cell id (leaf_cell_bytes e ++ rest) ≡ ok (e, rest)
unfolding read_leaf_cell leaf_cell_bytes
read_leaf_cell-append id (key, inline v) rest (h, k) =
    let klen = le_bytes 4 (length v) in
    let flag = key_bytes key vflag_inline in
    let regroup : flag ++ klen ++ v ++ rest ≡ flag ++ (klen ++ (v ++ rest)) =
      append_assoc (flag ++ klen) v rest ∙ append_assoc flag klen (v ++ rest) in
    rw
      (
        regroup,
        read_key-append key vflag_inline (klen ++ (v ++ rest)) h,
        read_value-inline id v rest k,
      )
      refl
read_leaf_cell-append id (key, overflowed head len) rest (h, (k, l)) =
    let a = le_bytes 8 head in
    let b = le_bytes 8 len in
    let flag = key_bytes key vflag_overflow in
    let regroup : flag ++ a ++ b ++ rest ≡ flag ++ (a ++ (b ++ rest)) =
      append_assoc (flag ++ a) b rest ∙ append_assoc flag a (b ++ rest) in
    rw
      (
        regroup,
        read_key-append key vflag_overflow (a ++ (b ++ rest)) h,
        read_value-overflowed id head len rest k l,
      )
      refl

read_branch_cell-append :
    (id : PageId) (e : List ℕ × PageId) (rest : Buf)
    → IsBranchEntry e
    → read_branch_cell id (branch_cell_bytes e ++ rest) ≡ ok (e, rest)
unfolding read_branch_cell branch_cell_bytes
read_branch_cell-append id (key, child) rest (h, k) =
    let c = le_bytes 8 child in
    rw
      (
        append_assoc (key_bytes key 0) c rest,
        read_key-append key 0 (c ++ rest) h,
        read_number-append 8 child rest (omega arith),
      )
      refl

module _ {E : Type 0} where
  read_cells-append :
      (read : Buf → Result Error (E × Buf)) (bytes : E → List ℕ) (P : E → Type 0)
      → ((e : E) (rest : Buf) → P e → read (bytes e ++ rest) ≡ ok (e, rest))
      → (entries : List E) (rest : Buf) → All P entries
      → read_cells read (length entries) (cells_bytes bytes entries ++ rest) ≡ ok entries
  unfolding read_cells cells_bytes
  read_cells-append read bytes P step [] rest h = refl
  read_cells-append read bytes P step (e ∷ entries) rest (h, hs) =
      rw
        (
          append_assoc (bytes e) (cells_bytes bytes entries) rest,
          step e (cells_bytes bytes entries ++ rest) h,
          read_cells-append read bytes P step entries rest hs,
        )
        refl

-- A node that a page can say: its keys ascend, and its numbers fit.
abbrev pub IsNode : Node → Type 0
IsNode (leaf_node entries) =
    (is_ascending entries ≡ true) × (length entries < 2 ^ 16) × All IsLeafEntry entries
IsNode (branch_node first_child entries) =
    (is_ascending entries ≡ true)
    × (length entries < 2 ^ 16)
    × All IsBranchEntry entries
    × IsU64 first_child

decode_as-body :
    (id : PageId) (node : Node) (rest : Buf)
    → IsNode node
    → decode_as id (count_of node) (body_bytes node ++ rest) (node_type node) ≡ ok node
unfolding decode_as decode_leaf decode_branch count_of body_bytes node_type
decode_as-body id (leaf_node entries) rest (ascending, few, fits) =
    rw
      (
        read_cells-append (read_leaf_cell id) leaf_cell_bytes IsLeafEntry (read_leaf_cell-append id)
            entries rest fits,
        ascending,
      )
      refl
decode_as-body id (branch_node first_child entries) rest (ascending, few, fits, first) =
    rw
      (
        append_assoc (le_bytes 8 first_child) (cells_bytes branch_cell_bytes entries) rest,
        read_number-append 8 first_child (cells_bytes branch_cell_bytes entries ++ rest)
            (omega arith),
        read_cells-append (read_branch_cell id) branch_cell_bytes IsBranchEntry
            (read_branch_cell-append id) entries rest fits,
        ascending,
      )
      refl

slice-header :
    (off n : ℕ) (page rest : Buf)
    → off + n ≤ page_header_len
    → page_header_len ≤ length page
    → slice off n (take page_header_len page ++ rest) ≡ slice off n page
slice-header off n page rest h k =
    let long = length-take page_header_len page k in
    slice-append off n (take page_header_len page) rest (omega arith)
    ∙ sym (slice-append off n (take page_header_len page) (drop page_header_len page) (omega arith))
    ∙ ap (λ t. slice off n t) (take-append-drop page_header_len page)

length-leaf_cell_bytes :
    (e : List ℕ × ValueRef) → length (leaf_cell_bytes e) ≡ leaf_cell_size e.0 e.1
unfolding leaf_cell_bytes leaf_cell_size
length-leaf_cell_bytes (key, inline v) = omega (
  arith,
  length-append (key_bytes key vflag_inline ++ le_bytes 4 (length v)) v,
  length-append (key_bytes key vflag_inline) (le_bytes 4 (length v)),
  length-key_bytes key vflag_inline,
  length-le_bytes 4 (length v),
)
length-leaf_cell_bytes (key, overflowed head len) = omega (
  arith,
  length-append (key_bytes key vflag_overflow ++ le_bytes 8 head) (le_bytes 8 len),
  length-append (key_bytes key vflag_overflow) (le_bytes 8 head),
  length-key_bytes key vflag_overflow,
  length-le_bytes 8 head,
  length-le_bytes 8 len,
)

length-branch_cell_bytes :
    (e : List ℕ × PageId) → length (branch_cell_bytes e) ≡ branch_cell_size e.0
unfolding branch_cell_bytes branch_cell_size
length-branch_cell_bytes (key, child) = omega (
  arith,
  length-append (key_bytes key 0) (le_bytes 8 child),
  length-key_bytes key 0,
  length-le_bytes 8 child,
)

length-leaf_cells :
    (entries : List (List ℕ × ValueRef))
    → length (cells_bytes leaf_cell_bytes entries) ≡ leaf_cells_size entries
unfolding cells_bytes leaf_cells_size
length-leaf_cells [] = refl
length-leaf_cells ((k, v) ∷ entries) = omega (
  arith,
  length-append (leaf_cell_bytes (k, v)) (cells_bytes leaf_cell_bytes entries),
  length-leaf_cell_bytes (k, v),
  length-leaf_cells entries,
)

length-branch_cells :
    (entries : List (List ℕ × PageId))
    → length (cells_bytes branch_cell_bytes entries) ≡ branch_cells_size entries
unfolding cells_bytes branch_cells_size
length-branch_cells [] = refl
length-branch_cells ((k, c) ∷ entries) = omega (
  arith,
  length-append (branch_cell_bytes (k, c)) (cells_bytes branch_cell_bytes entries),
  length-branch_cell_bytes (k, c),
  length-branch_cells entries,
)

length-body_bytes : (node : Node) → page_header_len + length (body_bytes node) ≡ encoded_size node
unfolding body_bytes encoded_size
length-body_bytes (leaf_node entries) = omega (arith, length-leaf_cells entries)
length-body_bytes (branch_node first_child entries) = omega (
  arith,
  length-append (le_bytes 8 first_child) (cells_bytes branch_cell_bytes entries),
  length-le_bytes 8 first_child,
  length-branch_cells entries,
)

page_type-header :
    (node : Node) (buf rest : Buf)
    → page_header_len ≤ length buf
    → page_type (take page_header_len (header node buf) ++ rest) ≡ ok (node_type node)
unfolding page_type u8_at
page_type-header node buf rest h =
    let page = init_header (node_type node) buf in
    let same = length-put_u16 6 (count_of node) page ∙ length-init_header (node_type node) buf in
    rw
      (
        slice-header 4 1 (header node buf) rest (omega arith) (omega (arith, same)),
        slice-put_u16 4 1 6 (count_of node) page (inl (omega arith)),
      )
      (unfold page_type u8_at in page_type-init_header (node_type node) buf h)

count-header :
    (node : Node) (buf rest : Buf)
    → page_header_len ≤ length buf
    → count_of node < 2 ^ 16
    → u16_at 6 (take page_header_len (header node buf) ++ rest) ≡ count_of node
count-header node buf rest h k =
    let page = init_header (node_type node) buf in
    let same = length-init_header (node_type node) buf in
    let same' = length-put_u16 6 (count_of node) page in
    u16_at-slice 6 (take page_header_len (header node buf) ++ rest) (header node buf)
      (slice-header 6 2 (header node buf) rest (omega arith) (omega (arith, same, same')))
    ∙ u16_at-put_u16 6 (count_of node) page k (omega (arith, same))

IsNode-count : (node : Node) → IsNode node → count_of node < 2 ^ 16
unfolding count_of
IsNode-count (leaf_node entries) h = h.1
IsNode-count (branch_node first_child entries) h = h.1

-- A node with ascending keys and numbers that fit is read back from the page that it is written to,
-- whatever the page held, if the page has room for it; and it takes as many bytes as it says.
pub decode-encode_into :
    (node : Node) (buf : Buf) (id : PageId)
    → IsNode node
    → encoded_size node ≤ length buf
    → (decode_node (encode_into node buf).1 id ≡ ok node)
      × ((encode_into node buf).0 ≡ encoded_size node)
unfolding decode_node
decode-encode_into node buf id h room =
    let size = length-body_bytes node in
    let page = header node buf in
    let rest = zeroes (length page - (page_header_len + length (body_bytes node))) in
    let long =
      length-put_u16 6 (count_of node) (init_header (node_type node) buf)
      ∙ length-init_header (node_type node) buf in
    let front = length-take page_header_len page (omega (arith, long, size, room)) in
    rw
      (
        encode_into-bytes node buf (omega arith),
        append_assoc (take page_header_len page) (body_bytes node) rest,
        page_type-header node buf (body_bytes node ++ rest) (omega arith),
        count-header node buf (body_bytes node ++ rest) (omega arith) (IsNode-count node h),
        drop-append_at page_header_len (take page_header_len page) (body_bytes node ++ rest) front,
      )
      (decode_as-body id node rest h, size)

-- The type of the page of a node.
pub page_type-encode_into :
    (node : Node) (buf : Buf)
    → encoded_size node ≤ length buf
    → page_type (encode_into node buf).1 ≡ ok (node_type node)
page_type-encode_into node buf room =
    let size = length-body_bytes node in
    let page = header node buf in
    let rest = zeroes (length page - (page_header_len + length (body_bytes node))) in
    rw
      (
        encode_into-bytes node buf (omega arith),
        append_assoc (take page_header_len page) (body_bytes node) rest,
      )
      (page_type-header node buf (body_bytes node ++ rest) (omega arith))
