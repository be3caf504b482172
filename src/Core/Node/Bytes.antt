-- ===== src/Core/Node/Bytes.antt =====
-- For `encode_into` of crates/quantydb-core/src/node.rs: the bytes of the cells, and that the writers
-- append them.
use quanty_database.Prelude.{
  ℕ, zero, suc, ◌+◌, ◌-◌, ◌≤◌, ◌≡◌, refl, sym, ap, ◌∙◌, List, [], ◌∷◌, ◌++◌, arith, append_assoc,
  append-nil, length, take, length-append,
}
use quanty_database.Prelude.Bytes.{le_bytes, length-le_bytes}
use quanty_database.Prelude.Buffer.{write_at, length-write_at}
use quanty_database.Core.Page.{
  PageId, Buf, PageType, leaf, branch, page_header_len, put_u16, init_header, zeroes,
  length-put_u16, length-init_header,
}
use quanty_database.Core.Node.{ValueRef, inline, overflowed, Node, leaf_node, branch_node}
use quanty_database.Core.Node.Codec.{
  write_key, write_u64, write_inline, write_leaf_cell, write_branch_cell, write_cells, fill_tail,
  encode_into, vflag_inline, vflag_overflow,
}

unfoldable pub key_bytes : List ℕ → ℕ → List ℕ
key_bytes key flag = le_bytes 2 (length key) ++ flag ∷ key

unfoldable pub leaf_cell_bytes : List ℕ × ValueRef → List ℕ
leaf_cell_bytes (key, inline v) = key_bytes key vflag_inline ++ le_bytes 4 (length v) ++ v
leaf_cell_bytes (key, overflowed head len) =
    key_bytes key vflag_overflow ++ le_bytes 8 head ++ le_bytes 8 len

unfoldable pub branch_cell_bytes : List ℕ × PageId → List ℕ
branch_cell_bytes (key, child) = key_bytes key 0 ++ le_bytes 8 child

module _ {E : Type 0} where
  unfoldable pub cells_bytes : (E → List ℕ) → List E → List ℕ
  cells_bytes cell [] = []
  cells_bytes cell (e ∷ entries) = cell e ++ cells_bytes cell entries

-- A write from one place to another, behind what is there.
pub record Appends (from to : ℕ × Buf) (bytes : List ℕ) : Type 0 where
  pub place : to.0 ≡ from.0 + length bytes
  pub long : length to.1 ≡ length from.1
  pub text : take to.0 to.1 ≡ take from.0 from.1 ++ bytes

take-write_at :
    (at to : ℕ) (bytes buf : List ℕ)
    → to ≡ at + length bytes
    → to ≤ length buf
    → take to (write_at at bytes buf) ≡ take at buf ++ bytes
unfolding write_at
take-write_at zero zero [] buf e h = refl
take-write_at zero zero (x ∷ bytes) buf e h = absurd (omega arith)
take-write_at zero (suc to) [] buf e h = absurd (omega arith)
take-write_at zero (suc to) (x ∷ bytes) [] e h = absurd (omega arith)
take-write_at zero (suc to) (x ∷ bytes) (b ∷ buf) e h =
    ap (λ t. x ∷ t) (take-write_at zero to bytes buf (omega arith) (omega arith))
take-write_at (suc at) zero bytes buf e h = absurd (omega arith)
take-write_at (suc at) (suc to) bytes [] e h = absurd (omega arith)
take-write_at (suc at) (suc to) bytes (b ∷ buf) e h =
    ap (λ t. b ∷ t) (take-write_at at to bytes buf (omega arith) (omega arith))

pub write_at-Appends :
    (at to : ℕ) (bytes buf : List ℕ)
    → to ≡ at + length bytes
    → to ≤ length buf
    → Appends (at, buf) (to, write_at at bytes buf) bytes
write_at-Appends at to bytes buf e h = record {
  place = e;
  long = length-write_at at bytes buf;
  text = take-write_at at to bytes buf e h;
}

pub Appends-trans :
    {from mid to : ℕ × Buf} {xs ys : List ℕ}
    → Appends from mid xs
    → Appends mid to ys
    → Appends from to (xs ++ ys)
Appends-trans {from} {mid} {to} {xs} {ys} h k = record {
  place = omega (arith, h.place, k.place, length-append xs ys);
  long = k.long ∙ h.long;
  text = k.text ∙ ap (λ t. t ++ ys) h.text ∙ append_assoc (take from.0 from.1) xs ys;
}

pub Appends-nil : (to : ℕ × Buf) → Appends to to []
Appends-nil to = record {
  place = omega arith;
  long = refl;
  text = sym (append-nil (take to.0 to.1));
}

-- What a cell needs of the page.
abbrev pub Fits : ℕ × Buf → List ℕ → Type 0
Fits to bytes = to.0 + length bytes ≤ length to.1

pub write_u64-Appends :
    (v : ℕ) (to : ℕ × Buf) → to.0 + 8 ≤ length to.1 → Appends to (write_u64 v to) (le_bytes 8 v)
unfolding write_u64
write_u64-Appends v (at, buf) h =
    write_at-Appends at (at + 8) (le_bytes 8 v) buf (omega (arith, length-le_bytes 8 v)) h

pub length-key_bytes : (key : List ℕ) (flag : ℕ) → length (key_bytes key flag) ≡ 3 + length key
unfolding key_bytes
length-key_bytes key flag =
    omega
      (arith, length-append (le_bytes 2 (length key)) (flag ∷ key), length-le_bytes 2 (length key))

pub write_key-Appends :
    (key : List ℕ) (flag : ℕ) (to : ℕ × Buf)
    → to.0 + (3 + length key) ≤ length to.1
    → Appends to (write_key key flag to) (key_bytes key flag)
unfolding write_key key_bytes
write_key-Appends key flag (at, buf) h =
    let klen = le_bytes 2 (length key) in
    let one = write_at at klen buf in
    let two = write_at (at + 2) (flag ∷ []) one in
    let same = length-write_at at klen buf in
    let same' = length-write_at (at + 2) (flag ∷ []) one in
    rw (sym (append_assoc klen (flag ∷ []) key)) (
      Appends-trans
        (Appends-trans
          (write_at-Appends at (at + 2) klen buf (omega (arith, length-le_bytes 2 (length key)))
            (omega arith))
          (write_at-Appends (at + 2) (at + 3) (flag ∷ []) one (omega arith) (omega (arith, same))))
        (write_at-Appends (at + 3) (at + 3 + length key) key two (omega arith)
          (omega (arith, same, same'))))

write_inline-Appends :
    (v : List ℕ) (to : ℕ × Buf)
    → to.0 + (4 + length v) ≤ length to.1
    → Appends to (write_inline v to) (le_bytes 4 (length v) ++ v)
unfolding write_inline
write_inline-Appends v (at, buf) h =
    let vlen = le_bytes 4 (length v) in
    Appends-trans
      (write_at-Appends at (at + 4) vlen buf (omega (arith, length-le_bytes 4 (length v)))
        (omega arith))
      (write_at-Appends (at + 4) (at + 4 + length v) v (write_at at vlen buf) (omega arith)
        (omega (arith, length-write_at at vlen buf)))

-- Enough place for what is written first, and for what is written behind it.
fits-left :
    (from mid : ℕ × Buf) (xs : List ℕ) (n : ℕ)
    → Appends from mid xs
    → from.0 + (length xs + n) ≤ length from.1
    → mid.0 + n ≤ length mid.1
fits-left from mid xs n a h = omega (arith, a.place, a.long)

write_leaf_cell-Appends :
    (e : List ℕ × ValueRef) (to : ℕ × Buf)
    → Fits to (leaf_cell_bytes e)
    → Appends to (write_leaf_cell e to) (leaf_cell_bytes e)
unfolding write_leaf_cell leaf_cell_bytes
write_leaf_cell-Appends (key, inline v) to h =
    let klen = length-key_bytes key vflag_inline in
    let size : length (key_bytes key vflag_inline ++ le_bytes 4 (length v) ++ v)
        ≡ 3 + length key + (4 + length v) =
      omega (
        arith,
        klen,
        length-append (key_bytes key vflag_inline ++ le_bytes 4 (length v)) v,
        length-append (key_bytes key vflag_inline) (le_bytes 4 (length v)),
        length-le_bytes 4 (length v),
      ) in
    let first = write_key-Appends key vflag_inline to (omega (arith, h, size)) in
    rw (append_assoc (key_bytes key vflag_inline) (le_bytes 4 (length v)) v) (
      Appends-trans first (
        write_inline-Appends v (write_key key vflag_inline to) (
          fits-left to (write_key key vflag_inline to) (key_bytes key vflag_inline) (4 + length v)
            first (omega (arith, h, size, klen)))))
write_leaf_cell-Appends (key, overflowed head len) to h =
    let klen = length-key_bytes key vflag_overflow in
    let size : length (key_bytes key vflag_overflow ++ le_bytes 8 head ++ le_bytes 8 len)
        ≡ 3 + length key + 16 =
      omega (
        arith,
        klen,
        length-append (key_bytes key vflag_overflow ++ le_bytes 8 head) (le_bytes 8 len),
        length-append (key_bytes key vflag_overflow) (le_bytes 8 head),
        length-le_bytes 8 head,
        length-le_bytes 8 len,
      ) in
    let first = write_key-Appends key vflag_overflow to (omega (arith, h, size)) in
    let room =
      fits-left to (write_key key vflag_overflow to) (key_bytes key vflag_overflow) 16 first
        (omega (arith, h, size, klen)) in
    let second = write_u64-Appends head (write_key key vflag_overflow to) (omega (arith, room)) in
    Appends-trans (Appends-trans first second) (
      write_u64-Appends len (write_u64 head (write_key key vflag_overflow to)) (
        fits-left (write_key key vflag_overflow to)
          (write_u64 head (write_key key vflag_overflow to)) (le_bytes 8 head) 8 second
          (omega (arith, room, length-le_bytes 8 head))))

write_branch_cell-Appends :
    (e : List ℕ × PageId) (to : ℕ × Buf)
    → Fits to (branch_cell_bytes e)
    → Appends to (write_branch_cell e to) (branch_cell_bytes e)
unfolding write_branch_cell branch_cell_bytes
write_branch_cell-Appends (key, child) to h =
    let klen = length-key_bytes key 0 in
    let size : length (key_bytes key 0 ++ le_bytes 8 child) ≡ 3 + length key + 8 =
      omega (
        arith,
        klen,
        length-append (key_bytes key 0) (le_bytes 8 child),
        length-le_bytes 8 child,
      ) in
    let first = write_key-Appends key 0 to (omega (arith, h, size)) in
    Appends-trans first (
      write_u64-Appends child (write_key key 0 to) (
        fits-left to (write_key key 0 to) (key_bytes key 0) 8 first (omega (arith, h, size, klen))))

module _ {E : Type 0} where
  write_cells-Appends :
      (cell : E → ℕ × Buf → ℕ × Buf) (bytes : E → List ℕ)
      → ((e : E) (to : ℕ × Buf) → Fits to (bytes e) → Appends to (cell e to) (bytes e))
      → (entries : List E) (to : ℕ × Buf) → Fits to (cells_bytes bytes entries)
      → Appends to (write_cells cell entries to) (cells_bytes bytes entries)
  unfolding write_cells cells_bytes
  write_cells-Appends cell bytes step [] to h = Appends-nil to
  write_cells-Appends cell bytes step (e ∷ entries) to h =
      let size = length-append (bytes e) (cells_bytes bytes entries) in
      let first = step e to (omega (arith, h, size)) in
      Appends-trans first (
        write_cells-Appends cell bytes step entries (cell e to) (
          fits-left to (cell e to) (bytes e) (length (cells_bytes bytes entries)) first
            (omega (arith, h, size))))

-- The body of a page, from behind the header.
unfoldable pub body_bytes : Node → List ℕ
body_bytes (leaf_node entries) = cells_bytes leaf_cell_bytes entries
body_bytes (branch_node first_child entries) =
    le_bytes 8 first_child ++ cells_bytes branch_cell_bytes entries

unfoldable pub node_type : Node → PageType
node_type (leaf_node entries) = leaf
node_type (branch_node first_child entries) = branch

unfoldable pub count_of : Node → ℕ
count_of (leaf_node entries) = length entries
count_of (branch_node first_child entries) = length entries

-- The header of the page of a node.
abbrev pub header : Node → Buf → Buf
header node buf = put_u16 6 (count_of node) (init_header (node_type node) buf)

fill_tail-Appends :
    (from to : ℕ × Buf) (bytes : List ℕ)
    → Appends from to bytes
    → fill_tail to ≡ (
      from.0 + length bytes,
      take from.0 from.1 ++ bytes ++ zeroes (length from.1 - (from.0 + length bytes)),
    )
unfolding fill_tail
fill_tail-Appends from (at, buf) bytes a = rw (a.text, a.place, a.long) refl

-- The page of a node is its header, its cells and zeroes.
pub encode_into-bytes :
    (node : Node) (buf : Buf)
    → page_header_len + length (body_bytes node) ≤ length buf
    → encode_into node buf ≡ (
      page_header_len + length (body_bytes node),
      take page_header_len (header node buf)
          ++ body_bytes node
          ++ zeroes (length (header node buf) - (page_header_len + length (body_bytes node))),
    )
unfolding encode_into body_bytes node_type count_of
encode_into-bytes (leaf_node entries) buf h =
    let page = put_u16 6 (length entries) (init_header leaf buf) in
    let same : length page ≡ length buf =
      length-put_u16 6 (length entries) (init_header leaf buf) ∙ length-init_header leaf buf in
    fill_tail-Appends (page_header_len, page)
      (write_cells write_leaf_cell entries (page_header_len, page))
      (cells_bytes leaf_cell_bytes entries)
      (write_cells-Appends write_leaf_cell leaf_cell_bytes write_leaf_cell-Appends entries
        (page_header_len, page) (omega (arith, h, same)))
encode_into-bytes (branch_node first_child entries) buf h =
    let page = put_u16 6 (length entries) (init_header branch buf) in
    let same : length page ≡ length buf =
      length-put_u16 6 (length entries) (init_header branch buf) ∙ length-init_header branch buf in
    let size = length-append (le_bytes 8 first_child) (cells_bytes branch_cell_bytes entries) in
    let eight = length-le_bytes 8 first_child in
    let first =
      write_u64-Appends first_child (page_header_len, page) (omega (arith, h, same, size, eight)) in
    let mid = write_u64 first_child (page_header_len, page) in
    fill_tail-Appends (page_header_len, page) (write_cells write_branch_cell entries mid)
      (le_bytes 8 first_child ++ cells_bytes branch_cell_bytes entries)
      (Appends-trans first (
        write_cells-Appends write_branch_cell branch_cell_bytes write_branch_cell-Appends entries
          mid
          (fits-left (page_header_len, page) mid (le_bytes 8 first_child)
            (length (cells_bytes branch_cell_bytes entries)) first (omega (arith, h, same, size)))))
