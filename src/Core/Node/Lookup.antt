-- ===== src/Core/Node/Lookup.antt =====
-- For `find_in_leaf` of crates/quantydb-core/src/node.rs: the search in a leaf, and the lookup in the
-- entries of the decoded node.
use quanty_database.Prelude.{
  ℕ, zero, suc, ◌≡◌, refl, sym, ap, inl, inr, Bool, true, false, Bool-cases, Option, none, some,
  List, [], ◌∷◌, arith, drop, if◌then◌else◌, Ordering,
}
use Prim.Native.Nat.{lt, eq, gt}
use quanty_database.Prelude.Bytes.{
  bytes_cmp, bytes_eq, bytes_eq_refl, bytes_cmp_refl, eq_of_bytes_cmp, eq_of_bytes_eq,
}
use quanty_database.Prelude.Result.{Result, ok, err, ◌>>◌, ensure, ok_or, ok-injective, >>=-eq-ok}
use quanty_database.Core.Error.{Error}
use quanty_database.Core.Page.{
  PageId, Buf, PageType, leaf, branch, meta, overflow, free_list, blob, commit, page_type, u16_at,
  page_header_len,
}
use quanty_database.Core.Node.{ValueRef, Node, leaf_node, branch_node}
use quanty_database.Core.Node.Codec.{
  read_leaf_cell, read_branch_cell, read_u64, read_cells, bytes_lt, is_ascending, bad, decode_node,
  decode_as, decode_leaf, decode_branch,
}
use quanty_database.Core.Node.Search.{
  CellValue, Cell, leaf_cell_at, key_of, found_or, find_loop, find_in_leaf,
}
use quanty_database.Core.Node.InPlace.{value_in, SameCell, leaf_cell_at-SameCell}

-- The value of the first entry with a key.
unfoldable pub lookup {ℓ} : {V : Type ℓ} → List ℕ → List (List ℕ × V) → Option V
lookup key [] = none
lookup key ((k, v) ∷ entries) =
    let rest = lookup key entries in if bytes_eq k key then some v else rest

-- The order of byte strings.
pub bytes_lt_trans :
    (a b c : List ℕ) → bytes_lt a b ≡ true → bytes_lt b c ≡ true → bytes_lt a c ≡ true
unfolding bytes_lt bytes_cmp
bytes_lt_trans [] [] c h k = absurd (cc h)
bytes_lt_trans [] (y ∷ b) [] h k = absurd (cc k)
bytes_lt_trans [] (y ∷ b) (z ∷ c) h k = refl
bytes_lt_trans (x ∷ a) [] c h k = absurd (cc h)
bytes_lt_trans (x ∷ a) (y ∷ b) [] h k = absurd (cc k)
bytes_lt_trans (x ∷ a) (y ∷ b) (z ∷ c) h k = let ih = bytes_lt_trans a b c in ground arith

pub bytes_lt-gt : (a b : List ℕ) → bytes_cmp a b ≡ gt → bytes_lt b a ≡ true
unfolding bytes_lt bytes_cmp
bytes_lt-gt [] [] h = absurd (cc h)
bytes_lt-gt [] (y ∷ b) h = absurd (cc h)
bytes_lt-gt (x ∷ a) [] h = refl
bytes_lt-gt (x ∷ a) (y ∷ b) h = let ih = bytes_lt-gt a b in ground arith

bytes_lt-ne : (a b : List ℕ) → bytes_lt a b ≡ true → bytes_eq b a ≡ false
unfolding bytes_lt
bytes_lt-ne a b h = elim (Bool-cases (bytes_eq b a)) [
  | inl e ↦
      (let same = eq_of_bytes_eq b a e in
        let tie : bytes_cmp a b ≡ eq = rw same (bytes_cmp_refl a) in absurd (cc (rw tie at h)))
  | inr e ↦ e
]

lt-ne : (a b : List ℕ) → bytes_cmp a b ≡ lt → bytes_eq a b ≡ false
lt-ne a b h = elim (Bool-cases (bytes_eq a b)) [
  | inl e ↦
      (let same = eq_of_bytes_eq a b e in
        let tie : bytes_cmp a b ≡ eq = rw same (bytes_cmp_refl b) in absurd (cc (h, tie)))
  | inr e ↦ e
]

module _ {V : Type 0} where
  pub tail-is_ascending :
      (k : List ℕ) (v : V) (entries : List (List ℕ × V))
      → is_ascending ((k, v) ∷ entries) ≡ true
      → is_ascending entries ≡ true
  unfolding is_ascending
  tail-is_ascending k v [] h = refl
  tail-is_ascending k v ((l, w) ∷ entries) h = ground arith

  pub head-is_ascending :
      (k l : List ℕ) (v w : V) (entries : List (List ℕ × V))
      → is_ascending ((k, v) ∷ (l, w) ∷ entries) ≡ true
      → bytes_lt k l ≡ true
  unfolding is_ascending
  head-is_ascending k l v w entries h = ground arith

  -- A key below the first is not there.
  pub lookup_below :
      (key k : List ℕ) (v : V) (entries : List (List ℕ × V))
      → is_ascending ((k, v) ∷ entries) ≡ true
      → bytes_lt key k ≡ true
      → lookup key ((k, v) ∷ entries) ≡ none
  unfolding lookup
  lookup_below key k v [] h e = rw (bytes_lt-ne key k e) refl
  lookup_below key k v ((l, w) ∷ entries) h e = rw (bytes_lt-ne key k e) (
      lookup_below key l w entries (tail-is_ascending k v ((l, w) ∷ entries) h)
        (bytes_lt_trans key k l e (head-is_ascending k l v w entries h)))

unfoldable leaf_entries : Node → List (List ℕ × ValueRef)
leaf_entries (leaf_node entries) = entries
leaf_entries (branch_node first_child entries) = []

-- The answer with the bytes of the value.
unfoldable pub answered : Buf → Result Error (Option CellValue) → Result Error (Option ValueRef)
answered buf (err e) = err e
answered buf (ok none) = ok none
answered buf (ok (some value)) = ok (some (value_in buf value))

-- The cell that is read in place, where one is decoded.
same-ok :
    (buf : Buf) (id : PageId) (entry : List ℕ × ValueRef) (rest : Buf) (r : Result Error Cell)
    → SameCell buf id (ok (entry, rest)) r
    → (c : Cell) × (r ≡ ok c)
      × (key_of buf c ≡ entry.0)
      × (value_in buf c.value ≡ entry.1)
      × (drop c.following buf ≡ rest)
unfolding SameCell
same-ok buf id entry rest (ok c) (a, b, d) = (c, refl, a, b, d)
same-ok buf id entry rest (err e) h = absurd h

-- One round of the search.
found_or-lookup :
    (buf : Buf) (key k : List ℕ) (v : ValueRef) (value : CellValue)
    (entries : List (List ℕ × ValueRef)) (behind : Result Error (Option CellValue)) (o : Ordering)
    → bytes_cmp k key ≡ o
    → is_ascending ((k, v) ∷ entries) ≡ true
    → value_in buf value ≡ v
    → answered buf behind ≡ ok (lookup key entries)
    → answered buf (found_or o value behind) ≡ ok (lookup key ((k, v) ∷ entries))
unfolding found_or answered
found_or-lookup buf key k v value entries behind lt e ascending same ih =
    unfold lookup in rw (lt-ne k key e) ih
found_or-lookup buf key k v value entries behind eq e ascending same ih =
    let here = eq_of_bytes_cmp k key e in unfold lookup in rw (here, bytes_eq_refl key, same) refl
found_or-lookup buf key k v value entries behind gt e ascending same ih =
    rw (lookup_below key k v entries ascending (bytes_lt-gt k key e)) refl

find_loop-lookup :
    (n at : ℕ) (buf : Buf) (id : PageId) (key : List ℕ) (entries : List (List ℕ × ValueRef))
    → read_cells (read_leaf_cell id) n (drop at buf) ≡ ok entries
    → is_ascending entries ≡ true
    → answered buf (find_loop n at buf id key) ≡ ok (lookup key entries)
unfolding find_loop read_cells
find_loop-lookup zero at buf id key entries h ascending =
    rw (sym (ok-injective [] entries h)) (unfold answered lookup in refl)
find_loop-lookup (suc n) at buf id key entries h ascending =
    let (cell, read, h') = >>=-eq-ok (read_leaf_cell id (drop at buf)) _ h in
    let (behind, read', made) = >>=-eq-ok (read_cells (read_leaf_cell id) n cell.1) _ h' in
    let (c, in_place, key_is, value_is, next_is) =
      same-ok buf id cell.0 cell.1 (leaf_cell_at buf at id)
        (rw read at (leaf_cell_at-SameCell buf id at)) in
    let made_is = ok-injective (cell.0 ∷ behind) entries made in
    let ascending' : is_ascending (cell.0 ∷ behind) ≡ true = rw made_is ascending in
    let ih =
      find_loop-lookup n c.following buf id key behind (rw next_is read')
        (tail-is_ascending cell.0.0 cell.0.1 behind ascending') in
    rw (in_place, sym made_is)
      (found_or-lookup buf key cell.0.0 cell.0.1 c.value behind (find_loop n c.following buf id key)
        (bytes_cmp (key_of buf c) key) (rw key_is refl) ascending' value_is ih)

pub ensure-ok :
    {A : Type 0} (t : Bool) (e : Error) (r : Result Error A) (a : A)
    → (ensure t e >> r) ≡ ok a
    → (t ≡ true) × (r ≡ ok a)
ensure-ok true e r a h = (refl, h)
ensure-ok false e r a h = absurd (cc h)

-- What a page that is decoded as a leaf holds.
pub decode_leaf-ok :
    (id : PageId) (count : ℕ) (body : Buf) (entries : List (List ℕ × ValueRef))
    → decode_leaf id count body ≡ ok (leaf_node entries)
    → (read_cells (read_leaf_cell id) count body ≡ ok entries) × (is_ascending entries ≡ true)
unfolding decode_leaf leaf_entries
decode_leaf-ok id count body entries h =
    let (read, all, h') = >>=-eq-ok (read_cells (read_leaf_cell id) count body) _ h in
    let (ascending, made) =
      ensure-ok (is_ascending read) (bad id) (ok (leaf_node read)) (leaf_node entries) h' in
    let same : read ≡ entries =
      ap leaf_entries (ok-injective (leaf_node read) (leaf_node entries) made) in
    rw (sym same) (all, ascending)

decode_branch-leaf :
    (id : PageId) (count : ℕ) (body : Buf) (entries : List (List ℕ × ValueRef))
    → ¬ (decode_branch id count body ≡ ok (leaf_node entries))
unfolding decode_branch
decode_branch-leaf id count body entries h =
    let (first, one, h') = >>=-eq-ok (ok_or (read_u64 body) (bad id)) _ h in
    let (read, all, h'') = >>=-eq-ok (read_cells (read_branch_cell id) count first.1) _ h' in
    let (ascending, made) =
      ensure-ok (is_ascending read) (bad id) (ok (branch_node first.0 read)) (leaf_node entries)
        h'' in
    cc made

decode_as-leaf :
    (id : PageId) (count : ℕ) (body : Buf) (t : PageType) (entries : List (List ℕ × ValueRef))
    → decode_as id count body t ≡ ok (leaf_node entries)
    → decode_leaf id count body ≡ ok (leaf_node entries)
unfolding decode_as
decode_as-leaf id count body leaf entries h = h
decode_as-leaf id count body branch entries h = absurd (decode_branch-leaf id count body entries h)
decode_as-leaf id count body meta entries h = absurd (cc h)
decode_as-leaf id count body overflow entries h = absurd (cc h)
decode_as-leaf id count body free_list entries h = absurd (cc h)
decode_as-leaf id count body blob entries h = absurd (cc h)
decode_as-leaf id count body commit entries h = absurd (cc h)

-- On a page that is decoded as a leaf, the search in place answers what the lookup in the decoded
-- entries gives: the value of the key, or that there is none, and no error.
pub find_in_leaf-lookup :
    (buf : Buf) (id : PageId) (key : List ℕ) (entries : List (List ℕ × ValueRef))
    → decode_node buf id ≡ ok (leaf_node entries)
    → answered buf (find_in_leaf buf id key) ≡ ok (lookup key entries)
unfolding find_in_leaf decode_node
find_in_leaf-lookup buf id key entries h =
    let (t, type_is, h') = >>=-eq-ok (page_type buf) _ h in
    let count = u16_at 6 buf in
    let body = drop page_header_len buf in
    let (all, ascending) =
      decode_leaf-ok id count body entries (decode_as-leaf id count body t entries h') in
    find_loop-lookup count page_header_len buf id key entries all ascending
