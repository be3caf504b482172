-- ===== src/Core/Tree.antt =====
-- `get` and `read_value` of crates/quantydb-core/src/btree.rs: reading the tree.
pub mod Shape
pub mod Get
mod Tests
use quanty_database.Prelude.{
  ℕ, zero, suc, ◌+◌, ◌-◌, ◌*◌, ◌/◌, Bool, true, false, not, ◌||◌, Option, none, some, List, [], ◌∷◌,
  ◌++◌, ltb, ◌==◌, if◌then◌else◌, length,
}
use quanty_database.Prelude.Buffer.{slice}
use quanty_database.Prelude.Result.{Result, ok, err, ◌>>=◌, ◌>>◌, ensure}
use quanty_database.Core.Error.{Error, corrupted}
use quanty_database.Core.Page.{
  PageId, Buf, PageType, meta, branch, leaf, overflow, free_list, blob, commit, nil_page,
  page_header_len, page_type, u16_at, u64_at,
}
use quanty_database.Core.Commit.{ReadPages}
use quanty_database.Core.Node.{ValueRef, inline, overflowed}
use quanty_database.Core.Node.Codec.{decode_node, bad}
use quanty_database.Core.Node.Search.{
  CellValue, inline_at, overflowed_at, find_in_leaf, branch_child,
}

unfoldable pub max_key_len : ℕ → ℕ
max_key_len page_size = page_size / 8

unfoldable pub overflow_capacity : ℕ → ℕ
overflow_capacity page_size = page_size - page_header_len - 8 - 2

pub is_overflow : PageType → Bool
is_overflow overflow = true
is_overflow _ = false

-- One page of a chain: the link, and its part of the value.
unfoldable pub overflow_page : ℕ → PageId → Buf → Result Error (PageId × List ℕ)
unfolding is_overflow
overflow_page chunk page buf = do
  t ← page_type buf
  ensure (is_overflow t) (bad page)
  let used = u16_at (page_header_len + 8) buf
  ensure (not (ltb chunk used)) (bad page)
  ok (u64_at page_header_len buf, slice (page_header_len + 10) used buf)

-- The loop over the pages of a chain: what was read, and the page it stopped at.
unfoldable pub chain_loop : ℕ → ℕ → ReadPages → PageId → List ℕ → Result Error (List ℕ × PageId)
chain_loop zero chunk src page out = ok (out, page)
chain_loop (suc rounds) chunk src page out =
    let following = (do
      buf ← src page
      (next, part) ← overflow_page chunk page buf
      chain_loop rounds chunk src next (out ++ part)) in
    if page == nil_page then ok (out, page) else following

-- `(len.div_ceil(chunk)).max(1)`
unfoldable pub max_pages : ℕ → ℕ → ℕ
max_pages len chunk = let n = (len + chunk - 1) / chunk in if n == 0 then 1 else n

unfoldable pub read_value : ℕ → ReadPages → ValueRef → Result Error (List ℕ)
read_value page_size src (inline v) = ok v
read_value page_size src (overflowed head len) = do
  let chunk = overflow_capacity page_size
  (out, page) ← chain_loop (max_pages len chunk) chunk src head []
  ensure (not (not (length out == len) || not (page == nil_page))) (bad head)
  ok out

-- What the search in a leaf answers, with its value read.
unfoldable pub value_found :
    ℕ → ReadPages → Buf → Result Error (Option CellValue) → Result Error (Option (List ℕ))
value_found page_size src buf (err e) = err e
value_found page_size src buf (ok none) = ok none
value_found page_size src buf (ok (some (inline_at start stop))) =
    ok (some (slice start (stop - start) buf))
value_found page_size src buf (ok (some (overflowed_at head len))) = do
  v ← read_value page_size src (overflowed head len)
  ok (some v)

unfoldable pub descend :
    (PageId → Option (Result Error (Option (List ℕ))))
    → Result Error PageId
    → Option (Result Error (Option (List ℕ)))
descend again (err e) = some (err e)
descend again (ok child) = again child

unfoldable pub get_in :
    (PageId → Option (Result Error (Option (List ℕ))))
    → ℕ
    → ReadPages
    → List ℕ
    → PageId
    → Buf
    → Result Error PageType
    → Option (Result Error (Option (List ℕ)))
get_in again page_size src key page buf (err e) = some (err e)
get_in again page_size src key page buf (ok branch) = descend again (branch_child buf page key)
get_in again page_size src key page buf (ok leaf) =
    some (value_found page_size src buf (find_in_leaf buf page key))
get_in again page_size src key page buf (ok _) = some (decode_node buf page >>= λ node. ok none)

unfoldable pub get_on :
    (PageId → Option (Result Error (Option (List ℕ))))
    → ℕ
    → ReadPages
    → List ℕ
    → PageId
    → Result Error Buf
    → Option (Result Error (Option (List ℕ)))
get_on again page_size src key page (err e) = some (err e)
get_on again page_size src key page (ok buf) =
    get_in again page_size src key page buf (page_type buf)

-- The descent with the rounds that are left; `none` is that they ran out. The loop of the source has no
-- bound.
unfoldable pub get_loop :
    ℕ → ℕ → ReadPages → List ℕ → PageId → Option (Result Error (Option (List ℕ)))
get_loop zero page_size src key page = none
get_loop (suc rounds) page_size src key page =
    get_on (get_loop rounds page_size src key) page_size src key page (src page)

unfoldable pub get : ℕ → ℕ → ReadPages → PageId → List ℕ → Option (Result Error (Option (List ℕ)))
get rounds page_size src root key =
    if root == nil_page || ltb (max_key_len page_size) (length key)
    then some (ok none)
    else get_loop rounds page_size src key root
