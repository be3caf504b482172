-- ===== src/Core/Pager/Settle.antt =====
-- `settle_freelist` of crates/quantydb-core/src/pager.rs: the free list goes to pages.
pub mod Slot
pub mod Total
use quanty_database.Prelude.{
  ℕ, zero, suc, ◌+◌, ◌-◌, ◌≤◌, ◌≡◌, refl, ap, Bool, true, false, not, ◌&&◌, ◌||◌, Option, none,
  some, List, [], ◌∷◌, ◌++◌, arith, leb, ◌==◌, if◌then◌else◌, length, take, drop, pop, pop_behind,
}
use quanty_database.Prelude.Assoc.{get, insert}
use quanty_database.Prelude.Result.{Result, ok, err}
use quanty_database.Core.Error.{Error}
use quanty_database.Core.Page.{PageId, Buf, nil_page, free_list, init_header, zeroes}
use quanty_database.Core.FreeList.{encode_page, ids_per_page}
use quanty_database.Core.Commit.{ReadPages}
use quanty_database.Core.Pager.{Batch, Scalars, record_page, allocate, page_mut, is_nil}

-- `HashSet::contains`
unfoldable pub contains : PageId → List PageId → Bool
contains id [] = false
contains id (x ∷ xs) = (x == id) || contains id xs

unfoldable pub is_dirty : PageId → List (PageId × Buf) → Bool
is_dirty id dirty = elim (get id dirty) [ none ↦ false | some buf ↦ true ]

-- `list.retain(|id| !self.dirty.contains_key(id))`
unfoldable pub retain_clean : List (PageId × Buf) → List PageId → List PageId
retain_clean dirty [] = []
retain_clean dirty (id ∷ ids) =
    let rest = retain_clean dirty ids in if is_dirty id dirty then rest else id ∷ rest

-- The last of the ids takes the place that another leaves.
unfoldable pub filled_by : Option (PageId × List PageId) → List PageId
filled_by none = []
filled_by (some (last, rest)) = last ∷ rest

-- `swap_remove` at the first writable id: that id, and what is left.
unfoldable pub swap_remove : List PageId → List PageId → Option (PageId × List PageId)
swap_remove writable [] = none
swap_remove writable (id ∷ ids) =
    if contains id writable
    then some (id, filled_by (pop ids))
    else elim (swap_remove writable ids) [
      | none ↦ none
      | some (found, rest) ↦ some (found, id ∷ rest)
    ]

-- An empty page of the list in a page that the batch may write already.
unfoldable pub reuse_page : PageId → Batch → Batch
reuse_page id b =
    let b' = record_page id b in
    record b' { dirty = insert id (init_header free_list (zeroes b.base.page_size)) b'.dirty }

-- The next page of the chain, and the ids that are then left.
unfoldable pub chain_slot :
    ReadPages → Option (PageId × List PageId) → List PageId → Batch → PageId × List PageId × Batch
chain_slot src (some (id, rest)) remaining b = (id, rest, reuse_page id b)
chain_slot src none remaining b = let (id, b') = allocate src free_list b in (id, remaining, b')

abbrev pub smaller : ℕ → ℕ → ℕ
smaller a b = if leb a b then a else b

-- The page is written, and the loop goes on.
unfoldable pub settle_next :
    (Batch → Option (Result Error PageId × Batch))
    → Result Error (Unit {0}) × Batch
    → Option (Result Error PageId × Batch)
settle_next again (err e, b) = some (err e, b)
settle_next again (ok u, b) = again b

-- The last ids that fit go to the page, with the head so far as its link.
unfoldable pub settle_page :
    (PageId → List PageId → Batch → Option (Result Error PageId × Batch))
    → PageId
    → PageId × List PageId × Batch
    → Option (Result Error PageId × Batch)
settle_page again head (page_id, left, b) =
    let kept = length left - smaller (length left) (ids_per_page b.base.page_size) in
    settle_next (again page_id (take kept left))
      (page_mut page_id (encode_page head (drop kept left)) b)

-- The loop over what remains; `none` is that the rounds ran out.
unfoldable pub settle_loop :
    ℕ
    → ReadPages
    → List PageId
    → PageId
    → List PageId
    → Batch
    → Option (Result Error PageId × Batch)
settle_loop rounds src writable head [] b = some (ok head, b)
settle_loop zero src writable head (r ∷ remaining) b = none
settle_loop (suc rounds) src writable head (r ∷ remaining) b =
    settle_page (settle_loop rounds src writable) head
      (chain_slot src (swap_remove writable (r ∷ remaining)) (r ∷ remaining) b)

unfoldable pub with_head :
    Option (Result Error PageId × Batch) → Option (Result Error (Unit {0}) × Batch)
with_head none = none
with_head (some (err e, b)) = some (err e, b)
with_head (some (ok head, b)) =
    some (ok tt, record b { now = record (b.now) { freelist_root = head } })

-- What is listed, and the page that the chain goes on with.
unfoldable pub to_settle : Option (List PageId) → List PageId → Batch → List PageId × PageId
to_settle (some swept) writable b = (retain_clean b.dirty swept, nil_page)
to_settle none writable b = (writable ++ b.now.deferred_free, b.now.chain_cursor)

-- From here on, allocation extends the file.
unfoldable pub settling : Batch → Batch
settling b = record b {
  now = record (b.now) {
    reuse_pool = [];
    deferred_free = [];
    chain_cursor = nil_page;
    allow_reuse = false;
    freelist_override = none;
  };
}

abbrev pub is_none : Option (List PageId) → Bool
is_none none = true
is_none (some ids) = false

unfoldable pub settle_freelist : ReadPages → Batch → Option (Result Error (Unit {0}) × Batch)
settle_freelist src b =
    if not b.now.touched_freelist && is_nil b.now.deferred_free && is_none b.now.freelist_override
    then some (ok tt, b)
    else let writable = b.now.reuse_pool in
      let (remaining, tail) = to_settle b.now.freelist_override writable b in
      with_head (settle_loop (length remaining) src writable tail remaining (settling b))
