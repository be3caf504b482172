-- ===== src/Core/Pager/Settle/Slot.antt =====
-- For `settle_freelist` of crates/quantydb-core/src/pager.rs: a page of the chain, made and written.
use quanty_database.Prelude.{
  ℕ, suc, ◌+◌, ◌≤◌, ◌≡◌, refl, sym, ap, ◌∙◌, inl, inr, true, false, Bool-cases, Option, none, some,
  List, [], ◌∷◌, arith, ◌==◌, length, pop, pop_behind, All,
}
use quanty_database.Prelude.Assoc.{get, get-insert, All-insert, Increasing, insert-Increasing}
use quanty_database.Prelude.Result.{ok}
use quanty_database.Core.Page.{
  PageId, Buf, nil_page, free_list, init_header, zeroes, length-init_header,
}
use quanty_database.Core.Meta.{Meta}
use quanty_database.Core.Meta.RoundTrip.{length-zeroes}
use quanty_database.Core.Commit.{ReadPages}
use quanty_database.Core.Pager.{
  Batch, Scalars, record_page, allocate, page_mut, take_page_id, refill, extend_file, write_through,
}
use quanty_database.Core.Pager.Crash.Pages.{IsPage}
use quanty_database.Core.Pager.Settle.{contains, swap_remove, filled_by, reuse_page, chain_slot}

-- What holds of a batch while its free list is settled.
pub record IsSettling (base : Meta) (b : Batch) : Type 0 where
  pub same_base : b.base ≡ base
  pub pages : All (IsPage base.page_size) b.dirty
  pub increasing : Increasing b.dirty
  pub past : 2 ≤ b.now.next_page
  pub empty_pool : b.now.reuse_pool ≡ []
  pub no_chain : b.now.chain_cursor ≡ nil_page
  pub no_reuse : b.now.allow_reuse ≡ false

length-pop_behind :
    (x : PageId) (o : Option (PageId × List PageId))
    → length (filled_by (pop_behind x o)) ≡ suc (length (filled_by o))
unfolding filled_by
length-pop_behind x none = refl
length-pop_behind x (some (last, rest)) = refl

length-filled_by : (ids : List PageId) → length (filled_by (pop ids)) ≡ length ids
unfolding filled_by
length-filled_by [] = refl
length-filled_by (x ∷ ids) = length-pop_behind x (pop ids) ∙ ap suc (length-filled_by ids)

contains-All :
    (P : PageId → Type 0) (id : PageId) (ids : List PageId)
    → All P ids
    → contains id ids ≡ true
    → P id
unfolding contains
contains-All P id [] h e = absurd (cc e)
contains-All P id (x ∷ ids) (h, hs) e = elim (Bool-cases (x == id)) [
  | inl t ↦ (let same : x ≡ id = ground arith in rw (sym same) h)
  | inr t ↦ contains-All P id ids hs (rw t at e)
]

-- A page that is taken out of the list is a writable one, and the list gets shorter.
unfoldable pub SwapRemoved : (PageId → Type 0) → ℕ → Option (PageId × List PageId) → Type 0
SwapRemoved P n none = Unit
SwapRemoved P n (some (id, rest)) = P id × (suc (length rest) ≡ n)

swap_remove-behind :
    (P : PageId → Type 0) (n : ℕ) (x : PageId) (o : Option (PageId × List PageId))
    → SwapRemoved P n o
    → SwapRemoved P (suc n) (elim o [ none ↦ none | some (found, rest) ↦ some (found, x ∷ rest) ])
unfolding SwapRemoved
swap_remove-behind P n x none h = tt
swap_remove-behind P n x (some (found, rest)) (h, e) = (h, ap suc e)

pub swap_remove-SwapRemoved :
    (P : PageId → Type 0) (writable ids : List PageId)
    → All P writable
    → SwapRemoved P (length ids) (swap_remove writable ids)
unfolding swap_remove SwapRemoved
swap_remove-SwapRemoved P writable [] h = tt
swap_remove-SwapRemoved P writable (id ∷ ids) h = elim (Bool-cases (contains id writable)) [
  | inl e ↦ rw e (contains-All P id writable h e, ap suc (length-filled_by ids))
  | inr e ↦ rw e (
      swap_remove-behind P (length ids) id (swap_remove writable ids)
        (swap_remove-SwapRemoved P writable ids h))
]

-- While the list is settled, allocation extends the file.
take_page_id-settling :
    (src : ReadPages) (s : Scalars)
    → s.reuse_pool ≡ []
    → s.chain_cursor ≡ nil_page
    → s.allow_reuse ≡ false
    → take_page_id src s ≡ (s.next_page, record s { next_page = s.next_page + 1 })
unfolding take_page_id refill extend_file
take_page_id-settling src s e f g = rw (e, f, g) refl

empty-IsPage :
    (base : Meta) (id : PageId)
    → 2 ≤ id
    → IsPage base.page_size (id, init_header free_list (zeroes base.page_size))
unfolding IsPage
empty-IsPage base id h =
    (h, length-init_header free_list (zeroes base.page_size) ∙ length-zeroes base.page_size)

-- A batch that has a page, with its invariant.
pub record HasPage (base : Meta) (id : PageId) (b : Batch) : Type 0 where
  pub is_settling : IsSettling base b
  pub buf : Buf
  pub has : get id b.dirty ≡ some buf
  pub low : 2 ≤ id
  pub long : length buf ≡ base.page_size

reuse_page-HasPage :
    (base : Meta) (id : PageId) (b : Batch)
    → 2 ≤ id
    → IsSettling base b
    → HasPage base id (reuse_page id b)
unfolding reuse_page record_page IsPage
reuse_page-HasPage base id b low h =
    let empty = init_header free_list (zeroes b.base.page_size) in
    let long : length empty ≡ base.page_size =
      length-init_header free_list (zeroes b.base.page_size)
      ∙ length-zeroes b.base.page_size
      ∙ ap (λ m. m.page_size) h.same_base in
    record {
      is_settling = record {
        same_base = h.same_base;
        pages = All-insert (IsPage base.page_size) id empty b.dirty (low, long) h.pages;
        increasing = insert-Increasing id empty b.dirty h.increasing;
        past = h.past;
        empty_pool = h.empty_pool;
        no_chain = h.no_chain;
        no_reuse = h.no_reuse;
      };
      buf = empty;
      has = get-insert id empty b.dirty;
      low = low;
      long = long;
    }

allocate-HasPage :
    (src : ReadPages) (base : Meta) (b : Batch)
    → IsSettling base b
    → HasPage base (allocate src free_list b).0 (allocate src free_list b).1
unfolding allocate record_page IsPage
allocate-HasPage src base b h =
    let empty = init_header free_list (zeroes b.base.page_size) in
    let long : length empty ≡ base.page_size =
      length-init_header free_list (zeroes b.base.page_size)
      ∙ length-zeroes b.base.page_size
      ∙ ap (λ m. m.page_size) h.same_base in
    let id = b.now.next_page in
    rw (take_page_id-settling src b.now h.empty_pool h.no_chain h.no_reuse) (record {
      is_settling = record {
        same_base = h.same_base;
        pages = All-insert (IsPage base.page_size) id empty b.dirty (h.past, long) h.pages;
        increasing = insert-Increasing id empty b.dirty h.increasing;
        past = omega (arith, h.past);
        empty_pool = h.empty_pool;
        no_chain = h.no_chain;
        no_reuse = h.no_reuse;
      };
      buf = empty;
      has = get-insert id empty b.dirty;
      low = h.past;
      long = long;
    })

-- A slot of the chain, where what is left is not more than before.
pub chain_slot-HasPage :
    (src : ReadPages) (base : Meta) (o : Option (PageId × List PageId)) (remaining : List PageId)
    (b : Batch)
    → SwapRemoved (λ id. 2 ≤ id) (length remaining) o
    → IsSettling base b
    → HasPage base (chain_slot src o remaining b).0 (chain_slot src o remaining b).2
      × length (chain_slot src o remaining b).1 ≤ length remaining
unfolding chain_slot SwapRemoved
chain_slot-HasPage src base none remaining b h k = (allocate-HasPage src base b k, omega arith)
chain_slot-HasPage src base (some (id, rest)) remaining b (low, e) k =
    (reuse_page-HasPage base id b low k, omega arith)

-- A page of the batch is written.
pub page_mut-HasPage :
    (base : Meta) (id : PageId) (change : Buf → Buf) (b : Batch)
    → ((buf : Buf) → length (change buf) ≡ length buf)
    → HasPage base id b
    → ((page_mut id change b).0 ≡ ok tt) × IsSettling base (page_mut id change b).1
unfolding page_mut record_page write_through IsPage
page_mut-HasPage base id change b keeps h = rw (h.has) (
  refl,
  record {
    same_base = h.is_settling.same_base;
    pages =
        All-insert (IsPage base.page_size) id (change h.buf) b.dirty (h.low, keeps h.buf ∙ h.long)
          h.is_settling.pages;
    increasing = insert-Increasing id (change h.buf) b.dirty h.is_settling.increasing;
    past = h.is_settling.past;
    empty_pool = h.is_settling.empty_pool;
    no_chain = h.is_settling.no_chain;
    no_reuse = h.is_settling.no_reuse;
  },
)
