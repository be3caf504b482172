-- ===== src/Core/Pager/Settle/Total.antt =====
-- For `settle_freelist` of crates/quantydb-core/src/pager.rs: its loop ends, and every page it makes is
-- one of the batch.
use quanty_database.Prelude.{
  ℕ, zero, suc, ◌-◌, ◌≤◌, ◌≡◌, refl, ap, inl, inr, Bool-cases, not, ◌&&◌, Option, some, List, [],
  ◌∷◌, arith, leb, length, take, drop, All,
}
use quanty_database.Prelude.Assoc.{Increasing}
use quanty_database.Prelude.Result.{Result, ok, err}
use quanty_database.Core.Error.{Error}
use quanty_database.Core.Page.{PageId, Buf}
use quanty_database.Core.FreeList.{encode_page, ids_per_page, length-encode_page}
use quanty_database.Core.Meta.{Meta}
use quanty_database.Core.Commit.{ReadPages}
use quanty_database.Core.Pager.{Batch, page_mut, is_nil}
use quanty_database.Core.Pager.Crash.Pages.{IsPage}
use quanty_database.Core.Pager.Settle.{
  swap_remove, chain_slot, settle_loop, settle_page, settle_next, smaller, with_head, to_settle,
  settling, settle_freelist, is_none, retain_clean, is_dirty,
}
use quanty_database.Core.Pager.Settle.Slot.{
  IsSettling, swap_remove-SwapRemoved, HasPage, chain_slot-HasPage, page_mut-HasPage,
}

length-take_le : (n : ℕ) (xs : List PageId) → n ≤ length xs → length (take n xs) ≡ n
length-take_le zero xs h = refl
length-take_le (suc n) [] h = absurd (omega arith)
length-take_le (suc n) (x ∷ xs) h = ap suc (length-take_le n xs (omega arith))

kept_le : (n per rounds : ℕ) → 1 ≤ per → n ≤ suc rounds → n - smaller n per ≤ rounds
kept_le n per rounds h k = elim (Bool-cases (leb n per)) [
  | inl e ↦ rw e (omega arith)
  | inr e ↦ rw e (omega arith)
]

-- The loop gives a head, where there is room for an id in a page.
SettledLoop : Meta → Option (Result Error PageId × Batch) → Type 0
SettledLoop base o = (head : PageId) × (b : Batch) × (o ≡ some (ok head, b)) × IsSettling base b

settle_next-ok :
    (again : Batch → Option (Result Error PageId × Batch)) (r : Result Error (Unit {0}) × Batch)
    → r.0 ≡ ok tt
    → settle_next again r ≡ again r.1
unfolding settle_next
settle_next-ok again (ok u, b) e = refl
settle_next-ok again (err f, b) e = absurd (cc e)

settle_page-SettledLoop :
    (rounds : ℕ) (again : PageId → List PageId → Batch → Option (Result Error PageId × Batch))
    (base : Meta) (head : PageId) (slot : PageId × List PageId × Batch)
    → 1 ≤ ids_per_page base.page_size
    → length slot.1 ≤ suc rounds
    → HasPage base slot.0 slot.2
    → ((at : PageId) (ids : List PageId) (b : Batch)
        → length ids ≤ rounds
        → IsSettling base b
        → SettledLoop base (again at ids b))
    → SettledLoop base (settle_page again head slot)
unfolding settle_page
settle_page-SettledLoop rounds again base head (at, left, b) room fits has ih =
    let per = ids_per_page b.base.page_size in
    let one : 1 ≤ per = rw (has.is_settling.same_base) room in
    let kept = length left - smaller (length left) per in
    let (fine, next) =
      page_mut-HasPage base at (encode_page head (drop kept left)) b
        (λ buf. length-encode_page head (drop kept left) buf) has in
    rw
      (settle_next-ok (again at (take kept left))
        (page_mut at (encode_page head (drop kept left)) b) fine)
      (ih at (take kept left) (page_mut at (encode_page head (drop kept left)) b).1
        (omega (
          arith,
          kept_le (length left) per rounds one fits,
          length-take_le kept left (omega arith),
        ))
        next)

settle_loop-SettledLoop :
    (rounds : ℕ) (src : ReadPages) (base : Meta) (writable : List PageId) (head : PageId)
    (remaining : List PageId) (b : Batch)
    → 1 ≤ ids_per_page base.page_size
    → All (λ id. 2 ≤ id) writable
    → length remaining ≤ rounds
    → IsSettling base b
    → SettledLoop base (settle_loop rounds src writable head remaining b)
unfolding settle_loop SettledLoop
settle_loop-SettledLoop rounds src base writable head [] b room low fits h = (head, b, refl, h)
settle_loop-SettledLoop zero src base writable head (r ∷ remaining) b room low fits h =
    absurd (omega arith)
settle_loop-SettledLoop (suc rounds) src base writable head (r ∷ remaining) b room low fits h =
    let o = swap_remove writable (r ∷ remaining) in
    let (has, shorter) =
      chain_slot-HasPage src base o (r ∷ remaining) b
        (swap_remove-SwapRemoved (λ id. 2 ≤ id) writable (r ∷ remaining) low) h in
    settle_page-SettledLoop rounds (settle_loop rounds src writable) base head
      (chain_slot src o (r ∷ remaining) b) room (omega (arith, shorter, fits)) has
      (λ at ids b'. settle_loop-SettledLoop rounds src base writable at ids b' room low)

All-retain_clean :
    (P : PageId → Type 0) (dirty : List (PageId × Buf)) (ids : List PageId)
    → All P ids
    → All P (retain_clean dirty ids)
unfolding retain_clean
All-retain_clean P dirty [] h = tt
All-retain_clean P dirty (id ∷ ids) (h, hs) = elim (Bool-cases (is_dirty id dirty)) [
  | inl e ↦ rw e (All-retain_clean P dirty ids hs)
  | inr e ↦ rw e (h, All-retain_clean P dirty ids hs)
]

-- A batch whose pages and free pages are data pages of its size.
pub record IsWritable (b : Batch) : Type 0 where
  pub pages : All (IsPage b.base.page_size) b.dirty
  pub increasing : Increasing b.dirty
  pub past : 2 ≤ b.now.next_page
  pub pool : All (λ id. 2 ≤ id) b.now.reuse_pool

settling-IsSettling : (b : Batch) → IsWritable b → IsSettling b.base (settling b)
unfolding settling
settling-IsSettling b h = record {
  same_base = refl;
  pages = h.pages;
  increasing = h.increasing;
  past = h.past;
  empty_pool = refl;
  no_chain = refl;
  no_reuse = refl;
}

-- Where a page has room for an id, the free list of a batch is settled: the loop ends within as many
-- rounds as there are ids, without an error. The batch keeps its base, and its pages are data pages of
-- the page size, each with one place, as they were before.
pub settle_freelist_total :
    (src : ReadPages) (b : Batch)
    → 1 ≤ ids_per_page b.base.page_size
    → IsWritable b
    → (b' : Batch) × (settle_freelist src b ≡ some (ok tt, b'))
      × (b'.base ≡ b.base)
      × All (IsPage b.base.page_size) b'.dirty
      × Increasing b'.dirty
unfolding settle_freelist with_head SettledLoop
settle_freelist_total src b room h =
    elim (Bool-cases (
      not b.now.touched_freelist
      && is_nil b.now.deferred_free
      && is_none b.now.freelist_override)) [
        | inl e ↦ (b, rw e refl, refl, h.pages, h.increasing)
        | inr e ↦
            (let (remaining, tail) = to_settle b.now.freelist_override b.now.reuse_pool b in
              let (head, b', done, k) =
                settle_loop-SettledLoop (length remaining) src b.base b.now.reuse_pool tail
                  remaining (settling b) room h.pool (omega arith) (settling-IsSettling b h) in
              (
                record b' { now = record (b'.now) { freelist_root = head } },
                rw (e, done) refl,
                k.same_base,
                k.pages,
                k.increasing,
              ))
      ]
