-- ===== src/Core/Pager/Crash/Pages.antt =====
-- For `commit` of crates/quantydb-core/src/pager.rs: the places of the pages that it writes.
use quanty_database.Prelude.{
  ℕ, zero, suc, ◌+◌, ◌*◌, ◌≤◌, ◌<◌, ◌≡◌, ◌≢◌, refl, ◌∙◌, inl, inr, true, Bool-cases, ◌||◌, none,
  some, List, [], ◌∷◌, arith, leb, ltb, ◌==◌, length, All,
}
use mathlib.Core.Option.{some-injective}
use quanty_database.Prelude.Assoc.{get}
use quanty_database.Prelude.Buffer.{slice, all_apart}
use quanty_database.Core.Page.{PageId, Buf}
use quanty_database.Core.Storage.{Storage, store_at}
use quanty_database.Core.Storage.Slices.{length-store_at, slice-store_at, slice-store_at_apart}
use quanty_database.Core.Pager.Durable.{page_writes, perform, perform_all}
use quanty_database.Core.Pager.Crash.Phases.{on_top}

-- Pages of one size, none of them a meta page, each with one place.
unfoldable pub IsPage : ℕ → PageId × Buf → Type 0
IsPage ps (id, buf) = (2 ≤ id) × (length buf ≡ ps)

abbrev pub Distinct : List (PageId × Buf) → Type 0
Distinct [] = Unit
Distinct ((id, buf) ∷ pages) = All (λ p. p.0 ≢ id) pages × Distinct pages

abbrev pub IsApart : ℕ → ℕ → ℕ → PageId × Buf → Type 0
IsApart ps off n p = (leb (off + n) (p.0 * ps) || leb (p.0 * ps + length p.1) off) ≡ true

mul-lt : (ps id j : ℕ) → id < j → id * ps + ps ≤ j * ps
mul-lt ps id zero h = absurd (omega arith)
mul-lt ps zero (suc j) h = omega arith
mul-lt ps (suc id) (suc j) h = omega (arith, mul-lt ps id j (omega arith))

-- Two pages do not meet.
pub page_apart :
    (ps id j : ℕ) → j ≢ id → (leb (id * ps + ps) (j * ps) || leb (j * ps + ps) (id * ps)) ≡ true
page_apart ps id j ne = elim (Bool-cases (ltb id j)) [
  | inl e ↦ (let h = mul-lt ps id j (ground arith) in ground arith)
  | inr e ↦ (let h = mul-lt ps j id (ground arith) in ground arith)
]

-- A meta page and a data page do not meet.
pub slot-IsApart :
    (ps slot : ℕ) (pages : List (PageId × Buf))
    → slot < 2
    → All (IsPage ps) pages
    → All (IsApart ps (slot * ps) ps) pages
unfolding IsPage
slot-IsApart ps slot [] h k = tt
slot-IsApart ps slot ((id, buf) ∷ pages) h ((low, long), ks) =
    (rw long (page_apart ps slot id (λ e. omega arith)), slot-IsApart ps slot pages h ks)

pub unwritten-IsApart :
    (ps id : ℕ) (pages : List (PageId × Buf))
    → get id pages ≡ none
    → All (IsPage ps) pages
    → All (IsApart ps (id * ps) ps) pages
unfolding get IsPage
unwritten-IsApart ps id [] h k = tt
unwritten-IsApart ps id ((j, buf) ∷ pages) h ((low, long), ks) = elim (Bool-cases (id == j)) [
  | inl e ↦ absurd (cc (rw e at h))
  | inr e ↦ (
    rw long (page_apart ps id j (λ s. ground arith)),
    unwritten-IsApart ps id pages (rw e at h) ks,
  )
]

pub apart-on_top :
    (off n ps : ℕ) (pages : List (PageId × Buf)) (writes : List (ℕ × Buf))
    → All (IsApart ps off n) pages
    → all_apart off n writes ≡ true
    → all_apart off n (on_top ps pages writes) ≡ true
unfolding on_top all_apart
apart-on_top off n ps [] writes h k = k
apart-on_top off n ps ((id, buf) ∷ pages) writes (h, hs) k =
    apart-on_top off n ps pages ((id * ps, buf) ∷ writes) hs (rw (h, k) refl)

pub length-page_writes :
    (ps : ℕ) (pages : List (PageId × Buf)) (s : Storage)
    → length s ≤ length (perform_all (page_writes ps pages) s)
unfolding page_writes perform perform_all
length-page_writes ps [] s = omega arith
length-page_writes ps ((id, buf) ∷ pages) s = omega (
  arith,
  length-page_writes ps pages (store_at (id * ps) buf s),
  (length-store_at (id * ps) buf s).1,
)

pub slice-page_writes_apart :
    (off n ps : ℕ) (pages : List (PageId × Buf)) (s : Storage)
    → off + n ≤ length s
    → All (IsApart ps off n) pages
    → slice off n (perform_all (page_writes ps pages) s) ≡ slice off n s
unfolding page_writes perform perform_all
slice-page_writes_apart off n ps [] s fits h = refl
slice-page_writes_apart off n ps ((id, buf) ∷ pages) s fits (h, hs) =
    slice-page_writes_apart off n ps pages (store_at (id * ps) buf s)
      (omega (arith, fits, (length-store_at (id * ps) buf s).1)) hs
    ∙ slice-store_at_apart off n (id * ps) buf s fits h

distinct-IsApart :
    (ps id : ℕ) (pages : List (PageId × Buf))
    → All (λ p. p.0 ≢ id) pages
    → All (IsPage ps) pages
    → All (IsApart ps (id * ps) ps) pages
unfolding IsPage
distinct-IsApart ps id [] h k = tt
distinct-IsApart ps id ((j, buf) ∷ pages) (h, hs) ((low, long), ks) =
    (rw long (page_apart ps id j h), distinct-IsApart ps id pages hs ks)

-- Behind all of the writes, each page is in its place.
pub slice-page_writes :
    (ps id : ℕ) (buf : Buf) (pages : List (PageId × Buf)) (s : Storage)
    → All (IsPage ps) pages
    → Distinct pages
    → get id pages ≡ some buf
    → (id * ps + ps ≤ length (perform_all (page_writes ps pages) s))
      × (slice (id * ps) ps (perform_all (page_writes ps pages) s) ≡ buf)
unfolding page_writes perform perform_all get IsPage
slice-page_writes ps id buf [] s h k e = absurd (cc e)
slice-page_writes ps id buf ((j, other) ∷ pages) s ((low, long), hs) (k, ks) e =
    elim (Bool-cases (id == j)) [
      | inl t ↦
          (let here : j ≡ id = ground arith in
            let same : other ≡ buf = some-injective other buf (rw t at e) in
            let room : id * ps + ps ≤ length (store_at (id * ps) other s) =
              omega (arith, long, (length-store_at (id * ps) other s).0) in
            rw here (
              omega (arith, room, length-page_writes ps pages (store_at (id * ps) other s)),
              slice-page_writes_apart (id * ps) ps ps pages (store_at (id * ps) other s) room
                    (distinct-IsApart ps id pages (rw here at k) hs)
                  ∙ slice-store_at (id * ps) ps other s long
                  ∙ same,
            ))
      | inr t ↦ slice-page_writes ps id buf pages (store_at (j * ps) other s) hs ks (rw t at e)
    ]
