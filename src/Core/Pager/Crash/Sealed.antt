-- ===== src/Core/Pager/Crash/Sealed.antt =====
-- For `commit` of crates/quantydb-core/src/pager.rs: the pages of a batch as they are sealed.
use quanty_database.Prelude.{
  ℕ, ◌≤◌, ◌≡◌, ◌≢◌, refl, ◌∙◌, inl, inr, Bool-cases, none, some, List, [], ◌∷◌, arith, ◌==◌, All,
}
use quanty_database.Prelude.Assoc.{get}
use quanty_database.Core.Page.{PageId, Buf}
use quanty_database.Core.Page.Seal.{seal, length-seal}
use quanty_database.Core.Pager.Durable.{seal_all}
use quanty_database.Core.Pager.Crash.Pages.{IsPage, Distinct}

pub get-IsPage :
    (ps id : ℕ) (buf : Buf) (pages : List (PageId × Buf))
    → All (IsPage ps) pages
    → get id pages ≡ some buf
    → 2 ≤ id
unfolding get IsPage
get-IsPage ps id buf [] h e = absurd (cc e)
get-IsPage ps id buf ((j, other) ∷ pages) ((low, long), hs) e = elim (Bool-cases (id == j)) [
  | inl t ↦ (let same : id ≡ j = ground arith in rw same low)
  | inr t ↦ get-IsPage ps id buf pages hs (rw t at e)
]

module _ (checksum : Buf → ℕ) where
  pub IsPage-seal_all :
      (ps txid : ℕ) (pages : List (PageId × Buf))
      → All (IsPage ps) pages
      → All (IsPage ps) (seal_all checksum txid pages)
  unfolding seal_all IsPage
  IsPage-seal_all ps txid [] h = tt
  IsPage-seal_all ps txid ((id, buf) ∷ pages) ((low, long), hs) =
      ((low, length-seal checksum txid buf ∙ long), IsPage-seal_all ps txid pages hs)

  ids-seal_all :
      (txid id : ℕ) (pages : List (PageId × Buf))
      → All (λ p. p.0 ≢ id) pages
      → All (λ p. p.0 ≢ id) (seal_all checksum txid pages)
  unfolding seal_all
  ids-seal_all txid id [] h = tt
  ids-seal_all txid id (p ∷ pages) (h, hs) = (h, ids-seal_all txid id pages hs)

  pub Distinct-seal_all :
      (txid : ℕ) (pages : List (PageId × Buf))
      → Distinct pages
      → Distinct (seal_all checksum txid pages)
  unfolding seal_all
  Distinct-seal_all txid [] h = tt
  Distinct-seal_all txid ((id, buf) ∷ pages) (h, hs) =
      (ids-seal_all txid id pages h, Distinct-seal_all txid pages hs)

  pub none-seal_all :
      (txid id : ℕ) (pages : List (PageId × Buf))
      → get id pages ≡ none
      → get id (seal_all checksum txid pages) ≡ none
  unfolding seal_all get
  none-seal_all txid id [] h = refl
  none-seal_all txid id ((j, buf) ∷ pages) h = elim (Bool-cases (id == j)) [
    | inl e ↦ absurd (cc (rw e at h))
    | inr e ↦ rw e (none-seal_all txid id pages (rw e at h))
  ]

  pub some-seal_all :
      (txid id : ℕ) (buf : Buf) (pages : List (PageId × Buf))
      → get id pages ≡ some buf
      → get id (seal_all checksum txid pages) ≡ some (seal checksum txid buf)
  unfolding seal_all get
  some-seal_all txid id buf [] h = absurd (cc h)
  some-seal_all txid id buf ((j, other) ∷ pages) h = elim (Bool-cases (id == j)) [
    | inl e ↦ rw e (cc (rw e at h))
    | inr e ↦ rw e (some-seal_all txid id buf pages (rw e at h))
  ]
