-- ===== src/Core/FreeList.antt =====
-- crates/quantydb-core/src/freelist.rs: one page of the chain of free pages.
use quanty_database.Prelude.{
  ℕ, zero, suc, ◌+◌, ◌-◌, ◌*◌, ◌/◌, ◌^◌, ◌≤◌, ◌<◌, ◌≡◌, refl, inl, Bool, true, false, some, List,
  [], ◌∷◌, arith, leb, length, All,
}
use quanty_database.Prelude.Bytes.{IsU64}
use quanty_database.Prelude.Buffer.{slice}
use quanty_database.Prelude.Result.{Result, ok, ◌>>=◌, ◌>>◌, ensure}
use quanty_database.Core.Error.{Error, corrupted}
use quanty_database.Core.Page.{
  PageId, Buf, PageType, free_list, page_header_len, init_header, page_type, u16_at, u64_at, u8_at,
  put_u16, put_u64, length-init_header, page_type-init_header, length-put_u64, length-put_u16,
  u64_at-put_u64, u16_at-put_u16, u64_at-slice, u16_at-slice, slice-put_u64, slice-put_u16,
}

unfoldable pub ids_per_page : ℕ → ℕ
ids_per_page page_size = (page_size - page_header_len - 8 - 2) / 8

pub is_free_list : PageType → Bool
is_free_list free_list = true
is_free_list _ = false

-- The loop of `encode_page` from the id with index `i`.
unfoldable pub put_ids : ℕ → List PageId → Buf → Buf
put_ids i [] buf = buf
put_ids i (id ∷ ids) buf = put_ids (suc i) ids (put_u64 (page_header_len + 10 + i * 8) id buf)

unfoldable pub encode_page : PageId → List PageId → Buf → Buf
encode_page next ids buf = put_ids 0 ids (
    put_u16 (page_header_len + 8) (length ids)
      (put_u64 page_header_len next (put_u16 6 (length ids) buf)))

-- The loop of `decode_page` over `n` ids from the one with index `i`.
pub read_ids : ℕ → ℕ → Buf → List PageId
read_ids i zero buf = []
read_ids i (suc n) buf = u64_at (page_header_len + 10 + i * 8) buf ∷ read_ids (suc i) n buf

pub decode_page : Buf → PageId → Result Error (PageId × List PageId)
unfolding is_free_list
decode_page buf id = do
  t ← page_type buf
  ensure (is_free_list t) (corrupted (some id))
  let next = u64_at page_header_len buf
  let count = u16_at (page_header_len + 8) buf
  ensure (leb count (ids_per_page (length buf))) (corrupted (some id))
  ok (next, read_ids 0 count buf)

length-put_ids : (i : ℕ) (ids : List PageId) (buf : Buf) → length (put_ids i ids buf) ≡ length buf
unfolding put_ids
length-put_ids i [] buf = refl
length-put_ids i (id ∷ ids) buf = rw (length-put_ids (suc i) ids _, length-put_u64)

-- What stands before an id is left by the loop from it.
slice-put_ids :
    (a n i : ℕ) (ids : List PageId) (buf : Buf)
    → a + n ≤ page_header_len + 10 + i * 8
    → slice a n (put_ids i ids buf) ≡ slice a n buf
unfolding put_ids
slice-put_ids a n i [] buf h = refl
slice-put_ids a n i (id ∷ ids) buf h =
    rw (slice-put_ids a n (suc i) ids _ (omega arith), slice-put_u64 a n _ id buf (inl h))

read_ids-put_ids :
    (i : ℕ) (ids : List PageId) (buf : Buf)
    → All IsU64 ids
    → page_header_len + 10 + (i + length ids) * 8 ≤ length buf
    → read_ids i (length ids) (put_ids i ids buf) ≡ ids
unfolding put_ids read_ids
read_ids-put_ids i [] buf h fits = refl
read_ids-put_ids i (id ∷ ids) buf (h, hs) fits = rw (
  u64_at-slice at _ (put_u64 at id buf)
      (slice-put_ids at 8 (suc i) ids (put_u64 at id buf) (omega arith)),
  u64_at-put_u64 at id buf h (omega arith),
  read_ids-put_ids (suc i) ids (put_u64 at id buf) hs (omega (arith, length-put_u64 at id buf)),
)
  where
    at : ℕ
    at = page_header_len + 10 + i * 8

-- The page with its counts and its link.
abbrev linked : PageId → ℕ → Buf → Buf
linked next n buf = put_u16 (page_header_len + 8) n (put_u64 page_header_len next (put_u16 6 n buf))

length-linked : (next : PageId) (n : ℕ) (buf : Buf) → length (linked next n buf) ≡ length buf
length-linked next n buf = rw (length-put_u16, length-put_u64, length-put_u16)

pub length-encode_page :
    (next : PageId) (ids : List PageId) (buf : Buf) → length (encode_page next ids buf) ≡ length buf
unfolding encode_page
length-encode_page next ids buf = rw (length-put_ids, length-linked)

page_type-encode_page :
    (next : PageId) (ids : List PageId) (buf : Buf)
    → page_type (encode_page next ids buf) ≡ page_type buf
unfolding encode_page page_type u8_at
page_type-encode_page next ids buf = rw (
  slice-put_ids 4 1 0 ids (linked next (length ids) buf) (omega arith),
  slice-put_u16 4 1 24 (length ids) (put_u64 page_header_len next (put_u16 6 (length ids) buf))
      (inl (omega arith)),
  slice-put_u64 4 1 16 next (put_u16 6 (length ids) buf) (inl (omega arith)),
  slice-put_u16 4 1 6 (length ids) buf (inl (omega arith)),
)

next-encode_page :
    (next : PageId) (ids : List PageId) (buf : Buf)
    → IsU64 next
    → 26 ≤ length buf
    → u64_at page_header_len (encode_page next ids buf) ≡ next
unfolding encode_page
next-encode_page next ids buf h fits = rw (
  u64_at-slice 16 _ (linked next n buf)
      (slice-put_ids 16 8 0 ids (linked next n buf) (omega arith)),
  u64_at-slice 16 _ (put_u64 16 next counted)
      (slice-put_u16 16 8 24 n (put_u64 16 next counted) (inl (omega arith))),
  u64_at-put_u64 16 next counted h (omega (arith, length-put_u16 6 n buf)),
)
  where
    n : ℕ
    n = length ids

    counted : Buf
    counted = put_u16 6 n buf

count-encode_page :
    (next : PageId) (ids : List PageId) (buf : Buf)
    → length ids < 2 ^ 16
    → 26 ≤ length buf
    → u16_at (page_header_len + 8) (encode_page next ids buf) ≡ length ids
unfolding encode_page
count-encode_page next ids buf h fits = rw (
  u16_at-slice 24 _ (linked next n buf)
      (slice-put_ids 24 2 0 ids (linked next n buf) (omega arith)),
  u16_at-put_u16 24 n (put_u64 16 next (put_u16 6 n buf)) h
      (omega (arith, length-put_u64 16 next (put_u16 6 n buf), length-put_u16 6 n buf)),
)
  where
    n : ℕ
    n = length ids

ids-encode_page :
    (next : PageId) (ids : List PageId) (buf : Buf)
    → All IsU64 ids
    → 26 + length ids * 8 ≤ length buf
    → read_ids 0 (length ids) (encode_page next ids buf) ≡ ids
unfolding encode_page
ids-encode_page next ids buf hs fits =
    read_ids-put_ids 0 ids _ hs (omega (arith, length-linked next (length ids) buf))

-- A page of the free list is read back as it was written, with the link to the next page, if its ids
-- are at most as many as fit the page.
pub decode-encode_page :
    (next : PageId) (ids : List PageId) (buf : Buf) (id : PageId)
    → IsU64 next
    → All IsU64 ids
    → 512 ≤ length buf
    → length buf ≤ 65536
    → length ids ≤ ids_per_page (length buf)
    → decode_page (encode_page next ids (init_header free_list buf)) id ≡ ok (next, ids)
unfolding decode_page ids_per_page
decode-encode_page next ids buf id h hs low high fits = rw (
  page_type-encode_page next ids page,
  page_type-init_header free_list buf (omega arith),
  count-encode_page next ids page (omega arith) (omega (arith, same)),
  next-encode_page next ids page h (omega (arith, same)),
  length-encode_page next ids page,
  ids-encode_page next ids page hs (omega (arith, same)),
  same,
  fits_page,
)
  where
    page : Buf
    page = init_header free_list buf

    fits_page : leb (length ids) ((length buf - page_header_len - 8 - 2) / 8) ≡ true
    fits_page = ground arith

    same : length page ≡ length buf
    same = length-init_header free_list buf
