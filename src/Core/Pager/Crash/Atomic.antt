-- ===== src/Core/Pager/Crash/Atomic.antt =====
-- For `commit` of crates/quantydb-core/src/pager.rs: what the disk holds behind a crash at any time.
use quanty_database.Prelude.{
  ℕ, zero, suc, ◌+◌, ◌*◌, ◌%◌, ◌^◌, ◌≤◌, ◌<◌, ◌≡◌, ◌≢◌, refl, sym, ◌∙◌, ◌⊎◌, inl, inr, true, ◌||◌,
  none, some, List, [], ◌∷◌, arith, leb, length, All,
}
use quanty_database.Prelude.Assoc.{get}
use quanty_database.Prelude.Buffer.{slice, all_apart}
use quanty_database.Core.Page.{PageId, Buf, zeroes}
use quanty_database.Core.Page.Seal.{seal}
use quanty_database.Core.Storage.{Storage, store_at}
use quanty_database.Core.Storage.Slices.{length-store_at, slice-store_at, slice-store_at_apart}
use quanty_database.Core.Meta.{Meta, encode_meta}
use quanty_database.Core.Meta.Newest.{valid}
use quanty_database.Core.Meta.RoundTrip.{
  IsMeta, length-encode_meta, decode-encode_meta, length-zeroes,
}
use quanty_database.Core.Pager.{Batch}
use quanty_database.Core.Pager.Durable.{page_writes, perform_all, seal_all, new_meta, write_events}
use quanty_database.Core.Pager.Crash.{Unsynced, Crashed}
use quanty_database.Core.Pager.Crash.Phases.{on_top, phases}
use quanty_database.Core.Pager.Crash.Pages.{
  IsPage, Distinct, IsApart, slot-IsApart, unwritten-IsApart, apart-on_top, length-page_writes,
  slice-page_writes_apart, slice-page_writes, page_apart,
}
use quanty_database.Core.Pager.Crash.Sealed.{
  get-IsPage, IsPage-seal_all, Distinct-seal_all, none-seal_all, some-seal_all,
}
use quanty_database.Core.Pager.Crash.Slots.{IsStored, Below, valid-slice, valid-bytes}

slot-fits : (ps n slot : ℕ) → slot < 2 → 2 * ps ≤ n → slot * ps + ps ≤ n
slot-fits ps n zero h k = omega arith
slot-fits ps n (suc zero) h k = omega arith
slot-fits ps n (suc (suc slot)) h k = absurd (omega arith)

module _ (checksum : Buf → ℕ) where
  -- A torn meta page is found out by its checksum: the slot that is written holds nothing valid, or what
  -- it held, or the new meta.
  abbrev pub Detected : Storage → Storage → Meta → Meta → Type 0
  Detected s disk base new =
      let slot = new.txid % 2 in
      (valid checksum disk base.page_size slot ≡ none)
      ⊎ (valid checksum disk base.page_size slot ≡ valid checksum s base.page_size slot)
      ⊎ (valid checksum disk base.page_size slot ≡ some new)

  -- The data pages that a batch does not write are as they were.
  abbrev pub Untouched : Batch → Storage → Storage → Type 0
  Untouched b s disk =
      (id : PageId)
      → 2 ≤ id
      → get id b.dirty ≡ none
      → id * b.base.page_size + b.base.page_size ≤ length s
      → slice (id * b.base.page_size) b.base.page_size disk
        ≡ slice (id * b.base.page_size) b.base.page_size s

  -- Every page of a batch is in its place, sealed.
  abbrev pub Landed : Batch → Storage → Type 0
  Landed b disk =
      (id : PageId) (buf : Buf)
      → get id b.dirty ≡ some buf
      → slice (id * b.base.page_size) b.base.page_size disk ≡ seal checksum (b.base.txid + 1) buf

  -- What the phases share: the batch, the state of the disk before, and the sealed pages.
  module _ (now_ms : ℕ) (b : Batch) (s disk : Storage) (stored : IsStored checksum s b.base)
      (pages : All (IsPage b.base.page_size) b.dirty) (distinct : Distinct b.dirty) where
    abbrev ps : ℕ
    ps = b.base.page_size

    abbrev sealed : List (PageId × Buf)
    sealed = seal_all checksum (b.base.txid + 1) b.dirty

    abbrev at_slot : ℕ
    at_slot = ((b.base.txid + 1) % 2) * ps

    abbrev meta_page : Buf
    meta_page = encode_meta checksum (new_meta now_ms b) (zeroes ps)

    abbrev flushed_pages : Storage
    flushed_pages = perform_all (page_writes ps sealed) s

    sealed_pages : All (IsPage ps) sealed
    sealed_pages = IsPage-seal_all checksum ps (b.base.txid + 1) b.dirty pages

    length-meta_page : length meta_page ≡ ps
    length-meta_page =
        length-encode_meta checksum (new_meta now_ms b) (zeroes ps) ∙ length-zeroes ps

    -- During the writes of the pages, both slots are as they were.
    early-slot :
        (slot : ℕ)
        → slot < 2
        → Unsynced s (on_top ps sealed []) disk
        → valid checksum disk ps slot ≡ valid checksum s ps slot
    unfolding all_apart
    early-slot slot h u =
        let fits = slot-fits ps (length s) slot h stored.room in
        valid-slice checksum s disk ps slot fits (omega (arith, fits, u.longer)) (
          u.same (slot * ps) ps fits (
            apart-on_top (slot * ps) ps ps sealed [] (slot-IsApart ps slot sealed h sealed_pages)
              refl))

    pub early-IsStored : Unsynced s (on_top ps sealed []) disk → IsStored checksum disk b.base
    early-IsStored u = record {
      room = omega (arith, stored.room, u.longer);
      newest = early-slot (b.base.txid % 2) (omega arith) u ∙ stored.newest;
      older = rw (early-slot ((b.base.txid + 1) % 2) (omega arith) u) stored.older;
    }

    pub early-Untouched : Unsynced s (on_top ps sealed []) disk → Untouched b s disk
    unfolding all_apart
    early-Untouched u id low e fits = u.same (id * ps) ps fits (
        apart-on_top (id * ps) ps ps sealed []
          (unwritten-IsApart ps id sealed (none-seal_all checksum (b.base.txid + 1) id b.dirty e)
            sealed_pages)
          refl)

    abbrev pub Late : Type 0
    Late = Unsynced flushed_pages ((at_slot, meta_page) ∷ []) disk

    -- A slice of the old state, apart from all that is written.
    late-slice :
        (off n : ℕ)
        → Late
        → off + n ≤ length s
        → All (IsApart ps off n) sealed
        → (leb (off + n) at_slot || leb (at_slot + ps) off) ≡ true
        → slice off n disk ≡ slice off n s
    unfolding all_apart
    late-slice off n u fits apart apart_meta =
        u.same off n (omega (arith, fits, length-page_writes ps sealed s))
          (rw (length-meta_page, apart_meta) refl)
        ∙ slice-page_writes_apart off n ps sealed s fits apart

    other_slot : b.base.txid % 2 ≢ (b.base.txid + 1) % 2
    other_slot e = omega arith

    late-newest : Late → valid checksum disk ps (b.base.txid % 2) ≡ some b.base
    late-newest u =
        let slot = b.base.txid % 2 in
        let low : slot < 2 = omega arith in
        let fits = slot-fits ps (length s) slot low stored.room in
        valid-slice checksum s disk ps slot fits
          (omega (arith, fits, length-page_writes ps sealed s, u.longer))
          (late-slice (slot * ps) ps u fits (slot-IsApart ps slot sealed low sealed_pages)
            (page_apart ps slot ((b.base.txid + 1) % 2) (λ e. other_slot (sym e))))
        ∙ stored.newest

    late-room : Late → 2 * ps ≤ length disk
    late-room u = omega (arith, stored.room, length-page_writes ps sealed s, u.longer)

    pub late-old :
        Late
        → Below b.base (valid checksum disk ps ((b.base.txid + 1) % 2))
        → IsStored checksum disk b.base
    late-old u h = record { room = late-room u; newest = late-newest u; older = h }

    pub late-new :
        Late
        → valid checksum disk ps ((b.base.txid + 1) % 2) ≡ some (new_meta now_ms b)
        → IsStored checksum disk (new_meta now_ms b)
    unfolding new_meta
    late-new u e =
        let same : (b.base.txid + 1 + 1) % 2 ≡ b.base.txid % 2 = omega arith in
        record {
          room = late-room u;
          newest = e;
          older = rw (same, late-newest u) (inl (omega arith));
        }

    pub late-Untouched : Late → Untouched b s disk
    late-Untouched u id low e fits =
        late-slice (id * ps) ps u fits
          (unwritten-IsApart ps id sealed (none-seal_all checksum (b.base.txid + 1) id b.dirty e)
            sealed_pages)
          (page_apart ps id ((b.base.txid + 1) % 2) (λ same. omega arith))

    pub late-Landed : Late → Landed b disk
    unfolding all_apart
    late-Landed u id buf e =
        let low = get-IsPage ps id buf b.dirty pages e in
        let (room, here) =
          slice-page_writes ps id (seal checksum (b.base.txid + 1) buf) sealed s sealed_pages
            (Distinct-seal_all checksum (b.base.txid + 1) b.dirty distinct)
            (some-seal_all checksum (b.base.txid + 1) id buf b.dirty e) in
        u.same (id * ps) ps room (
          rw (length-meta_page, page_apart ps id ((b.base.txid + 1) % 2) (λ same. omega arith))
            refl)
        ∙ here

    -- Behind the last sync, the new meta is there.
    pub last-Late : Unsynced (store_at at_slot meta_page flushed_pages) [] disk → Late
    unfolding all_apart
    last-Late u = record {
      longer = omega (arith, u.longer, (length-store_at at_slot meta_page flushed_pages).1);
      same = λ off n fits apart.
          u.same off n (omega (arith, fits, (length-store_at at_slot meta_page flushed_pages).1))
            refl
          ∙ slice-store_at_apart off n at_slot meta_page flushed_pages fits (ground arith);
    }

    pub last-valid :
        ((buf : Buf) → checksum buf < 2 ^ 32)
        → IsMeta (new_meta now_ms b)
        → Unsynced (store_at at_slot meta_page flushed_pages) [] disk
        → valid checksum disk ps ((b.base.txid + 1) % 2) ≡ some (new_meta now_ms b)
    unfolding all_apart new_meta
    last-valid bound is_meta u =
        let slot = (b.base.txid + 1) % 2 in
        let room : slot * ps + ps ≤ length (store_at at_slot meta_page flushed_pages) =
          omega (arith, length-meta_page, (length-store_at at_slot meta_page flushed_pages).0) in
        valid-bytes checksum disk ps slot meta_page (new_meta now_ms b)
          (omega (arith, room, u.longer))
          (u.same (slot * ps) ps room refl
            ∙ slice-store_at (slot * ps) ps meta_page flushed_pages length-meta_page)
          (decode-encode_meta checksum (new_meta now_ms b) (zeroes ps) slot bound is_meta
            (length-zeroes ps))

    abbrev pub Outcome : Type 0
    Outcome =
        Untouched b s disk
        × (IsStored checksum disk b.base
            ⊎ IsStored checksum disk (new_meta now_ms b) × Landed b disk)

    late-Outcome : Late → Detected s disk b.base (new_meta now_ms b) → Outcome
    unfolding new_meta
    late-Outcome u (inl e) = (late-Untouched u, inl (late-old u (rw e tt)))
    late-Outcome u (inr (inl e)) = (late-Untouched u, inl (late-old u (rw e stored.older)))
    late-Outcome u (inr (inr e)) = (late-Untouched u, inr (late-new u e, late-Landed u))

    pub crash-Outcome :
        ((buf : Buf) → checksum buf < 2 ^ 32)
        → IsMeta (new_meta now_ms b)
        → Crashed s (write_events checksum now_ms b).events disk
        → Detected s disk b.base (new_meta now_ms b)
        → Outcome
    unfolding write_events
    crash-Outcome bound is_meta c detected = elim (phases ps at_slot sealed meta_page s disk c) [
      | inl u ↦ (early-Untouched u, inl (early-IsStored u))
      | inr (inl u) ↦ late-Outcome u detected
      | inr (inr u) ↦
          late-Outcome (last-Late u) (inr (inr (unfold new_meta in last-valid bound is_meta u)))
    ]
