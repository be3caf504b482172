-- ===== src/Core/Pager/Crash/Recovery.antt =====
-- `commit` of crates/quantydb-core/src/pager.rs with `recover` of crates/quantydb-core/src/meta.rs: what
-- is found again.
use quanty_database.Prelude.{
  ℕ, ◌+◌, ◌*◌, ◌%◌, ◌^◌, ◌≤◌, ◌<◌, ◌≡◌, ◌≢◌, refl, sym, ap, ◌∙◌, ◌⊎◌, inl, inr, Bool-cases, Option,
  none, some, List, [], ◌∷◌, ◌++◌, arith, ltb, All,
}
use quanty_database.Prelude.Assoc.{Increasing}
use quanty_database.Prelude.Result.{Result, ok, err}
use quanty_database.Core.Error.{Error}
use quanty_database.Core.Page.{PageId, Buf, zeroes}
use quanty_database.Core.Storage.{Storage, store_at}
use quanty_database.Core.Meta.{Meta, encode_meta, recover, page_sizes, txid_in_slot}
use quanty_database.Core.Meta.RoundTrip.{IsMeta}
use quanty_database.Core.FreeList.{ids_per_page}
use quanty_database.Core.Commit.{ReadPages}
use quanty_database.Core.Pager.{Batch}
use quanty_database.Core.Pager.Ownership.{Occurs}
use quanty_database.Core.Pager.Settle.{settle_freelist}
use quanty_database.Core.Pager.Settle.Total.{IsWritable, settle_freelist_total}
use quanty_database.Core.Pager.Durable.{
  Event, write, sync, Committed, commit, after_settle, any_root_outside, write_events, new_meta,
  page_writes, perform, perform_all, seal_all,
}
use quanty_database.Core.Pager.Crash.{Unsynced, Crashed}
use quanty_database.Core.Pager.Crash.Pages.{IsPage, Distinct}
use quanty_database.Core.Pager.Crash.Slots.{IsStored, Alone, recover-IsStored}
use quanty_database.Core.Pager.Crash.Atomic.{
  Detected, Untouched, Landed, crash-Outcome, last-Late, last-valid, late-new, late-Landed,
}

Increasing-Distinct : (pages : List (PageId × Buf)) → Increasing pages → Distinct pages
Increasing-Distinct [] h = tt
Increasing-Distinct ((id, buf) ∷ pages) (h, hs) =
    (above-Distinct id pages h, Increasing-Distinct pages hs)
  where
    above-Distinct :
        (id : PageId) (pages : List (PageId × Buf))
        → All (λ p. id < p.0) pages
        → All (λ p. p.0 ≢ id) pages
    above-Distinct id [] h = tt
    above-Distinct id (p ∷ pages) (h, hs) = ((λ e. omega arith), above-Distinct id pages hs)

unfoldable payload : Committed → Option (Result Error Committed) → Committed
payload other (some (ok c)) = c
payload other (some (err e)) = other
payload other none = other

unfoldable settled_batch : Batch → Option (Result Error (Unit {0}) × Batch) → Batch
settled_batch other none = other
settled_batch other (some (r, b)) = b

settled-facts :
    (src : ReadPages) (b b' : Batch)
    → 1 ≤ ids_per_page b.base.page_size
    → IsWritable b
    → settle_freelist src b ≡ some (ok tt, b')
    → (b'.base ≡ b.base) × All (IsPage b.base.page_size) b'.dirty × Increasing b'.dirty
unfolding settled_batch
settled-facts src b b' room h e =
    let (b'', same, base, pages, increasing) = settle_freelist_total src b room h in
    let is_it : b'' ≡ b' = ap (settled_batch b) (sym same ∙ e) in
    rw (sym is_it) (base, pages, increasing)

perform_all-append :
    (xs ys : List Event) (s : Storage)
    → perform_all (xs ++ ys) s ≡ perform_all ys (perform_all xs s)
unfolding perform_all
perform_all-append [] ys s = refl
perform_all-append (x ∷ xs) ys s = perform_all-append xs ys (perform x s)

module _ (checksum : Buf → ℕ) where
  -- What a commit that is not refused writes is of the settled batch.
  commit-write_events :
      (now_ms : ℕ) (src : ReadPages) (s : Storage) (b b' : Batch) (c : Committed)
      → settle_freelist src b ≡ some (ok tt, b')
      → commit checksum now_ms src s b ≡ some (ok c)
      → write_events checksum now_ms b' ≡ c
  unfolding commit after_settle payload
  commit-write_events now_ms src s b b' c settled e =
      elim (Bool-cases
        (ltb b.base.txid (txid_in_slot checksum s b.base.page_size ((b.base.txid + 1) % 2)))) [
          | inl t ↦ absurd (cc (rw t at e))
          | inr t ↦ elim (Bool-cases (any_root_outside b'.now)) [
            | inl r ↦ absurd (cc (rw (t, settled, r) at e))
            | inr r ↦ ap (payload (write_events checksum now_ms b')) (rw (t, settled, r) at e)
          ]
        ]

  -- The new meta has the page size of the old one, and the txid behind.
  pub commit-next :
      (now_ms : ℕ) (src : ReadPages) (s : Storage) (b b' : Batch) (c : Committed)
      → 1 ≤ ids_per_page b.base.page_size
      → IsWritable b
      → settle_freelist src b ≡ some (ok tt, b')
      → commit checksum now_ms src s b ≡ some (ok c)
      → (c.published.page_size ≡ b.base.page_size) × (c.published.txid ≡ b.base.txid + 1)
  unfolding write_events new_meta
  commit-next now_ms src s b b' c room h settled e =
      let (base, pages, increasing) = settled-facts src b b' room h settled in
      let published =
        ap (λ (x : Committed). x.published) (commit-write_events now_ms src s b b' c settled e) in
      (
        ap (λ (m : Meta). m.page_size) (sym published) ∙ ap (λ (m : Meta). m.page_size) base,
        ap (λ (m : Meta). m.txid) (sym published) ∙ ap (λ (m : Meta). m.txid + 1) base,
      )

  abbrev Recovered : Batch → Storage → Storage → Meta → Type 0
  Recovered b s disk published =
      Untouched checksum b s disk
      × ((recover checksum disk ≡ ok b.base)
          ⊎ (recover checksum disk ≡ ok published) × Landed checksum b disk)

  -- The same of the settled batch.
  written_crash :
      (now_ms : ℕ) (s disk : Storage) (b : Batch)
      → ((buf : Buf) → checksum buf < 2 ^ 32)
      → All (IsPage b.base.page_size) b.dirty
      → Increasing b.dirty
      → IsStored checksum s b.base
      → IsMeta (new_meta now_ms b)
      → Crashed s (write_events checksum now_ms b).events disk
      → Detected checksum s disk b.base (new_meta now_ms b)
      → Occurs b.base.page_size page_sizes
      → Alone checksum disk b.base.page_size
      → Recovered b s disk (new_meta now_ms b)
  written_crash now_ms s disk b bound pages increasing stored is_meta crashed detected legal alone =
      let (kept, outcome) =
        crash-Outcome checksum now_ms b s disk stored pages (Increasing-Distinct b.dirty increasing)
          bound is_meta crashed detected in
      (
        kept,
        elim outcome [
          | inl old ↦ inl (recover-IsStored checksum disk b.base old legal alone)
          | inr (new, landed) ↦ inr (
            recover-IsStored checksum disk (new_meta now_ms b) new (unfold new_meta in legal)
                (unfold new_meta in alone),
            landed,
          )
        ],
      )

  -- After a crash the old meta is stored, or the new one.
  pub crash-IsStored :
      (now_ms : ℕ) (src : ReadPages) (s disk : Storage) (b b' : Batch) (c : Committed)
      → ((buf : Buf) → checksum buf < 2 ^ 32)
      → 1 ≤ ids_per_page b.base.page_size
      → IsWritable b
      → IsStored checksum s b.base
      → settle_freelist src b ≡ some (ok tt, b')
      → commit checksum now_ms src s b ≡ some (ok c)
      → IsMeta c.published
      → Crashed s c.events disk
      → Detected checksum s disk b.base c.published
      → IsStored checksum disk b.base ⊎ IsStored checksum disk c.published
  crash-IsStored now_ms src s disk b b' c bound room h stored settled e is_meta crashed detected =
      let (base, pages, increasing) = settled-facts src b b' room h settled in
      let written = commit-write_events now_ms src s b b' c settled e in
      let (kept, outcome) =
        crash-Outcome checksum now_ms b' s disk (rw (sym base) at stored) (rw base pages)
          (Increasing-Distinct b'.dirty increasing) bound
          (unfold write_events in (rw (sym written) at is_meta)) (rw (sym written) at crashed)
          (unfold write_events in (rw (sym written, sym base) at detected)) in
      elim outcome [
        | inl old ↦ inl (rw (sym base) old)
        | inr (new, landed) ↦ inr (rw (sym written) (unfold write_events in new))
      ]

  -- A crash at any time during the writes and syncs of a commit leaves a database that is recovered as
  -- the old meta or as the new one, and never as anything else. The data pages that the batch does not
  -- write are as they were in either case, and where the new meta is found, so is every page of the
  -- batch, sealed. Conditions: the old meta is stored, a torn meta page does not pass for a third one,
  -- the page size is legal and no other page size has a valid meta page, the checksum has 32 bits, the
  -- numbers of the new meta fit, and the pages of the batch and its free pages are data pages.
  pub commit_crash :
      (now_ms : ℕ) (src : ReadPages) (s disk : Storage) (b b' : Batch) (c : Committed)
      → ((buf : Buf) → checksum buf < 2 ^ 32)
      → 1 ≤ ids_per_page b.base.page_size
      → IsWritable b
      → IsStored checksum s b.base
      → settle_freelist src b ≡ some (ok tt, b')
      → commit checksum now_ms src s b ≡ some (ok c)
      → IsMeta c.published
      → Crashed s c.events disk
      → Detected checksum s disk b.base c.published
      → Occurs b.base.page_size page_sizes
      → Alone checksum disk b.base.page_size
      → Untouched checksum b' s disk
        × ((recover checksum disk ≡ ok b.base)
            ⊎ (recover checksum disk ≡ ok c.published) × Landed checksum b' disk)
  commit_crash now_ms src s disk b b' c bound room h stored settled e is_meta crashed detected legal
        alone =
      let (base, pages, increasing) = settled-facts src b b' room h settled in
      let written = commit-write_events now_ms src s b b' c settled e in
      rw (sym base, sym written)
        (unfold write_events in
          written_crash now_ms s disk b' bound (rw base pages) increasing (rw (sym base) at stored)
            (rw (sym written) at is_meta) (rw (sym written) at crashed)
            (rw (sym written, sym base) at detected) (rw (sym base) at legal)
            (rw (sym base) at alone))

  written_durable :
      (now_ms : ℕ) (s : Storage) (b : Batch)
      → ((buf : Buf) → checksum buf < 2 ^ 32)
      → All (IsPage b.base.page_size) b.dirty
      → Increasing b.dirty
      → IsStored checksum s b.base
      → IsMeta (new_meta now_ms b)
      → IsStored checksum
          (perform_all (write_events checksum now_ms b).events s)
          (new_meta now_ms b)
        × Landed checksum b (perform_all (write_events checksum now_ms b).events s)
  unfolding write_events perform_all perform
  written_durable now_ms s b bound pages increasing stored is_meta =
      let ps = b.base.page_size in
      let sealed = seal_all checksum (b.base.txid + 1) b.dirty in
      let at_slot = ((b.base.txid + 1) % 2) * ps in
      let meta_page = encode_meta checksum (new_meta now_ms b) (zeroes ps) in
      let disk = store_at at_slot meta_page (perform_all (page_writes ps sealed) s) in
      let distinct = Increasing-Distinct b.dirty increasing in
      let nothing : Unsynced disk [] disk = record {
        longer = omega arith;
        same = λ off n fits apart. refl;
      } in
      let late = last-Late checksum now_ms b s disk stored pages distinct nothing in
      rw (perform_all-append (page_writes ps sealed) (sync ∷ write at_slot meta_page ∷ sync ∷ []) s)
        (
          late-new checksum now_ms b s disk stored pages distinct late
              (last-valid checksum now_ms b s disk stored pages distinct bound is_meta nothing),
          late-Landed checksum now_ms b s disk stored pages distinct late,
        )

  -- When all writes of a commit are made, the new meta is stored where the next commit expects it, and
  -- every page of the settled batch is in its place, sealed. Conditions: the old meta is stored, the
  -- checksum has 32 bits, the numbers of the new meta fit, a page has room for an id of the free list,
  -- and the pages of the batch and its free pages are data pages.
  pub commit-perform_all :
      (now_ms : ℕ) (src : ReadPages) (s : Storage) (b b' : Batch) (c : Committed)
      → ((buf : Buf) → checksum buf < 2 ^ 32)
      → 1 ≤ ids_per_page b.base.page_size
      → IsWritable b
      → IsStored checksum s b.base
      → settle_freelist src b ≡ some (ok tt, b')
      → commit checksum now_ms src s b ≡ some (ok c)
      → IsMeta c.published
      → IsStored checksum (perform_all c.events s) c.published
        × Landed checksum b' (perform_all c.events s)
  commit-perform_all now_ms src s b b' c bound room h stored settled e is_meta =
      let (base, pages, increasing) = settled-facts src b b' room h settled in
      let written = commit-write_events now_ms src s b b' c settled e in
      rw (sym written) (
        unfold write_events in
        written_durable now_ms s b' bound (rw base pages) increasing (rw (sym base) at stored)
          (rw (sym written) at is_meta))
