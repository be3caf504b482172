-- ===== src/Core/Pager/CopyOnWrite.antt =====
-- For `WriteBatch` of crates/quantydb-core/src/pager.rs: the batch and the committed pages.
use quanty_database.Prelude.{
  ℕ, ◌<◌, ◌≡◌, ◌≢◌, refl, sym, ◌∙◌, inl, inr, Bool, true, false, Bool-cases, Option, none, some,
  Option-cases, List, [], ◌∷◌, arith, if◌then◌else◌, ◌==◌, ltb, leb, ◌||◌,
}
use quanty_database.Prelude.Assoc.{get, insert, get-insert-ne}
use quanty_database.Prelude.Result.{err}
use quanty_database.Core.Error.{page_out_of_bounds}
use quanty_database.Core.Page.{PageId, Buf, PageType, nil_page}
use quanty_database.Core.Commit.{ReadPages}
use quanty_database.Core.Node.{Node}
use quanty_database.Core.Meta.{Meta}
use quanty_database.Core.Pager.{
  Batch, Scalars, Savepoint, begin, record_page, allocate, write_through, set_freelist, page_mut,
  chain_page,
}
use quanty_database.Core.Pager.Steps.{
  Op, alloc, write, take_kept, keep, write_kept, root, free_all, Root, data_tree, catalog_tree,
  free_pages, commit_record, refs_tree, apply, run, keep_node_sized, kept_and_page_mut, change_kept,
  set_root, root_in, take_node_sized, committed_bytes, page_bytes, visible,
}
use quanty_database.Core.Pager.Ownership.{Listed, here, later, IsFree, IsOwned, take_page_id-Taken}

-- `Pager::read_page` over what the file holds: it refuses the meta pages and what is past the end.
abbrev pub committed : ReadPages → Meta → ReadPages
committed raw base id = committed_bytes raw id base

-- No chain starts at the nil page.
nil-chain_page :
    (raw : ReadPages) (base : Meta)
    → chain_page (committed raw base) nil_page ≡ err (page_out_of_bounds 0)
unfolding committed_bytes chain_page
nil-chain_page raw base = refl

pub nil-Listed :
    (raw : ReadPages) (base : Meta) (id : PageId) → ¬ Listed (committed raw base) nil_page id
nil-Listed raw base id (here _ link ids _ e o) = cc (nil-chain_page raw base, e)
nil-Listed raw base id (later _ link ids _ e l) = cc (nil-chain_page raw base, e)

-- Every page of the batch is one that it may write, and so is every page that it can take next.
pub record IsBatch (raw : ReadPages) (base : Meta) (b : Batch) : Type 0 where
  pub same_base : b.base ≡ base
  pub owned : IsOwned (committed raw base) base b.now
  pub written :
      (id : PageId) (buf : Buf) → get id b.dirty ≡ some buf → IsFree (committed raw base) base id

pub begin-IsBatch : (raw : ReadPages) (base : Meta) → IsBatch raw base (begin base)
unfolding begin get
begin-IsBatch raw base = record {
  same_base = refl;
  owned = record { past = omega arith; pool = tt; chain = λ id l. l };
  written = λ id buf e. absurd (cc e);
}

-- A change of what a page holds, where there was one, or where the page is free.
insert-written :
    (raw : ReadPages) (base : Meta) (b : Batch) (at : PageId) (new : Buf)
    → IsBatch raw base b
    → IsFree (committed raw base) base at
    → (id : PageId) (buf : Buf) → get id (insert at new b.dirty) ≡ some buf
    → IsFree (committed raw base) base id
insert-written raw base b at new h free id buf e = elim (Bool-cases (id == at)) [
  | inl same ↦ (let at_id : id ≡ at = ground arith in rw at_id free)
  | inr other ↦
      (let ne : id ≢ at = λ s. ground arith in
        h.written id buf (sym (get-insert-ne at id new b.dirty ne) ∙ e))
]

allocate-IsBatch :
    (raw : ReadPages) (base : Meta) (t : PageType) (b : Batch)
    → IsBatch raw base b
    → IsBatch raw base (allocate (committed raw base) t b).1
unfolding allocate record_page
allocate-IsBatch raw base t b h =
    let taken =
      take_page_id-Taken (committed raw base) base b.now (λ id l. absurd (nil-Listed raw base id l))
        h.owned in
    record {
      same_base = h.same_base;
      owned = taken.1;
      written = insert-written raw base b _ _ h taken.0;
    }

write_through-IsBatch :
    (raw : ReadPages) (base : Meta) (old : Option Buf) (id : PageId) (change : Buf → Buf)
    (mark : Option Savepoint) (nodes : List (PageId × (Node × ℕ))) (b : Batch)
    → get id b.dirty ≡ old
    → IsBatch raw base b
    → IsBatch raw base (write_through old id change (record b { mark = mark; nodes = nodes })).1
unfolding write_through
write_through-IsBatch raw base none id change mark nodes b e h = record {
  same_base = h.same_base;
  owned = h.owned;
  written = h.written;
}
write_through-IsBatch raw base (some buf) id change mark nodes b e h = record {
  same_base = h.same_base;
  owned = h.owned;
  written = insert-written raw base b id (change buf) h (h.written id buf e);
}

change_kept-IsBatch :
    (raw : ReadPages) (base : Meta) (kept : Option (Node × ℕ)) (page : Option Buf) (id : PageId)
    (change : Node × ℕ → Node × ℕ) (written : Buf → Buf) (b : Batch)
    → get id b.dirty ≡ page
    → IsBatch raw base b
    → IsBatch raw base (change_kept kept page id change written b)
unfolding change_kept record_page
change_kept-IsBatch raw base none page id change written b e h = h
change_kept-IsBatch raw base (some kept) none id change written b e h = h
change_kept-IsBatch raw base (some kept) (some buf) id change written b e h = record {
  same_base = h.same_base;
  owned = h.owned;
  written = insert-written raw base b id (written buf) h (h.written id buf e);
}

-- Scalars that leave what can be taken.
scalars-IsBatch :
    (raw : ReadPages) (base : Meta) (s : Scalars) (b : Batch)
    → s.next_page ≡ b.now.next_page
    → s.reuse_pool ≡ b.now.reuse_pool
    → s.chain_cursor ≡ b.now.chain_cursor
    → IsBatch raw base b
    → IsBatch raw base (record b { now = s })
scalars-IsBatch raw base s b next pool cursor h = record {
  same_base = h.same_base;
  owned = record {
    past = rw next h.owned.past;
    pool = rw pool h.owned.pool;
    chain = rw cursor h.owned.chain;
  };
  written = h.written;
}

root-IsBatch :
    (raw : ReadPages) (base : Meta) (r : Root) (page : PageId) (b : Batch)
    → IsBatch raw base b
    → IsBatch raw base (set_root r page b)
unfolding set_root root_in
root-IsBatch raw base data_tree page b h = scalars-IsBatch raw base _ b refl refl refl h
root-IsBatch raw base catalog_tree page b h = scalars-IsBatch raw base _ b refl refl refl h
root-IsBatch raw base free_pages page b h = scalars-IsBatch raw base _ b refl refl refl h
root-IsBatch raw base commit_record page b h = scalars-IsBatch raw base _ b refl refl refl h
root-IsBatch raw base refs_tree page b h = scalars-IsBatch raw base _ b refl refl refl h

nodes-IsBatch :
    (raw : ReadPages) (base : Meta) (nodes : List (PageId × (Node × ℕ))) (b : Batch)
    → IsBatch raw base b
    → IsBatch raw base (record b { nodes = nodes })
nodes-IsBatch raw base nodes b h = record {
  same_base = h.same_base;
  owned = h.owned;
  written = h.written;
}

if-IsBatch :
    (raw : ReadPages) (base : Meta) (t : Bool) {x y : Batch}
    → IsBatch raw base x
    → IsBatch raw base y
    → IsBatch raw base (if t then x else y)
if-IsBatch raw base true h k = h
if-IsBatch raw base false h k = k

apply-IsBatch :
    (raw : ReadPages) (base : Meta) (op : Op) (b : Batch)
    → IsBatch raw base b
    → IsBatch raw base (apply (committed raw base) op b)
unfolding apply take_node_sized keep_node_sized kept_and_page_mut set_freelist page_mut record_page
apply-IsBatch raw base (alloc t) b h = allocate-IsBatch raw base t b h
apply-IsBatch raw base (write id change) b h =
    write_through-IsBatch raw base (get id b.dirty) id change _ _ b refl h
apply-IsBatch raw base (take_kept id) b h = nodes-IsBatch raw base _ b h
apply-IsBatch raw base (keep id node size) b h =
    if-IsBatch raw base _ (nodes-IsBatch raw base _ b h) (nodes-IsBatch raw base _ b h)
apply-IsBatch raw base (write_kept id change written) b h =
    change_kept-IsBatch raw base (get id b.nodes) (get id b.dirty) id change written b refl h
apply-IsBatch raw base (root r page) b h = root-IsBatch raw base r page b h
apply-IsBatch raw base (free_all ids) b h = scalars-IsBatch raw base _ b refl refl refl h

-- The calls of a statement keep the invariant: the base is the same, and what is written, and what can
-- be taken next, is past the end of the committed file or in its free list.
pub run-IsBatch :
    (raw : ReadPages) (base : Meta) (ops : List Op) (b : Batch)
    → IsBatch raw base b
    → IsBatch raw base (run (committed raw base) ops b)
unfolding run
run-IsBatch raw base [] b h = h
run-IsBatch raw base (op ∷ ops) b h =
    run-IsBatch raw base ops (apply (committed raw base) op b) (apply-IsBatch raw base op b h)

-- The bounds are checked twice, by the batch and by the pager.
committed-committed :
    (raw : ReadPages) (base : Meta) (id : PageId)
    → committed (committed raw base) base id ≡ committed raw base id
unfolding committed_bytes
committed-committed raw base id = elim (Bool-cases (ltb id 2 || leb base.page_count id)) [
  | inl e ↦ rw e refl
  | inr e ↦ rw e refl
]

unwritten-page_bytes :
    (raw : ReadPages) (base : Meta) (id : PageId) (b : Batch)
    → IsBatch raw base b
    → get id b.dirty ≡ none
    → page_bytes (committed raw base) id b ≡ committed raw base id
unfolding page_bytes visible
unwritten-page_bytes raw base id b h e = rw (e, h.same_base) (committed-committed raw base id)

-- Copy on write: a batch that has made any calls since `begin` still sees, on every page of the
-- committed file that the free list does not name, what the file holds.
pub page_bytes-run :
    (raw : ReadPages) (base : Meta) (ops : List Op) (id : PageId)
    → id < base.page_count
    → ¬ Listed (committed raw base) base.freelist_root id
    → page_bytes (committed raw base) id (run (committed raw base) ops (begin base))
      ≡ committed raw base id
page_bytes-run raw base ops id low unlisted =
    let h = run-IsBatch raw base ops (begin base) (begin-IsBatch raw base) in
    let after = run (committed raw base) ops (begin base) in
    elim (Option-cases (get id after.dirty)) [
      | inl e ↦ unwritten-page_bytes raw base id after h e
      | inr (buf, e) ↦ elim (h.written id buf e) [
        | inl past ↦ absurd (omega arith)
        | inr listed ↦ absurd (unlisted listed)
      ]
    ]
