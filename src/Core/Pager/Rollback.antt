-- ===== src/Core/Pager/Rollback.antt =====
-- For `savepoint` and `rollback_savepoint` of crates/quantydb-core/src/pager.rs.
use quanty_database.Prelude.{
  ℕ, ◌≡◌, ◌≢◌, refl, sym, ◌∙◌, ◌⊎◌, inl, inr, Bool, true, false, Bool-cases, Option, none, some,
  Option-cases, List, [], ◌∷◌, arith, All, ◌==◌, if◌then◌else◌,
}
use quanty_database.Prelude.Assoc.{
  get, insert, remove, get-insert, get-insert-ne, get-remove, get-remove-ne, All-insert,
}
use quanty_database.Core.Page.{PageId, Buf, PageType, init_header, zeroes}
use quanty_database.Core.Commit.{ReadPages}
use quanty_database.Core.Node.{Node}
use quanty_database.Core.Pager.{
  Batch, Scalars, Savepoint, savepoint, rollback_savepoint, roll_back_to, put_back, restore,
  or_insert, record_in, record_page, allocate, write_through, set_freelist, page_mut, take_page_id,
}
use quanty_database.Core.Pager.Steps.{
  Op, alloc, write, take_kept, keep, write_kept, root, free_all, apply, run, keep_node_sized,
  kept_and_page_mut, change_kept, set_root, take_node_sized,
}

-- The undo entries hold the pages of the batch before, and a page with no entry is untouched.
record Undoes (before : List (PageId × Buf)) (undo : List (PageId × Option Buf))
    (dirty : List (PageId × Buf)) : Type 0 where
  pub entries : All (λ e. e.1 ≡ get e.0 before) undo
  pub untouched : (id : PageId) → get id undo ≡ none → get id dirty ≡ get id before

get-put_back :
    (old : Option Buf) (id : PageId) (dirty : List (PageId × Buf))
    → get id (put_back old id dirty) ≡ old
unfolding put_back
get-put_back none id dirty = get-remove id dirty
get-put_back (some buf) id dirty = get-insert id buf dirty

get-put_back_ne :
    (old : Option Buf) (id j : PageId) (dirty : List (PageId × Buf))
    → j ≢ id
    → get j (put_back old id dirty) ≡ get j dirty
unfolding put_back
get-put_back_ne none id j dirty ne = get-remove-ne id j dirty ne
get-put_back_ne (some buf) id j dirty ne = get-insert-ne id j buf dirty ne

same_or_not : (j id : ℕ) → (j ≡ id) ⊎ (j ≢ id)
same_or_not j id = elim (Bool-cases (j == id)) [
  | inl e ↦ inl (ground arith)
  | inr e ↦ inr (λ same. ground arith)
]

restore-Undoes :
    (before : List (PageId × Buf)) (undo : List (PageId × Option Buf)) (dirty : List (PageId × Buf))
    → Undoes before undo dirty
    → (id : PageId) → get id (restore undo dirty) ≡ get id before
unfolding restore get
restore-Undoes before [] dirty u id = u.untouched id refl
restore-Undoes before ((k, old) ∷ undo) dirty u id =
    restore-Undoes before undo (put_back old k dirty)
      (record { entries = u.entries.1; untouched = left }) id
  where
    left : (j : PageId) → get j undo ≡ none → get j (put_back old k dirty) ≡ get j before
    left j none_left = elim (same_or_not j k) [
      | inl e ↦ rw e (get-put_back old k dirty ∙ u.entries.0)
      | inr ne ↦ get-put_back_ne old k j dirty ne ∙ u.untouched j (ground arith)
    ]

-- A write to one page, recorded.
touch-Undoes :
    (before : List (PageId × Buf)) (undo : List (PageId × Option Buf)) (id : PageId)
    (dirty dirty' : List (PageId × Buf))
    → Undoes before undo dirty
    → ((j : PageId) → j ≢ id → get j dirty' ≡ get j dirty)
    → Undoes before (or_insert id (get id dirty) undo) dirty'
unfolding or_insert
touch-Undoes before undo id dirty dirty' u others = elim (Option-cases (get id undo)) [
  | inl e ↦
      rw (or_insert, e)
        (record {
          entries =
              All-insert (λ x. x.1 ≡ get x.0 before) id (get id dirty) undo (u.untouched id e)
                u.entries;
          untouched = λ j left.
              let ne : j ≢ id = λ same. cc (rw (same, get-insert id (get id dirty) undo) at left) in
              others j ne ∙ u.untouched j (sym (get-insert-ne id j (get id dirty) undo ne) ∙ left);
        })
  | inr (seen, e) ↦
      rw (or_insert, e)
        (record {
          entries = u.entries;
          untouched = λ j left.
              let ne : j ≢ id = λ same. cc (rw (same, e) at left) in
              others j ne ∙ u.untouched j left;
        })
]

-- A batch on its way from the savepoint of another.
record Marked (b c : Batch) : Type 0 where
  pub point : Savepoint
  pub marked : c.mark ≡ some point
  pub scalars : point.before ≡ b.now
  pub pages : Undoes b.dirty point.undo c.dirty
  pub base : c.base ≡ b.base

savepoint-Marked : (b : Batch) → Marked b (savepoint b)
unfolding savepoint get
savepoint-Marked b = record {
  point = record { before = b.now; undo = [] };
  marked = refl;
  scalars = refl;
  pages = record { entries = tt; untouched = λ id _. refl };
  base = refl;
}

-- Neither the scalars nor the kept nodes are in the undo log.
scalars-Marked :
    (b c : Batch) (s : Scalars) (nodes : List (PageId × (Node × ℕ)))
    → Marked b c
    → Marked b (record c { now = s; nodes = nodes })
scalars-Marked b c s nodes m = record {
  point = m.point;
  marked = m.marked;
  scalars = m.scalars;
  pages = m.pages;
  base = m.base;
}

-- A page recorded, then written, or not.
touch-Marked :
    (b c : Batch) (id : PageId) (dirty' : List (PageId × Buf)) (s : Scalars)
    (nodes : List (PageId × (Node × ℕ)))
    → ((j : PageId) → j ≢ id → get j dirty' ≡ get j c.dirty)
    → Marked b c
    → Marked b (record (record_page id c) { now = s; dirty = dirty'; nodes = nodes })
unfolding record_page record_in
touch-Marked b c id dirty' s nodes others m = record {
  point = record (m.point) { undo = or_insert id (get id c.dirty) m.point.undo };
  marked = rw (m.marked);
  scalars = m.scalars;
  pages = touch-Undoes b.dirty m.point.undo id c.dirty dirty' m.pages others;
  base = m.base;
}

allocate-Marked :
    (src : ReadPages) (t : PageType) (b c : Batch) → Marked b c → Marked b (allocate src t c).1
unfolding allocate record_page
allocate-Marked src t b c m =
    let id = (take_page_id src c.now).0 in
    touch-Marked b c id (insert id (init_header t (zeroes c.base.page_size)) c.dirty)
      (take_page_id src c.now).1 (remove id c.nodes)
      (λ j ne. get-insert-ne id j (init_header t (zeroes c.base.page_size)) c.dirty ne) m

write_through-Marked :
    (old : Option Buf) (id : PageId) (change : Buf → Buf) (b c : Batch)
    → Marked b c
    → Marked b
        (write_through old id change (record (record_page id c) { nodes = remove id c.nodes })).1
unfolding write_through record_page
write_through-Marked none id change b c m =
    touch-Marked b c id c.dirty c.now (remove id c.nodes) (λ j ne. refl) m
write_through-Marked (some buf) id change b c m =
    touch-Marked b c id (insert id (change buf) c.dirty) c.now (remove id c.nodes)
      (λ j ne. get-insert-ne id j (change buf) c.dirty ne) m

write-Marked :
    (id : PageId) (change : Buf → Buf) (b c : Batch)
    → Marked b c
    → Marked b (page_mut id change c).1
unfolding page_mut record_page
write-Marked id change b c m = write_through-Marked (get id c.dirty) id change b c m

change_kept-Marked :
    (kept : Option (Node × ℕ)) (page : Option Buf) (id : PageId) (change : Node × ℕ → Node × ℕ)
    (written : Buf → Buf) (b c : Batch)
    → Marked b c
    → Marked b (change_kept kept page id change written c)
unfolding change_kept record_page
change_kept-Marked none page id change written b c m = m
change_kept-Marked (some kept) none id change written b c m = m
change_kept-Marked (some kept) (some buf) id change written b c m =
    touch-Marked b c id (insert id (written buf) c.dirty) c.now (insert id (change kept) c.nodes)
      (λ j ne. get-insert-ne id j (written buf) c.dirty ne) m

if-Marked :
    (b : Batch) (t : Bool) {x y : Batch} → Marked b x → Marked b y → Marked b (if t then x else y)
if-Marked b true h k = h
if-Marked b false h k = k

-- Every call keeps what undoes it.
apply-Marked : (src : ReadPages) (op : Op) (b c : Batch) → Marked b c → Marked b (apply src op c)
unfolding apply take_node_sized keep_node_sized kept_and_page_mut set_root set_freelist
apply-Marked src (alloc t) b c m = allocate-Marked src t b c m
apply-Marked src (write id change) b c m = write-Marked id change b c m
apply-Marked src (take_kept id) b c m = scalars-Marked b c c.now (remove id c.nodes) m
apply-Marked src (keep id node size) b c m =
    if-Marked b _ (scalars-Marked b c c.now (insert id (node, size) []) m)
      (scalars-Marked b c c.now (insert id (node, size) c.nodes) m)
apply-Marked src (write_kept id change written) b c m =
    change_kept-Marked (get id c.nodes) (get id c.dirty) id change written b c m
apply-Marked src (root r page) b c m = scalars-Marked b c _ c.nodes m
apply-Marked src (free_all ids) b c m = scalars-Marked b c _ c.nodes m

run-Marked : (src : ReadPages) (ops : List Op) (b c : Batch) → Marked b c → Marked b (run src ops c)
unfolding run
run-Marked src [] b c m = m
run-Marked src (op ∷ ops) b c m = run-Marked src ops b (apply src op c) (apply-Marked src op b c m)

-- A batch that another cannot be told from, but for the nodes that it keeps decoded.
pub record Restored (b c : Batch) : Type 0 where
  pub same_base : c.base ≡ b.base
  pub same_scalars : c.now ≡ b.now
  pub same_pages : (id : PageId) → get id c.dirty ≡ get id b.dirty
  pub no_savepoint : c.mark ≡ none

rollback-Marked : (b c : Batch) → Marked b c → Restored b (rollback_savepoint c)
unfolding rollback_savepoint roll_back_to
rollback-Marked b c m = rw (m.marked) (record {
  same_base = m.base;
  same_scalars = m.scalars;
  same_pages = λ id. restore-Undoes b.dirty m.point.undo c.dirty m.pages id;
  no_savepoint = refl;
})

-- Whatever a statement does after its savepoint, allocating, writing pages, taking and keeping nodes,
-- moving roots and replacing the free list, in any order and with refused calls, the rollback gives
-- back the scalars of the batch and every page it had written, and no page besides.
pub rollback-run :
    (src : ReadPages) (ops : List Op) (b : Batch)
    → Restored b (rollback_savepoint (run src ops (savepoint b)))
rollback-run src ops b =
    rollback-Marked b (run src ops (savepoint b))
      (run-Marked src ops b (savepoint b) (savepoint-Marked b))
