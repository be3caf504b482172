-- ===== src/Core/Pager.antt =====
-- `WriteBatch` of crates/quantydb-core/src/pager.rs: the pages that a transaction writes, its
-- savepoint, and how it is put down and taken up again. The committed pages are a `ReadPages`.
pub mod Steps
pub mod Rollback
pub mod Ownership
pub mod CopyOnWrite
pub mod Suspend
pub mod WriteRecord
pub mod Settle
pub mod Durable
pub mod Crash
pub mod Open
use quanty_database.Prelude.{
  ℕ, ◌+◌, ◌-◌, Bool, true, false, not, ◌&&◌, ◌||◌, Option, none, some, List, [], ◌∷◌, ◌++◌, ltb,
  leb, ◌==◌, if◌then◌else◌, length, pop,
}
use quanty_database.Prelude.Assoc.{get, insert, remove}
use quanty_database.Prelude.Result.{Result, ok, err, ◌>>=◌}
use quanty_database.Core.Error.{Error, page_not_writable, page_out_of_bounds, invalid_argument}
use quanty_database.Core.Page.{PageId, Buf, PageType, nil_page, init_header, zeroes}
use quanty_database.Core.Meta.{Meta}
use quanty_database.Core.FreeList.{decode_page}
use quanty_database.Core.Commit.{ReadPages}
use quanty_database.Core.Node.{Node}

-- The scalars that the batch, its savepoint and a suspended batch share.
pub record Scalars : Type 0 where
  pub next_page : PageId
  pub data_root : PageId
  pub catalog_root : PageId
  pub freelist_root : PageId
  pub commit_page : PageId
  pub refs_root : PageId
  pub reuse_pool : List PageId
  pub chain_cursor : PageId
  pub deferred_free : List PageId
  pub touched_freelist : Bool
  pub allow_reuse : Bool
  pub freelist_override : Option (List PageId)

pub record Savepoint : Type 0 where
  pub before : Scalars
  pub undo : List (PageId × Option Buf)

pub record Batch : Type 0 where
  pub base : Meta
  pub now : Scalars
  pub dirty : List (PageId × Buf)
  pub mark : Option Savepoint
  pub nodes : List (PageId × (Node × ℕ))

pub record SuspendedBatch : Type 0 where
  pub base : Meta
  pub now : Scalars
  pub dirty : List (PageId × Buf)
  pub nodes : List (PageId × (Node × ℕ))

unfoldable pub begin : Meta → Batch
begin base = record {
  base = base;
  now = record {
    next_page = base.page_count;
    data_root = base.data_root;
    catalog_root = base.catalog_root;
    freelist_root = base.freelist_root;
    commit_page = base.commit_page;
    refs_root = base.refs_root;
    reuse_pool = [];
    chain_cursor = base.freelist_root;
    deferred_free = [];
    touched_freelist = false;
    allow_reuse = true;
    freelist_override = none;
  };
  dirty = [];
  mark = none;
  nodes = [];
}

unfoldable pub suspend : Batch → SuspendedBatch
suspend b = record {
  base = b.base;
  now = record {
    next_page = b.now.next_page;
    data_root = b.now.data_root;
    catalog_root = b.now.catalog_root;
    freelist_root = b.now.freelist_root;
    commit_page = b.now.commit_page;
    refs_root = b.now.refs_root;
    reuse_pool = b.now.reuse_pool;
    chain_cursor = b.now.chain_cursor;
    deferred_free = b.now.deferred_free;
    touched_freelist = b.now.touched_freelist;
    allow_reuse = b.now.allow_reuse;
    freelist_override = b.now.freelist_override;
  };
  dirty = b.dirty;
  nodes = b.nodes;
}

-- `Pager::resume`, with the committed meta of the pager.
unfoldable pub resume : Meta → SuspendedBatch → Result Error Batch
resume current s =
    if not (current.txid == s.base.txid)
    then err invalid_argument
    else ok (record {
      base = s.base;
      now = record {
        next_page = s.now.next_page;
        data_root = s.now.data_root;
        catalog_root = s.now.catalog_root;
        freelist_root = s.now.freelist_root;
        commit_page = s.now.commit_page;
        refs_root = s.now.refs_root;
        reuse_pool = s.now.reuse_pool;
        chain_cursor = s.now.chain_cursor;
        deferred_free = s.now.deferred_free;
        touched_freelist = s.now.touched_freelist;
        allow_reuse = s.now.allow_reuse;
        freelist_override = s.now.freelist_override;
      };
      dirty = s.dirty;
      mark = none;
      nodes = s.nodes;
    })

unfoldable pub savepoint : Batch → Batch
savepoint b = record b {
  mark = some (record {
    before = record {
      next_page = b.now.next_page;
      data_root = b.now.data_root;
      catalog_root = b.now.catalog_root;
      freelist_root = b.now.freelist_root;
      commit_page = b.now.commit_page;
      refs_root = b.now.refs_root;
      reuse_pool = b.now.reuse_pool;
      chain_cursor = b.now.chain_cursor;
      deferred_free = b.now.deferred_free;
      touched_freelist = b.now.touched_freelist;
      allow_reuse = b.now.allow_reuse;
      freelist_override = b.now.freelist_override;
    };
    undo = [];
  });
}

unfoldable pub release_savepoint : Batch → Batch
release_savepoint b = record b { mark = none }

unfoldable pub put_back : Option Buf → PageId → List (PageId × Buf) → List (PageId × Buf)
put_back (some buf) id dirty = insert id buf dirty
put_back none id dirty = remove id dirty

unfoldable pub restore : List (PageId × Option Buf) → List (PageId × Buf) → List (PageId × Buf)
restore [] dirty = dirty
restore ((id, before) ∷ undo) dirty = restore undo (put_back before id dirty)

unfoldable pub forget :
    List (PageId × Option Buf) → List (PageId × (Node × ℕ)) → List (PageId × (Node × ℕ))
forget [] nodes = nodes
forget ((id, before) ∷ undo) nodes = forget undo (remove id nodes)

unfoldable pub roll_back_to : Option Savepoint → Batch → Batch
roll_back_to none b = b
roll_back_to (some m) b = record b {
  now = record {
    next_page = m.before.next_page;
    data_root = m.before.data_root;
    catalog_root = m.before.catalog_root;
    freelist_root = m.before.freelist_root;
    commit_page = m.before.commit_page;
    refs_root = m.before.refs_root;
    reuse_pool = m.before.reuse_pool;
    chain_cursor = m.before.chain_cursor;
    deferred_free = m.before.deferred_free;
    touched_freelist = m.before.touched_freelist;
    allow_reuse = m.before.allow_reuse;
    freelist_override = m.before.freelist_override;
  };
  dirty = restore m.undo b.dirty;
  mark = none;
  nodes = forget m.undo b.nodes;
}

unfoldable pub rollback_savepoint : Batch → Batch
unfolding roll_back_to
rollback_savepoint b = roll_back_to b.mark b

-- `undo.entry(id).or_insert_with(...)`
unfoldable pub or_insert :
    PageId → Option Buf → List (PageId × Option Buf) → List (PageId × Option Buf)
or_insert id before undo = elim (get id undo) [ some seen ↦ undo | none ↦ insert id before undo ]

unfoldable pub record_in : Option Savepoint → PageId → List (PageId × Buf) → Option Savepoint
record_in none id dirty = none
record_in (some m) id dirty = some (record m { undo = or_insert id (get id dirty) m.undo })

-- `record`: what a page held before it is touched.
unfoldable pub record_page : PageId → Batch → Batch
unfolding record_in
record_page id b = record b { mark = record_in b.mark id b.dirty }

abbrev pub is_nil : List PageId → Bool
is_nil [] = true
is_nil (x ∷ xs) = false

-- The next page of the free list into the pool; a page that cannot be read ends the chain.
unfoldable pub pulled : Result Error (PageId × List PageId) → Scalars → Scalars
pulled (err e) s = record s { chain_cursor = nil_page }
pulled (ok (next, ids)) s = record s {
  reuse_pool = s.reuse_pool ++ ids;
  deferred_free = s.deferred_free ++ s.chain_cursor ∷ [];
  chain_cursor = next;
  touched_freelist = true;
}

unfoldable pub chain_page : ReadPages → PageId → Result Error (PageId × List PageId)
chain_page src at = do buf ← src at; decode_page buf at

unfoldable pub refill : ReadPages → Scalars → Scalars
refill src s =
    if is_nil s.reuse_pool && not (s.chain_cursor == nil_page)
    then pulled (chain_page src s.chain_cursor) s
    else s

unfoldable pub extend_file : Scalars → PageId × Scalars
extend_file s = (s.next_page, record s { next_page = s.next_page + 1 })

unfoldable pub popped : Option (PageId × List PageId) → Scalars → PageId × Scalars
popped none s = extend_file s
popped (some (id, rest)) s = (id, record s { reuse_pool = rest })

unfoldable pub take_page_id : ReadPages → Scalars → PageId × Scalars
take_page_id src s =
    let s' = refill src s in if s.allow_reuse then popped (pop s'.reuse_pool) s' else extend_file s

unfoldable pub allocate : ReadPages → PageType → Batch → PageId × Batch
allocate src t b =
    let (id, s) = take_page_id src b.now in
    let b' = record_page id (record b { now = s }) in
    (
      id,
      record b' {
        dirty = insert id (init_header t (zeroes b.base.page_size)) b'.dirty;
        nodes = remove id b'.nodes;
      },
    )

unfoldable pub set_freelist : List PageId → Batch → Batch
set_freelist ids b = record b {
  now = record (b.now) { freelist_override = some ids; touched_freelist = true };
}

unfoldable pub write_through :
    Option Buf → PageId → (Buf → Buf) → Batch → Result Error (Unit {0}) × Batch
write_through none id change b = (err (page_not_writable id), b)
write_through (some buf) id change b = (ok tt, record b { dirty = insert id (change buf) b.dirty })

-- `page_mut`, and what the caller then makes of the page.
unfoldable pub page_mut : PageId → (Buf → Buf) → Batch → Result Error (Unit {0}) × Batch
page_mut id change b =
    let b' = record_page id b in
    write_through (get id b'.dirty) id change (record b' { nodes = remove id b'.nodes })
