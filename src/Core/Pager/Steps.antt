-- ===== src/Core/Pager/Steps.antt =====
-- What a statement does to a `WriteBatch` between its savepoint and its end: the other methods of
-- crates/quantydb-core/src/pager.rs, and sequences of them.
use quanty_database.Prelude.{
  ℕ, ◌-◌, Bool, true, false, not, ◌&&◌, ◌||◌, Option, none, some, List, [], ◌∷◌, ltb, leb,
  if◌then◌else◌, length,
}
use quanty_database.Prelude.Assoc.{get, insert, remove}
use quanty_database.Prelude.Result.{Result, ok, err}
use quanty_database.Core.Error.{Error, page_out_of_bounds}
use quanty_database.Core.Page.{PageId, Buf, PageType}
use quanty_database.Core.Commit.{ReadPages}
use quanty_database.Core.Node.{Node}
use quanty_database.Core.Meta.{Meta}
use quanty_database.Core.Pager.{Batch, Scalars, record_page, allocate, set_freelist, page_mut}

abbrev pub node_cache_pages : ℕ
node_cache_pages = 256

abbrev pub has {ℓ} : {A : Type ℓ} → Option A → Bool
has none = false
has (some a) = true

unfoldable pub take_node_sized : PageId → Batch → Option (Node × ℕ) × Batch
take_node_sized id b = (get id b.nodes, record b { nodes = remove id b.nodes })

unfoldable pub keep_node_sized : PageId → Node → ℕ → Batch → Batch
keep_node_sized id node size b =
    if leb node_cache_pages (length b.nodes) && not (has (get id b.nodes))
    then record b { nodes = insert id (node, size) [] }
    else record b { nodes = insert id (node, size) b.nodes }

-- What the caller of `kept_and_page_mut` does to the node and the page.
unfoldable pub change_kept :
    Option (Node × ℕ) → Option Buf → PageId → (Node × ℕ → Node × ℕ) → (Buf → Buf) → Batch → Batch
change_kept none page id change write b = b
change_kept (some kept) none id change write b = b
change_kept (some kept) (some buf) id change write b =
    let b' = record_page id b in
    record b' { nodes = insert id (change kept) b'.nodes; dirty = insert id (write buf) b'.dirty }

-- `kept_and_page_mut`
unfoldable pub kept_and_page_mut : PageId → (Node × ℕ → Node × ℕ) → (Buf → Buf) → Batch → Batch
unfolding change_kept
kept_and_page_mut id change write b =
    change_kept (get id b.nodes) (get id b.dirty) id change write b

unfoldable pub owns : PageId → Batch → Bool
owns id b = has (get id b.dirty)

unfoldable pub allocated : Batch → ℕ
allocated b = b.now.next_page - b.base.page_count

unfoldable pub committed_bytes : ReadPages → PageId → Meta → Result Error Buf
committed_bytes src id base =
    if ltb id 2 || leb base.page_count id then err (page_out_of_bounds id) else src id

unfoldable pub visible : ReadPages → Option Buf → PageId → Meta → Result Error Buf
visible src (some buf) id base = ok buf
visible src none id base = committed_bytes src id base

-- `page_bytes` and `read_page`: the page as the batch sees it.
unfoldable pub page_bytes : ReadPages → PageId → Batch → Result Error Buf
unfolding visible
page_bytes src id b = visible src (get id b.dirty) id b.base

pub data Root : Type 0 where
  data_tree catalog_tree free_pages commit_record refs_tree : Root

-- `set_data_root` and the other setters of roots.
unfoldable pub root_in : Root → PageId → Scalars → Scalars
root_in data_tree root s = record s { data_root = root }
root_in catalog_tree root s = record s { catalog_root = root }
root_in free_pages root s = record s { freelist_root = root }
root_in commit_record root s = record s { commit_page = root }
root_in refs_tree root s = record s { refs_root = root }

unfoldable pub set_root : Root → PageId → Batch → Batch
set_root r root b = record b { now = root_in r root b.now }

-- One call of a method.
pub data Op : Type 0 where
  alloc : PageType → Op
  write : PageId → (Buf → Buf) → Op
  take_kept : PageId → Op
  keep : PageId → Node → ℕ → Op
  write_kept : PageId → (Node × ℕ → Node × ℕ) → (Buf → Buf) → Op
  root : Root → PageId → Op
  free_all : List PageId → Op

unfoldable pub apply : ReadPages → Op → Batch → Batch
apply src (alloc t) b = (allocate src t b).1
apply src (write id change) b = (page_mut id change b).1
apply src (take_kept id) b = (take_node_sized id b).1
apply src (keep id node size) b = keep_node_sized id node size b
apply src (write_kept id change written) b = kept_and_page_mut id change written b
apply src (root r page) b = set_root r page b
apply src (free_all ids) b = set_freelist ids b

unfoldable pub run : ReadPages → List Op → Batch → Batch
run src [] b = b
run src (op ∷ ops) b = run src ops (apply src op b)
