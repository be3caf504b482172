-- ===== src/Core/Pager/Ownership.antt =====
-- For `take_page_id` of crates/quantydb-core/src/pager.rs: where the pages of a batch come from.
use quanty_database.Prelude.{
  pop, pop_behind, ◌≤◌, ◌≡◌, refl, ◌⊎◌, inl, inr, Bool, true, false, Option, none, some, List, [],
  ◌∷◌, ◌++◌, arith, All, if◌then◌else◌, ◌==◌, not, ◌&&◌,
}
use quanty_database.Prelude.Result.{Result, ok, err}
use quanty_database.Core.Error.{Error}
use quanty_database.Core.Page.{PageId, nil_page}
use quanty_database.Core.Commit.{ReadPages}
use quanty_database.Core.Meta.{Meta}
use quanty_database.Core.Pager.{
  Scalars, take_page_id, chain_page, refill, pulled, popped, extend_file, is_nil,
}

pub data Occurs (id : PageId) : List PageId → Type 0 where
  first : (ids : List PageId) → Occurs id (id ∷ ids)
  next : (x : PageId) (ids : List PageId) → Occurs id ids → Occurs id (x ∷ ids)

-- The ids of the free list that starts at a page.
pub data Listed (src : ReadPages) : PageId → PageId → Type 0 where
  here :
      (at link : PageId) (ids : List PageId) (id : PageId)
      → chain_page src at ≡ ok (link, ids)
      → Occurs id ids
      → Listed src at id
  later :
      (at link : PageId) (ids : List PageId) (id : PageId)
      → chain_page src at ≡ ok (link, ids)
      → Listed src link id
      → Listed src at id

-- A page that the batch may write.
abbrev pub IsFree : ReadPages → Meta → PageId → Type 0
IsFree src base id = (base.page_count ≤ id) ⊎ Listed src base.freelist_root id

All-append : (P : PageId → Type 0) (xs ys : List PageId) → All P xs → All P ys → All P (xs ++ ys)
All-append P [] ys h k = k
All-append P (x ∷ xs) ys (h, hs) k = (h, All-append P xs ys hs k)

All-Occurs :
    (P : PageId → Type 0) (ids : List PageId) → ((id : PageId) → Occurs id ids → P id) → All P ids
All-Occurs P [] h = tt
All-Occurs P (x ∷ ids) h = (h x (first ids), All-Occurs P ids (λ id o. h id (next x ids o)))

-- A predicate on what `pop` gives, and on what it leaves.
AllPopped : (PageId → Type 0) → Option (PageId × List PageId) → Type 0
AllPopped P none = Unit
AllPopped P (some (id, rest)) = P id × All P rest

AllPopped-pop_behind :
    (P : PageId → Type 0) (x : PageId) (o : Option (PageId × List PageId))
    → P x
    → AllPopped P o
    → AllPopped P (pop_behind x o)
unfolding AllPopped
AllPopped-pop_behind P x none h k = (h, tt)
AllPopped-pop_behind P x (some (last, rest)) h k = (k.0, (h, k.1))

AllPopped-pop : (P : PageId → Type 0) (ids : List PageId) → All P ids → AllPopped P (pop ids)
unfolding AllPopped
AllPopped-pop P [] h = tt
AllPopped-pop P (x ∷ ids) (h, hs) = AllPopped-pop_behind P x (pop ids) h (AllPopped-pop P ids hs)

-- What the batch may take next: pages past the committed end, and listed pages.
pub record IsOwned (src : ReadPages) (base : Meta) (s : Scalars) : Type 0 where
  pub past : base.page_count ≤ s.next_page
  pub pool : All (IsFree src base) s.reuse_pool
  pub chain : (id : PageId) → Listed src s.chain_cursor id → Listed src base.freelist_root id

-- The nil page has no list, since no page of the file is read at it.
pulled-IsOwned :
    (src : ReadPages) (base : Meta) (s : Scalars) (r : Result Error (PageId × List PageId))
    → ((id : PageId) → Listed src nil_page id → Listed src base.freelist_root id)
    → chain_page src s.chain_cursor ≡ r
    → IsOwned src base s
    → IsOwned src base (pulled r s)
unfolding pulled
pulled-IsOwned src base s (err e) nil_empty read h = record {
  past = h.past;
  pool = h.pool;
  chain = nil_empty;
}
pulled-IsOwned src base s (ok (link, ids)) nil_empty read h = record {
  past = h.past;
  pool = All-append (IsFree src base) s.reuse_pool ids h.pool (
      All-Occurs (IsFree src base) ids
        (λ id o. inr (h.chain id (here s.chain_cursor link ids id read o))));
  chain = λ id l. h.chain id (later s.chain_cursor link ids id read l);
}

-- The page that is taken, and what can be taken after it.
abbrev pub Taken : ReadPages → Meta → PageId × Scalars → Type 0
Taken src base (id, s) = IsFree src base id × IsOwned src base s

extend_file-Taken :
    (src : ReadPages) (base : Meta) (s : Scalars)
    → IsOwned src base s
    → Taken src base (extend_file s)
unfolding extend_file
extend_file-Taken src base s h =
    (inl h.past, record { past = omega (arith, h.past); pool = h.pool; chain = h.chain })

popped-Taken :
    (src : ReadPages) (base : Meta) (s : Scalars) (o : Option (PageId × List PageId))
    → AllPopped (IsFree src base) o
    → IsOwned src base s
    → Taken src base (popped o s)
unfolding popped AllPopped
popped-Taken src base s none k h = extend_file-Taken src base s h
popped-Taken src base s (some (id, rest)) k h =
    (k.0, record { past = h.past; pool = k.1; chain = h.chain })

if-IsOwned :
    (src : ReadPages) (base : Meta) (t : Bool) {x y : Scalars}
    → IsOwned src base x
    → IsOwned src base y
    → IsOwned src base (if t then x else y)
if-IsOwned src base true h k = h
if-IsOwned src base false h k = k

if-Taken :
    (src : ReadPages) (base : Meta) (t : Bool) {x y : PageId × Scalars}
    → Taken src base x
    → Taken src base y
    → Taken src base (if t then x else y)
if-Taken src base true h k = h
if-Taken src base false h k = k

pub take_page_id-Taken :
    (src : ReadPages) (base : Meta) (s : Scalars)
    → ((id : PageId) → Listed src nil_page id → Listed src base.freelist_root id)
    → IsOwned src base s
    → Taken src base (take_page_id src s)
unfolding take_page_id refill
take_page_id-Taken src base s nil_empty h =
    if-Taken src base s.allow_reuse
      (popped-Taken src base filled (pop filled.reuse_pool)
        (AllPopped-pop (IsFree src base) filled.reuse_pool owned.pool) owned)
      (extend_file-Taken src base s h)
  where
    filled : Scalars
    filled = refill src s

    owned : IsOwned src base filled
    owned =
        if-IsOwned src base (is_nil s.reuse_pool && not (s.chain_cursor == nil_page))
          (pulled-IsOwned src base s (chain_page src s.chain_cursor) nil_empty refl h) h
