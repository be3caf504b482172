-- ===== src/Core/Cache.antt =====
-- crates/quantydb-core/src/cache.rs: the page cache with clock eviction. A shared buffer is the buffer.
pub mod Clock
pub mod Eviction
mod Tests
use quanty_database.Prelude.{
  ℕ, zero, suc, ◌+◌, ◌%◌, Bool, true, false, Option, none, some, List, [], ◌∷◌, ◌++◌, ltb,
  if◌then◌else◌, length, get_elem?, set,
}
use quanty_database.Prelude.Assoc.{get, insert, remove}
use quanty_database.Core.Page.{PageId, Buf}

pub record Slot : Type 0 where
  pub id : PageId
  pub buf : Buf
  pub referenced : Bool

pub record PageCache : Type 0 where
  pub map : List (PageId × ℕ)
  pub slots : List Slot
  pub hand : ℕ
  pub capacity : ℕ

unfoldable pub new : ℕ → PageCache
new capacity = record {
  map = [];
  slots = [];
  hand = 0;
  capacity = if ltb capacity 8 then 8 else capacity;
}

-- The slot of an index that the map gave; the source panics where there is none.
unfoldable pub hit : ℕ → Option Slot → PageCache → Option Buf × PageCache
hit i none c = (none, c)
hit i (some s) c = (some s.buf, record c { slots = set c.slots i (record s { referenced = true }) })

unfoldable pub looked_up : Option ℕ → PageCache → Option Buf × PageCache
looked_up none c = (none, c)
looked_up (some i) c = hit i (get_elem? c.slots i) c

-- `get`
unfoldable pub get_page : PageId → PageCache → Option Buf × PageCache
get_page id c = looked_up (get id c.map) c

-- One turn of the clock: a referenced slot is spared, another is evicted and the sweep ends.
unfoldable pub turn :
    (PageCache → Option PageCache) → PageId → Buf → Option Slot → PageCache → Option PageCache
turn again id buf none c = none
turn again id buf (some victim) c =
    let hand = (c.hand + 1) % length c.slots in
    if victim.referenced
    then again (record c {
      hand = hand;
      slots = set c.slots c.hand (record victim { referenced = false });
    })
    else some (record c {
      hand = hand;
      slots = set c.slots c.hand (record { id = id; buf = buf; referenced = true });
      map = insert id c.hand (remove victim.id c.map);
    })

-- The loop, with the turns that are left; `none` is that they ran out, or that the hand is off the ring.
unfoldable pub sweep : ℕ → PageId → Buf → PageCache → Option PageCache
sweep zero id buf c = none
sweep (suc fuel) id buf c = turn (sweep fuel id buf) id buf (get_elem? c.slots c.hand) c

unfoldable pub replace : ℕ → Buf → Option Slot → PageCache → PageCache
replace i buf none c = c
replace i buf (some s) c = record c {
  slots = set c.slots i (record s { buf = buf; referenced = true });
}

unfoldable pub insert_at : Option ℕ → PageId → Buf → PageCache → Option PageCache
insert_at (some i) id buf c = some (replace i buf (get_elem? c.slots i) c)
insert_at none id buf c =
    if ltb (length c.slots) c.capacity
    then some (record c {
      slots = c.slots ++ record { id = id; buf = buf; referenced = true } ∷ [];
      map = insert id (length c.slots) c.map;
    })
    else sweep (length c.slots + 1) id buf c

-- `insert`. The sweep spares each slot at most once.
unfoldable pub insert_page : PageId → Buf → PageCache → Option PageCache
insert_page id buf c = insert_at (get id c.map) id buf c
