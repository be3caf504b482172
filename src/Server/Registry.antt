-- ===== src/Server/Registry.antt =====
-- crates/quantydb-server/src/registry.rs, with `Token` of poll/mod.rs: the connections that a worker
-- owns, in slots with generations. A socket is of any type.
pub mod Stale
mod Tests
use quanty_database.Prelude.{
  ℕ, zero, suc, ◌+◌, ◌-◌, ◌*◌, ◌/◌, ◌%◌, ◌^◌, Bool, true, false, not, Option, none, some, List, [],
  ◌∷◌, ◌++◌, ◌==◌, if◌then◌else◌, length, get_elem?, set, pop,
}
use quanty_database.Server.Conn
use quanty_database.Server.Conn.{Conn}

-- The low 32 bits are the slot, the high 32 the generation.
abbrev pub Token : Type 0
Token = ℕ

unfoldable pub token_of : (index generation : ℕ) → Token
token_of index generation = generation * 2 ^ 32 + index

unfoldable pub index_of : Token → ℕ
index_of t = t % 2 ^ 32

unfoldable pub generation_of : Token → ℕ
generation_of t = t / 2 ^ 32 % 2 ^ 32

-- `wrapping_add(1)`
abbrev pub next_generation : ℕ → ℕ
next_generation g = (g + 1) % 2 ^ 32

pub record Connection (S : Type 0) : Type 0 where
  pub socket : S
  pub token : Token
  pub id : ℕ
  pub state : Conn
  pub interest : ℕ

pub record Slot (S : Type 0) : Type 0 where
  pub generation : ℕ
  pub conn : Option (Connection S)

pub record Registry (S : Type 0) : Type 0 where
  pub slots : List (Slot S)
  pub free : List ℕ
  pub live : ℕ

unfoldable pub empty : {S : Type 0} → Registry S
empty = record { slots = []; free = []; live = 0 }

unfoldable pub new_slot : {S : Type 0} → Slot S
new_slot = record { generation = 0; conn = none }

-- The last free slot, or a new one: its index as a `u32`, and the registry that has it and not as free.
unfoldable pub placed : {S : Type 0} → Option (ℕ × List ℕ) → Registry S → ℕ × Registry S
placed none r = (length r.slots % 2 ^ 32, record r { slots = r.slots ++ new_slot ∷ [] })
placed (some (i, rest)) r = (i, record r { free = rest })

-- The source panics out of range.
unfoldable pub generation_at : {S : Type 0} → Option (Slot S) → ℕ
generation_at none = 0
generation_at (some s) = s.generation

abbrev pub readable : ℕ
readable = 1

-- A socket into a slot, whose generation goes up by one.
unfoldable pub occupy : {S : Type 0} → ℕ → S → ℕ → Registry S → Token × Registry S
occupy index socket id r =
    let generation = next_generation (generation_at (get_elem? r.slots index)) in
    let token = token_of index generation in
    (
      token,
      record r {
        slots = set r.slots index (record {
          generation = generation;
          conn = some (record {
            socket = socket;
            token = token;
            id = id;
            state = Conn.new;
            interest = readable;
          });
        });
        live = r.live + 1;
      },
    )

-- `insert`, with the id that `ConnId::next` gives.
unfoldable pub insert_conn : {S : Type 0} → S → ℕ → Registry S → Token × Registry S
insert_conn socket id r = let (index, r') = placed (pop r.free) r in occupy index socket id r'

unfoldable pub occupant : {S : Type 0} → ℕ → Option (Slot S) → Option (Connection S)
occupant generation none = none
occupant generation (some s) = if not (s.generation == generation) then none else s.conn

-- `get_mut`
unfoldable pub get_conn : {S : Type 0} → Token → Registry S → Option (Connection S)
get_conn t r = occupant (generation_of t) (get_elem? r.slots (index_of t))

unfoldable pub changed :
    {S : Type 0}
    → Option (Connection S)
    → Token
    → (Connection S → Connection S)
    → Registry S
    → Registry S
changed none t change r = r
changed (some c) t change r = record r {
  slots =
      set r.slots (index_of t) (record { generation = generation_of t; conn = some (change c) });
}

-- What a worker does to a connection that `get_mut` finds.
unfoldable pub change_conn :
    {S : Type 0} → Token → (Connection S → Connection S) → Registry S → Registry S
change_conn t change r = changed (get_conn t r) t change r

unfoldable pub vacated :
    {S : Type 0} → Option (Connection S) → Token → Registry S → Option (Connection S) × Registry S
vacated none t r = (none, r)
vacated (some c) t r = (
  some c,
  record {
    slots =
        set r.slots (index_of t)
          (record { generation = next_generation (generation_of t); conn = none });
    free = r.free ++ index_of t ∷ [];
    live = r.live - 1;
  },
)

-- `remove`
unfoldable pub remove_conn : {S : Type 0} → Token → Registry S → Option (Connection S) × Registry S
remove_conn t r = vacated (get_conn t r) t r

pub data RegistryOp (S : Type 0) : Type 0 where
  connect : S → (id : ℕ) → RegistryOp S
  touch : Token → (Connection S → Connection S) → RegistryOp S
  close : Token → RegistryOp S

unfoldable pub apply : {S : Type 0} → RegistryOp S → Registry S → Registry S
apply (connect socket id) r = (insert_conn socket id r).1
apply (touch t change) r = change_conn t change r
apply (close t) r = (remove_conn t r).1

unfoldable pub run : {S : Type 0} → List (RegistryOp S) → Registry S → Registry S
run [] r = r
run (op ∷ ops) r = run ops (apply op r)
