-- ===== src/Server/Registry/Tests.antt =====
-- A registry in which a slot is used twice.
use quanty_database.Prelude.{ℕ, ◌^◌, ◌≡◌, refl, some, none, [], ◌∷◌, arith}
use quanty_database.Server.Conn
use quanty_database.Server.Registry.{
  Token, Connection, Registry, readable, empty, insert_conn, placed, new_slot, occupy,
  generation_at, token_of, get_conn, occupant, index_of, generation_of, remove_conn, connect, run,
}
use quanty_database.Server.Registry.Stale.{remove-run_get}

-- Sockets are numbers here.
abbrev first : Token
first = 2 ^ 32

one_open : Registry ℕ
one_open = (insert_conn 5 1 empty).1

abbrev guest : Connection ℕ
guest = record { socket = 5; token = first; id = 1; state = Conn.new; interest = readable }

first_found : get_conn first one_open ≡ some guest
unfolding one_open insert_conn empty placed new_slot occupy generation_at token_of get_conn occupant
    index_of generation_of
first_found = refl

remove-run_get_example :
    get_conn first (run (connect 6 2 ∷ []) (remove_conn first one_open).1) ≡ none
remove-run_get_example =
    remove-run_get first one_open guest (connect 6 2 ∷ []) first_found (omega arith)
