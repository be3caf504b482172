-- ===== src/Core/Pager/Open/Tests.antt =====
-- Tests: a database is created with pages of 512 bytes.
use quanty_database.Prelude.{◌≡◌, refl, List, [], ◌∷◌, arith}
use quanty_database.Prelude.Result.{ok, err}
use quanty_database.Core.Error.{invalid_argument}
use quanty_database.Core.Page.{Buf, zeroes}
use quanty_database.Core.Page.Seal.{valid_page_size}
use quanty_database.Core.Storage.{storage_len}
use quanty_database.Core.Crc.{crc32c}
use quanty_database.Core.Crc.Blocks.{crc32c_lt}
use quanty_database.Core.Meta.{encode_meta}
use quanty_database.Core.Pager.Durable.{Event, write, sync, perform_all}
use quanty_database.Core.Pager.Open.{initial_meta, create}
use quanty_database.Core.Pager.Open.Created.{IsTwin, create-IsTwin}

abbrev first_page : Buf
first_page = encode_meta crc32c (initial_meta 512 9) (zeroes 512)

abbrev events : List Event
events = write 0 first_page ∷ write 512 first_page ∷ sync ∷ []

created : create crc32c 512 9 [] ≡ ok (initial_meta 512 9, events)
unfolding create valid_page_size storage_len
created = refl

odd_size : create crc32c 513 9 [] ≡ err invalid_argument
unfolding create valid_page_size
odd_size = refl

create-IsTwin_example : IsTwin crc32c (perform_all events []) (initial_meta 512 9)
create-IsTwin_example =
    create-IsTwin crc32c 512 9 [] (initial_meta 512 9) events crc32c_lt (omega arith) created
