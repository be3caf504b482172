-- ===== src/Core/Cache/Tests.antt =====
-- A page cache at concrete pages.
use quanty_database.Prelude.{◌≤◌, ◌≡◌, refl, none, some, [], ◌∷◌, length}
use quanty_database.Core.Cache.{PageCache, new, get_page, insert_page, looked_up}
use quanty_database.Core.Cache.Eviction.{IsCache, new-IsCache, get_page-insert_page}
use quanty_database.Prelude.Assoc.{get}

missing : (get_page 3 (new 16)).0 ≡ none
unfolding get_page looked_up new get
missing = refl

get_page-insert_page_example :
    (d : PageCache) × (insert_page 3 (1 ∷ 2 ∷ []) (new 16) ≡ some d)
    × ((get_page 3 d).0 ≡ some (1 ∷ 2 ∷ []))
    × (length d.slots ≤ (new 16).capacity)
    × IsCache d
get_page-insert_page_example = get_page-insert_page 3 (1 ∷ 2 ∷ []) (new 16) (new-IsCache 16)
