-- ===== src/Core/Cache/Clock.antt =====
-- For the clock of crates/quantydb-core/src/cache.rs: how many slots it would still spare.
use quanty_database.Prelude.{
  ℕ, zero, suc, ◌≤◌, ◌<◌, ◌≡◌, refl, ◌∙◌, ap, Bool, true, false, Option, none, some, List, [], ◌∷◌,
  arith, if◌then◌else◌, length, get_elem?, set,
}
use quanty_database.Core.Cache.{Slot}

-- The slots that the clock would spare.
pub referenced_count : List Slot → ℕ
referenced_count [] = 0
referenced_count (s ∷ slots) =
    if s.referenced then suc (referenced_count slots) else referenced_count slots

pub referenced_count-le : (slots : List Slot) → referenced_count slots ≤ length slots
unfolding referenced_count
referenced_count-le [] = omega arith
referenced_count-le (s ∷ slots) = let ih = referenced_count-le slots in ground arith

is_referenced : Option Slot → Bool
is_referenced none = false
is_referenced (some s) = s.referenced

-- A slot that is spared counts no more.
pub referenced_count-set :
    (slots : List Slot) (i : ℕ) (s cleared : Slot)
    → get_elem? slots i ≡ some s
    → s.referenced ≡ true
    → cleared.referenced ≡ false
    → suc (referenced_count (set slots i cleared)) ≡ referenced_count slots
unfolding referenced_count is_referenced
referenced_count-set [] i s cleared there on off = absurd (cc there)
referenced_count-set (x ∷ slots) zero s cleared there on off =
    let e : x.referenced ≡ true = ap is_referenced there ∙ on in rw (e, off) refl
referenced_count-set (x ∷ slots) (suc i) s cleared there on off =
    let ih = referenced_count-set slots i s cleared there on off in ground arith

pub get_elem?-lt :
    (slots : List Slot) (i : ℕ) → i < length slots → (s : Slot) × (get_elem? slots i ≡ some s)
get_elem?-lt [] i h = absurd (omega arith)
get_elem?-lt (s ∷ slots) zero h = (s, refl)
get_elem?-lt (s ∷ slots) (suc i) h = get_elem?-lt slots i (omega arith)
