-- ===== src/Core/Meta/Newest.antt =====
-- For `recover` of crates/quantydb-core/src/meta.rs: the candidates, and the one that is chosen.
use quanty_database.Prelude.{
  ℕ, ◌+◌, ◌*◌, ◌≤◌, ◌≡◌, refl, sym, ap, ◌∙◌, ◌⊎◌, inl, inr, Bool, true, false, Bool-cases, Option,
  none, some, List, [], ◌∷◌, arith, ltb, if◌then◌else◌, All,
}
use mathlib.Core.Option.{some-injective}
use quanty_database.Prelude.Result.{Result, ok, err}
use quanty_database.Core.Error.{Error}
use quanty_database.Core.Page.{PageId, Buf}
use quanty_database.Core.Storage.{Storage, read_at, storage_len}
use quanty_database.Core.Meta.{
  Meta, page_sizes, decode_meta, newer, seen, try_slot, try_sizes, recovered, recover,
}

unfoldable pub to_option : Result Error Meta → Option Meta
to_option (ok m) = some m
to_option (err e) = none

-- The newer of two, the one so far where neither is.
unfoldable pub later : Option Meta → Option Meta → Option Meta
later none best = best
later (some m) none = some m
later (some m) (some b) = if ltb b.txid m.txid then some m else some b

-- A meta is at least as new as another that may be there.
abbrev pub AtMost : ℕ → Option Meta → Type 0
AtMost txid none = Unit
AtMost txid (some m) = m.txid ≤ txid

module _ (checksum : Buf → ℕ) where
  unfoldable pub decoded : Result Error Buf → PageId → Option Meta
  decoded (ok buf) slot = to_option (decode_meta checksum buf slot)
  decoded (err e) slot = none

  -- The meta in a slot, for a page size, if there is a valid one.
  unfoldable pub valid : Storage → ℕ → PageId → Option Meta
  valid s ps slot =
      if ltb (storage_len s) (slot * ps + ps) then none else decoded (read_at (slot * ps) ps s) slot

  -- The newest of the slots at some page sizes, and of one so far.
  unfoldable pub pick : Storage → List ℕ → Option Meta → Option Meta
  pick s [] best = best
  pick s (ps ∷ sizes) best = pick s sizes (later (valid s ps 1) (later (valid s ps 0) best))

  newer-later :
      (r : Result Error Meta) (best : Option Meta)
      → newer checksum r best ≡ later (to_option r) best
  unfolding newer later to_option
  newer-later (err e) best = refl
  newer-later (ok m) none = refl
  newer-later (ok m) (some b) = refl

  seen-later :
      (r : Result Error Buf) (slot : PageId) (best : Option Meta) (saw : Bool)
      → (seen checksum r slot (best, saw)).0 ≡ later (decoded r slot) best
  unfolding seen decoded later
  seen-later (err e) slot best saw = refl
  seen-later (ok buf) slot best saw = newer-later (decode_meta checksum buf slot) best

  try_slot-later :
      (s : Storage) (ps : ℕ) (slot : PageId) (so_far : Option Meta × Bool)
      → (try_slot checksum s ps slot so_far).0 ≡ later (valid s ps slot) so_far.0
  unfolding try_slot valid
  try_slot-later s ps slot so_far = elim (Bool-cases (ltb (storage_len s) (slot * ps + ps))) [
    | inl e ↦ rw e (unfold later in refl)
    | inr e ↦ rw e (seen-later (read_at (slot * ps) ps s) slot so_far.0 so_far.1)
  ]

  try_sizes-pick :
      (s : Storage) (sizes : List ℕ) (so_far : Option Meta × Bool)
      → (try_sizes checksum s sizes so_far).0 ≡ pick s sizes so_far.0
  unfolding try_sizes pick
  try_sizes-pick s [] so_far = refl
  try_sizes-pick s (ps ∷ sizes) so_far =
      rw
        (
          try_sizes-pick s sizes (try_slot checksum s ps 1 (try_slot checksum s ps 0 so_far)),
          try_slot-later s ps 1 (try_slot checksum s ps 0 so_far),
          try_slot-later s ps 0 so_far,
        )
        refl

  recovered-some : (r : Option Meta × Bool) (m : Meta) → recovered checksum r ≡ ok m → r.0 ≡ some m
  unfolding recovered to_option
  recovered-some (some m', saw) m e = ap to_option e
  recovered-some (none, true) m e = absurd (cc e)
  recovered-some (none, false) m e = absurd (cc e)

  some-recovered : (r : Option Meta × Bool) (m : Meta) → r.0 ≡ some m → recovered checksum r ≡ ok m
  unfolding recovered
  some-recovered (some m', saw) m e = ap ok (some-injective m' m e)
  some-recovered (none, saw) m e = absurd (cc e)

  -- What is chosen is at least as new as the one so far, and as each slot.
  AtMost-later :
      (o best : Option Meta) (n : ℕ) → AtMost n (later o best) → AtMost n o × AtMost n best
  unfolding later
  AtMost-later none best n h = (tt, h)
  AtMost-later (some a) none n h = (h, tt)
  AtMost-later (some a) (some b) n h = elim (Bool-cases (ltb b.txid a.txid)) [
    | inl t ↦ (let h' : a.txid ≤ n = rw t at h in (h', ground arith))
    | inr t ↦ (let h' : b.txid ≤ n = rw t at h in (ground arith, h'))
  ]

  -- At every one of the page sizes, what is valid in the two slots is not newer.
  abbrev pub NoneNewer : Storage → List ℕ → ℕ → Type 0
  NoneNewer s sizes n = All (λ ps. AtMost n (valid s ps 0) × AtMost n (valid s ps 1)) sizes

  pick-AtMost :
      (s : Storage) (sizes : List ℕ) (best : Option Meta) (m : Meta)
      → pick s sizes best ≡ some m
      → NoneNewer s sizes m.txid × AtMost m.txid best
  unfolding pick
  pick-AtMost s [] best m e = (tt, rw e (omega arith))
  pick-AtMost s (ps ∷ sizes) best m e =
      let (rest, here) =
        pick-AtMost s sizes (later (valid s ps 1) (later (valid s ps 0) best)) m e in
      let (second, so_far) = AtMost-later (valid s ps 1) (later (valid s ps 0) best) m.txid here in
      let (first, before) = AtMost-later (valid s ps 0) best m.txid so_far in
      (((first, second), rest), before)

  -- What is valid in one of the two slots, at one of the page sizes.
  abbrev pub Found : Storage → List ℕ → Meta → Type 0
  Found s [] m = ⊥
  Found s (ps ∷ sizes) m = (valid s ps 0 ≡ some m) ⊎ (valid s ps 1 ≡ some m) ⊎ Found s sizes m

  later-or : (o best : Option Meta) → (later o best ≡ o) ⊎ (later o best ≡ best)
  unfolding later
  later-or none best = inr refl
  later-or (some a) none = inl refl
  later-or (some a) (some b) = elim (Bool-cases (ltb b.txid a.txid)) [
    | inl t ↦ inl (rw t refl)
    | inr t ↦ inr (rw t refl)
  ]

  pick-Found :
      (s : Storage) (sizes : List ℕ) (best : Option Meta) (m : Meta)
      → pick s sizes best ≡ some m
      → (best ≡ some m) ⊎ Found s sizes m
  unfolding pick
  pick-Found s [] best m e = inl e
  pick-Found s (ps ∷ sizes) best m e =
      let first = later (valid s ps 0) best in
      elim (pick-Found s sizes (later (valid s ps 1) first) m e) [
        | inr f ↦ inr (inr (inr f))
        | inl f ↦ elim (later-or (valid s ps 1) first) [
          | inl g ↦ inr (inr (inl (sym g ∙ f)))
          | inr g ↦ elim (later-or (valid s ps 0) best) [
            | inl h ↦ inr (inl (sym h ∙ sym g ∙ f))
            | inr h ↦ inl (sym h ∙ sym g ∙ f)
          ]
        ]
      ]

  pick-recover :
      (s : Storage) (m : Meta) → recover checksum s ≡ ok m → pick s page_sizes none ≡ some m
  unfolding recover
  pick-recover s m e =
      let chosen = try_sizes checksum s page_sizes (none, false) in
      sym (try_sizes-pick s page_sizes (none, false)) ∙ recovered-some chosen m e

  pub recover-pick :
      (s : Storage) (m : Meta) → pick s page_sizes none ≡ some m → recover checksum s ≡ ok m
  unfolding recover
  recover-pick s m e =
      let chosen = try_sizes checksum s page_sizes (none, false) in
      some-recovered chosen m (try_sizes-pick s page_sizes (none, false) ∙ e)

  -- What `recover` returns is valid in one of the two slots at one of the page sizes that it tries, and
  -- no meta page that is valid at any of these places has a higher txid.
  pub recover_newest :
      (s : Storage) (m : Meta)
      → recover checksum s ≡ ok m
      → Found s page_sizes m × NoneNewer s page_sizes m.txid
  recover_newest s m e =
      let chosen = pick-recover s m e in
      (
        elim (pick-Found s page_sizes none m chosen) [ inl f ↦ absurd (cc f) | inr f ↦ f ],
        (pick-AtMost s page_sizes none m chosen).0,
      )
