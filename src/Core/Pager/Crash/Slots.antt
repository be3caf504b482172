-- ===== src/Core/Pager/Crash/Slots.antt =====
-- For `recover` of crates/quantydb-core/src/meta.rs and `commit` of crates/quantydb-core/src/pager.rs:
-- a database with a newest meta page in the slot of its txid.
use quanty_database.Prelude.{
  ℕ, ◌+◌, ◌*◌, ◌%◌, ◌≤◌, ◌<◌, ◌≡◌, refl, ◌⊎◌, inl, inr, true, false, Bool-cases, Option, none, some,
  List, [], ◌∷◌, arith, ltb, ◌==◌, length, All,
}
use quanty_database.Prelude.Result.{ok}
use quanty_database.Prelude.Buffer.{slice}
use quanty_database.Core.Page.{Buf}
use quanty_database.Core.Storage.{Storage, read_at, storage_len}
use quanty_database.Core.Meta.{Meta, decode_meta, recover, page_sizes}
use quanty_database.Core.Meta.Newest.{valid, decoded, to_option, later, pick, recover-pick, AtMost}
use quanty_database.Core.Pager.Ownership.{Occurs, first, next}

-- An older meta than another, or none, or the same once more.
abbrev pub Below : Meta → Option Meta → Type 0
Below m none = Unit
Below m (some a) = (a.txid < m.txid) ⊎ (a ≡ m)

Below-AtMost : (m : Meta) (o : Option Meta) → Below m o → AtMost m.txid o
Below-AtMost m none h = tt
Below-AtMost m (some a) (inl h) = omega arith
Below-AtMost m (some a) (inr e) = rw e (omega arith)

later-none : (best : Option Meta) → later none best ≡ best
unfolding later
later-none best = refl

later-AtMost : (m : Meta) (o : Option Meta) → AtMost m.txid o → later o (some m) ≡ some m
unfolding later
later-AtMost m none h = refl
later-AtMost m (some a) h = let old : ltb m.txid a.txid ≡ false = ground arith in rw old refl

later-Below : (m : Meta) (o : Option Meta) → Below m o → later (some m) (later o none) ≡ some m
unfolding later
later-Below m none h = refl
later-Below m (some a) (inr e) =
    let old : ltb m.txid m.txid ≡ false = ground arith in rw (e, old) refl
later-Below m (some a) (inl h) =
    let newer : ltb a.txid m.txid ≡ true = ground arith in rw newer refl

pub slot_cases : (n : ℕ) → (n % 2 ≡ 0) × ((n + 1) % 2 ≡ 1) ⊎ (n % 2 ≡ 1) × ((n + 1) % 2 ≡ 0)
slot_cases n = elim (Bool-cases (n % 2 == 0)) [
  | inl e ↦ inl (ground arith, ground arith)
  | inr e ↦ inr (ground arith, ground arith)
]

module _ (checksum : Buf → ℕ) where
  -- The newest meta of a database, on the disk: it is in the slot of its txid, and the other slot holds
  -- an older one, the same once more, or none.
  pub record IsStored (s : Storage) (m : Meta) : Type 0 where
    pub room : 2 * m.page_size ≤ length s
    pub newest : valid checksum s m.page_size (m.txid % 2) ≡ some m
    pub older : Below m (valid checksum s m.page_size ((m.txid + 1) % 2))

  -- No other page size has a valid meta page at its two slots.
  abbrev pub Alone : Storage → ℕ → Type 0
  Alone s ps =
      All
        (λ size. (size ≡ ps) ⊎ (valid checksum s size 0 ≡ none) × (valid checksum s size 1 ≡ none))
        page_sizes

  -- What is valid in a slot depends on the bytes of the slot.
  pub valid-slice :
      (s disk : Storage) (ps slot : ℕ)
      → slot * ps + ps ≤ length s
      → slot * ps + ps ≤ length disk
      → slice (slot * ps) ps disk ≡ slice (slot * ps) ps s
      → valid checksum disk ps slot ≡ valid checksum s ps slot
  unfolding valid read_at storage_len
  valid-slice s disk ps slot h k e =
      let fits : ltb (length s) (slot * ps + ps) ≡ false = ground arith in
      let fits' : ltb (length disk) (slot * ps + ps) ≡ false = ground arith in
      rw (fits, fits', e) refl

  pub valid-bytes :
      (disk : Storage) (ps slot : ℕ) (bytes : Buf) (m : Meta)
      → slot * ps + ps ≤ length disk
      → slice (slot * ps) ps disk ≡ bytes
      → decode_meta checksum bytes slot ≡ ok m
      → valid checksum disk ps slot ≡ some m
  unfolding valid read_at storage_len decoded to_option
  valid-bytes disk ps slot bytes m h e d =
      let fits : ltb (length disk) (slot * ps + ps) ≡ false = ground arith in rw (fits, e, d) refl

  -- The two slots of a stored meta, in the order of `recover`.
  IsStored-slots :
      (s : Storage) (m : Meta)
      → IsStored s m
      → later (valid checksum s m.page_size 1) (later (valid checksum s m.page_size 0) none)
          ≡ some m
        × AtMost m.txid (valid checksum s m.page_size 0)
        × AtMost m.txid (valid checksum s m.page_size 1)
  unfolding later
  IsStored-slots s m h = elim (slot_cases m.txid) [
    | inl (e, f) ↦
        (let here : valid checksum s m.page_size 0 ≡ some m = rw e at h.newest in
          let old : Below m (valid checksum s m.page_size 1) = rw f at h.older in
          (
            rw here (later-AtMost m (valid checksum s m.page_size 1) (Below-AtMost m _ old)),
            rw here (omega arith),
            Below-AtMost m _ old,
          ))
    | inr (e, f) ↦
        (let here : valid checksum s m.page_size 1 ≡ some m = rw e at h.newest in
          let old : Below m (valid checksum s m.page_size 0) = rw f at h.older in
          (
            rw here (later-Below m (valid checksum s m.page_size 0) old),
            Below-AtMost m _ old,
            rw here (omega arith),
          ))
  ]

  abbrev Quiet : Storage → Meta → ℕ → Type 0
  Quiet s m size =
      (size ≡ m.page_size) ⊎ (valid checksum s size 0 ≡ none) × (valid checksum s size 1 ≡ none)

  -- Once the newest is found, it stays.
  pick-stays :
      (s : Storage) (m : Meta) (sizes : List ℕ)
      → IsStored s m
      → All (Quiet s m) sizes
      → pick checksum s sizes (some m) ≡ some m
  unfolding pick
  pick-stays s m [] h k = refl
  pick-stays s m (ps ∷ sizes) h (inl e, ks) =
      let (found, low, high) = IsStored-slots s m h in
      rw (e, later-AtMost m _ low, later-AtMost m _ high) (pick-stays s m sizes h ks)
  pick-stays s m (ps ∷ sizes) h (inr (e, f), ks) =
      rw (e, f, later-none (some m), later-none (some m)) (pick-stays s m sizes h ks)

  pick-IsStored :
      (s : Storage) (m : Meta) (sizes : List ℕ)
      → IsStored s m
      → Occurs m.page_size sizes
      → All (Quiet s m) sizes
      → pick checksum s sizes none ≡ some m
  unfolding pick
  pick-IsStored s m [] h o ks = elim o [ ]
  pick-IsStored s m (ps ∷ sizes) h o (inl e, ks) =
      let (found, low, high) = IsStored-slots s m h in rw (e, found) (pick-stays s m sizes h ks)
  pick-IsStored s m (ps ∷ sizes) h (first _) (inr (e, f), ks) = elim (slot_cases m.txid) [
    | inl (even, _) ↦ absurd (cc (rw even at h.newest, e))
    | inr (odd, _) ↦ absurd (cc (rw odd at h.newest, f))
  ]
  pick-IsStored s m (ps ∷ sizes) h (next _ _ o) (inr (e, f), ks) =
      rw (e, f, later-none none, later-none none) (pick-IsStored s m sizes h o ks)

  -- What is stored is recovered, where the page size is a legal one and no other page size has a valid
  -- meta page at its slots.
  pub recover-IsStored :
      (s : Storage) (m : Meta)
      → IsStored s m
      → Occurs m.page_size page_sizes
      → Alone s m.page_size
      → recover checksum s ≡ ok m
  recover-IsStored s m h o k = recover-pick checksum s m (pick-IsStored s m page_sizes h o k)
