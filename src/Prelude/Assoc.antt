-- ===== src/Prelude/Assoc.antt =====
-- Maps from numbers, sorted by key as a `BTreeMap` gives them out.
use Prim.Native.Nat.{ℕ, ◌≤◌, ◌<◌}
use mathlib.Core.Path.{◌≡◌, refl}
use mathlib.Core.Logic.{◌≢◌, inl, inr}
use mathlib.Core.Option.{Option, none, some}
use mathlib.Core.List.{List, [], ◌∷◌}
use native.Mathlib.Omega.{arith}
use quanty_database.Prelude.Lists.{All}
use quanty_database.Prelude.Tests.{ltb, ◌==◌, if◌then◌else◌, Bool-cases}

module _ {ℓ} {V : Type ℓ} where
  unfoldable pub get : ℕ → List (ℕ × V) → Option V
  get k [] = none
  get k ((a, v) ∷ m) = if k == a then some v else get k m

  unfoldable pub insert : ℕ → V → List (ℕ × V) → List (ℕ × V)
  insert k v [] = (k, v) ∷ []
  insert k v ((a, w) ∷ m) =
      let rest = insert k v m in
      if ltb k a then (k, v) ∷ (a, w) ∷ m else if k == a then (k, v) ∷ m else (a, w) ∷ rest

  unfoldable pub remove : ℕ → List (ℕ × V) → List (ℕ × V)
  remove k [] = []
  remove k ((a, w) ∷ m) = if k == a then remove k m else (a, w) ∷ remove k m

  pub get-insert : (k : ℕ) (v : V) (m : List (ℕ × V)) → get k (insert k v m) ≡ some v
  unfolding get insert
  get-insert k v [] = ground arith
  get-insert k v ((a, w) ∷ m) = let ih = get-insert k v m in ground arith

  pub get-insert-ne : (k j : ℕ) (v : V) (m : List (ℕ × V)) → j ≢ k → get j (insert k v m) ≡ get j m
  unfolding get insert
  get-insert-ne k j v [] h = ground arith
  get-insert-ne k j v ((a, w) ∷ m) h = let ih = get-insert-ne k j v m h in ground arith

  pub get-remove : (k : ℕ) (m : List (ℕ × V)) → get k (remove k m) ≡ none
  unfolding get remove
  get-remove k [] = refl
  get-remove k ((a, w) ∷ m) = let ih = get-remove k m in ground arith

  pub get-remove-ne : (k j : ℕ) (m : List (ℕ × V)) → j ≢ k → get j (remove k m) ≡ get j m
  unfolding get remove
  get-remove-ne k j [] h = refl
  get-remove-ne k j ((a, w) ∷ m) h = let ih = get-remove-ne k j m h in ground arith

  -- What holds of the entries of a map holds after an insertion.
  pub All-insert {κ} :
      (P : ℕ × V → Type κ) (k : ℕ) (v : V) (m : List (ℕ × V))
      → P (k, v)
      → All P m
      → All P (insert k v m)
  unfolding insert
  All-insert P k v [] h hs = (h, tt)
  All-insert P k v ((a, w) ∷ m) h (h', hs) = elim (Bool-cases (ltb k a)) [
    | inl e ↦ rw e (h, (h', hs))
    | inr e ↦ elim (Bool-cases (k == a)) [
      | inl f ↦ rw (e, f) (h, hs)
      | inr f ↦ rw (e, f) (h', All-insert P k v m h hs)
    ]
  ]

  -- The keys increase.
  abbrev pub Increasing : List (ℕ × V) → Type 0
  Increasing [] = Unit
  Increasing ((a, w) ∷ m) = All (λ p. a < p.0) m × Increasing m

  above-weaken : (j k : ℕ) (m : List (ℕ × V)) → j ≤ k → All (λ p. k < p.0) m → All (λ p. j < p.0) m
  above-weaken j k [] h hs = tt
  above-weaken j k ((a, w) ∷ m) h (h', hs) = (omega arith, above-weaken j k m h hs)

  pub insert-Increasing :
      (k : ℕ) (v : V) (m : List (ℕ × V)) → Increasing m → Increasing (insert k v m)
  unfolding insert
  insert-Increasing k v [] h = (tt, tt)
  insert-Increasing k v ((a, w) ∷ m) (h, hs) = elim (Bool-cases (ltb k a)) [
    | inl e ↦ rw e (((ground arith), above-weaken k a m (ground arith) h), (h, hs))
    | inr e ↦ elim (Bool-cases (k == a)) [
      | inl f ↦
          (let same : k ≡ a = ground arith in rw (e, f) (above-weaken k a m (omega arith) h, hs))
      | inr f ↦
          rw (e, f) (All-insert (λ p. a < p.0) k v m (ground arith) h, insert-Increasing k v m hs)
    ]
  ]
