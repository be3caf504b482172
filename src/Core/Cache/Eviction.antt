-- ===== src/Core/Cache/Eviction.antt =====
-- For `insert` and `get` of crates/quantydb-core/src/cache.rs.
use quanty_database.Prelude.{
  ℕ, zero, suc, ◌+◌, ◌%◌, ◌≤◌, ◌<◌, ◌≡◌, ◌≢◌, refl, sym, ◌∙◌, ap, ◌⊎◌, inl, inr, true, false,
  Bool-cases, Option, none, some, List, [], ◌∷◌, ◌++◌, arith, ltb, ◌==◌, length, get_elem?, set,
  length-set, length-append, get_elem?-set,
}
use native.Mathlib.Nat.{mod-lt}
use quanty_database.Prelude.Assoc.{
  get, insert, remove, get-insert, get-insert-ne, get-remove, get-remove-ne,
}
use quanty_database.Core.Page.{PageId, Buf}
use quanty_database.Core.Cache.{
  Slot, PageCache, new, hit, looked_up, get_page, turn, sweep, replace, insert_at, insert_page,
}
use quanty_database.Core.Cache.Clock.{
  referenced_count, referenced_count-le, referenced_count-set, get_elem?-lt,
}

-- The page is in the cache.
Holds : PageId → Buf → PageCache → Type 0
Holds id buf c =
    (i : ℕ) × (s : Slot) × (get id c.map ≡ some i) × (get_elem? c.slots i ≡ some s) × (s.buf ≡ buf)

get_page-Holds :
    (id : PageId) (buf : Buf) (c : PageCache) → Holds id buf c → (get_page id c).0 ≡ some buf
unfolding get_page looked_up hit Holds
get_page-Holds id buf c (i, s, mapped, there, same) = rw (mapped, there) (ap some same)

some_or : ℕ → Option ℕ → ℕ
some_or k none = k
some_or k (some i) = i

-- The map points into so many slots.
pub Mapped : ℕ → List (PageId × ℕ) → Type 0
Mapped n m = (id : PageId) (i : ℕ) → get id m ≡ some i → i < n

Mapped-remove : (n : ℕ) (id : PageId) (m : List (PageId × ℕ)) → Mapped n m → Mapped n (remove id m)
unfolding Mapped
Mapped-remove n id m h j i e = elim (Bool-cases (j == id)) [
  | inl same ↦ (let at_id : j ≡ id = ground arith in absurd (cc (rw (at_id, get-remove id m) at e)))
  | inr other ↦ (let ne : j ≢ id = λ s. ground arith in h j i (sym (get-remove-ne id j m ne) ∙ e))
]

Mapped-insert :
    (n k : ℕ) (id : PageId) (m : List (PageId × ℕ)) → k < n → Mapped n m → Mapped n (insert id k m)
unfolding Mapped some_or
Mapped-insert n k id m low h j i e = elim (Bool-cases (j == id)) [
  | inl same ↦
      (let at_id : j ≡ id = ground arith in
        let found : some k ≡ some i = sym (get-insert id k m) ∙ (rw at_id at e) in
        rw (ap (some_or 0) (sym found)) low)
  | inr other ↦ (let ne : j ≢ id = λ s. ground arith in h j i (sym (get-insert-ne id j k m ne) ∙ e))
]

-- What an insertion leaves: the page is there, and no more slots than the capacity.
record Inserted (id : PageId) (buf : Buf) (c d : PageCache) : Type 0 where
  pub holds : Holds id buf d
  pub same_capacity : d.capacity ≡ c.capacity
  pub within : length d.slots ≤ c.capacity
  pub on_ring : (d.hand ≡ 0) ⊎ (d.hand < length d.slots)
  pub points : Mapped (length d.slots) d.map

sweep-Inserted :
    (fuel : ℕ) (id : PageId) (buf : Buf) (c : PageCache)
    → c.hand < length c.slots
    → length c.slots ≤ c.capacity
    → Mapped (length c.slots) c.map
    → referenced_count c.slots < fuel
    → (d : PageCache) × (sweep fuel id buf c ≡ some d) × Inserted id buf c d
unfolding sweep turn Holds
sweep-Inserted zero id buf c ring fits points enough = absurd (omega arith)
sweep-Inserted (suc fuel) id buf c ring fits points enough =
    let (victim, there) = get_elem?-lt c.slots c.hand ring in
    let turned : (c.hand + 1) % length c.slots < length c.slots =
      mod-lt (c.hand + 1) (omega (arith, ring)) in
    elim (Bool-cases victim.referenced) [
      | inl on ↦
          (let cleared : Slot = record victim { referenced = false } in
            let rest : PageCache = record c {
              hand = (c.hand + 1) % length c.slots;
              slots = set c.slots c.hand cleared;
            } in
            let same = length-set c.slots c.hand cleared in
            let fewer = referenced_count-set c.slots c.hand victim cleared there on refl in
            let (d, ends, h) =
              sweep-Inserted fuel id buf rest (omega (arith, same, turned))
                (omega (arith, same, fits)) (rw same points) (omega (arith, fewer, enough)) in
            (
              d,
              rw (there, on) ends,
              record {
                holds = h.holds;
                same_capacity = h.same_capacity;
                within = h.within;
                on_ring = h.on_ring;
                points = h.points;
              },
            ))
      | inr off ↦
          (let new : Slot = record { id = id; buf = buf; referenced = true } in
            let same = length-set c.slots c.hand new in
            (
              record c {
                hand = (c.hand + 1) % length c.slots;
                slots = set c.slots c.hand new;
                map = insert id c.hand (remove victim.id c.map);
              },
              rw (there, off) refl,
              record {
                holds = (
                  c.hand,
                  new,
                  get-insert id c.hand (remove victim.id c.map),
                  get_elem?-set c.slots c.hand new there,
                  refl,
                );
                same_capacity = refl;
                within = omega (arith, same, fits);
                on_ring = inr (omega (arith, same, turned));
                points = rw same (
                    Mapped-insert (length c.slots) c.hand id (remove victim.id c.map) ring
                      (Mapped-remove (length c.slots) victim.id c.map points));
              },
            ))
    ]

get_elem?-last :
    (slots : List Slot) (s : Slot) → get_elem? (slots ++ s ∷ []) (length slots) ≡ some s
get_elem?-last [] s = refl
get_elem?-last (x ∷ slots) s = get_elem?-last slots s

-- The map points into the slots, the slots are within the capacity, which is one at least, and the
-- hand is on the ring, or at its start.
pub record IsCache (c : PageCache) : Type 0 where
  pub points : Mapped (length c.slots) c.map
  pub within : length c.slots ≤ c.capacity
  pub room : 1 ≤ c.capacity
  pub ring : (c.hand ≡ 0) ⊎ (c.hand < length c.slots)

Mapped-le : (n k : ℕ) (m : List (PageId × ℕ)) → n ≤ k → Mapped n m → Mapped k m
unfolding Mapped
Mapped-le n k m le h id i e = omega (arith, h id i e)

insert_at-Inserted :
    (o : Option ℕ) (id : PageId) (buf : Buf) (c : PageCache)
    → get id c.map ≡ o
    → IsCache c
    → (d : PageCache) × (insert_at o id buf c ≡ some d) × Inserted id buf c d
unfolding insert_at replace Holds Mapped
insert_at-Inserted (some i) id buf c mapped h =
    let (old, there) = get_elem?-lt c.slots i (h.points id i mapped) in
    let new : Slot = record old { buf = buf; referenced = true } in
    let same = length-set c.slots i new in
    (
      record c { slots = set c.slots i new },
      rw there refl,
      record {
        holds = (i, new, mapped, get_elem?-set c.slots i new there, refl);
        same_capacity = refl;
        within = omega (arith, same, h.within);
        on_ring = rw same h.ring;
        points = rw same h.points;
      },
    )
insert_at-Inserted none id buf c mapped h = elim (Bool-cases (ltb (length c.slots) c.capacity)) [
  | inl low ↦
      (let new : Slot = record { id = id; buf = buf; referenced = true } in
        let longer : length (c.slots ++ new ∷ []) ≡ length c.slots + 1 =
          length-append c.slots (new ∷ []) in
        let below : length c.slots < c.capacity = ground arith in
        (
          record c { slots = c.slots ++ new ∷ []; map = insert id (length c.slots) c.map },
          rw low refl,
          record {
            holds = (
              length c.slots,
              new,
              get-insert id (length c.slots) c.map,
              get_elem?-last c.slots new,
              refl,
            );
            same_capacity = refl;
            within = omega (arith, longer, below);
            on_ring = elim h.ring [ inl z ↦ inl z | inr r ↦ inr (omega (arith, longer, r)) ];
            points = rw longer (
                Mapped-insert (length c.slots + 1) (length c.slots) id c.map (omega arith)
                  (Mapped-le (length c.slots) (length c.slots + 1) c.map (omega arith) h.points));
          },
        ))
  | inr full ↦
      (let full' : 1 ≤ length c.slots = (let r = h.room in ground arith) in
        let ring : c.hand < length c.slots = elim h.ring [ inl z ↦ omega arith | inr r ↦ r ] in
        rw full (
          sweep-Inserted (length c.slots + 1) id buf c ring h.within h.points
            (omega (arith, referenced_count-le c.slots))))
]

-- An insertion ends, its sweep within one turn more than there are slots; the page is then found, the
-- slots are within the capacity, and the invariant holds.
pub get_page-insert_page :
    (id : PageId) (buf : Buf) (c : PageCache)
    → IsCache c
    → (d : PageCache) × (insert_page id buf c ≡ some d)
      × ((get_page id d).0 ≡ some buf)
      × (length d.slots ≤ c.capacity)
      × IsCache d
unfolding insert_page
get_page-insert_page id buf c h =
    let (d, ends, i) = insert_at-Inserted (get id c.map) id buf c refl h in
    (
      d,
      ends,
      get_page-Holds id buf d i.holds,
      i.within,
      record {
        points = i.points;
        within = omega (arith, i.within, i.same_capacity);
        room = omega (arith, i.same_capacity, h.room);
        ring = i.on_ring;
      },
    )

-- A new cache meets the invariant, whatever capacity is asked for.
pub new-IsCache : (capacity : ℕ) → IsCache (new capacity)
unfolding new Mapped get
new-IsCache capacity = record {
  points = λ id i e. absurd (cc e);
  within = omega arith;
  room = ground arith;
  ring = inl refl;
}
