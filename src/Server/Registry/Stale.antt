-- ===== src/Server/Registry/Stale.antt =====
-- For `remove` and `get_mut` of crates/quantydb-server/src/registry.rs: tokens that are out of date.
use quanty_database.Prelude.{
  ℕ, suc, ◌+◌, ◌%◌, ◌^◌, ◌≤◌, ◌<◌, ◌≡◌, ◌≢◌, refl, ◌∙◌, ap, ◌⊎◌, inl, inr, false, Bool-cases,
  Option, none, some, Option-cases, List, [], ◌∷◌, arith, length, get_elem?, set, pop, ◌==◌,
  get_elem?-set, get_elem?-set_ne, get_elem?-append,
}
use quanty_database.Server.Registry.{
  Token, index_of, generation_of, next_generation, Connection, Slot, Registry, new_slot, placed,
  generation_at, occupy, insert_conn, occupant, get_conn, changed, change_conn, vacated,
  remove_conn, RegistryOp, connect, touch, close, apply, run,
}

-- The slot of an index has been handed out or freed at least once and at most `n` times since it had
-- a generation.
record Past {S : Type 0} (i g n : ℕ) (r : Registry S) : Type 0 where
  pub slot : Slot S
  pub there : get_elem? r.slots i ≡ some slot
  pub times : ℕ
  pub generation : slot.generation ≡ (g + times) % 2 ^ 32
  pub at_least : 1 ≤ times
  pub at_most : times ≤ n

same_or_not : (j i : ℕ) → (j ≡ i) ⊎ (j ≢ i)
same_or_not j i = elim (Bool-cases (j == i)) [
  | inl e ↦ inl (ground arith)
  | inr e ↦ inr (λ same. ground arith)
]

-- One more round.
Past-weaken : {S : Type 0} (i g n : ℕ) (r : Registry S) → Past i g n r → Past i g (suc n) r
Past-weaken i g n r h = record {
  slot = h.slot;
  there = h.there;
  times = h.times;
  generation = h.generation;
  at_least = h.at_least;
  at_most = omega (arith, h.at_most);
}

-- A write to a slot that keeps the generation or takes the next one.
Past-set :
    {S : Type 0} (i g n j : ℕ) (new : Slot S) (r r' : Registry S)
    → ((s : Slot S)
        → get_elem? r.slots j ≡ some s
        → (new.generation ≡ s.generation) ⊎ (new.generation ≡ next_generation s.generation))
    → r'.slots ≡ set r.slots j new
    → Past i g n r
    → Past i g (suc n) r'
Past-set i g n j new r r' step e h = elim (same_or_not j i) [
  | inl same ↦ elim (step h.slot (rw same h.there)) [
    | inl kept ↦ record {
      slot = new;
      there = rw (e, same) (get_elem?-set r.slots i new h.there);
      times = h.times;
      generation = kept ∙ h.generation;
      at_least = h.at_least;
      at_most = omega (arith, h.at_most);
    }
    | inr next ↦ record {
      slot = new;
      there = rw (e, same) (get_elem?-set r.slots i new h.there);
      times = suc h.times;
      generation = omega (arith, next, h.generation);
      at_least = omega arith;
      at_most = omega (arith, h.at_most);
    }
  ]
  | inr other ↦ record {
    slot = h.slot;
    there = rw e (get_elem?-set_ne r.slots i j new other ∙ h.there);
    times = h.times;
    generation = h.generation;
    at_least = h.at_least;
    at_most = omega (arith, h.at_most);
  }
]

placed-Past :
    {S : Type 0} (i g n : ℕ) (o : Option (ℕ × List ℕ)) (r : Registry S)
    → Past i g n r
    → Past i g n (placed o r).1
unfolding placed
placed-Past i g n none r h = record {
  slot = h.slot;
  there = get_elem?-append r.slots (new_slot ∷ []) i h.there;
  times = h.times;
  generation = h.generation;
  at_least = h.at_least;
  at_most = h.at_most;
}
placed-Past i g n (some (j, rest)) r h = record {
  slot = h.slot;
  there = h.there;
  times = h.times;
  generation = h.generation;
  at_least = h.at_least;
  at_most = h.at_most;
}

occupy-Past :
    {S : Type 0} (i g n j : ℕ) (socket : S) (id : ℕ) (r : Registry S)
    → Past i g n r
    → Past i g (suc n) (occupy j socket id r).1
unfolding occupy generation_at
occupy-Past i g n j socket id r h =
    Past-set i g n j _ r (occupy j socket id r).1 (λ s e. inr (rw e refl)) refl h

-- What `get_mut` finds has the generation of the token.
occupant-generation :
    {S : Type 0} (g : ℕ) (s : Slot S) (c : Connection S)
    → occupant g (some s) ≡ some c
    → g ≡ s.generation
unfolding occupant
occupant-generation g s c e = elim (Bool-cases (s.generation == g)) [
  | inl same ↦ ground arith
  | inr other ↦ absurd (cc (rw other at e))
]

found-generation :
    {S : Type 0} (t : Token) (r : Registry S) (c : Connection S) (s : Slot S)
    → get_conn t r ≡ some c
    → get_elem? r.slots (index_of t) ≡ some s
    → generation_of t ≡ s.generation
unfolding get_conn
found-generation t r c s found there = occupant-generation (generation_of t) s c (rw there at found)

changed-Past :
    {S : Type 0} (i g n : ℕ) (o : Option (Connection S)) (t : Token)
    (change : Connection S → Connection S) (r : Registry S)
    → get_conn t r ≡ o
    → Past i g n r
    → Past i g (suc n) (changed o t change r)
unfolding changed
changed-Past i g n none t change r found h = Past-weaken i g n r h
changed-Past i g n (some c) t change r found h =
    Past-set i g n (index_of t) _ r (changed (some c) t change r)
      (λ s e. inl (found-generation t r c s found e)) refl h

vacated-Past :
    {S : Type 0} (i g n : ℕ) (o : Option (Connection S)) (t : Token) (r : Registry S)
    → get_conn t r ≡ o
    → Past i g n r
    → Past i g (suc n) (vacated o t r).1
unfolding vacated
vacated-Past i g n none t r found h = Past-weaken i g n r h
vacated-Past i g n (some c) t r found h =
    Past-set i g n (index_of t) _ r (vacated (some c) t r).1
      (λ s e. inr (ap next_generation (found-generation t r c s found e))) refl h

apply-Past :
    {S : Type 0} (i g n : ℕ) (op : RegistryOp S) (r : Registry S)
    → Past i g n r
    → Past i g (suc n) (apply op r)
unfolding apply insert_conn change_conn remove_conn
apply-Past i g n (connect socket id) r h =
    occupy-Past i g n (placed (pop r.free) r).0 socket id (placed (pop r.free) r).1
      (placed-Past i g n (pop r.free) r h)
apply-Past i g n (touch t change) r h = changed-Past i g n (get_conn t r) t change r refl h
apply-Past i g n (close t) r h = vacated-Past i g n (get_conn t r) t r refl h

run-Past :
    {S : Type 0} (i g n : ℕ) (ops : List (RegistryOp S)) (r : Registry S)
    → Past i g n r
    → Past i g (n + length ops) (run ops r)
unfolding run
run-Past i g n [] r h = let e : n + 0 ≡ n = omega arith in rw e h
run-Past i g n (op ∷ ops) r h =
    let e : n + suc (length ops) ≡ suc n + length ops = omega arith in
    rw e (run-Past i g (suc n) ops (apply op r) (apply-Past i g n op r h))

generation_of-lt : (t : Token) → generation_of t < 2 ^ 32
unfolding generation_of
generation_of-lt t = omega arith

-- With fewer rounds than there are generations, the token of the first one finds nothing.
get_conn-Past :
    {S : Type 0} (t : Token) (n : ℕ) (r : Registry S)
    → n < 2 ^ 32
    → Past (index_of t) (generation_of t) n r
    → get_conn t r ≡ none
unfolding get_conn occupant
get_conn-Past t n r few h =
    let bound = generation_of-lt t in
    let ne : h.slot.generation ≢ generation_of t =
      λ same. absurd (omega (arith, same, h.generation, h.at_least, h.at_most)) in
    let e : (h.slot.generation == generation_of t) ≡ false = ground arith in rw (h.there, e) refl

removed-Past :
    {S : Type 0} (t : Token) (r : Registry S) (c : Connection S)
    → get_conn t r ≡ some c
    → Past (index_of t) (generation_of t) 1 (vacated (get_conn t r) t r).1
unfolding vacated get_conn occupant
removed-Past t r c found = elim (Option-cases (get_elem? r.slots (index_of t))) [
  | inl e ↦ absurd (cc (rw e at found))
  | inr (s, e) ↦ rw found (record {
    slot = record { generation = next_generation (generation_of t); conn = none };
    there = get_elem?-set r.slots (index_of t) _ e;
    times = 1;
    generation = refl;
    at_least = omega arith;
    at_most = omega arith;
  })
]

-- Once a connection is removed, its token finds no connection, whatever connections come, change and
-- go after it, up to 2 ^ 32 - 2 such events.
pub remove-run_get :
    {S : Type 0} (t : Token) (r : Registry S) (c : Connection S) (ops : List (RegistryOp S))
    → get_conn t r ≡ some c
    → 1 + length ops < 2 ^ 32
    → get_conn t (run ops (remove_conn t r).1) ≡ none
unfolding remove_conn
remove-run_get t r c ops found few =
    get_conn-Past t (1 + length ops) (run ops (vacated (get_conn t r) t r).1) few (
      run-Past (index_of t) (generation_of t) 1 ops (vacated (get_conn t r) t r).1
        (removed-Past t r c found))
