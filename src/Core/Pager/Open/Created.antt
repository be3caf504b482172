-- ===== src/Core/Pager/Open/Created.antt =====
-- For `create` of crates/quantydb-core/src/pager.rs: the two meta pages of a new database.
use quanty_database.Prelude.{
  ℕ, ◌*◌, ◌^◌, ◌≤◌, ◌<◌, ◌≡◌, refl, sym, ap, ◌∙◌, inl, inr, true, Bool-cases, some, List, arith,
  ◌==◌,
}
use quanty_database.Prelude.Bytes.{IsU64}
use quanty_database.Prelude.Result.{ok, ok-injective}
use quanty_database.Prelude.Buffer.{slice}
use quanty_database.Core.Page.{Buf, zeroes}
use quanty_database.Core.Page.Seal.{valid_page_size}
use quanty_database.Core.Storage.{Storage, store_at, storage_len}
use quanty_database.Core.Storage.Slices.{length-store_at, slice-store_at, slice-store_at_apart}
use quanty_database.Core.Meta.{Meta, encode_meta}
use quanty_database.Core.Meta.Newest.{valid}
use quanty_database.Core.Meta.RoundTrip.{
  IsMeta, length-encode_meta, decode-encode_meta, length-zeroes,
}
use quanty_database.Core.Pager.Durable.{Event, perform, perform_all}
use quanty_database.Core.Pager.Crash.Slots.{IsStored, valid-bytes}
use quanty_database.Core.Pager.Open.{initial_meta, create}

size_bounds :
    (page_size : ℕ) → valid_page_size page_size ≡ true → (512 ≤ page_size) × (page_size ≤ 65536)
unfolding valid_page_size
size_bounds page_size h = (ground arith, ground arith)

initial_meta-IsMeta :
    (page_size now_ms : ℕ)
    → valid_page_size page_size ≡ true
    → IsU64 now_ms
    → IsMeta (initial_meta page_size now_ms)
unfolding initial_meta
initial_meta-IsMeta page_size now_ms h k =
    let (low, high) = size_bounds page_size h in
    record {
      size = h;
      size_fits = omega arith;
      size_room = omega arith;
      txid_fits = omega arith;
      data_fits = omega arith;
      catalog_fits = omega arith;
      freelist_fits = omega arith;
      count_fits = omega arith;
      time_fits = k;
      commit_fits = omega arith;
      refs_fits = omega arith;
      pages = refl;
      data_root = refl;
      catalog_root = refl;
      freelist_root = refl;
      commit_page = refl;
    }

module _ (checksum : Buf → ℕ) where
  -- A database with the same meta page in both slots, where the next commit expects its newest.
  pub record IsTwin (s : Storage) (m : Meta) : Type 0 where
    pub stored : IsStored checksum s m
    pub same_bytes : slice 0 m.page_size s ≡ slice m.page_size m.page_size s
    pub in_first : valid checksum s m.page_size 0 ≡ some m
    pub in_second : valid checksum s m.page_size 1 ≡ some m

  two_slots :
      (page_size now_ms : ℕ) (s : Storage)
      → ((b : Buf) → checksum b < 2 ^ 32)
      → valid_page_size page_size ≡ true
      → IsU64 now_ms
      → IsTwin
          (store_at page_size
            (encode_meta checksum (initial_meta page_size now_ms) (zeroes page_size))
            (store_at 0
              (encode_meta checksum (initial_meta page_size now_ms) (zeroes page_size))
              s))
          (initial_meta page_size now_ms)
  unfolding initial_meta
  two_slots page_size now_ms s bound h k =
      let first = initial_meta page_size now_ms in
      let page = encode_meta checksum first (zeroes page_size) in
      let long = length-encode_meta checksum first (zeroes page_size) ∙ length-zeroes page_size in
      let one = store_at 0 page s in
      let both = store_at page_size page one in
      let room = (length-store_at 0 page s).0 in
      let room' = (length-store_at page_size page one).0 in
      let is_meta = initial_meta-IsMeta page_size now_ms h k in
      let none_before : 0 * page_size ≡ 0 = omega arith in
      let one_before : 1 * page_size ≡ page_size = omega arith in
      let low : slice 0 page_size both ≡ page =
        slice-store_at_apart 0 page_size page_size page one (omega (arith, room, long))
          (ground arith)
        ∙ slice-store_at 0 page_size page s long in
      let high : slice page_size page_size both ≡ page =
        slice-store_at page_size page_size page one long in
      let at_zero : valid checksum both page_size 0 ≡ some first =
        valid-bytes checksum both page_size 0 page first (omega (arith, room', long))
          (rw none_before low)
          (decode-encode_meta checksum first (zeroes page_size) 0 bound is_meta
            (length-zeroes page_size)) in
      let at_one : valid checksum both page_size 1 ≡ some first =
        valid-bytes checksum both page_size 1 page first (omega (arith, room', long))
          (rw one_before high)
          (decode-encode_meta checksum first (zeroes page_size) 1 bound is_meta
            (length-zeroes page_size)) in
      record {
        stored = record {
          room = omega (arith, room', long);
          newest = at_zero;
          older = rw at_one (inr refl);
        };
        same_bytes = low ∙ sym high;
        in_first = at_zero;
        in_second = at_one;
      }

  -- A new database holds the same bytes in both meta slots, a valid page of its first meta in each,
  -- and it is stored where the first commit expects it. Conditions: the checksum has 32 bits, the
  -- time fits in 64, and the creation was not refused.
  pub create-IsTwin :
      (page_size now_ms : ℕ) (s : Storage) (m : Meta) (events : List Event)
      → ((b : Buf) → checksum b < 2 ^ 32)
      → IsU64 now_ms
      → create checksum page_size now_ms s ≡ ok (m, events)
      → IsTwin (perform_all events s) m
  unfolding create perform_all perform
  create-IsTwin page_size now_ms s m events bound k e =
      elim (Bool-cases (valid_page_size page_size)) [
        | inr h ↦ absurd (cc (rw h at e))
        | inl h ↦ elim (Bool-cases (storage_len s == 0)) [
          | inr empty ↦ absurd (cc (rw (h, empty) at e))
          | inl empty ↦
              (let same = ok-injective _ (m, events) (rw (h, empty) at e) in
                let m_is = ap (λ p. p.0) same in
                let events_are = ap (λ p. p.1) same in
                rw (sym m_is, sym events_are) (two_slots page_size now_ms s bound h k))
        ]
      ]

  pub create-page_size :
      (page_size now_ms : ℕ) (s : Storage) (m : Meta) (events : List Event)
      → create checksum page_size now_ms s ≡ ok (m, events)
      → m.page_size ≡ page_size
  unfolding create initial_meta
  create-page_size page_size now_ms s m events e = elim (Bool-cases (valid_page_size page_size)) [
    | inr h ↦ absurd (cc (rw h at e))
    | inl h ↦ elim (Bool-cases (storage_len s == 0)) [
      | inr empty ↦ absurd (cc (rw (h, empty) at e))
      | inl empty ↦
          (let same = ok-injective _ (m, events) (rw (h, empty) at e) in
            ap (λ (p : Meta × List Event). p.0.page_size) (sym same))
    ]
  ]
