-- ===== src/Core/Meta/RoundTrip.antt =====
-- For `encode` and `decode` of crates/quantydb-core/src/meta.rs: the fields of a meta page.
use quanty_database.Prelude.{
  ℕ, ◌+◌, ◌^◌, ◌≤◌, ◌<◌, ◌≡◌, refl, ap, ◌∙◌, true, false, some, List, ◌∷◌, arith, leb, ◌==◌, length,
  drop,
}
use quanty_database.Prelude.Bytes.{IsU64, le_bytes, from_le, from_le-le_bytes, bytes_eq_refl}
use quanty_database.Prelude.Buffer.{slice, patch, length-patch, written, slice-written}
use quanty_database.Prelude.Result.{ok}
use quanty_database.Core.Page.{
  PageId, Buf, init_header, length-init_header, meta, u64_at, put_u64, zeroes,
}
use quanty_database.Core.Page.Seal.{seal, verify, valid_page_size, verify-seal, length-seal}
use quanty_database.Core.Meta.{
  Meta, magic, format_version, meta_fields, is_astray, fields_at, checked, encode_meta, decode_meta,
}

-- A meta that the pager can commit: its numbers fit, the page size is one of the legal ones, and no
-- root is astray.
pub record IsMeta (m : Meta) : Type 0 where
  pub size : valid_page_size m.page_size ≡ true
  pub size_fits : m.page_size < 2 ^ 32
  pub size_room : 96 ≤ m.page_size
  pub txid_fits : IsU64 m.txid
  pub data_fits : IsU64 m.data_root
  pub catalog_fits : IsU64 m.catalog_root
  pub freelist_fits : IsU64 m.freelist_root
  pub count_fits : IsU64 m.page_count
  pub time_fits : IsU64 m.unix_ts_ms
  pub commit_fits : IsU64 m.commit_page
  pub refs_fits : IsU64 m.refs_root
  pub pages : leb 2 m.page_count ≡ true
  pub data_root : is_astray m.page_count m.data_root ≡ false
  pub catalog_root : is_astray m.page_count m.catalog_root ≡ false
  pub freelist_root : is_astray m.page_count m.freelist_root ≡ false
  pub commit_page : is_astray m.page_count m.commit_page ≡ false

pub length-zeroes : (n : ℕ) → length (zeroes n) ≡ n
unfolding zeroes
length-zeroes ℕ.zero = refl
length-zeroes (ℕ.suc n) = omega (arith, length-zeroes n)

checked-ok : (m : Meta) (slot : PageId) → IsMeta m → checked m slot ≡ ok m
unfolding checked
checked-ok m slot h = rw (h.pages, h.data_root, h.catalog_root, h.freelist_root, h.commit_page) refl

module _ (checksum : Buf → ℕ) where
  pub length-encode_meta : (m : Meta) (buf : Buf) → length (encode_meta checksum m buf) ≡ length buf
  unfolding encode_meta
  length-encode_meta m buf =
      length-seal checksum m.txid (patch (meta_fields m) (init_header meta (zeroes (length buf))))
      ∙ length-patch (meta_fields m) (init_header meta (zeroes (length buf)))
      ∙ length-init_header meta (zeroes (length buf))
      ∙ length-zeroes (length buf)

  -- The writes of `encode`, with those of `seal` in front.
  abbrev all_fields : Meta → ℕ → List (ℕ × List ℕ)
  all_fields m sum = (0, le_bytes 4 sum) ∷ (8, le_bytes 8 m.txid) ∷ meta_fields m

  encode_meta-patch :
      (m : Meta) (buf : Buf)
      → (sum : ℕ) × (encode_meta checksum m buf
          ≡ patch (all_fields m sum) (init_header meta (zeroes (length buf))))
  unfolding encode_meta seal put_u64 patch
  encode_meta-patch m buf = (
    checksum (
        drop 4 (put_u64 8 m.txid (patch (meta_fields m) (init_header meta (zeroes (length buf)))))),
    refl,
  )

  -- A field of the body is read.
  slice-encode_meta :
      (off n : ℕ) (bytes : List ℕ) (m : Meta) (buf : Buf)
      → ((sum : ℕ) → written off n (all_fields m sum) ≡ some bytes)
      → off + n ≤ length buf
      → slice off n (encode_meta checksum m buf) ≡ bytes
  slice-encode_meta off n bytes m buf found fits =
      let (sum, e) = encode_meta-patch m buf in
      rw e (
        slice-written off n (all_fields m sum) bytes (init_header meta (zeroes (length buf)))
          (found sum)
          (omega (
            arith,
            fits,
            length-init_header meta (zeroes (length buf)),
            length-zeroes (length buf),
          )))

  u64_at-encode_meta :
      (off v : ℕ) (m : Meta) (buf : Buf)
      → v < 2 ^ 64
      → ((sum : ℕ) → written off 8 (all_fields m sum) ≡ some (le_bytes 8 v))
      → off + 8 ≤ length buf
      → u64_at off (encode_meta checksum m buf) ≡ v
  unfolding u64_at
  u64_at-encode_meta off v m buf h found fits =
      ap from_le (slice-encode_meta off 8 (le_bytes 8 v) m buf found fits) ∙ from_le-le_bytes 8 v h

  fields_at-encode_meta :
      (m : Meta) (buf : Buf)
      → IsMeta m
      → length buf ≡ m.page_size
      → fields_at (encode_meta checksum m buf) ≡ m
  unfolding fields_at written le_bytes
  fields_at-encode_meta m buf h e =
      let room : 96 ≤ length buf = omega (arith, e, h.size_room) in
      rw
        (
          slice-encode_meta 28 4 (le_bytes 4 m.page_size) m buf (λ s. refl) (omega (arith, room)),
          from_le-le_bytes 4 m.page_size h.size_fits,
          u64_at-encode_meta 32 m.txid m buf h.txid_fits (λ s. refl) (omega (arith, room)),
          u64_at-encode_meta 40 m.data_root m buf h.data_fits (λ s. refl) (omega (arith, room)),
          u64_at-encode_meta 48 m.catalog_root m buf h.catalog_fits (λ s. refl)
              (omega (arith, room)),
          u64_at-encode_meta 56 m.freelist_root m buf h.freelist_fits (λ s. refl)
              (omega (arith, room)),
          u64_at-encode_meta 64 m.page_count m buf h.count_fits (λ s. refl) (omega (arith, room)),
          u64_at-encode_meta 72 m.unix_ts_ms m buf h.time_fits (λ s. refl) (omega (arith, room)),
          u64_at-encode_meta 80 m.commit_page m buf h.commit_fits (λ s. refl) (omega (arith, room)),
          u64_at-encode_meta 88 m.refs_root m buf h.refs_fits (λ s. refl) (omega (arith, room)),
        )
        refl

  verify-encode_meta :
      (m : Meta) (buf : Buf) (slot : PageId)
      → ((b : Buf) → checksum b < 2 ^ 32)
      → 16 ≤ length buf
      → verify checksum (encode_meta checksum m buf) slot ≡ ok tt
  unfolding encode_meta
  verify-encode_meta m buf slot bound fits =
      let body = patch (meta_fields m) (init_header meta (zeroes (length buf))) in
      verify-seal checksum m.txid body slot bound (
        omega (
          arith,
          fits,
          length-patch (meta_fields m) (init_header meta (zeroes (length buf))),
          length-init_header meta (zeroes (length buf)),
          length-zeroes (length buf),
        ))

  -- A meta page is read back as it was written, under any checksum of 32 bits.
  pub decode-encode_meta :
      (m : Meta) (buf : Buf) (slot : PageId)
      → ((b : Buf) → checksum b < 2 ^ 32)
      → IsMeta m
      → length buf ≡ m.page_size
      → decode_meta checksum (encode_meta checksum m buf) slot ≡ ok m
  unfolding decode_meta written le_bytes
  decode-encode_meta m buf slot bound h e =
      let room : 96 ≤ length buf = omega (arith, e, h.size_room) in
      let long : length (encode_meta checksum m buf) ≡ m.page_size = length-encode_meta m buf ∙ e in
      let sizes : (m.page_size == m.page_size) ≡ true = ground arith in
      rw
        (
          verify-encode_meta m buf slot bound (omega (arith, room)),
          slice-encode_meta 16 8 magic m buf (λ s. refl) (omega (arith, room)),
          bytes_eq_refl magic,
          slice-encode_meta 24 4 (le_bytes 4 format_version) m buf (λ s. refl)
              (omega (arith, room)),
          from_le-le_bytes 4 format_version (omega arith),
          slice-encode_meta 28 4 (le_bytes 4 m.page_size) m buf (λ s. refl) (omega (arith, room)),
          from_le-le_bytes 4 m.page_size h.size_fits,
          h.size,
          long,
          sizes,
          fields_at-encode_meta m buf h e,
          checked-ok m slot h,
        )
        refl
