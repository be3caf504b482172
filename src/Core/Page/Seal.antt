-- ===== src/Core/Page/Seal.antt =====
-- `seal`, `verify`, `lsn` and `valid_page_size` of crates/quantydb-core/src/page.rs, over any checksum
-- of 32 bits.
use quanty_database.Prelude.{
  ℕ, ◌-◌, ◌^◌, ◌≤◌, ◌<◌, ◌≡◌, refl, ◌∙◌, Bool, true, not, ◌&&◌, some, arith, leb, ◌==◌,
  if◌then◌else◌, length, drop,
}
use quanty_database.Prelude.Bytes.{le_bytes, from_le, length-le_bytes, from_le-le_bytes}
use quanty_database.Prelude.Buffer.{slice, write_at, length-write_at, slice-write_at, drop-write_at}
use quanty_database.Prelude.Result.{Result, ok, err}
use quanty_database.Core.Error.{Error, corrupted}
use quanty_database.Core.Page.{
  PageId, Buf, u64_at, put_u64, length-put_u64, min_page_size, max_page_size,
}
use Prim.Native.Nat.{bit_and}

unfoldable pub lsn : Buf → ℕ
lsn buf = u64_at 8 buf

-- `u32::is_power_of_two`
abbrev pub is_power_of_two : ℕ → Bool
is_power_of_two n = not (n == 0) && bit_and n (n - 1) == 0

unfoldable pub valid_page_size : ℕ → Bool
valid_page_size page_size =
    leb min_page_size page_size && leb page_size max_page_size && is_power_of_two page_size

module _ (checksum : Buf → ℕ) where
  unfoldable pub seal : ℕ → Buf → Buf
  seal txid buf =
      let stamped = put_u64 8 txid buf in
      write_at 0 (le_bytes 4 (checksum (drop 4 stamped))) stamped

  unfoldable pub verify : Buf → PageId → Result Error (Unit {0})
  verify buf id =
      if not (from_le (slice 0 4 buf) == checksum (drop 4 buf))
      then err (corrupted (some id))
      else ok tt

  pub length-seal : (txid : ℕ) (buf : Buf) → length (seal txid buf) ≡ length buf
  unfolding seal put_u64
  length-seal txid buf =
      length-write_at 0 _ (put_u64 8 txid buf) ∙ length-write_at 8 (le_bytes 8 txid) buf

  -- A page that was sealed is verified.
  pub verify-seal :
      (txid : ℕ) (buf : Buf) (id : PageId)
      → ((b : Buf) → checksum b < 2 ^ 32)
      → 16 ≤ length buf
      → verify (seal txid buf) id ≡ ok tt
  unfolding verify seal
  verify-seal txid buf id bound fits =
      let stamped = put_u64 8 txid buf in
      let sum = checksum (drop 4 stamped) in
      let read : from_le (slice 0 4 (write_at 0 (le_bytes 4 sum) stamped)) ≡ sum =
        (rw
          (slice-write_at 0 4 (le_bytes 4 sum) stamped (length-le_bytes 4 sum)
            (omega (arith, length-put_u64 8 txid buf)))
          (from_le-le_bytes 4 sum (bound (drop 4 stamped)))) in
      let same : drop 4 (write_at 0 (le_bytes 4 sum) stamped) ≡ drop 4 stamped =
        drop-write_at 4 (le_bytes 4 sum) stamped (omega (arith, length-le_bytes 4 sum)) in
      let agree : (sum == sum) ≡ true = ground arith in rw (read, same, agree) refl
