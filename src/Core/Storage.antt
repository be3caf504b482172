-- ===== src/Core/Storage.antt =====
-- `Storage` of crates/quantydb-core/src/storage.rs, as `MemStorage`: the bytes.
pub mod Slices
use quanty_database.Prelude.{
  ℕ, zero, suc, ◌+◌, ◌-◌, List, [], ◌∷◌, ◌++◌, ltb, if◌then◌else◌, length,
}
use quanty_database.Prelude.Buffer.{slice, write_at}
use quanty_database.Prelude.Result.{Result, ok, err}
use quanty_database.Core.Error.{Error, io}
use quanty_database.Core.Page.{zeroes}

abbrev pub Storage : Type 0
Storage = List ℕ

unfoldable pub storage_len : Storage → ℕ
storage_len s = length s

-- `n` bytes at an offset; there are no short reads.
unfoldable pub read_at : ℕ → ℕ → Storage → Result Error (List ℕ)
read_at off n s = if ltb (length s) (off + n) then err io else ok (slice off n s)

-- `Vec::resize` to a length that is not smaller.
unfoldable pub grown : ℕ → Storage → Storage
grown n s = s ++ zeroes (n - length s)

-- `write_at`, which grows the storage where needed.
unfoldable pub store_at : ℕ → List ℕ → Storage → Storage
store_at off bytes s =
    write_at off bytes
      (if ltb (length s) (off + length bytes) then grown (off + length bytes) s else s)
