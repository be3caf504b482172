-- ===== src/Core/Error.antt =====
-- crates/quantydb-core/src/error.rs, without the texts.
use quanty_database.Prelude.{ℕ, Option}

pub data Error : Type 0 where
  io invalid_format invalid_argument already_open : Error
  corrupted : (page : Option ℕ) → Error
  page_not_writable page_out_of_bounds : ℕ → Error
  writer_raced : (expected found : ℕ) → Error
