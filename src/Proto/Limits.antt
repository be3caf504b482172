-- ===== src/Proto/Limits.antt =====
-- crates/quantydb-proto/src/limits.rs: the numbers that bound an allocation.
use quanty_database.Prelude.{ℕ, ◌*◌}

abbrev pub max_body : ℕ
max_body = 16 * 1024 * 1024

abbrev pub max_values_per_row : ℕ
max_values_per_row = 4096

abbrev pub max_rows_per_batch : ℕ
max_rows_per_batch = 65536

abbrev pub max_lines : ℕ
max_lines = 65536

abbrev pub min_value_len : ℕ
min_value_len = 1

abbrev pub min_row_len : ℕ
min_row_len = 4

abbrev pub min_text_len : ℕ
min_text_len = 4
