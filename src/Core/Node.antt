-- ===== src/Core/Node.antt =====
-- crates/quantydb-core/src/node.rs: the nodes of the tree, and the sizes of their cells.
pub mod Codec
pub mod Bytes
pub mod RoundTrip
pub mod Search
pub mod InPlace
pub mod Lookup
pub mod Child
mod Tests
use quanty_database.Prelude.{ℕ, ◌+◌, List, [], ◌∷◌, length}
use quanty_database.Core.Page.{PageId, page_header_len}

pub data ValueRef : Type 0 where
  inline : List ℕ → ValueRef
  overflowed : (head : PageId) → (len : ℕ) → ValueRef

pub data Node : Type 0 where
  leaf_node : List (List ℕ × ValueRef) → Node
  branch_node : (first_child : PageId) → List (List ℕ × PageId) → Node

unfoldable pub leaf_cell_size : List ℕ → ValueRef → ℕ
leaf_cell_size key (inline v) = 2 + 1 + length key + (4 + length v)
leaf_cell_size key (overflowed head len) = 2 + 1 + length key + 16

unfoldable pub branch_cell_size : List ℕ → ℕ
branch_cell_size key = 2 + 1 + length key + 8

unfoldable pub leaf_cells_size : List (List ℕ × ValueRef) → ℕ
leaf_cells_size [] = 0
leaf_cells_size ((k, v) ∷ entries) = leaf_cell_size k v + leaf_cells_size entries

unfoldable pub branch_cells_size : List (List ℕ × PageId) → ℕ
branch_cells_size [] = 0
branch_cells_size ((k, c) ∷ entries) = branch_cell_size k + branch_cells_size entries

unfoldable pub encoded_size : Node → ℕ
encoded_size (leaf_node entries) = page_header_len + leaf_cells_size entries
encoded_size (branch_node first_child entries) = page_header_len + (8 + branch_cells_size entries)
