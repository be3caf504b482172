-- ===== src/Core/Tree/Shape.antt =====
-- The trees of crates/quantydb-core/src/btree.rs: what the pages from a root hold, in the order of the
-- keys.
use quanty_database.Prelude.{ℕ, zero, suc, ◌≡◌, true, false, List, [], ◌∷◌, ◌++◌, All}
use quanty_database.Prelude.Result.{ok}
use quanty_database.Core.Page.{PageId, Buf, leaf, branch, page_type}
use quanty_database.Core.Commit.{ReadPages}
use quanty_database.Core.Node.{ValueRef, leaf_node, branch_node}
use quanty_database.Core.Node.Codec.{decode_node, bytes_lt}

abbrev pub Entry : Type 0
Entry = List ℕ × ValueRef

-- A tree of a height, and its entries. In a branch, the keys left of a separator are below it, and those
-- right of it are not.
mutual
  pub data TreeAt (src : ReadPages) : ℕ → PageId → List Entry → Type 0 where
    leaf_at :
        (page : PageId) (buf : Buf) (entries : List Entry)
        → src page ≡ ok buf
        → page_type buf ≡ ok leaf
        → decode_node buf page ≡ ok (leaf_node entries)
        → TreeAt src zero page entries
    branch_at :
        (height : ℕ) (page : PageId) (buf : Buf) (first_child : PageId)
        (separators : List (List ℕ × PageId)) (entries : List Entry)
        → src page ≡ ok buf
        → page_type buf ≡ ok branch
        → decode_node buf page ≡ ok (branch_node first_child separators)
        → ForestAt src height first_child separators entries
        → TreeAt src (suc height) page entries

  pub data ForestAt (src : ReadPages)
      : ℕ → PageId → List (List ℕ × PageId) → List Entry → Type 0 where
    last_child :
        (height : ℕ) (child : PageId) (entries : List Entry)
        → TreeAt src height child entries
        → ForestAt src height child [] entries
    next_child :
        (height : ℕ) (child : PageId) (separator : List ℕ) (right : PageId)
        (separators : List (List ℕ × PageId)) (before behind : List Entry)
        → TreeAt src height child before
        → All (λ e. bytes_lt e.0 separator ≡ true) before
        → ForestAt src height right separators behind
        → All (λ e. bytes_lt e.0 separator ≡ false) behind
        → ForestAt src height child ((separator, right) ∷ separators) (before ++ behind)
