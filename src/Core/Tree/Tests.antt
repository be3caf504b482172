-- ===== src/Core/Tree/Tests.antt =====
-- Tests: a tree of a branch over two leaves, on pages of 512 bytes.
use quanty_database.Prelude.{
  ℕ, ◌≤◌, ◌≡◌, refl, some, List, [], ◌∷◌, ◌++◌, arith, length, ◌==◌, if◌then◌else◌,
}
use quanty_database.Prelude.Bytes.{bytes_cmp, ascii}
use quanty_database.Prelude.Result.{ok, err}
use quanty_database.Core.Error.{page_out_of_bounds}
use quanty_database.Core.Page.{PageId, Buf, zeroes, leaf, page_type}
use quanty_database.Core.Meta.RoundTrip.{length-zeroes}
use quanty_database.Core.Commit.{ReadPages}
use quanty_database.Core.Node.{
  Node, inline, leaf_node, branch_node, encoded_size, leaf_cell_size, leaf_cells_size,
  branch_cell_size, branch_cells_size,
}
use quanty_database.Core.Node.Codec.{encode_into, is_ascending, bytes_lt}
use quanty_database.Core.Node.RoundTrip.{IsNode, decode-encode_into, page_type-encode_into}
use quanty_database.Core.Node.Bytes.{node_type}
use quanty_database.Core.Node.Lookup.{lookup}
use quanty_database.Core.Tree.{get, max_key_len}
use quanty_database.Core.Tree.Shape.{Entry, TreeAt, leaf_at, branch_at, last_child, next_child}
use quanty_database.Core.Tree.Get.{value_of, get-TreeAt}

abbrev left : List Entry
left = (ascii "ape", inline (ascii "one")) ∷ []

abbrev right : List Entry
right = (ascii "bee", inline (ascii "two")) ∷ []

abbrev root_node : Node
root_node = branch_node 5 ((ascii "bee", 6) ∷ [])

abbrev page_of : Node → Buf
page_of node = (encode_into node (zeroes 512)).1

abbrev pages : ReadPages
pages id =
    if id == 5
    then ok (page_of (leaf_node left))
    else if id == 6
    then ok (page_of (leaf_node right))
    else if id == 7
    then ok (page_of root_node)
    else err (page_out_of_bounds id)

abbrev root_separators : List (List ℕ × PageId)
root_separators = (ascii "bee", 6) ∷ []

fits_left : encoded_size (leaf_node left) ≤ length (zeroes 512)
unfolding encoded_size leaf_cell_size leaf_cells_size
fits_left = omega (arith, length-zeroes 512)

fits_right : encoded_size (leaf_node right) ≤ length (zeroes 512)
unfolding encoded_size leaf_cell_size leaf_cells_size
fits_right = omega (arith, length-zeroes 512)

fits_root : encoded_size root_node ≤ length (zeroes 512)
unfolding encoded_size branch_cell_size branch_cells_size
fits_root = omega (arith, length-zeroes 512)

left-IsNode : IsNode (leaf_node left)
unfolding is_ascending
left-IsNode = (refl, omega arith, ((omega arith, omega arith), tt))

right-IsNode : IsNode (leaf_node right)
unfolding is_ascending
right-IsNode = (refl, omega arith, ((omega arith, omega arith), tt))

root-IsNode : IsNode root_node
unfolding is_ascending
root-IsNode = (refl, omega arith, ((omega arith, omega arith), tt), omega arith)

leaf_type :
    (entries : List Entry)
    → encoded_size (leaf_node entries) ≤ length (zeroes 512)
    → page_type (page_of (leaf_node entries)) ≡ ok leaf
unfolding node_type
leaf_type entries h = page_type-encode_into (leaf_node entries) (zeroes 512) h

left_tree : TreeAt pages 0 5 left
left_tree =
    leaf_at 5 (page_of (leaf_node left)) left refl (leaf_type left fits_left)
      (decode-encode_into (leaf_node left) (zeroes 512) 5 left-IsNode fits_left).0

right_tree : TreeAt pages 0 6 right
right_tree =
    leaf_at 6 (page_of (leaf_node right)) right refl (leaf_type right fits_right)
      (decode-encode_into (leaf_node right) (zeroes 512) 6 right-IsNode fits_right).0

tree : TreeAt pages 1 7 (left ++ right)
unfolding bytes_lt bytes_cmp node_type
tree =
    branch_at 0 7 (page_of root_node) 5 root_separators (left ++ right) refl
      (page_type-encode_into root_node (zeroes 512) fits_root)
      (decode-encode_into root_node (zeroes 512) 7 root-IsNode fits_root).0
      (next_child 0 5 (ascii "bee") 6 [] left right left_tree (refl, tt)
        (last_child 0 6 right right_tree) (refl, tt))

get-TreeAt_example :
    get 2 512 pages 7 (ascii "bee")
    ≡ some (value_of 512 pages (lookup (ascii "bee") (left ++ right)))
get-TreeAt_example =
    get-TreeAt 512 pages 7 (ascii "bee") 1 (left ++ right) tree (λ e. absurd (omega arith))
      (unfold max_key_len in omega arith)
