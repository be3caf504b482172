-- ===== src/Core/Node/Tests.antt =====
-- Tests: a leaf and a branch of two entries, on pages of 512 bytes.
use quanty_database.Prelude.{ℕ, ◌≡◌, refl, some, List, [], ◌∷◌, arith}
use quanty_database.Prelude.Bytes.{bytes_cmp, ascii}
use quanty_database.Prelude.Result.{ok}
use quanty_database.Core.Page.{Buf, zeroes}
use quanty_database.Core.Meta.RoundTrip.{length-zeroes}
use quanty_database.Core.Node.{
  ValueRef, inline, overflowed, leaf_node, branch_node, encoded_size, leaf_cell_size,
  leaf_cells_size, branch_cell_size, branch_cells_size,
}
use quanty_database.Core.Node.Codec.{decode_node, encode_into, is_ascending, bytes_lt}
use quanty_database.Core.Node.RoundTrip.{IsNode, decode-encode_into}
use quanty_database.Core.Node.Search.{find_in_leaf, branch_child, branch_rank, branch_child_at}
use quanty_database.Core.Node.Lookup.{lookup, answered, find_in_leaf-lookup}
use quanty_database.Core.Node.Child.{child_for, rank_of, branch_child-child_for}

abbrev leaf_entries : List (List ℕ × ValueRef)
leaf_entries = (ascii "ape", inline (ascii "one")) ∷ (ascii "bee", overflowed 9 70000) ∷ []

abbrev branch_entries : List (List ℕ × ℕ)
branch_entries = (ascii "ape", 5) ∷ (ascii "bee", 6) ∷ []

leaf-IsNode : IsNode (leaf_node leaf_entries)
unfolding is_ascending bytes_lt bytes_cmp
leaf-IsNode = (
  refl,
  omega arith,
  ((omega arith, omega arith), ((omega arith, (omega arith, omega arith)), tt)),
)

branch-IsNode : IsNode (branch_node 4 branch_entries)
unfolding is_ascending bytes_lt bytes_cmp
branch-IsNode =
    (refl, omega arith, ((omega arith, omega arith), ((omega arith, omega arith), tt)), omega arith)

decode-encode_into_example :
    (decode_node (encode_into (leaf_node leaf_entries) (zeroes 512)).1 7
      ≡ ok (leaf_node leaf_entries))
    × ((encode_into (leaf_node leaf_entries) (zeroes 512)).0
        ≡ encoded_size (leaf_node leaf_entries))
decode-encode_into_example =
    decode-encode_into (leaf_node leaf_entries) (zeroes 512) 7 leaf-IsNode
      (unfold encoded_size leaf_cell_size leaf_cells_size in omega (arith, length-zeroes 512))

abbrev leaf_page : Buf
leaf_page = (encode_into (leaf_node leaf_entries) (zeroes 512)).1

leaf_decoded : decode_node leaf_page 7 ≡ ok (leaf_node leaf_entries)
leaf_decoded =
    (decode-encode_into (leaf_node leaf_entries) (zeroes 512) 7 leaf-IsNode
      (unfold encoded_size leaf_cell_size leaf_cells_size in omega (arith, length-zeroes 512))).0

find_in_leaf-lookup_example :
    answered leaf_page (find_in_leaf leaf_page 7 (ascii "bee"))
    ≡ ok (lookup (ascii "bee") leaf_entries)
find_in_leaf-lookup_example =
    find_in_leaf-lookup leaf_page 7 (ascii "bee") leaf_entries leaf_decoded

abbrev branch_page : Buf
branch_page = (encode_into (branch_node 4 branch_entries) (zeroes 512)).1

branch_decoded : decode_node branch_page 7 ≡ ok (branch_node 4 branch_entries)
branch_decoded =
    (decode-encode_into (branch_node 4 branch_entries) (zeroes 512) 7 branch-IsNode (
      unfold encoded_size branch_cell_size branch_cells_size in omega (arith, length-zeroes 512))).0

branch_child-child_for_example :
    (branch_child branch_page 7 (ascii "bat") ≡ ok (child_for (ascii "bat") 4 branch_entries))
    × (branch_rank branch_page (ascii "bat") ≡ some (rank_of (ascii "bat") branch_entries))
    × (branch_child_at branch_page (rank_of (ascii "bat") branch_entries)
        ≡ some (child_for (ascii "bat") 4 branch_entries))
branch_child-child_for_example =
    branch_child-child_for branch_page 7 (ascii "bat") 4 branch_entries branch_decoded

found : child_for (ascii "bat") 4 branch_entries ≡ 5
unfolding child_for bytes_lt bytes_cmp
found = refl
