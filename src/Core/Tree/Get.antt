-- ===== src/Core/Tree/Get.antt =====
-- For `get` of crates/quantydb-core/src/btree.rs: the descent, and the lookup in the entries of the tree.
use quanty_database.Prelude.{
  ℕ, zero, suc, ◌≤◌, ◌≡◌, ◌≢◌, refl, sym, ap, ◌∙◌, inl, inr, Bool, true, false, Bool-cases, Option,
  none, some, List, [], ◌∷◌, ◌++◌, arith, length, ltb, ◌==◌, All,
}
use quanty_database.Prelude.Bytes.{bytes_eq, eq_of_bytes_eq}
use quanty_database.Prelude.Result.{Result, ok, err, ◌>>=◌, ok-injective}
use quanty_database.Core.Error.{Error}
use quanty_database.Core.Page.{PageId, Buf, nil_page}
use quanty_database.Core.Commit.{ReadPages}
use quanty_database.Core.Node.{ValueRef}
use quanty_database.Core.Node.Codec.{bytes_lt, is_ascending}
use quanty_database.Core.Node.Search.{CellValue, inline_at, overflowed_at, find_in_leaf}
use quanty_database.Core.Node.Lookup.{lookup, answered, find_in_leaf-lookup, tail-is_ascending}
use quanty_database.Core.Node.InPlace.{value_in}
use quanty_database.Core.Node.Child.{
  child_for, child_for_below, branch_child-child_for, decode_node-is_ascending,
}
use quanty_database.Core.Tree.{
  get, get_loop, get_on, get_in, descend, value_found, read_value, max_key_len,
}
use quanty_database.Core.Tree.Shape.{
  Entry, TreeAt, ForestAt, leaf_at, branch_at, last_child, next_child,
}

-- What a reference to a value stands for.
unfoldable pub value_of : ℕ → ReadPages → Option ValueRef → Result Error (Option (List ℕ))
value_of page_size src none = ok none
value_of page_size src (some value) = do v ← read_value page_size src value; ok (some v)

value_found-value_of :
    (page_size : ℕ) (src : ReadPages) (buf : Buf) (r : Result Error (Option CellValue))
    (o : Option ValueRef)
    → answered buf r ≡ ok o
    → value_found page_size src buf r ≡ value_of page_size src o
unfolding value_found value_of answered value_in read_value
value_found-value_of page_size src buf (err e) o h = absurd (cc h)
value_found-value_of page_size src buf (ok none) o h = rw (sym (ok-injective none o h)) refl
value_found-value_of page_size src buf (ok (some (inline_at start stop))) o h =
    rw (sym (ok-injective _ o h)) refl
value_found-value_of page_size src buf (ok (some (overflowed_at head len))) o h =
    rw (sym (ok-injective _ o h)) refl

lookup-append_none :
    (key : List ℕ) (xs ys : List Entry)
    → lookup key xs ≡ none
    → lookup key (xs ++ ys) ≡ lookup key ys
unfolding lookup
lookup-append_none key [] ys h = refl
lookup-append_none key ((k, v) ∷ xs) ys h = elim (Bool-cases (bytes_eq k key)) [
  | inl e ↦ absurd (cc (rw e at h))
  | inr e ↦ rw e (lookup-append_none key xs ys (rw e at h))
]

lookup-append_left :
    (key : List ℕ) (xs ys : List Entry)
    → lookup key ys ≡ none
    → lookup key (xs ++ ys) ≡ lookup key xs
unfolding lookup
lookup-append_left key [] ys h = h
lookup-append_left key ((k, v) ∷ xs) ys h = elim (Bool-cases (bytes_eq k key)) [
  | inl e ↦ rw e refl
  | inr e ↦ rw e (lookup-append_left key xs ys h)
]

-- A key on one side of a separator is not among the keys on the other.
lookup_apart :
    (key separator : List ℕ) (side : Bool) (entries : List Entry)
    → All (λ e. bytes_lt e.0 separator ≡ side) entries
    → bytes_lt key separator ≢ side
    → lookup key entries ≡ none
unfolding lookup
lookup_apart key separator side [] h ne = refl
lookup_apart key separator side ((k, v) ∷ entries) (h, hs) ne = elim (Bool-cases (bytes_eq k key)) [
  | inl e ↦ (let same = eq_of_bytes_eq k key e in absurd (ne (rw (sym same) h)))
  | inr e ↦ rw e (lookup_apart key separator side entries hs ne)
]

-- The tree of the child of a key, with the same answer.
abbrev ChildTree : ReadPages → List ℕ → ℕ → PageId → List Entry → Type 0
ChildTree src key height child entries =
    (part : List Entry) × TreeAt src height child part × (lookup key entries ≡ lookup key part)

forest_step :
    (src : ReadPages) (key : List ℕ) (height : ℕ) (child : PageId) (k : List ℕ) (c : PageId)
    (separators : List (List ℕ × PageId)) (before behind : List Entry)
    → is_ascending ((k, c) ∷ separators) ≡ true
    → TreeAt src height child before
    → All (λ e. bytes_lt e.0 k ≡ true) before
    → All (λ e. bytes_lt e.0 k ≡ false) behind
    → ChildTree src key height (child_for key c separators) behind
    → ChildTree src key height (child_for key child ((k, c) ∷ separators)) (before ++ behind)
forest_step src key height child k c separators before behind ascending tree below above
      (part, sub, same) =
    elim (Bool-cases (bytes_lt key k)) [
      | inl e ↦ (
        before,
        rw (child_for_below key child k c separators ascending e) tree,
        lookup-append_left key before behind
            (lookup_apart key k false behind above (λ s. cc (e, s))),
      )
      | inr e ↦ (
        part,
        (unfold child_for in rw e sub),
        lookup-append_none key before behind (lookup_apart key k true before below (λ s. cc (e, s)))
            ∙ same,
      )
    ]

-- The child of a key has the tree with the answer.
forest-child_for :
    (src : ReadPages) (key : List ℕ) (height : ℕ) (child : PageId)
    (separators : List (List ℕ × PageId)) (entries : List Entry)
    → is_ascending separators ≡ true
    → ForestAt src height child separators entries
    → ChildTree src key height (child_for key child separators) entries
forest-child_for src key height child [] entries ascending (last_child _ _ _ tree) =
    (entries, (unfold child_for in tree), refl)
forest-child_for src key height child ((k, c) ∷ separators) entries ascending
      (next_child _ _ _ _ _ before behind tree below forest above) =
    forest_step src key height child k c separators before behind ascending tree below above (
      forest-child_for src key height c separators behind
        (tail-is_ascending k c separators ascending) forest)

-- One page of the descent.
get_loop-TreeAt :
    (page_size : ℕ) (src : ReadPages) (key : List ℕ) (height : ℕ) (page : PageId)
    (entries : List Entry)
    → TreeAt src height page entries
    → get_loop (suc height) page_size src key page
      ≡ some (value_of page_size src (lookup key entries))
unfolding get_loop get_on get_in descend
get_loop-TreeAt page_size src key zero page entries (leaf_at _ buf _ read type_is decoded) =
    rw (read, type_is)
      (ap some (
        value_found-value_of page_size src buf (find_in_leaf buf page key) (lookup key entries)
          (find_in_leaf-lookup buf page key entries decoded)))
get_loop-TreeAt page_size src key (suc height) page entries
      (branch_at _ _ buf first_child separators _ read type_is decoded forest) =
    let (child_is, rank, at_rank) =
      branch_child-child_for buf page key first_child separators decoded in
    let (part, sub, same) =
      forest-child_for src key height first_child separators entries
        (decode_node-is_ascending buf page first_child separators decoded) forest in
    rw (read, type_is, child_is, same)
      (get_loop-TreeAt page_size src key height (child_for key first_child separators) part sub)

-- A lookup in a tree ends, and gives what the entries of the tree, in one list from left to right, have for the key:
-- its value, read from its pages where it is long, or nothing. As many rounds are needed as the tree
-- has levels. Conditions: the tree has a root, and the key is no longer than the longest that is kept.
pub get-TreeAt :
    (page_size : ℕ) (src : ReadPages) (root : PageId) (key : List ℕ) (height : ℕ)
    (entries : List Entry)
    → TreeAt src height root entries
    → root ≢ nil_page
    → length key ≤ max_key_len page_size
    → get (suc height) page_size src root key ≡ some (value_of page_size src (lookup key entries))
unfolding get
get-TreeAt page_size src root key height entries tree at_root short =
    let there : (root == nil_page) ≡ false = ground arith in
    let fits : ltb (max_key_len page_size) (length key) ≡ false = ground arith in
    rw (there, fits) (get_loop-TreeAt page_size src key height root entries tree)
