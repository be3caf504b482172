-- ===== src/Core/Node/Child.antt =====
-- For `branch_child`, `branch_rank` and `branch_child_at` of crates/quantydb-core/src/node.rs: the child
-- of a key, in place and in the decoded node.
use quanty_database.Prelude.{
  ℕ, zero, suc, ◌+◌, ◌≤◌, ◌<◌, ◌≡◌, refl, sym, ap, ◌∙◌, inl, inr, true, false, Bool-cases, Option,
  none, some, Option-cases, List, [], ◌∷◌, arith, length, take, drop, drop-drop, ltb, ◌==◌,
  if◌then◌else◌,
}
use mathlib.Core.Option.{some-injective}
use quanty_database.Prelude.Bytes.{from_le}
use quanty_database.Prelude.Result.{ok, ok_or, ok-injective, >>=-eq-ok}
use quanty_database.Core.Error.{Error}
use quanty_database.Core.Page.{
  PageId, Buf, PageType, leaf, branch, meta, overflow, free_list, blob, commit, page_type, u16_at,
  page_header_len,
}
use quanty_database.Core.Node.{Node, leaf_node, branch_node}
use quanty_database.Core.Node.Codec.{
  read_number, read_key, read_leaf_cell, read_branch_cell, read_u64, read_cells, bytes_lt,
  is_ascending, bad, decode_node, decode_as, decode_leaf, decode_branch,
}
use quanty_database.Core.Node.Search.{
  child_loop, branch_child, rank_loop, branch_rank, rank_on, skip_loop, skip_on, child_behind,
  branch_child_at, child_in,
}
use quanty_database.Core.Node.Lookup.{
  bytes_lt_trans, tail-is_ascending, head-is_ascending, ensure-ok,
}

-- The child of the last entry whose key is not greater.
unfoldable pub child_for : List ℕ → PageId → List (List ℕ × PageId) → PageId
child_for key child [] = child
child_for key child ((k, c) ∷ entries) = child_for key (if bytes_lt key k then child else c) entries

-- How many entries have a key that is not greater.
unfoldable pub rank_of : List ℕ → List (List ℕ × PageId) → ℕ
rank_of key [] = 0
rank_of key ((k, c) ∷ entries) =
    let rest = rank_of key entries in if bytes_lt key k then rest else suc rest

pub child_for_below :
    (key : List ℕ) (child : PageId) (k : List ℕ) (c : PageId) (entries : List (List ℕ × PageId))
    → is_ascending ((k, c) ∷ entries) ≡ true
    → bytes_lt key k ≡ true
    → child_for key child ((k, c) ∷ entries) ≡ child
unfolding child_for
child_for_below key child k c [] h e = rw e refl
child_for_below key child k c ((l, d) ∷ entries) h e = rw e (
    child_for_below key child l d entries (tail-is_ascending k c ((l, d) ∷ entries) h)
      (bytes_lt_trans key k l e (head-is_ascending k l c d entries h)))

rank_of_below :
    (key : List ℕ) (k : List ℕ) (c : PageId) (entries : List (List ℕ × PageId))
    → is_ascending ((k, c) ∷ entries) ≡ true
    → bytes_lt key k ≡ true
    → rank_of key ((k, c) ∷ entries) ≡ 0
unfolding rank_of
rank_of_below key k c [] h e = rw e refl
rank_of_below key k c ((l, d) ∷ entries) h e = rw e (
    rank_of_below key l d entries (tail-is_ascending k c ((l, d) ∷ entries) h)
      (bytes_lt_trans key k l e (head-is_ascending k l c d entries h)))

child_step :
    (n : ℕ) (id : PageId) (key : List ℕ) (child : PageId) (cur : Buf) (entry : List ℕ × PageId)
    (rest : Buf) (behind : List (List ℕ × PageId))
    → read_branch_cell id cur ≡ ok (entry, rest)
    → is_ascending (entry ∷ behind) ≡ true
    → child_loop n id key entry.1 rest ≡ ok (child_for key entry.1 behind)
    → child_loop (suc n) id key child cur ≡ ok (child_for key child (entry ∷ behind))
unfolding child_loop
child_step n id key child cur (k, c) rest behind read ascending ih =
    elim (Bool-cases (bytes_lt key k)) [
      | inl e ↦ rw (read, e, child_for_below key child k c behind ascending e) refl
      | inr e ↦ rw (read, e, ih) (unfold child_for in rw e refl)
    ]

child_loop-child_for :
    (n : ℕ) (id : PageId) (key : List ℕ) (child : PageId) (cur : Buf)
    (entries : List (List ℕ × PageId))
    → read_cells (read_branch_cell id) n cur ≡ ok entries
    → is_ascending entries ≡ true
    → child_loop n id key child cur ≡ ok (child_for key child entries)
unfolding child_loop read_cells
child_loop-child_for zero id key child cur entries h ascending =
    rw (sym (ok-injective [] entries h)) (unfold child_for in refl)
child_loop-child_for (suc n) id key child cur entries h ascending =
    let (cell, read, h') = >>=-eq-ok (read_branch_cell id cur) _ h in
    let (behind, read', made) = >>=-eq-ok (read_cells (read_branch_cell id) n cell.1) _ h' in
    let made_is = ok-injective (cell.0 ∷ behind) entries made in
    let ascending' : is_ascending (cell.0 ∷ behind) ≡ true = rw made_is ascending in
    rw (sym made_is) (
      child_step n id key child cur cell.0 cell.1 behind read ascending' (
        child_loop-child_for n id key cell.0.1 cell.1 behind read'
          (tail-is_ascending cell.0.0 cell.0.1 behind ascending')))

-- A cell of a branch that can be read: its key, and eight bytes behind it.
read_branch_cell-ok :
    (id : PageId) (cur : Buf) (entry : List ℕ × PageId) (rest : Buf)
    → read_branch_cell id cur ≡ ok (entry, rest)
    → (flag : ℕ) × (rest' : Buf) × (read_key cur ≡ some (entry.0, flag, rest'))
      × (read_u64 rest' ≡ some (entry.1, rest))
unfolding read_branch_cell
read_branch_cell-ok id cur entry rest h = elim (Option-cases (read_key cur)) [
  | inl e ↦ absurd (cc (rw e at h))
  | inr ((key, flag, rest'), e) ↦
      (let (zero_flag, h') = ensure-ok (flag == 0) (bad id) _ (entry, rest) (rw e at h) in
        elim (Option-cases (read_u64 rest')) [
          | inl f ↦ absurd (cc (rw f at h'))
          | inr ((child, rest''), f) ↦
              (let same = ok-injective ((key, child), rest'') (entry, rest) (rw f at h') in
                (
                  flag,
                  rest',
                  e ∙ ap (λ p. some (p.0.0, flag, rest')) same,
                  f ∙ ap (λ p. some (p.0.1, p.1)) same,
                ))
        ])
]

-- What is behind a number that is read.
read_u64-drop :
    (cur : Buf) (v : ℕ) (rest : Buf)
    → read_u64 cur ≡ some (v, rest)
    → (ltb (length cur) 8 ≡ false) × (drop 8 cur ≡ rest)
unfolding read_number
read_u64-drop cur v rest h = elim (Bool-cases (ltb (length cur) 8)) [
  | inl e ↦ absurd (cc (rw e at h))
  | inr e ↦
      (e, ap (λ p. p.1) (some-injective (from_le (take 8 cur), drop 8 cur) (v, rest) (rw e at h)))
]

rank_step :
    (n : ℕ) (id : PageId) (key : List ℕ) (rank : ℕ) (cur : Buf) (entry : List ℕ × PageId)
    (rest : Buf) (behind : List (List ℕ × PageId))
    → read_branch_cell id cur ≡ ok (entry, rest)
    → is_ascending (entry ∷ behind) ≡ true
    → rank_loop n key (rank + 1) rest ≡ some (rank + 1 + rank_of key behind)
    → rank_loop (suc n) key rank cur ≡ some (rank + rank_of key (entry ∷ behind))
unfolding rank_loop rank_on
rank_step n id key rank cur (k, c) rest behind read ascending ih =
    let (flag, rest', at_key, at_child) = read_branch_cell-ok id cur (k, c) rest read in
    let (enough, next_is) = read_u64-drop rest' c rest at_child in
    elim (Bool-cases (bytes_lt key k)) [
      | inl e ↦
          (let none_here : rank + 0 ≡ rank = omega arith in
            rw (at_key, e, rank_of_below key k c behind ascending e, none_here) refl)
      | inr e ↦
          (let shift : rank + suc (rank_of key behind) ≡ rank + 1 + rank_of key behind =
              omega arith in
            rw (at_key, e, enough, next_is, ih) (unfold rank_of in rw (e, shift) refl))
    ]

rank_loop-rank_of :
    (n : ℕ) (id : PageId) (key : List ℕ) (rank : ℕ) (cur : Buf) (entries : List (List ℕ × PageId))
    → read_cells (read_branch_cell id) n cur ≡ ok entries
    → is_ascending entries ≡ true
    → rank_loop n key rank cur ≡ some (rank + rank_of key entries)
unfolding rank_loop read_cells
rank_loop-rank_of zero id key rank cur entries h ascending =
    let same : rank + 0 ≡ rank = omega arith in
    rw (sym (ok-injective [] entries h)) (unfold rank_of in rw same refl)
rank_loop-rank_of (suc n) id key rank cur entries h ascending =
    let (cell, read, h') = >>=-eq-ok (read_branch_cell id cur) _ h in
    let (behind, read', made) = >>=-eq-ok (read_cells (read_branch_cell id) n cell.1) _ h' in
    let made_is = ok-injective (cell.0 ∷ behind) entries made in
    let ascending' : is_ascending (cell.0 ∷ behind) ≡ true = rw made_is ascending in
    rw (sym made_is) (
      rank_step n id key rank cur cell.0 cell.1 behind read ascending' (
        rank_loop-rank_of n id key (rank + 1) cell.1 behind read'
          (tail-is_ascending cell.0.0 cell.0.1 behind ascending')))

-- The child behind an index, as `entries[i - 1].1`.
unfoldable pub child_index : PageId → List (List ℕ × PageId) → ℕ → Option PageId
child_index child entries zero = some child
child_index child [] (suc i) = none
child_index child ((k, c) ∷ entries) (suc i) = child_index c entries i

skip_step :
    (n i : ℕ) (id : PageId) (child : PageId) (cur : Buf) (entry : List ℕ × PageId) (rest : Buf)
    (behind : List (List ℕ × PageId))
    → read_branch_cell id cur ≡ ok (entry, rest)
    → ((j : ℕ) → j < n → skip_loop j rest ≡ child_index entry.1 behind (suc j))
    → i < suc n
    → skip_loop i cur ≡ child_index child (entry ∷ behind) (suc i)
unfolding skip_loop skip_on child_behind child_in child_index
skip_step n zero id child cur (k, c) rest behind read ih below =
    let (flag, rest', at_key, at_child) = read_branch_cell-ok id cur (k, c) rest read in
    rw (at_key, at_child) refl
skip_step n (suc i) id child cur (k, c) rest behind read ih below =
    let (flag, rest', at_key, at_child) = read_branch_cell-ok id cur (k, c) rest read in
    let (enough, next_is) = read_u64-drop rest' c rest at_child in
    rw (at_key, enough, next_is) (ih i (omega arith))

skip_loop-child_index :
    (n i : ℕ) (id : PageId) (child : PageId) (cur : Buf) (entries : List (List ℕ × PageId))
    → read_cells (read_branch_cell id) n cur ≡ ok entries
    → i < n
    → skip_loop i cur ≡ child_index child entries (suc i)
unfolding read_cells
skip_loop-child_index zero i id child cur entries h below = absurd (omega arith)
skip_loop-child_index (suc n) i id child cur entries h below =
    let (cell, read, h') = >>=-eq-ok (read_branch_cell id cur) _ h in
    let (behind, read', made) = >>=-eq-ok (read_cells (read_branch_cell id) n cell.1) _ h' in
    let made_is = ok-injective (cell.0 ∷ behind) entries made in
    rw (sym made_is) (
      skip_step n i id child cur cell.0 cell.1 behind read
        (λ j small. skip_loop-child_index n j id cell.0.1 cell.1 behind read' small) below)

child_index_step :
    (key : List ℕ) (child : PageId) (k : List ℕ) (c : PageId) (entries : List (List ℕ × PageId))
    → is_ascending ((k, c) ∷ entries) ≡ true
    → child_index c entries (rank_of key entries) ≡ some (child_for key c entries)
    → child_index child ((k, c) ∷ entries) (rank_of key ((k, c) ∷ entries))
      ≡ some (child_for key child ((k, c) ∷ entries))
unfolding child_index
child_index_step key child k c entries ascending ih = elim (Bool-cases (bytes_lt key k)) [
  | inl e ↦
      rw
        (
          rank_of_below key k c entries ascending e,
          child_for_below key child k c entries ascending e,
        )
        refl
  | inr e ↦ unfold rank_of child_for in rw e ih
]

child_index-rank_of :
    (key : List ℕ) (child : PageId) (entries : List (List ℕ × PageId))
    → is_ascending entries ≡ true
    → child_index child entries (rank_of key entries) ≡ some (child_for key child entries)
unfolding child_index rank_of child_for
child_index-rank_of key child [] ascending = refl
child_index-rank_of key child ((k, c) ∷ entries) ascending =
    child_index_step key child k c entries ascending
      (child_index-rank_of key c entries (tail-is_ascending k c entries ascending))

length-read_cells :
    (n : ℕ) (id : PageId) (cur : Buf) (entries : List (List ℕ × PageId))
    → read_cells (read_branch_cell id) n cur ≡ ok entries
    → length entries ≡ n
unfolding read_cells
length-read_cells zero id cur entries h = rw (sym (ok-injective [] entries h)) refl
length-read_cells (suc n) id cur entries h =
    let (cell, read, h') = >>=-eq-ok (read_branch_cell id cur) _ h in
    let (behind, read', made) = >>=-eq-ok (read_cells (read_branch_cell id) n cell.1) _ h' in
    rw (sym (ok-injective (cell.0 ∷ behind) entries made))
      (ap suc (length-read_cells n id cell.1 behind read'))

rank_of_le :
    (key : List ℕ) (entries : List (List ℕ × PageId)) → rank_of key entries ≤ length entries
unfolding rank_of
rank_of_le key [] = omega arith
rank_of_le key ((k, c) ∷ entries) =
    let ih = rank_of_le key entries in
    elim (Bool-cases (bytes_lt key k)) [ inl e ↦ rw e (omega arith) | inr e ↦ rw e (omega arith) ]

pair_path : {A B : Type 0} {a c : A} {b d : B} → a ≡ c → b ≡ d → ◌≡◌ {A = A × B} (a, b) (c, d)
pair_path e f = rw (e, f) refl

unfoldable branch_parts : Node → PageId × List (List ℕ × PageId)
branch_parts (leaf_node entries) = (0, [])
branch_parts (branch_node first_child entries) = (first_child, entries)

ok_or-some : {A : Type 0} (o : Option A) (e : Error) (a : A) → ok_or o e ≡ ok a → o ≡ some a
ok_or-some none e a h = absurd (cc h)
ok_or-some (some b) e a h = ap some (ok-injective b a h)

-- What a page that is decoded as a branch holds.
decode_branch-ok :
    (id : PageId) (count : ℕ) (body : Buf) (first_child : PageId) (entries : List (List ℕ × PageId))
    → decode_branch id count body ≡ ok (branch_node first_child entries)
    → (read_u64 body ≡ some (first_child, drop 8 body))
      × (read_cells (read_branch_cell id) count (drop 8 body) ≡ ok entries)
      × (is_ascending entries ≡ true)
unfolding decode_branch branch_parts
decode_branch-ok id count body first_child entries h =
    let (first, one, h') = >>=-eq-ok (ok_or (read_u64 body) (bad id)) _ h in
    let (read, all, h'') = >>=-eq-ok (read_cells (read_branch_cell id) count first.1) _ h' in
    let (ascending, made) =
      ensure-ok (is_ascending read) (bad id) (ok (branch_node first.0 read))
        (branch_node first_child entries) h'' in
    let same =
      ap branch_parts
        (ok-injective (branch_node first.0 read) (branch_node first_child entries) made) in
    let child_is : first.0 ≡ first_child = ap (λ p. p.0) same in
    let read_is : read ≡ entries = ap (λ p. p.1) same in
    let some_first = ok_or-some (read_u64 body) (bad id) first one in
    let (enough, rest_is) = read_u64-drop body first.0 first.1 some_first in
    (
      some_first ∙ ap some (pair_path child_is (sym rest_is)),
      rw rest_is (all ∙ ap ok read_is),
      rw (sym read_is) ascending,
    )

decode_leaf-branch :
    (id : PageId) (count : ℕ) (body : Buf) (first_child : PageId) (entries : List (List ℕ × PageId))
    → ¬ (decode_leaf id count body ≡ ok (branch_node first_child entries))
unfolding decode_leaf
decode_leaf-branch id count body first_child entries h =
    let (read, all, h') = >>=-eq-ok (read_cells (read_leaf_cell id) count body) _ h in
    let (ascending, made) =
      ensure-ok (is_ascending read) (bad id) (ok (leaf_node read)) (branch_node first_child entries)
        h' in
    cc made

decode_as-branch :
    (id : PageId) (count : ℕ) (body : Buf) (t : PageType) (first_child : PageId)
    (entries : List (List ℕ × PageId))
    → decode_as id count body t ≡ ok (branch_node first_child entries)
    → decode_branch id count body ≡ ok (branch_node first_child entries)
unfolding decode_as
decode_as-branch id count body leaf first_child entries h =
    absurd (decode_leaf-branch id count body first_child entries h)
decode_as-branch id count body branch first_child entries h = h
decode_as-branch id count body meta first_child entries h = absurd (cc h)
decode_as-branch id count body overflow first_child entries h = absurd (cc h)
decode_as-branch id count body free_list first_child entries h = absurd (cc h)
decode_as-branch id count body blob first_child entries h = absurd (cc h)
decode_as-branch id count body commit first_child entries h = absurd (cc h)

branch_child_at-child_index :
    (buf : Buf) (id : PageId) (first_child : PageId) (entries : List (List ℕ × PageId)) (n i : ℕ)
    → read_u64 (drop page_header_len buf) ≡ some (first_child, drop 8 (drop page_header_len buf))
    → read_cells (read_branch_cell id) n (drop 8 (drop page_header_len buf)) ≡ ok entries
    → i ≤ n
    → branch_child_at buf i ≡ child_index first_child entries i
unfolding branch_child_at child_index child_in
branch_child_at-child_index buf id first_child entries n zero first all h = rw first refl
branch_child_at-child_index buf id first_child entries n (suc i) first all h =
    rw (drop-drop page_header_len 8 buf) (
      skip_loop-child_index n i id first_child (drop 8 (drop page_header_len buf)) entries all
        (omega arith))

-- On a page that is decoded as a branch, the search in place gives the child of the last entry whose key
-- is not greater, or the first child; the rank in place is the number of such entries, and the child at
-- that rank is the same child.
pub branch_child-child_for :
    (buf : Buf) (id : PageId) (key : List ℕ) (first_child : PageId)
    (entries : List (List ℕ × PageId))
    → decode_node buf id ≡ ok (branch_node first_child entries)
    → (branch_child buf id key ≡ ok (child_for key first_child entries))
      × (branch_rank buf key ≡ some (rank_of key entries))
      × (branch_child_at buf (rank_of key entries) ≡ some (child_for key first_child entries))
unfolding branch_child branch_rank decode_node
branch_child-child_for buf id key first_child entries h =
    let (t, type_is, h') = >>=-eq-ok (page_type buf) _ h in
    let count = u16_at 6 buf in
    let body = drop page_header_len buf in
    let (first, all, ascending) =
      decode_branch-ok id count body first_child entries
        (decode_as-branch id count body t first_child entries h') in
    let behind : drop (page_header_len + 8) buf ≡ drop 8 body = drop-drop page_header_len 8 buf in
    let rank : rank_loop count key 0 (drop 8 body) ≡ some (rank_of key entries) =
      rank_loop-rank_of count id key 0 (drop 8 body) entries all ascending
      ∙ (let same : 0 + rank_of key entries ≡ rank_of key entries = omega arith in ap some same) in
    (
      rw first (child_loop-child_for count id key first_child (drop 8 body) entries all ascending),
      rw behind rank,
      branch_child_at-child_index buf id first_child entries count (rank_of key entries) first all (
            omega
              (arith, rank_of_le key entries, length-read_cells count id (drop 8 body) entries all))
          ∙ child_index-rank_of key first_child entries ascending,
    )

-- The separators of a branch ascend.
pub decode_node-is_ascending :
    (buf : Buf) (id : PageId) (first_child : PageId) (entries : List (List ℕ × PageId))
    → decode_node buf id ≡ ok (branch_node first_child entries)
    → is_ascending entries ≡ true
unfolding decode_node
decode_node-is_ascending buf id first_child entries h =
    let (t, type_is, h') = >>=-eq-ok (page_type buf) _ h in
    (decode_branch-ok id (u16_at 6 buf) (drop page_header_len buf) first_child entries
      (decode_as-branch id (u16_at 6 buf) (drop page_header_len buf) t first_child entries h')).2
