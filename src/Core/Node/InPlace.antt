-- ===== src/Core/Node/InPlace.antt =====
-- For `find_in_leaf` and `check_leaf` of crates/quantydb-core/src/node.rs: the cells of a leaf, read in
-- place and decoded.
use quanty_database.Prelude.{
  ℕ, ◌+◌, ◌-◌, ◌≤◌, ◌≡◌, refl, sym, ap, ◌∙◌, inl, inr, Bool-cases, Option, none, some, Option-cases,
  List, arith, length, take, drop, drop-drop, length-take, ltb, ◌==◌,
}
use mathlib.Core.Option.{some-injective}
use quanty_database.Prelude.Bytes.{from_le}
use quanty_database.Prelude.Buffer.{slice}
use quanty_database.Prelude.Result.{Result, ok, err, ok_or, ◌>>=◌}
use quanty_database.Core.Error.{Error}
use quanty_database.Core.Page.{PageId, Buf}
use quanty_database.Core.Node.{ValueRef, inline, overflowed}
use quanty_database.Core.Node.Codec.{
  read_number, read_key, split_key, split_value, overflow_value, read_value, read_leaf_cell, bad,
  vflag_inline, vflag_overflow,
}
use quanty_database.Core.Node.Search.{
  CellValue, inline_at, overflowed_at, Cell, inline_cell, overflow_cell, value_at, leaf_cell_at,
  key_of,
}

-- What a cell's value says, with its bytes.
unfoldable pub value_in : Buf → CellValue → ValueRef
value_in buf (inline_at start stop) = inline (slice start (stop - start) buf)
value_in buf (overflowed_at head len) = overflowed head len

-- A cell that is decoded, and the same cell read in place.
unfoldable pub SameCell :
    Buf → PageId → Result Error ((List ℕ × ValueRef) × Buf) → Result Error Cell → Type 0
SameCell buf id (ok (entry, rest)) (ok c) =
    (key_of buf c ≡ entry.0) × (value_in buf c.value ≡ entry.1) × (drop c.following buf ≡ rest)
SameCell buf id (err e) (err f) = (e ≡ bad id) × (f ≡ bad id)
SameCell buf id (ok a) (err f) = ⊥
SameCell buf id (err e) (ok c) = ⊥

-- What is read of a number.
read_number-some :
    (n : ℕ) (cur : Buf) (v : ℕ) (rest : Buf)
    → read_number n cur ≡ some (v, rest)
    → (n ≤ length cur) × (rest ≡ drop n cur)
unfolding read_number
read_number-some n cur v rest h = elim (Bool-cases (ltb (length cur) n)) [
  | inl e ↦ absurd (cc (rw e at h))
  | inr e ↦
      (let same = some-injective (from_le (take n cur), drop n cur) (v, rest) (rw e at h) in
        (ground arith, sym (ap (λ p. p.1) same)))
]

-- What is read of a key.
read_key-some :
    (cur key : List ℕ) (flag : ℕ) (rest : Buf)
    → read_key cur ≡ some (key, flag, rest)
    → (slice 3 (length key) cur ≡ key) × (rest ≡ drop (3 + length key) cur)
unfolding read_key split_key slice
read_key-some cur key flag rest h = elim (Bool-cases (ltb (length cur) 3)) [
  | inl e ↦ absurd (cc (rw e at h))
  | inr e ↦
      (let n = from_le (take 2 cur) in
        elim (Bool-cases (ltb (length (drop 3 cur)) n)) [
          | inl f ↦ absurd (cc (rw (e, f) at h))
          | inr f ↦
              (let same =
                  some-injective
                    (take n (drop 3 cur), from_le (take 1 (drop 2 cur)), drop n (drop 3 cur))
                    (key, flag, rest) (rw (e, f) at h) in
                let key_is : take n (drop 3 cur) ≡ key = ap (λ p. p.0) same in
                let long : length key ≡ n =
                  (ap length (sym key_is)) ∙ length-take n (drop 3 cur) (ground arith) in
                (rw long key_is, rw long (sym (ap (λ p. p.2) same) ∙ sym (drop-drop 3 n cur))))
        ])
]

-- The bytes from a place in what is behind another place.
drop-at :
    (at off place : ℕ) (buf : Buf) → place ≡ at + off → drop off (drop at buf) ≡ drop place buf
drop-at at off place buf e = rw e (sym (drop-drop at off buf))

slice-at :
    (at off place n m : ℕ) (buf : Buf)
    → place ≡ at + off
    → m ≡ n
    → slice place m buf ≡ slice off n (drop at buf)
unfolding slice
slice-at at off place n m buf e f = rw (f, drop-at at off place buf e) refl

-- A number at the place behind a key.
behind-key :
    (buf : Buf) (at place n : ℕ) (key rest rest' : List ℕ)
    → rest ≡ drop (3 + length key) (drop at buf)
    → rest' ≡ drop n rest
    → place ≡ at + 3 + length key + n
    → drop place buf ≡ rest'
behind-key buf at place n key rest rest' e f g = sym (
    rw (f, e)
      (rw (drop-at at (3 + length key) (at + 3 + length key) buf (omega arith))
        (drop-at (at + 3 + length key) n place buf (omega arith))))

inline-SameCell :
    (buf : Buf) (id : PageId) (at : ℕ) (key rest : List ℕ) (o : Option (ℕ × Buf))
    → slice 3 (length key) (drop at buf) ≡ key
    → rest ≡ drop (3 + length key) (drop at buf)
    → read_number 4 rest ≡ o
    → SameCell buf id
        (ok_or o (bad id) >>= split_value id >>= λ p. ok ((key, p.0), p.1))
        (ok_or o (bad id) >>= inline_cell id (at + 3) (at + 3 + length key))
unfolding SameCell
inline-SameCell buf id at key rest none k e h = (refl, refl)
inline-SameCell buf id at key rest (some (len, rest')) k e h =
    let (enough, rest_is) = read_number-some 4 rest len rest' h in
    elim (Bool-cases (ltb (length rest') len)) [
      | inl f ↦ unfold split_value inline_cell in rw f (refl, refl)
      | inr f ↦
          (let start' = at + 3 + length key + 4 in
            let stop' = start' + len in
            let here = behind-key buf at start' 4 key rest rest' e rest_is refl in
            unfold split_value inline_cell value_in slice in
            rw f (
              slice-at at 3 (at + 3) (length key) (at + 3 + length key - (at + 3)) buf refl
                    (omega arith)
                  ∙ k,
              (let gap : stop' - start' ≡ len = omega arith in rw (gap, here) refl),
              rw (sym here) (sym (drop-at start' len stop' buf refl)),
            ))
    ]

overflow-SameCell :
    (buf : Buf) (id : PageId) (at : ℕ) (key rest : List ℕ) (head : ℕ) (rest' : Buf)
    → slice 3 (length key) (drop at buf) ≡ key
    → rest ≡ drop (3 + length key) (drop at buf)
    → rest' ≡ drop 8 rest
    → SameCell buf id
        (overflow_value id (head, rest') >>= λ p. ok ((key, p.0), p.1))
        (overflow_cell id (at + 3) (at + 3 + length key) (head, rest'))
unfolding overflow_value overflow_cell
overflow-SameCell buf id at key rest head rest' k e f = elim (Option-cases (read_number 8 rest')) [
  | inl h ↦ rw h (unfold SameCell in (refl, refl))
  | inr ((len, rest''), h) ↦
      (let (enough, rest_is) = read_number-some 8 rest' len rest'' h in
        let here = behind-key buf at (at + 3 + length key + 8) 8 key rest rest' e f refl in
        rw h (
          unfold SameCell value_in in
          (
            slice-at at 3 (at + 3) (length key) (at + 3 + length key - (at + 3)) buf refl
                  (omega arith)
                ∙ k,
            refl,
            rw (rest_is, sym here)
                (sym (
                  drop-at (at + 3 + length key + 8) 8 (at + 3 + length key + 16) buf
                    (omega arith))),
          )))
]

value-SameCell :
    (buf : Buf) (id : PageId) (at : ℕ) (key rest : List ℕ) (vflag : ℕ)
    → slice 3 (length key) (drop at buf) ≡ key
    → rest ≡ drop (3 + length key) (drop at buf)
    → SameCell buf id
        (read_value id vflag rest >>= λ p. ok ((key, p.0), p.1))
        (value_at id vflag (at + 3) (at + 3 + length key) rest)
unfolding read_value value_at
value-SameCell buf id at key rest vflag k e = elim (Bool-cases (vflag == vflag_inline)) [
  | inl f ↦ rw f (inline-SameCell buf id at key rest (read_number 4 rest) k e refl)
  | inr f ↦ elim (Bool-cases (vflag == vflag_overflow)) [
    | inl g ↦
        rw (f, g)
          (elim (Option-cases (read_number 8 rest)) [
            | inl h ↦ rw h (unfold SameCell in (refl, refl))
            | inr ((head, rest'), h) ↦
                (let (enough, rest_is) = read_number-some 8 rest head rest' h in
                  rw h (overflow-SameCell buf id at key rest head rest' k e rest_is))
          ])
    | inr g ↦ rw (f, g) (unfold SameCell in (refl, refl))
  ]
]

-- A cell of a leaf that is read in place is the one that is decoded there, with the same place for the
-- next; and it is refused where the other is.
pub leaf_cell_at-SameCell :
    (buf : Buf) (id : PageId) (at : ℕ)
    → SameCell buf id (read_leaf_cell id (drop at buf)) (leaf_cell_at buf at id)
unfolding read_leaf_cell leaf_cell_at
leaf_cell_at-SameCell buf id at = elim (Option-cases (read_key (drop at buf))) [
  | inl h ↦ rw h (unfold SameCell in (refl, refl))
  | inr ((key, vflag, rest), h) ↦
      (let (k, e) = read_key-some (drop at buf) key vflag rest h in
        rw h (value-SameCell buf id at key rest vflag k e))
]
