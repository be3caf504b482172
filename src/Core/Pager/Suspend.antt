-- ===== src/Core/Pager/Suspend.antt =====
-- For `suspend` and `resume` of crates/quantydb-core/src/pager.rs: a transaction that is put down
-- between statements.
use quanty_database.Prelude.{
  ℕ, ◌≡◌, refl, sym, ◌∙◌, ap, ◌&&◌, inl, inr, Bool, true, false, Bool-cases, Option, none, some,
  List, [], ◌∷◌, ◌++◌, arith, ◌==◌, if◌then◌else◌,
}
use quanty_database.Prelude.Result.{Result, ok, err, ◌>>=◌}
use quanty_database.Core.Error.{Error, invalid_argument}
use quanty_database.Core.Page.{PageId, Buf}
use quanty_database.Core.Commit.{ReadPages}
use quanty_database.Core.Node.{Node}
use quanty_database.Core.Meta.{Meta}
use quanty_database.Core.Pager.{
  Batch, suspend, resume, allocate, page_mut, write_through, record_page, record_in, set_freelist,
}
use quanty_database.Core.Pager.Steps.{
  Op, alloc, write, take_kept, keep, write_kept, root, free_all, apply, run, take_node_sized,
  keep_node_sized, kept_and_page_mut, change_kept, set_root,
}

-- The statements of a transaction, each with the committed meta that the pager has when the batch is
-- taken up again after it.
unfoldable pub interrupted : ReadPages → List (List Op × Meta) → Batch → Result Error Batch
interrupted src [] b = ok b
interrupted src ((ops, current) ∷ statements) b = do
  c ← resume current (suspend (run src ops b))
  interrupted src statements c

unfoldable pub joined : List (List Op × Meta) → List Op
joined [] = []
joined ((ops, current) ∷ statements) = ops ++ joined statements

-- Whether the committed meta had the txid of the batch each time.
abbrev pub is_alone : ℕ → List (List Op × Meta) → Bool
is_alone txid [] = true
is_alone txid ((ops, current) ∷ statements) = current.txid == txid && is_alone txid statements

-- A batch with the base of another and no savepoint.
record Unmarked (base : Meta) (b : Batch) : Type 0 where
  pub same_base : b.base ≡ base
  pub unmarked : b.mark ≡ none

write_through-Unmarked :
    (base : Meta) (old : Option Buf) (id : PageId) (change : Buf → Buf) (b : Batch)
    → Unmarked base b
    → Unmarked base (write_through old id change b).1
unfolding write_through
write_through-Unmarked base none id change b h = h
write_through-Unmarked base (some buf) id change b h = record {
  same_base = h.same_base;
  unmarked = h.unmarked;
}

change_kept-Unmarked :
    (base : Meta) (kept : Option (Node × ℕ)) (page : Option Buf) (id : PageId)
    (change : Node × ℕ → Node × ℕ) (written : Buf → Buf) (b : Batch)
    → Unmarked base b
    → Unmarked base (change_kept kept page id change written b)
unfolding change_kept record_page record_in
change_kept-Unmarked base none page id change written b h = h
change_kept-Unmarked base (some kept) none id change written b h = h
change_kept-Unmarked base (some kept) (some buf) id change written b h = record {
  same_base = h.same_base;
  unmarked = rw (h.unmarked) refl;
}

if-Unmarked :
    (base : Meta) (t : Bool) {x y : Batch}
    → Unmarked base x
    → Unmarked base y
    → Unmarked base (if t then x else y)
if-Unmarked base true h k = h
if-Unmarked base false h k = k

apply-Unmarked :
    (src : ReadPages) (base : Meta) (op : Op) (b : Batch)
    → Unmarked base b
    → Unmarked base (apply src op b)
unfolding apply allocate page_mut record_page record_in take_node_sized keep_node_sized
    kept_and_page_mut set_root set_freelist
apply-Unmarked src base (alloc t) b h = record {
  same_base = h.same_base;
  unmarked = rw (h.unmarked) refl;
}
apply-Unmarked src base (write id change) b h =
    write_through-Unmarked base _ id change _
      (record { same_base = h.same_base; unmarked = rw (h.unmarked) refl })
apply-Unmarked src base (take_kept id) b h = record {
  same_base = h.same_base;
  unmarked = h.unmarked;
}
apply-Unmarked src base (keep id node size) b h =
    if-Unmarked base _ (record { same_base = h.same_base; unmarked = h.unmarked })
      (record { same_base = h.same_base; unmarked = h.unmarked })
apply-Unmarked src base (write_kept id change written) b h =
    change_kept-Unmarked base _ _ id change written b h
apply-Unmarked src base (root r page) b h = record {
  same_base = h.same_base;
  unmarked = h.unmarked;
}
apply-Unmarked src base (free_all ids) b h = record {
  same_base = h.same_base;
  unmarked = h.unmarked;
}

run-Unmarked :
    (src : ReadPages) (base : Meta) (ops : List Op) (b : Batch)
    → Unmarked base b
    → Unmarked base (run src ops b)
unfolding run
run-Unmarked src base [] b h = h
run-Unmarked src base (op ∷ ops) b h =
    run-Unmarked src base ops (apply src op b) (apply-Unmarked src base op b h)

run-nil : (src : ReadPages) (b : Batch) → run src [] b ≡ b
unfolding run
run-nil src b = refl

run-append :
    (src : ReadPages) (ops more : List Op) (b : Batch)
    → run src (ops ++ more) b ≡ run src more (run src ops b)
unfolding run
run-append src [] more b = refl
run-append src (op ∷ ops) more b = run-append src ops more (apply src op b)

resume-suspend :
    (current base : Meta) (b : Batch)
    → Unmarked base b
    → resume current (suspend b)
      ≡ (if current.txid == base.txid then ok b else err invalid_argument)
unfolding resume suspend
resume-suspend current base b h =
    let same = ap (λ (m : Meta). m.txid) h.same_base in
    elim (Bool-cases (current.txid == base.txid)) [
      | inl e ↦
          (let e' : (current.txid == b.base.txid) ≡ true = ground arith in
            rw (e, e') (ap (λ m. ok (record b { mark = m })) (sym h.unmarked)))
      | inr e ↦ (let e' : (current.txid == b.base.txid) ≡ false = ground arith in rw (e, e') refl)
    ]

-- A transaction that is put down and taken up again after each of its statements ends in the batch
-- that the statements make in one go, if at each time the last commit is the one it began on; if any
-- other writer has committed by one of those times, it is refused, whatever its statements did. The
-- batch starts with no savepoint.
pub interrupted-joined :
    (src : ReadPages) (statements : List (List Op × Meta)) (b : Batch)
    → b.mark ≡ none
    → interrupted src statements b ≡ (
        if is_alone b.base.txid statements
        then ok (run src (joined statements) b)
        else err invalid_argument)
unfolding interrupted joined
interrupted-joined src [] b h = rw (run-nil src b) refl
interrupted-joined src ((ops, current) ∷ statements) b h =
    let after = run-Unmarked src b.base ops b (record { same_base = refl; unmarked = h }) in
    let ih = interrupted-joined src statements (run src ops b) after.unmarked in
    let base_kept = ap (λ (m : Meta). m.txid) after.same_base in
    rw (resume-suspend current b.base (run src ops b) after)
      (elim (Bool-cases (current.txid == b.base.txid)) [
        | inl e ↦
            rw (e, run-append src ops (joined statements) b)
              (ih
                ∙ ap
                    (λ txid.
                      if is_alone txid statements
                      then ok (run src (joined statements) (run src ops b))
                      else err invalid_argument)
                    base_kept)
        | inr e ↦ rw e refl
      ])
