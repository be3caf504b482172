-- ===== src/Core/Pager/Crash/Phases.antt =====
-- For `commit` of crates/quantydb-core/src/pager.rs: its two syncs cut it in three phases.
use quanty_database.Prelude.{ℕ, ◌*◌, ◌≡◌, refl, ◌⊎◌, inl, inr, true, List, [], ◌∷◌, ◌++◌, arith}
use quanty_database.Prelude.Buffer.{all_apart}
use quanty_database.Core.Page.{PageId, Buf}
use quanty_database.Core.Storage.{Storage, store_at}
use quanty_database.Core.Pager.Durable.{Event, write, sync, page_writes, perform, perform_all}
use quanty_database.Core.Pager.Crash.{Unsynced, CrashedAt, Crashed, cut, written, flushed}

-- The writes of pages, on top of others.
unfoldable pub on_top : ℕ → List (PageId × Buf) → List (ℕ × Buf) → List (ℕ × Buf)
on_top ps [] writes = writes
on_top ps ((id, buf) ∷ pages) writes = on_top ps pages ((id * ps, buf) ∷ writes)

all_apart-on_top :
    (off n ps : ℕ) (pages : List (PageId × Buf)) (writes : List (ℕ × Buf))
    → all_apart off n (on_top ps pages writes) ≡ true
    → all_apart off n writes ≡ true
unfolding on_top all_apart
all_apart-on_top off n ps [] writes h = h
all_apart-on_top off n ps ((id, buf) ∷ pages) writes h =
    let ih = all_apart-on_top off n ps pages ((id * ps, buf) ∷ writes) h in ground arith

Unsynced-on_top :
    (ps : ℕ) (pages : List (PageId × Buf)) (writes : List (ℕ × Buf)) (s disk : Storage)
    → Unsynced s writes disk
    → Unsynced s (on_top ps pages writes) disk
Unsynced-on_top ps pages writes s disk u = record {
  longer = u.longer;
  same = λ off n fits apart. u.same off n fits (all_apart-on_top off n ps pages writes apart);
}

-- The pages are on their way, or all of them are durable.
pages-CrashedAt :
    (ps : ℕ) (pages : List (PageId × Buf)) (rest : List Event) (synced now disk : Storage)
    (writes : List (ℕ × Buf))
    → CrashedAt synced now writes (page_writes ps pages ++ sync ∷ rest) disk
    → Unsynced synced (on_top ps pages writes) disk
      ⊎ Crashed (perform_all (page_writes ps pages) now) rest disk
unfolding page_writes on_top perform perform_all
pages-CrashedAt ps [] rest synced now disk writes (cut _ _ _ _ _ u) = inl u
pages-CrashedAt ps [] rest synced now disk writes (flushed _ _ _ _ _ c) = inr c
pages-CrashedAt ps ((id, buf) ∷ pages) rest synced now disk writes (cut _ _ _ _ _ u) =
    inl (Unsynced-on_top ps ((id, buf) ∷ pages) writes synced disk u)
pages-CrashedAt ps ((id, buf) ∷ pages) rest synced now disk writes (written _ _ _ _ _ _ _ c) =
    pages-CrashedAt ps pages rest synced (store_at (id * ps) buf now) disk ((id * ps, buf) ∷ writes)
      c

nothing-Unsynced :
    (off : ℕ) (bytes : Buf) (s disk : Storage)
    → Unsynced s [] disk
    → Unsynced s ((off, bytes) ∷ []) disk
unfolding all_apart
nothing-Unsynced off bytes s disk u = record {
  longer = u.longer;
  same = λ at n fits apart. u.same at n fits refl;
}

-- The meta page is on its way, or it is durable.
meta-CrashedAt :
    (off : ℕ) (bytes : Buf) (s disk : Storage)
    → Crashed s (write off bytes ∷ sync ∷ []) disk
    → Unsynced s ((off, bytes) ∷ []) disk ⊎ Unsynced (store_at off bytes s) [] disk
meta-CrashedAt off bytes s disk (cut _ _ _ _ _ u) = inl (nothing-Unsynced off bytes s disk u)
meta-CrashedAt off bytes s disk (written _ _ _ _ _ _ _ (cut _ _ _ _ _ u)) = inl u
meta-CrashedAt off bytes s disk (written _ _ _ _ _ _ _ (flushed _ _ _ _ _ (cut _ _ _ _ _ u))) =
    inr u

-- The pages of a commit, then its meta page, then neither.
pub phases :
    (ps off : ℕ) (pages : List (PageId × Buf)) (bytes : Buf) (s disk : Storage)
    → Crashed s (page_writes ps pages ++ sync ∷ write off bytes ∷ sync ∷ []) disk
    → Unsynced s (on_top ps pages []) disk
      ⊎ Unsynced (perform_all (page_writes ps pages) s) ((off, bytes) ∷ []) disk
      ⊎ Unsynced (store_at off bytes (perform_all (page_writes ps pages) s)) [] disk
phases ps off pages bytes s disk c =
    elim (pages-CrashedAt ps pages (write off bytes ∷ sync ∷ []) s s disk [] c) [
      | inl u ↦ inl u
      | inr d ↦ inr (meta-CrashedAt off bytes (perform_all (page_writes ps pages) s) disk d)
    ]
