-- ===== src/Approvals/Undo.antt =====
-- eir-svc/src/audit.rs: the one-click undo of a registry reset, claimed before it runs and released
-- when it fails.
pub mod Once
use eir.Prelude.{
  ℕ, Bool, true, false, ◌&&◌, not, Option, none, some, List, [], ◌∷◌, find, ◌==◌, if◌then◌else◌,
}
use eir.Approvals.{Db, UndoRow, RegistryUndo, insert_undo}

-- WHERE id = ? AND undone = 0
unfoldable pub is_open_undo : ℕ → UndoRow → Bool
is_open_undo id r = r.id == id && not r.undone

abbrev mark_undone : ℕ → Bool → UndoRow → UndoRow
mark_undone id undone r = if r.id == id then record r { undone = undone } else r

unfoldable pub set_undone : ℕ → Bool → List UndoRow → List UndoRow
set_undone id undone [] = []
set_undone id undone (r ∷ rs) = mark_undone id undone r ∷ set_undone id undone rs

abbrev undo_of : Option UndoRow → Option RegistryUndo
undo_of none = none
undo_of (some r) = some r.undo

-- The snapshot of the row that this call flipped.
unfoldable pub claim_registry_undo : ℕ → Db → Option RegistryUndo × Db
unfolding find
claim_registry_undo id db = elim (find (is_open_undo id) db.undos) [
  | none ↦ (none, db)
  | some r ↦ (some r.undo, record db { undos = set_undone id true db.undos })
]

unfoldable pub unclaim_registry_undo : ℕ → Db → Db
unclaim_registry_undo id db = record db { undos = set_undone id false db.undos }

-- What happens to the undo table: a recorded execution, a claim, the release of a claim.
pub data UndoCall : Type 0 where
  recorded : Bool → Option RegistryUndo → ℕ → UndoCall
  claimed : ℕ → UndoCall
  released : ℕ → UndoCall

unfoldable pub undo_step : UndoCall → Db → Db
undo_step (recorded resets undo execution) db = (insert_undo resets undo execution db).1
undo_step (claimed id) db = (claim_registry_undo id db).1
undo_step (released id) db = unclaim_registry_undo id db

unfoldable pub undo_run : List UndoCall → Db → Db
undo_run [] db = db
undo_run (c ∷ cs) db = undo_run cs (undo_step c db)

-- No call releases this claim.
unfoldable pub releases : ℕ → UndoCall → Bool
releases id (released j) = j == id
releases id _ = false
