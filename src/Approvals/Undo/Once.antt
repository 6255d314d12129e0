-- ===== src/Approvals/Undo/Once.antt =====
-- One claimant at a time runs an undo.
use eir.Prelude.{
  ◌≡◌, refl, ℕ, ◌<◌, Bool, true, false, Option, none, some, List, [], ◌∷◌, any, find, find-none_iff,
  Option-cases, inl, inr, ◌⊎◌, sym, subst, ap, ◌∙◌, ◌==◌, arith,
}
use eir.Approvals.{Db, UndoRow, RegistryUndo, insert_undo}
use eir.Approvals.Undo.{
  UndoCall, recorded, claimed, released, is_open_undo, set_undone, claim_registry_undo,
  unclaim_registry_undo, undo_step, undo_run, releases,
}

-- The row of the id is claimed, and no later row gets its id.
record IsClaimed (id : ℕ) (db : Db) : Type 0 where
  closed : any (is_open_undo id) db.undos ≡ false
  old : id < db.next_undo

any-set_undone :
    (id j : ℕ) (rs : List UndoRow)
    → any (is_open_undo id) rs ≡ false
    → any (is_open_undo id) (set_undone j true rs) ≡ false
unfolding any is_open_undo set_undone
any-set_undone id j [] h = refl
any-set_undone id j (r ∷ rs) h = ground (arith, any-set_undone id j rs)

any-set_undone_other :
    (id j : ℕ) (rs : List UndoRow)
    → (j == id) ≡ false
    → any (is_open_undo id) rs ≡ false
    → any (is_open_undo id) (set_undone j false rs) ≡ false
unfolding any is_open_undo set_undone
any-set_undone_other id j [] n h = refl
any-set_undone_other id j (r ∷ rs) n h = ground (arith, any-set_undone_other id j rs)

any-set_undone_same :
    (id : ℕ) (rs : List UndoRow) → any (is_open_undo id) (set_undone id true rs) ≡ false
unfolding any is_open_undo set_undone
any-set_undone_same id [] = refl
any-set_undone_same id (r ∷ rs) = ground (arith, any-set_undone_same id rs)

claim_registry_undo-cases :
    (id : ℕ) (db : Db)
    → (any (is_open_undo id) db.undos ≡ false) × (claim_registry_undo id db ≡ (none, db))
      ⊎ ((r : UndoRow) × (claim_registry_undo id db
            ≡ (some r.undo, record db { undos = set_undone id true db.undos })))
unfolding claim_registry_undo
claim_registry_undo-cases id db = elim (Option-cases (find (is_open_undo id) db.undos)) [
  | inl e ↦ inl ((find-none_iff (is_open_undo id) db.undos).0 e, rw (e, claim_registry_undo) refl)
  | inr (r, e) ↦ inr (r, rw (e, claim_registry_undo) refl)
]

claim-IsClaimed : (id j : ℕ) (db : Db) → IsClaimed id db → IsClaimed id (claim_registry_undo j db).1
claim-IsClaimed id j db h = elim (claim_registry_undo-cases j db) [
  | inl (_, e) ↦ subst (λ p. IsClaimed id (p.1)) (sym e) h
  | inr (r, e) ↦
      subst (λ p. IsClaimed id (p.1)) (sym e)
        (record { closed = any-set_undone id j db.undos h.closed; old = h.old })
]

insert_undo-IsClaimed :
    (id : ℕ) (resets : Bool) (undo : Option RegistryUndo) (execution : ℕ) (db : Db)
    → IsClaimed id db
    → IsClaimed id (insert_undo resets undo execution db).1
unfolding insert_undo any is_open_undo
insert_undo-IsClaimed id true (some undo) execution db h = record {
  closed = ground (arith, h.closed, h.old);
  old = omega (arith, h.old);
}
insert_undo-IsClaimed id true none execution db h = h
insert_undo-IsClaimed id false undo execution db h = h

undo_step-IsClaimed :
    (id : ℕ) (c : UndoCall) (db : Db)
    → releases id c ≡ false
    → IsClaimed id db
    → IsClaimed id (undo_step c db)
unfolding undo_step releases unclaim_registry_undo
undo_step-IsClaimed id (recorded resets undo execution) db n h =
    insert_undo-IsClaimed id resets undo execution db h
undo_step-IsClaimed id (claimed j) db n h = claim-IsClaimed id j db h
undo_step-IsClaimed id (released j) db n h = record {
  closed = any-set_undone_other id j db.undos n h.closed;
  old = h.old;
}

undo_run-IsClaimed :
    (id : ℕ) (cs : List UndoCall) (db : Db)
    → any (releases id) cs ≡ false
    → IsClaimed id db
    → IsClaimed id (undo_run cs db)
unfolding undo_run any
undo_run-IsClaimed id [] db n h = h
undo_run-IsClaimed id (c ∷ cs) db n h =
    undo_run-IsClaimed id cs (undo_step c db) (ground arith)
      (undo_step-IsClaimed id c db (ground arith) h)

closed-none :
    (id : ℕ) (db : Db)
    → any (is_open_undo id) db.undos ≡ false
    → (claim_registry_undo id db).0 ≡ none
unfolding claim_registry_undo
closed-none id db h = rw ((find-none_iff (is_open_undo id) db.undos).1 h, claim_registry_undo) refl

none_ne_some : {A : Type 0} (a : A) → none ≡ some a → ⊥
none_ne_some a e = cc

-- An undo is run by one claimant: after a claim got the snapshot of an id that was given out, no claim
-- of it gets anything, whatever executions are recorded and whatever else is claimed or released, until
-- this claim is released.
pub claim_registry_undo-once :
    (id : ℕ) (db : Db) (snapshot : RegistryUndo) (cs : List UndoCall)
    → (claim_registry_undo id db).0 ≡ some snapshot
    → id < db.next_undo
    → any (releases id) cs ≡ false
    → (claim_registry_undo id (undo_run cs (claim_registry_undo id db).1)).0 ≡ none
claim_registry_undo-once id db snapshot cs e old n = elim (claim_registry_undo-cases id db) [
  | inl (_, f) ↦ absurd (none_ne_some snapshot (sym (ap (λ p. p.0) f) ∙ e))
  | inr (r, f) ↦
      let later = undo_run cs (claim_registry_undo id db).1 in
      let h : IsClaimed id later = undo_run-IsClaimed id cs _ n (
        subst (λ p. IsClaimed id (p.1)) (sym f)
          (record { closed = any-set_undone_same id db.undos; old = old })) in
      closed-none id later h.closed
]
