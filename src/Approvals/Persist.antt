-- ===== src/Approvals/Persist.antt =====
-- What a recorded execution leaves behind, and an approval's way from the queue to its claimant.
use eir.Prelude.{
  ℕ, ◌^◌, ◌<◌, ◌≡◌, refl, Bool, true, false, ◌&&◌, Option, none, some, List, ◌∷◌, arith, ap, ◌∙◌,
  lt→ltb, is_some,
}
use eir.Text.{Text, Unicode}
use eir.Models.{FixAction, dedup_key}
use eir.Approvals.Rows.{Row, pending, first_match, matches, same_status, update_status}
use eir.Approvals.{
  Codec, ApprovalInfo, ExecutionResult, UndoRow, RegistryUndo, Db, ok, to_i64, ensure_undo,
  insert_undo, log_execution, is_registry_reset, insert_pending_approval, claim_pending_approval,
  ensure_approval_row_bounded, parse_pending_approval, parse_first, persist_execution,
  PersistedExecution, PendingApproval, new_row, decided,
}
use eir.Approvals.Outcome.{persist_execution-ok, insert_pending_approval-ok}

-- The snapshot says what was written, and what was there before if anything was.
abbrev pub IsRestorable : RegistryUndo → Type 0
IsRestorable undo =
    (is_some undo.applied_kind ≡ true)
    × (is_some undo.applied_data ≡ true)
    × (is_some undo.prior_kind ≡ undo.prior_existed)
    × (is_some undo.prior_data ≡ undo.prior_existed)

ensure_undo-IsRestorable :
    (undo : RegistryUndo) → ensure_undo true (some undo) ≡ ok tt → IsRestorable undo
unfolding ensure_undo
ensure_undo-IsRestorable undo h = ground arith

-- What the undo table and the returned id are after an execution.
abbrev pub Undone : Bool → Option RegistryUndo → Db → PersistedExecution → List UndoRow → Type 0
Undone true r db p undos =
    (undo : RegistryUndo) × (r ≡ some undo)
    × IsRestorable undo
    × (p.undo_id ≡ some db.next_undo)
    × (undos
        ≡ record { id = db.next_undo; execution_id = p.execution_id; undo = undo; undone = false }
          ∷ db.undos)
Undone false r db p undos = (r ≡ none) × (p.undo_id ≡ none) × (undos ≡ db.undos)

module _ (u : Unicode) where
  -- A recorded execution is one new row at the head of the log. It is undoable exactly if it is a
  -- registry reset that succeeded: then one undo row, restorable, is stored under its id; else the
  -- undo table stays as it is.
  pub persist_execution-undo :
      (db db' : Db) (decision_id : ℕ) (action : FixAction) (result : ExecutionResult)
      (approval_id : Option ℕ) (requeue : Bool) (now : Text) (p : PersistedExecution)
      → persist_execution u db decision_id action result approval_id requeue now ≡ ok (p, db')
      → (db'.executions
          ≡ record {
            id = p.execution_id;
            decision_id = decision_id;
            action = result.action;
            action_key = dedup_key u action;
            success = result.success;
            output = result.output;
            executed_at = now;
          }
            ∷ db.executions)
        × Undone (result.success && is_registry_reset action) result.undo db p db'.undos
  unfolding insert_undo log_execution ensure_undo
  persist_execution-undo db db' decision_id action result approval_id requeue now p h =
      let (e, q, _, w) =
        persist_execution-ok u db decision_id action result now approval_id requeue p db' h in
      go (result.success && is_registry_reset action) result.undo e q w
    where
      go :
          (b : Bool) (r : Option RegistryUndo)
          → let s =
              insert_undo b r db.next_execution
                (log_execution u db decision_id action result now) in
            ensure_undo b r ≡ ok tt
            → p ≡ record { execution_id = db.next_execution; undo_id = s.0 }
            → db' ≡ record (s.1) { rows = db'.rows }
            → (db'.executions
                ≡ record {
                  id = p.execution_id;
                  decision_id = decision_id;
                  action = result.action;
                  action_key = dedup_key u action;
                  success = result.success;
                  output = result.output;
                  executed_at = now;
                }
                  ∷ db.executions)
              × Undone b r db p db'.undos
      go true (some undo) e q w = (
        rw q (ap (λ x. x.executions) w),
        (
          undo,
          refl,
          ensure_undo-IsRestorable undo e,
          ap (λ x. x.undo_id) q,
          rw q (ap (λ x. x.undos) w),
        ),
      )
      go true none e q w = cc
      go false none e q w =
          (rw q (ap (λ x. x.executions) w), (refl, ap (λ x. x.undo_id) q, ap (λ x. x.undos) w))
      go false (some undo) e q w = cc

-- The codec reads back what it wrote for this value.
abbrev pub ReadsBack : {A : Type 0} → Codec A → A → Type 0
ReadsBack c a = c.decode (c.encode a) ≡ some a

module _ (u : Unicode) {State : Type 0} (actions : Codec FixAction) (infos : Codec ApprovalInfo)
    (baselines : Codec State) where
  insert_pending_approval-bounded :
      (db db' : Db) (decision_id id : ℕ) (action : FixAction) (info : ApprovalInfo)
      (baseline : State)
      → insert_pending_approval u actions infos baselines db decision_id action info baseline
        ≡ ok (id, db')
      → ensure_approval_row_bounded u actions infos baselines
          (actions.encode action)
          (infos.encode info)
          (baselines.encode baseline)
        ≡ ok tt
  unfolding insert_pending_approval
  insert_pending_approval-bounded db db' d id action info baseline h = ground arith

  parse-new_row :
      (id decision_id : ℕ) (action : FixAction) (info : ApprovalInfo) (baseline : State)
      → ReadsBack actions action
      → ReadsBack infos info
      → ReadsBack baselines baseline
      → ensure_approval_row_bounded u actions infos baselines
          (actions.encode action)
          (infos.encode info)
          (baselines.encode baseline)
        ≡ ok tt
      → parse_pending_approval u actions infos baselines
          (new_row u actions infos baselines id decision_id action info baseline)
        ≡ ok (record {
          info = record info { id = id };
          action = action;
          decision_id = decision_id;
          baseline = baseline;
        })
  unfolding parse_pending_approval new_row
  parse-new_row id d action info baseline la li lb h = rw h (rw la (rw li (rw lb refl)))

  first-new_row :
      (id decision_id : ℕ) (action : FixAction) (info : ApprovalInfo) (baseline : State)
      (rows : List Row)
      → let row = new_row u actions infos baselines id decision_id action info baseline in
        first_match id pending (row ∷ rows) ≡ some row
  unfolding first_match matches same_status new_row
  first-new_row id d action info baseline rows = ground arith

  claim-found :
      (db : Db) (id : ℕ) (accept : Bool) (now : Text) (row : Row) (p : PendingApproval State)
      → first_match id pending db.rows ≡ some row
      → parse_pending_approval u actions infos baselines row ≡ ok p
      → id < 2 ^ 63
      → (db' : Db) × (claim_pending_approval u actions infos baselines db id accept now
          ≡ ok (some p, db'))
  unfolding claim_pending_approval to_i64 parse_first
  claim-found db id accept now row p f e b = (
    record db { rows = update_status id pending (decided accept) (some now) db.rows },
    rw (lt→ltb id (2 ^ 63) b) (rw f (rw e refl)),
  )

  -- What was queued is what its claimant gets, under the row's id: the action, the diagnosis, the
  -- decision and the baseline, if the codecs read back what they wrote for these and the id fits
  -- in 63 bits.
  pub claim-insert_pending_approval :
      (db db' : Db) (decision_id id : ℕ) (action : FixAction) (info : ApprovalInfo)
      (baseline : State) (accept : Bool) (now : Text)
      → ReadsBack actions action
      → ReadsBack infos info
      → ReadsBack baselines baseline
      → insert_pending_approval u actions infos baselines db decision_id action info baseline
        ≡ ok (id, db')
      → id < 2 ^ 63
      → (db'' : Db) × (claim_pending_approval u actions infos baselines db' id accept now
          ≡ ok (
            some (record {
              info = record info { id = id };
              action = action;
              decision_id = decision_id;
              baseline = baseline;
            }),
            db'',
          ))
  claim-insert_pending_approval db db' d id action info baseline accept now la li lb h b =
      let (_, _, i, w) =
        insert_pending_approval-ok u actions infos baselines db db' d id action info baseline h in
      let row = new_row u actions infos baselines id d action info baseline in
      let placed : db'.rows ≡ row ∷ db.rows = rw i (ap (λ x. x.rows) w) in
      claim-found db' id accept now row _
        (ap (first_match id pending) placed ∙ first-new_row id d action info baseline db.rows)
        (parse-new_row id d action info baseline la li lb
          (insert_pending_approval-bounded db db' d id action info baseline h))
        b
