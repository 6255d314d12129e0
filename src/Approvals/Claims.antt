-- ===== src/Approvals/Claims.antt =====
-- Exactly-once decisions: an approval has one claimant, and a settled one never comes back.
use eir.Prelude.{
  ℕ, ◌<◌, ◌≡◌, refl, ◌≢◌, Bool, true, false, Option, none, some, List, arith, subst, sym, ap, ◌∙◌,
}
use eir.Text.{Text, Unicode}
use eir.Models.{FixAction}
use eir.Approvals.Rows.{
  Row, pending, approved, same_status, first_match, matches, move_row, update_status, delete_status,
  delete_id, requeue_row, requeue_all,
}
use eir.Approvals.{
  Codec, ApprovalInfo, ExecutionResult, Db, ok, claim_pending_approval, persist_execution,
  PendingApproval, PersistedExecution, decided, new_row, to_i64, parse_first,
}
use eir.Approvals.Outcome.{Settled, claim_pending_approval-ok, persist_execution-ok, stored-queue}
use eir.Approvals.Calls.{Call, persist, restart, run}
use eir.Approvals.Calls.Rules.{Rules, Each, run-P}
use eir.Approvals.Calls.Invariant.{Inv, all-allowed}
use eir.Approvals.Gone.{
  Gone, Gone-filter, Gone-map, Gone-settled, count_matches-Gone, first_match-Gone,
  first_match-below, claimed-unclaimed, unclaimed-update, unclaimed-requeue, unclaimed-filter,
}

-- The call gives no approved row of this id back to the queue.
abbrev pub Keeps : {State : Type 0} → ℕ → Call State → Type 0
Keeps id (persist _ _ _ (some i) true _) = i ≢ id
Keeps id restart = ⊥
Keeps id _ = Unit {0}

-- Claimed: no pending row of this id, nor will a new row take it.
abbrev Unclaimed : ℕ → List Row → ℕ → Type 0
Unclaimed id rows n = (first_match id pending rows ≡ none) × (id < n)

abbrev Away : ℕ → List Row → ℕ → Type 0
Away id rows n = Gone id rows × (id < n)

unclaimed-Settled :
    (id : ℕ) (approval_id : Option ℕ) (requeue : Bool) (rows rows' : List Row)
    → ((i : ℕ) → approval_id ≡ some i → requeue ≡ true → i ≢ id)
    → Settled approval_id requeue rows rows'
    → first_match id pending rows ≡ none
    → first_match id pending rows' ≡ none
unfolding delete_status
unclaimed-Settled id none requeue rows rows' k s h = rw s h
unclaimed-Settled id (some i) true rows rows' k s h =
    rw (s.1) (unclaimed-requeue id i none rows (k i refl refl) h)
unclaimed-Settled id (some i) false rows rows' k s h = rw (s.1) (unclaimed-filter id _ rows h)

away-Settled :
    (id : ℕ) (approval_id : Option ℕ) (requeue : Bool) (rows rows' : List Row)
    → Settled approval_id requeue rows rows'
    → Gone id rows
    → Gone id rows'
unfolding delete_status update_status move_row
away-Settled id none requeue rows rows' s g = rw s g
away-Settled id (some i) true rows rows' s g = rw (s.1) (Gone-map id _ rows (λ r. ground arith) g)
away-Settled id (some i) false rows rows' s g = rw (s.1) (Gone-filter id _ rows g)

decided-not_pending : (accept : Bool) → same_status (decided accept) pending ≡ false
unfolding same_status
decided-not_pending true = refl
decided-not_pending false = refl

module _ (u : Unicode) {State : Type 0} (actions : Codec FixAction) (infos : Codec ApprovalInfo)
    (baselines : Codec State) (id : ℕ) where
  Unclaimed-Rules : Rules u actions infos baselines (Keeps id) (Unclaimed id)
  unfolding delete_id new_row first_match matches
  Unclaimed-Rules = record {
    inserted = λ d a i b rows n room fresh p. ground (arith);
    claimed = λ i accept now rows n p. (
      unclaimed-update id i pending (decided accept) (some now) rows (decided-not_pending accept)
          p.0,
      p.1,
    );
    settled = λ d a r i q now rows rows' n al s p.
        (unclaimed-Settled id i q rows rows' (keeps d a r now i q al) s p.0, p.1);
    deleted = λ i rows n p. (unclaimed-filter id _ rows p.0, p.1);
    restarted = λ rows n al p. absurd al;
  }
    where
      keeps :
          (d : ℕ) (a : FixAction) (r : ExecutionResult) (now : Text) (i : Option ℕ) (q : Bool)
          → Keeps {State = State} id (persist d a r i q now)
          → (j : ℕ) → i ≡ some j
          → q ≡ true
          → j ≢ id
      keeps d a r now (some i) true k j e w = subst (λ x. x ≢ id) (ground arith) k
      keeps d a r now (some i) false k j e w = cc
      keeps d a r now none q k j e w = cc

  Away-Rules : Rules u actions infos baselines (λ _. Unit {0}) (Away id)
  unfolding delete_id new_row update_status move_row requeue_all requeue_row
  Away-Rules = record {
    inserted = λ d a i b rows n room fresh p. ((omega arith, p.0), omega arith);
    claimed = λ i accept now rows n p. (Gone-map id _ rows (λ r. ground arith) p.0, p.1);
    settled = λ d a r i q now rows rows' n al s p. (away-Settled id i q rows rows' s p.0, p.1);
    deleted = λ i rows n p. (Gone-filter id _ rows p.0, p.1);
    restarted = λ rows n al p. (Gone-map id _ rows (λ r. ground arith) p.0, p.1);
  }

  parse_first-some :
      (o : Option Row) (p : PendingApproval State)
      → parse_first u actions infos baselines o ≡ ok (some p)
      → (r : Row) × (o ≡ some r)
  unfolding parse_first
  parse_first-some none p h = cc
  parse_first-some (some r) p h = (r, refl)

  claim-none :
      (db : Db) (accept : Bool) (now : Text)
      → first_match id pending db.rows ≡ none
      → to_i64 id ≡ ok id
      → (db' : Db) × (claim_pending_approval u actions infos baselines db id accept now
          ≡ ok (none, db'))
  unfolding claim_pending_approval parse_first
  claim-none db accept now h e = (
    record db { rows = update_status id pending (decided accept) (some now) db.rows },
    rw e (rw h refl),
  )

  -- A claim that took the approval is the only one: until the row is given back, by a restart or
  -- by an execution that requeues it, every later claim of the id finds nothing, whatever calls
  -- came between.
  pub claim_pending_approval-once :
      (db db' : Db) (accept again : Bool) (now later : Text) (got : PendingApproval State)
      (cs : List (Call State))
      → Inv db.rows db.next_row
      → claim_pending_approval u actions infos baselines db id accept now ≡ ok (some got, db')
      → Each (Keeps id) cs
      → (db'' : Db) × (claim_pending_approval u actions infos baselines
            (run u actions infos baselines db' cs)
            id
            again
            later
          ≡ ok (none, db''))
  claim_pending_approval-once db db' accept again now later got cs v h al =
      let (e, r, w) =
        claim_pending_approval-ok u actions infos baselines db db' id accept now (some got) h in
      let (row, f) = parse_first-some (first_match id pending db.rows) got r in
      let taken : Unclaimed id db'.rows db'.next_row = rw w (
        claimed-unclaimed id accept (some now) db.rows,
        first_match-below id pending db.next_row db.rows row v.ids f,
      ) in
      claim-none (run u actions infos baselines db' cs) again later
        (run-P u actions infos baselines Unclaimed-Rules db' cs al taken).0 e

  persist-refused :
      (db db' : Db) (decision_id : ℕ) (action : FixAction) (result : ExecutionResult)
      (requeue : Bool) (now : Text) (p : PersistedExecution)
      → Gone id db.rows
      → persist_execution u db decision_id action result (some id) requeue now ≢ ok (p, db')
  persist-refused db db' d action result requeue now p g h =
      let (_, _, s, _) = persist_execution-ok u db d action result now (some id) requeue p db' h in
      let s : Settled (some id) requeue db.rows db'.rows =
        subst (λ rs. Settled (some id) requeue rs db'.rows)
          (stored-queue u db d action result now).0 s in
      go requeue s
    where
      go : (q : Bool) → Settled (some id) q db.rows db'.rows → ⊥
      go true s = omega (arith, s.0, count_matches-Gone id approved db.rows g)
      go false s = omega (arith, s.0, count_matches-Gone id approved db.rows g)

  -- An execution recorded with its approval, and not requeued, removes the approval for good: after
  -- any calls, restarts included, no claim gets it and no second execution of it is recorded.
  pub persist_execution-once :
      (db db' : Db) (decision_id : ℕ) (action : FixAction) (result : ExecutionResult) (now : Text)
      (p : PersistedExecution) (cs : List (Call State)) (accept : Bool)
      (got : PendingApproval State) (d : ℕ) (a : FixAction) (r : ExecutionResult) (requeue : Bool)
      (at : Text) (q : PersistedExecution) (db'' : Db)
      → Inv db.rows db.next_row
      → persist_execution u db decision_id action result (some id) false now ≡ ok (p, db')
      → let later = run u actions infos baselines db' cs in
        (claim_pending_approval u actions infos baselines later id accept at ≢ ok (some got, db''))
        × (persist_execution u later d a r (some id) requeue at ≢ ok (q, db''))
  persist_execution-once db db' decision_id action result now p cs accept got d a r requeue at q
        db'' v h =
      let (_, _, s, w) =
        persist_execution-ok u db decision_id action result now (some id) false p db' h in
      let (rows_eq, n_eq) = stored-queue u db decision_id action result now in
      let s : Settled (some id) false db.rows db'.rows =
        subst (λ rs. Settled (some id) false rs db'.rows) rows_eq s in
      let (below, g) = Gone-settled id db.next_row db.rows v.ids s.0 in
      let start : Away id db'.rows db'.next_row = (
        subst (Gone id) (sym (s.1)) g,
        subst (λ m. id < m) (sym (ap (λ x. x.next_row) w ∙ n_eq)) below,
      ) in
      let away = run-P u actions infos baselines Away-Rules db' cs (all-allowed cs) start in
      let later = run u actions infos baselines db' cs in
      (
        λ e.
            let (_, f, _) =
              claim_pending_approval-ok u actions infos baselines later db'' id accept at (some got)
                e in
            let (row, m) = parse_first-some (first_match id pending later.rows) got f in
            absurd (some_ne row (sym (first_match-Gone id pending later.rows away.0) ∙ m)),
        persist-refused later db'' d a r requeue at q away.0,
      )
    where
      some_ne : (x : Row) → none ≡ some x → ⊥
      some_ne x e = cc
