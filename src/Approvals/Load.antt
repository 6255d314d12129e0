-- ===== src/Approvals/Load.antt =====
-- eir-svc/src/audit.rs, load_pending_approvals: the approvals that are shown again after a start.
use eir.Prelude.{
  ◌≡◌, refl, ℕ, true, List, [], ◌∷◌, ◌++◌, map, filter, reverse, all, if-elim, arith, ltb, ◌^◌,
  if◌then◌else◌,
}
use eir.Text.{Text, Unicode, member}
use eir.Text.Distinct.{distinct, IsFresh, remembered_more, member_head, is_new}
use eir.Models.{FixAction, dedup_key}
use eir.Approvals.{
  Codec, ApprovalInfo, Db, Result, ok, err, PendingApproval, parse_pending_approval,
  delete_pending_approval, to_i64, ◌>>=◌,
}
use eir.Approvals.Rows.{Row, pending, same_status, delete_id}
use eir.Approvals.Queue.{Descending}
use eir.Approvals.Calls.{after_delete}
use eir.Approvals.Calls.Invariant.{Inv, filter-Inv}
use eir.Approvals.Normalize.{clean_startup}
use eir.Approvals.Normalize.Unique.{clean_startup-Inv}

module _ (u : Unicode) {State : Type 0} (actions : Codec FixAction) (infos : Codec ApprovalInfo)
    (baselines : Codec State) where
  -- One row of the first loop: an unreadable one is deleted.
  unfoldable pub read_row :
      Result (PendingApproval State)
      → ℕ
      → List (PendingApproval State) × Db
      → List (PendingApproval State) × Db
  read_row (ok pa) id (out, db) = (out ++ (pa ∷ []), db)
  read_row (err e) id (out, db) = (out, record db { rows = delete_id id db.rows })

  unfoldable pub read_rows :
      List Row → List (PendingApproval State) × Db → List (PendingApproval State) × Db
  read_rows [] s = s
  read_rows (r ∷ rs) s =
      read_rows rs (read_row (parse_pending_approval u actions infos baselines r) r.id s)

  -- The second loop, over the newest first; what it keeps it pushes, and the reversed list is built here.
  unfoldable pub keep_newest :
      List (PendingApproval State)
      → List Text
      → List (PendingApproval State) × Db
      → List (PendingApproval State) × Db
  keep_newest [] seen s = s
  keep_newest (pa ∷ pas) seen (keep, db) =
      let key = dedup_key u pa.action in
      let later =
        keep_newest pas seen (keep, after_delete db (delete_pending_approval db pa.info.id)) in
      let kept = keep_newest pas (key ∷ seen) (pa ∷ keep, db) in
      if member key seen then later else kept

  unfoldable pub load_pending_approvals : Db → List (PendingApproval State) × Db
  unfolding filter
  load_pending_approvals db =
      let cleaned = clean_startup u actions db in
      let (out, db') =
        read_rows (reverse (filter (λ r. same_status r.status pending) cleaned.rows))
          ([], cleaned) in
      keep_newest (reverse out) [] ([], db')

  abbrev HasInv : Db → Type 0
  HasInv db = Inv db.rows db.next_row

  delete-Inv :
      (db : Db) (id : ℕ) → HasInv db → HasInv (after_delete db (delete_pending_approval db id))
  unfolding delete_pending_approval to_i64 delete_id
  delete-Inv db id h =
      if-elim
        (λ r. HasInv (after_delete db (r >>= λ i. ok (record db { rows = delete_id i db.rows }))))
        (ltb id (2 ^ 63)) (ok id) _ (λ _. filter-Inv db.rows db.next_row _ h) (λ _. h)

  read_row-Inv :
      (r : Result (PendingApproval State)) (id : ℕ) (s : List (PendingApproval State) × Db)
      → HasInv s.1
      → HasInv (read_row r id s).1
  unfolding read_row delete_id
  read_row-Inv (ok pa) id s h = h
  read_row-Inv (err e) id s h = filter-Inv (s.1).rows (s.1).next_row _ h

  read_rows-Inv :
      (rs : List Row) (s : List (PendingApproval State) × Db)
      → HasInv s.1
      → HasInv (read_rows rs s).1
  unfolding read_rows
  read_rows-Inv [] s h = h
  read_rows-Inv (r ∷ rs) s h =
      read_rows-Inv rs _
        (read_row-Inv (parse_pending_approval u actions infos baselines r) r.id s h)

  abbrev key_of : PendingApproval State → Text
  key_of pa = dedup_key u pa.action

  -- The table keeps its invariant, and no two kept approvals are for one action.
  abbrev IsLoaded : List (PendingApproval State) × Db → Type 0
  IsLoaded s = HasInv s.1 × (distinct (map key_of s.0) ≡ true)

  keep_newest-IsLoaded :
      (pas : List (PendingApproval State)) (seen : List Text) (keep : List (PendingApproval State))
      (db : Db)
      → HasInv db
      → IsFresh key_of keep seen
      → IsLoaded (keep_newest pas seen (keep, db))
  unfolding keep_newest distinct all
  keep_newest-IsLoaded [] seen keep db h f = (h, f.0)
  keep_newest-IsLoaded (pa ∷ pas) seen keep db h f =
      if-elim IsLoaded (member (dedup_key u pa.action) seen) _ _
        (λ _. keep_newest-IsLoaded pas seen keep _ (delete-Inv db pa.info.id h) f)
        (λ new. keep_newest-IsLoaded pas (dedup_key u pa.action ∷ seen) (pa ∷ keep) db h (
          ground (arith, is_new key_of (dedup_key u pa.action) seen keep),
          ground (
            arith,
            member_head (dedup_key u pa.action) seen,
            remembered_more key_of (dedup_key u pa.action) seen keep,
          ),
        ))

  -- Whatever rows an older version left, after the start at most 256 approvals are active, no two active
  -- ones share an action key, ids fall along the table, if they did before, and no two of the approvals
  -- that are shown again are for one action.
  pub load_pending_approvals-Inv :
      (db : Db)
      → Descending db.next_row db.rows
      → let (shown, db') = load_pending_approvals db in
        Inv db'.rows db'.next_row × (distinct (map (λ pa. dedup_key u pa.action) shown) ≡ true)
  unfolding load_pending_approvals distinct all
  load_pending_approvals-Inv db d =
      keep_newest-IsLoaded _ [] [] _ (read_rows-Inv _ _ (clean_startup-Inv u actions db d))
        (refl, refl)
