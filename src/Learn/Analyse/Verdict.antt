-- ===== src/Learn/Analyse/Verdict.antt =====
-- Which facts are in force after an analysis.
use eir.Prelude.{
  ◌≡◌, refl, ℕ, Bool, true, false, ◌&&◌, not, Option, none, some, List, [], ◌∷◌, ◌++◌, map, any,
  leb, length, arith, ap, ◌∙◌, if◌then◌else◌,
}
use eir.Text.{Text, Unicode, codes, text_eq, member}
use eir.Text.Laws.{text_eq_iff, text_eq_sym, text_eq_refl}
use eir.Learn.{
  LearnedFactKind, self_updater_suspected, method_failing, Effect, skip, deprioritise_method,
}
use eir.Learn.Detect.{AttemptRow, method_subject, detect_self_updaters, detect_method_failing}
use eir.Learn.Detect.Sound.{of_app, timeout_cycles, detect_self_updaters_iff}
use eir.Learn.Store.{
  Status, active, user_disabled, user_pinned, Facts, in_force, reinforced, is_active,
}
use eir.Learn.Store.Spec.{Call, expire, run, Table, entry_at, view, spec_step, spec_run}
use eir.Learn.Store.Entries.{AreRows}
use eir.Learn.Store.Refines.{run-refines}
use eir.Learn.Analyse.{
  Words, as_token, learn, reconcile, analyse_updates, quorum, self_updater_calls, method_calls,
}

-- The status that an entry has, and whether it is in force.
abbrev pub in_force_entry : Option (ℕ × Status) → Bool
in_force_entry none = false
in_force_entry (some (i, s)) = in_force s

-- In force after an analysis: what the user decided, and else what was detected.
abbrev pub verdict : Bool → Option (ℕ × Status) → Bool
verdict detected (some (i, user_pinned)) = true
verdict detected (some (i, user_disabled)) = false
verdict detected _ = detected

spec_run-append :
    (cs ds : List Call) (t : Table) → spec_run (cs ++ ds) t ≡ spec_run ds (spec_run cs t)
unfolding spec_run
spec_run-append [] ds t = refl
spec_run-append (c ∷ cs) ds t = spec_run-append cs ds (spec_step c t)

abbrev status_in : Option (ℕ × Status) → Option Status
status_in none = none
status_in (some (i, s)) = some s

abbrev upserted : Option Status → Option Status
upserted none = some active
upserted (some s) = some (reinforced s)

module _ {C : Type 0} (now : Text) (w : Words) (kind : LearnedFactKind) (subject : C → Text)
    (effect : C → Effect) (evidence : C → Text) where
  abbrev store : C → Call
  store c = learn now w kind (subject c) (effect c) (evidence c)

  status_in-upserts :
      (k : Text) (app : Text) (cs : List C) (t : Table)
      → k ≡ as_token kind
      → status_in ((spec_run (map store cs) t).entry k app) ≡ (
          if any (λ c. text_eq (subject c) app) cs
          then upserted (status_in (t.entry k app))
          else status_in (t.entry k app))
  unfolding spec_run any spec_step reinforced
  status_in-upserts k app [] t h = refl
  status_in-upserts k app (c ∷ cs) t h = ground (
    arith,
    status_in-upserts k app cs (spec_step (store c) t) h,
    text_eq_iff (as_token kind) k,
    text_eq_iff (subject c) app,
  )

  member-subjects :
      (app : Text) (cs : List C)
      → member app (map subject cs) ≡ any (λ c. text_eq (subject c) app) cs
  unfolding member any
  member-subjects app [] = refl
  member-subjects app (c ∷ cs) = ground (arith, member-subjects app cs)

  expired_verdict :
      (app : Text) (cs : List C) (t' t : Table)
      → status_in (t'.entry (as_token kind) app) ≡ (
          if any (λ c. text_eq (subject c) app) cs
          then upserted (status_in (t.entry (as_token kind) app))
          else status_in (t.entry (as_token kind) app))
      → in_force_entry
          ((spec_run (expire (as_token kind) (map subject cs) ∷ []) t').entry (as_token kind) app)
        ≡ verdict (any (λ c. text_eq (subject c) app) cs) (t.entry (as_token kind) app)
  unfolding spec_run spec_step in_force is_active reinforced
  expired_verdict app cs t' t h =
      ground (arith, text_eq_refl (as_token kind), member-subjects app cs)

  spec_run-reconcile :
      (app : Text) (cs : List C) (t : Table)
      → in_force_entry ((spec_run (reconcile kind subject store cs) t).entry (as_token kind) app)
        ≡ verdict (any (λ c. text_eq (subject c) app) cs) (t.entry (as_token kind) app)
  unfolding reconcile
  spec_run-reconcile app cs t =
      rw (spec_run-append (map store cs) (expire (as_token kind) (map subject cs) ∷ []) t) (
        expired_verdict app cs (spec_run (map store cs) t) t
          (status_in-upserts (as_token kind) app cs t refl))

  upserts-other :
      (k app : Text) (cs : List C) (t : Table)
      → text_eq (as_token kind) k ≡ false
      → (spec_run (map store cs) t).entry k app ≡ t.entry k app
  unfolding spec_run spec_step
  upserts-other k app [] t h = refl
  upserts-other k app (c ∷ cs) t h =
      ground (arith, upserts-other k app cs (spec_step (store c) t) h)

  expire-other :
      (k app : Text) (cs : List C) (t : Table)
      → text_eq (as_token kind) k ≡ false
      → (spec_run (expire (as_token kind) (map subject cs) ∷ []) t).entry k app ≡ t.entry k app
  unfolding spec_run spec_step
  expire-other k app cs t h = ground (arith, text_eq_sym (as_token kind) k)

  -- The facts of another kind are left alone.
  spec_run-other :
      (k app : Text) (cs : List C) (t : Table)
      → text_eq (as_token kind) k ≡ false
      → (spec_run (reconcile kind subject store cs) t).entry k app ≡ t.entry k app
  unfolding reconcile
  spec_run-other k app cs t h =
      rw (spec_run-append (map store cs) (expire (as_token kind) (map subject cs) ∷ []) t)
        (expire-other k app cs (spec_run (map store cs) t) h ∙ upserts-other k app cs t h)

abbrev pub self_updater_kind : Text
self_updater_kind = as_token self_updater_suspected

other_kind : text_eq (as_token method_failing) self_updater_kind ≡ false
unfolding as_token text_eq codes
other_kind = refl

-- The entry of a self-updater after the analysis, by the abstract calls for self-updaters alone.
entry_at-analyse_updates :
    (now : Text) (w : Words) (u : Unicode) (rows : List AttemptRow) (db : Facts) (app : Text)
    → AreRows db.rows
    → entry_at self_updater_kind app (analyse_updates now w u rows db).rows
      ≡ (spec_run (self_updater_calls now w u rows) (view db)).entry self_updater_kind app
unfolding analyse_updates
entry_at-analyse_updates now w u rows db app h =
    let (e, k) = run-refines (self_updater_calls now w u rows) db h in
    let (e', _) =
      run-refines (method_calls now w rows) (run (self_updater_calls now w u rows) db) k in
    ap (λ t. t.entry self_updater_kind app) e'
    ∙ (spec_run-other now w method_failing (λ c. method_subject c.app c.method)
          (λ c. deprioritise_method c.method) (λ c. w.failures c.failures c.method)
          self_updater_kind app (detect_method_failing rows quorum)
          (view (run (self_updater_calls now w u rows) db)) other_kind
        ∙ ap (λ t. t.entry self_updater_kind app) e)

-- After an analysis, an application is skipped as a self-updater exactly if the user pinned that, or
-- did not disable it and the rows show it: no attempt succeeded and three or more cycles timed out.
pub analyse_updates-verdict :
    (now : Text) (w : Words) (u : Unicode) (rows : List AttemptRow) (db : Facts) (app : Text)
    → AreRows db.rows
    → in_force_entry (entry_at self_updater_kind app (analyse_updates now w u rows db).rows)
      ≡ verdict
          (not (any (λ r. of_app app r && r.success) rows)
            && leb 3 (length (timeout_cycles u app rows [])))
          (entry_at self_updater_kind app db.rows)
analyse_updates-verdict now w u rows db app h =
    ap in_force_entry (entry_at-analyse_updates now w u rows db app h)
    ∙ (spec_run-reconcile now w self_updater_suspected (λ c. c.subject) (λ c. skip)
          (λ c. w.timeouts c.timeout_cycles) app (detect_self_updaters u rows quorum) (view db)
        ∙ ap (λ d. verdict d (entry_at self_updater_kind app db.rows))
            (detect_self_updaters_iff u rows 2 app))
