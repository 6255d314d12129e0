-- ===== src/Learn/Store/Overrides.antt =====
-- The user's decisions on learned facts last.
use eir.Prelude.{◌≡◌, ◌⊎◌, ℕ, Bool, true, false, some, List, [], ◌∷◌, all, ◌∙◌, ap, arith}
use eir.Text.{Text}
use eir.Text.Laws.{text_eq_iff}
use eir.Learn.Store.{Status, user_disabled, user_pinned, Facts, reinforced, is_active, is_learned}
use eir.Learn.Store.Spec.{
  Call, upsert, expire, clear, override, mark, explain, run, Table, entry_at, view, spec_step,
  spec_run,
}
use eir.Learn.Store.Entries.{AreRows}
use eir.Learn.Store.Refines.{run-refines}

-- What is no decision of the user.
abbrev pub is_automatic : Call → Bool
is_automatic (override id op) = false
is_automatic _ = true

abbrev pub IsUserStatus : Status → Type 0
IsUserStatus s = (s ≡ user_disabled) ⊎ (s ≡ user_pinned)

spec_step-keeps :
    (c : Call) (t : Table) (k s : Text) (id : ℕ) (status : Status)
    → is_automatic c ≡ true
    → IsUserStatus status
    → t.entry k s ≡ some (id, status)
    → (spec_step c t).entry k s ≡ some (id, status)
unfolding spec_step reinforced is_active is_learned
spec_step-keeps (upsert now kind subject effect evidence days) t k s id status a u e =
    ground (arith, text_eq_iff kind k, text_eq_iff subject s)
spec_step-keeps (expire kind current) t k s id status a u e = ground arith
spec_step-keeps clear t k s id status a u e = ground arith
spec_step-keeps (override i op) t k s id status a u e = cc
spec_step-keeps (mark now i) t k s id status a u e = e
spec_step-keeps (explain i text) t k s id status a u e = e

spec_run-keeps :
    (cs : List Call) (t : Table) (k s : Text) (id : ℕ) (status : Status)
    → all is_automatic cs ≡ true
    → IsUserStatus status
    → t.entry k s ≡ some (id, status)
    → (spec_run cs t).entry k s ≡ some (id, status)
unfolding spec_run all
spec_run-keeps [] t k s id status a u e = e
spec_run-keeps (c ∷ cs) t k s id status a u e =
    spec_run-keeps cs (spec_step c t) k s id status (ground arith) u
      (spec_step-keeps c t k s id status (ground arith) u e)

-- A fact that the user pinned or disabled keeps its id and its status, whatever the detectors, the
-- clearing of learned facts and the labeller do, until the user decides again.
pub run-keeps_override :
    (cs : List Call) (db : Facts) (k s : Text) (id : ℕ) (status : Status)
    → AreRows db.rows
    → all is_automatic cs ≡ true
    → IsUserStatus status
    → entry_at k s db.rows ≡ some (id, status)
    → entry_at k s (run cs db).rows ≡ some (id, status)
run-keeps_override cs db k s id status h a u e =
    ap (λ t. t.entry k s) (run-refines cs db h).0 ∙ spec_run-keeps cs (view db) k s id status a u e
