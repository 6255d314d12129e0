-- ===== src/Approvals/Normalize.antt =====
-- eir-svc/src/audit.rs, normalize_active_approval_keys: one active row for each action, at startup.
pub mod Keys
pub mod Unique
use eir.Prelude.{not, Option, none, some, List, [], ◌∷◌, ◌++◌, ℕ, filter, map, ◌==◌, if◌then◌else◌}
use eir.Text.{Text, Unicode, member}
use eir.Models.{FixAction, dedup_key}
use eir.Approvals.{Codec, Db}
use eir.Approvals.Rows.{Row, rejected, is_active, same_status}
use eir.Approvals.Startup.{ranked, has_id, sanitize_rows}

-- What the loop over the active rows collects.
pub record Sweep : Type 0 where
  pub seen : List Text
  pub keep : List (ℕ × Text)
  pub remove : List ℕ

abbrev pub sweep_key : ℕ → Text → Sweep → Sweep
sweep_key id key s =
    if member key s.seen
    then record s { remove = s.remove ++ (id ∷ []) }
    else record s { seen = key ∷ s.seen; keep = s.keep ++ ((id, key) ∷ []) }

-- One row, with its action where that could be read.
unfoldable pub sweep_row : Unicode → ℕ → Option FixAction → Sweep → Sweep
sweep_row u id none s = record s { remove = s.remove ++ (id ∷ []) }
sweep_row u id (some action) s = sweep_key id (dedup_key u action) s

unfoldable pub sweep : Unicode → Codec FixAction → List Row → Sweep → Sweep
sweep u actions [] s = s
sweep u actions (r ∷ rs) s = sweep u actions rs (sweep_row u r.id (actions.decode r.action_json) s)

-- SET action_key = NULL WHERE status IN ('pending', 'approved')
unfoldable pub clear_key : Row → Row
clear_key r = if is_active r.status then record r { action_key = none } else r

-- SET action_key = ? WHERE id = ?
unfoldable pub set_key : ℕ → Text → Row → Row
set_key id key r = if r.id == id then record r { action_key = some key } else r

-- The loop of these updates, for one row.
unfoldable pub set_keys : List (ℕ × Text) → Row → Row
set_keys [] r = r
set_keys ((id, key) ∷ keep) r = set_keys keep (set_key id key r)

unfoldable pub normalize_rows : Unicode → Codec FixAction → List Row → List Row
unfolding filter sweep
normalize_rows u actions rs =
    let s = sweep u actions (ranked rs) (record { seen = []; keep = []; remove = [] }) in
    map (λ r. set_keys s.keep (clear_key r)) (filter (λ r. not (has_id s.remove r.id)) rs)

-- The statements of load_pending_approvals before it reads the rows.
unfoldable pub clean_startup : Unicode → Codec FixAction → Db → Db
unfolding filter
clean_startup u actions db =
    let kept = filter (λ r. not (same_status r.status rejected)) db.rows in
    record db { rows = normalize_rows u actions (sanitize_rows kept) }
