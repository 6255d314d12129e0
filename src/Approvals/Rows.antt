-- ===== src/Approvals/Rows.antt =====
-- The table pending_approvals, migrations 0006 and 0017, and the statements run on it.
use eir.Prelude.{
  ℕ, ◌+◌, Bool, true, false, ◌&&◌, ◌||◌, not, Option, none, some, List, [], ◌∷◌, ◌==◌,
  if◌then◌else◌, map, filter,
}
use eir.Text.{Text, text_eq}

pub data Status : Type 0 where
  pending approved rejected : Status

pub record Row : Type 0 where
  pub id : ℕ
  pub decision_id : ℕ
  pub action_json : Text
  pub info_json : Text
  pub baseline_json : Text
  pub action_key : Option Text
  pub status : Status
  pub claimed_at : Option Text

-- status IN ('pending', 'approved')
unfoldable pub is_active : Status → Bool
is_active rejected = false
is_active _ = true

unfoldable pub same_status : Status → Status → Bool
same_status pending pending = true
same_status approved approved = true
same_status rejected rejected = true
same_status _ _ = false

-- SELECT COUNT(*) FROM pending_approvals WHERE status IN ('pending', 'approved')
unfoldable pub count_active : List Row → ℕ
unfolding is_active
count_active [] = 0
count_active (r ∷ rs) = (if is_active r.status then 1 else 0) + count_active rs

unfoldable pub has_key : Text → Option Text → Bool
unfolding text_eq
has_key key none = false
has_key key (some k) = text_eq k key

-- An active row has this key: the unique index on (action_key) WHERE action_key IS NOT NULL AND
-- status IN ('pending', 'approved') refuses another.
unfoldable pub active_key : Text → List Row → Bool
unfolding is_active has_key
active_key key [] = false
active_key key (r ∷ rs) = (is_active r.status && has_key key r.action_key) || active_key key rs

-- WHERE id = ? AND status = ?
unfoldable pub matches : ℕ → Status → Row → Bool
unfolding same_status
matches id status r = r.id == id && same_status r.status status

-- UPDATE pending_approvals SET status = to, claimed_at = at WHERE id = ? AND status = from
unfoldable pub move_row : ℕ → Status → Status → Option Text → Row → Row
unfolding matches
move_row id from to at r =
    if matches id from r then record r { status = to; claimed_at = at } else r

unfoldable pub update_status : ℕ → Status → Status → Option Text → List Row → List Row
update_status id from to at rs = map (move_row id from to at) rs

-- rows_affected(), and the first row that RETURNING gives
unfoldable pub count_matches : ℕ → Status → List Row → ℕ
count_matches id status [] = 0
count_matches id status (r ∷ rs) =
    (if matches id status r then 1 else 0) + count_matches id status rs

unfoldable pub first_match : ℕ → Status → List Row → Option Row
first_match id status [] = none
first_match id status (r ∷ rs) = if matches id status r then some r else first_match id status rs

-- DELETE FROM pending_approvals WHERE id = ? AND status = ?
unfoldable pub delete_status : ℕ → Status → List Row → List Row
delete_status id status rs = filter (λ r. not (matches id status r)) rs

-- DELETE FROM pending_approvals WHERE id = ?
unfoldable pub delete_id : ℕ → List Row → List Row
delete_id id rs = filter (λ r. not (r.id == id)) rs

-- UPDATE pending_approvals SET status = 'pending', claimed_at = NULL WHERE status = 'approved'
unfoldable pub requeue_row : Row → Row
unfolding same_status
requeue_row r =
    if same_status r.status approved then record r { status = pending; claimed_at = none } else r

unfoldable pub requeue_all : List Row → List Row
requeue_all rs = map requeue_row rs

-- how many rows have this status
unfoldable pub count_status : Status → List Row → ℕ
unfolding same_status
count_status status [] = 0
count_status status (r ∷ rs) =
    (if same_status r.status status then 1 else 0) + count_status status rs
