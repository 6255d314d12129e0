-- ===== src/Prefs.antt =====
-- eir-svc/src/prefs.rs: the user's preferences for actions, the table action_preferences.
pub mod Table
use eir.Prelude.{
  ℕ, Bool, ◌&&◌, ◌||◌, not, Option, none, some, List, [], ◌∷◌, any, filter, find, length, take, leb,
  ◌==◌, if◌then◌else◌,
}
use eir.Prelude.Result.{Result, ok, err, ◌>>=◌, ◌>>◌, ensure}
use eir.Text.{Text, codes, text_eq, is_empty, trim}

abbrev pub max_action_preferences : ℕ
max_action_preferences = 256

abbrev pub max_chars : ℕ
max_chars = 500

pub data Preference : Type 0 where
  ignore always_approve : Preference

unfoldable pub pref_token : Preference → Text
pref_token ignore = codes "ignore"
pref_token always_approve = codes "always_approve"

unfoldable pub parse_pref : Text → Option Preference
parse_pref s =
    if text_eq s (codes "ignore")
    then some ignore
    else if text_eq s (codes "always_approve")
    then some always_approve
    else none

pub record PrefRow : Type 0 where
  pub action_key : Text
  pub preference : Text
  pub summary : Text
  pub target : Text
  pub created_at : Text

pub data PrefError : Type 0 where
  empty_key limit_reached : PrefError

unfoldable pub sanitize_text : ℕ → Text → Text
unfolding filter
sanitize_text max raw = trim (take max (filter (λ c. not (c == 0) && not (c == 0x0d)) raw))

unfoldable pub validate_key : Text → Result PrefError Text
validate_key action_key =
    let key = sanitize_text max_chars action_key in if is_empty key then err empty_key else ok key

abbrev pub has_pref_key : Text → PrefRow → Bool
has_pref_key key r = text_eq r.action_key key

-- INSERT .. ON CONFLICT(action_key) DO UPDATE
unfoldable pub upsert_pref : PrefRow → List PrefRow → List PrefRow
upsert_pref new [] = new ∷ []
upsert_pref new (r ∷ rs) =
    let rest = upsert_pref new rs in if has_pref_key new.action_key r then new ∷ rs else r ∷ rest

abbrev pub or_key : Text → Text → Text
or_key key summary = if is_empty summary then key else summary

-- The row that is stored, its key validated.
abbrev pub new_pref : Text → Text → Preference → Text → Text → PrefRow
new_pref now key preference summary target = record {
  action_key = key;
  preference = pref_token preference;
  summary = or_key key (sanitize_text max_chars summary);
  target = sanitize_text max_chars target;
  created_at = now;
}

unfoldable pub set_preference :
    Text → Text → Preference → Text → Text → List PrefRow → Result PrefError (List PrefRow)
set_preference now action_key preference summary target rows = do
  key ← validate_key action_key
  ensure (any (has_pref_key key) rows || not (leb max_action_preferences (length rows)))
      limit_reached
  ok (upsert_pref (new_pref now key preference summary target) rows)

-- The rows left, and whether one was deleted.
unfoldable pub clear_preference : Text → List PrefRow → Result PrefError (List PrefRow × Bool)
clear_preference action_key rows = do
  key ← validate_key action_key
  ok (filter (λ r. not (has_pref_key key r)) rows, any (has_pref_key key) rows)

abbrev pub is_always_approve : Text → PrefRow → Bool
is_always_approve key r = has_pref_key key r && text_eq r.preference (pref_token always_approve)

unfoldable pub clear_always_approve : Text → List PrefRow → Result PrefError (List PrefRow × Bool)
clear_always_approve action_key rows = do
  key ← validate_key action_key
  ok (filter (λ r. not (is_always_approve key r)) rows, any (is_always_approve key) rows)

abbrev pub pref_of : Option PrefRow → Option Preference
pref_of none = none
pref_of (some r) = parse_pref r.preference

unfoldable pub get_preference : Text → List PrefRow → Result PrefError (Option Preference)
get_preference action_key rows = do
  key ← validate_key action_key
  ok (pref_of (find (has_pref_key key) rows))
