-- ===== src/GameMode.antt =====
-- eir-svc/src/game_mode.rs: the power plan while a game runs. powercfg and the database answer as an
-- Outcome says, so that a crash is an outcome in which the later calls do not happen.
pub mod Restore
use eir.Prelude.{
  ℕ, Bool, true, false, ◌&&◌, ◌||◌, not, Option, none, some, List, [], ◌∷◌, all, find, length, ◌==◌,
  if◌then◌else◌,
}
use eir.Text.{Text, codes, eq_ignore_ascii_case, split, is_whitespace, is_ascii_hexdigit}

abbrev pub high_perf_guid : Text
high_perf_guid = codes "8c5e7fda-e8bf-4a96-9a85-a6e23a8c635c"

-- The active scheme, and app_state's value for RESTORE_KEY.
pub record Power : Type 0 where
  pub active : Text
  pub saved : Option Text

-- powercfg /setactive may change the plan and still not report success (a timeout).
pub data Switch : Type 0 where
  switched unreported unchanged : Switch

-- Whether each call works: powercfg /getactivescheme, set_state, powercfg /setactive, get_state and
-- delete_state.
pub record Outcome : Type 0 where
  pub reads : Bool
  pub persists : Bool
  pub switches : Switch
  pub loads : Bool
  pub clears : Bool

unfoldable pub set_scheme : Switch → Text → Power → Power
set_scheme unchanged guid p = p
set_scheme _ guid p = record p { active = guid }

abbrev pub reported : Switch → Bool
reported switched = true
reported _ = false

unfoldable pub boost : Outcome → Power → Power
boost o p =
    if not o.reads
    then p
    else if eq_ignore_ascii_case p.active high_perf_guid
    then p
    else if not o.persists
    then p
    else set_scheme o.switches high_perf_guid (record p { saved = some p.active })

unfoldable pub restore_to : Outcome → Option Text → Power → Power
restore_to o none p = p
restore_to o (some guid) p =
    if reported o.switches && o.clears
    then record (set_scheme o.switches guid p) { saved = none }
    else set_scheme o.switches guid p

unfoldable pub restore : Outcome → Power → Power
restore o p = if o.loads then restore_to o p.saved p else p

unfoldable pub on_gaming_edge : Bool → Bool → Outcome → Power → Power
on_gaming_edge power_boost on o p =
    if not on then restore o p else if not power_boost then p else boost o p

-- five parts of these lengths, in hexadecimal digits
unfoldable pub guid_parts : List ℕ → List Text → Bool
guid_parts [] [] = true
guid_parts (n ∷ ns) (p ∷ ps) = length p == n && all is_ascii_hexdigit p && guid_parts ns ps
guid_parts _ _ = false

unfoldable pub is_guid : Text → Bool
unfolding guid_parts
is_guid s = guid_parts (8 ∷ 4 ∷ 4 ∷ 4 ∷ 12 ∷ []) (split (λ c. c == 0x2d) s)

unfoldable pub parse_scheme_guid : Text → Option Text
unfolding find
parse_scheme_guid text =
    find is_guid (split (λ c. is_whitespace c || (c == 0x28 || c == 0x29)) text)
