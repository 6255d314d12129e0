-- ===== src/Json/Scan.antt =====
-- eir-svc/src/ai/json.rs, close_delimited_at and json_candidates: the values that a text holds.
pub mod Closed
pub mod Grammar
pub mod Brackets
pub mod Nested
pub mod Pieces
use eir.Prelude.{
  ℕ, zero, suc, ◌-◌, Bool, true, false, ◌&&◌, ◌||◌, not, Option, none, some, List, [], ◌∷◌, length,
  ◌==◌, if◌then◌else◌,
}
use eir.Text.{Text}

abbrev pub quote : ℕ
quote = 0x22

abbrev pub backslash : ℕ
backslash = 0x5c

abbrev pub is_open : ℕ → Bool
is_open c = c == 0x7b || c == 0x5b

-- the closer of '{' and of '['
abbrev pub closer : ℕ → ℕ
closer opener = if opener == 0x5b then 0x5d else 0x7d

pub record ScanState : Type 0 where
  pub depth : ℕ
  pub in_str : Bool
  pub escaped : Bool

abbrev pub start_scan : ScanState
start_scan = record { depth = 0; in_str = false; escaped = false }

-- the body of the loop over the characters
unfoldable pub advance : ℕ → ScanState → ℕ → ScanState
advance opener st c =
    if st.escaped
    then record st { escaped = false }
    else if st.in_str
    then (if c == backslash
        then record st { escaped = true }
        else if c == quote
        then record st { in_str = false }
        else st)
    else if c == quote
    then record st { in_str = true }
    else if c == opener
    then record st { depth = suc st.depth }
    else if c == closer opener
    then record st { depth = st.depth - 1 }
    else st

-- depth == 0 after a closer
unfoldable pub is_closed : ℕ → ScanState → ℕ → Bool
is_closed opener st c = not st.escaped && not st.in_str && c == closer opener && st.depth == 1

abbrev pub keep : ℕ → Option (Text × Text) → Option (Text × Text)
keep c none = none
keep c (some (taken, rest)) = some (c ∷ taken, rest)

-- The text up to the closer, and what follows it.
unfoldable pub scan : ℕ → ScanState → Text → Option (Text × Text)
scan opener st [] = none
scan opener st (c ∷ s) =
    let more = keep c (scan opener (advance opener st c) s) in
    if is_closed opener st c then some (c ∷ [], s) else more

unfoldable pub close_delimited : Text → Option (Text × Text)
close_delimited [] = none
close_delimited (opener ∷ s) = if is_open opener then scan opener start_scan (opener ∷ s) else none

-- rest.find(['{', '['])
unfoldable pub from_open : Text → Text
from_open [] = []
from_open (c ∷ s) = let later = from_open s in if is_open c then c ∷ s else later

-- s[..=s.rfind(c)]
unfoldable pub through_last : ℕ → Text → Option Text
through_last c [] = none
through_last c (x ∷ s) = elim (through_last c s) [
  | some t ↦ some (x ∷ t)
  | none ↦ if x == c then some (x ∷ []) else none
]

-- What is taken of a value that is not closed.
unfoldable pub open_span : Text → Text
open_span [] = []
open_span (opener ∷ s) = elim (through_last (closer opener) s) [
  | some t ↦ opener ∷ t
  | none ↦ opener ∷ s
]

-- One round of the loop for each unit of fuel.
unfoldable pub candidates_from : ℕ → Text → List Text
candidates_from zero s = []
candidates_from (suc fuel) s = elim (from_open s) [
  | [] ↦ []
  | c ∷ t ↦ elim (close_delimited (c ∷ t)) [
    | some (taken, rest) ↦ taken ∷ candidates_from fuel rest
    | none ↦ open_span (c ∷ t) ∷ []
  ]
]

unfoldable pub json_candidates : Text → List Text
json_candidates s = candidates_from (suc (length s)) s
