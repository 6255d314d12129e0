-- ===== src/Json/Repair.antt =====
-- eir-svc/src/ai/json.rs, sanitize_json: the slips of a model that strict JSON does not allow. Each
-- loop runs on the length of its text as fuel.
pub mod Ends
use eir.Prelude.{
  ℕ, zero, suc, Bool, true, false, ◌&&◌, ◌||◌, Option, none, some, [], ◌∷◌, ◌++◌, length, leb, ◌==◌,
  if◌then◌else◌,
}
use eir.Text.{Text, codes, trim, trim_start, trim_start_matches}
use eir.Json.Scan.{quote, backslash}

-- char::is_control (the category Cc)
unfoldable pub is_control : ℕ → Bool
is_control c = leb c 0x1f || (leb 0x7f c && leb c 0x9f)

-- while chars[i] != '\n'
unfoldable pub skip_line : Text → Text
skip_line [] = []
skip_line (c ∷ s) = let rest = skip_line s in if c == 0x0a then c ∷ s else rest

-- up to and with the end of a block comment, or all of the text
unfoldable pub skip_block : Text → Text
skip_block [] = []
skip_block (c ∷ []) = []
skip_block (c ∷ d ∷ s) = let rest = skip_block (d ∷ s) in if c == 0x2a && d == 0x2f then s else rest

-- The text after a comment that starts here, if one does.
unfoldable pub skip_comment : Text → Option Text
skip_comment (c ∷ d ∷ s) =
    if c == 0x2f && d == 0x2f
    then some (skip_line s)
    else if c == 0x2f && d == 0x2a
    then some (skip_block s)
    else none
skip_comment _ = none

unfoldable pub skip_ws_and_comments : ℕ → Text → Text
skip_ws_and_comments zero s = s
skip_ws_and_comments (suc fuel) s = elim (skip_comment (trim_start s)) [
  | some rest ↦ skip_ws_and_comments fuel rest
  | none ↦ trim_start s
]

abbrev pub starts_closer : Text → Bool
starts_closer [] = false
starts_closer (c ∷ s) = c == 0x7d || c == 0x5d

-- Where the loop stands in a string.
pub record Place : Type 0 where
  pub in_str : Bool
  pub escaped : Bool

abbrev pub outside : Place
outside = record { in_str = false; escaped = false }

-- What a character inside a string is written as.
unfoldable pub in_string : ℕ → Text
in_string c =
    if c == 0x0a
    then codes "\\n"
    else if c == 0x0d
    then codes "\\r"
    else if c == 0x09
    then codes "\\t"
    else if is_control c
    then []
    else c ∷ []

unfoldable pub next_place : Place → ℕ → Place
next_place p c =
    if p.escaped
    then record p { escaped = false }
    else if p.in_str
    then (if c == backslash
        then record p { escaped = true }
        else if c == quote
        then record p { in_str = false }
        else p)
    else if c == quote
    then record p { in_str = true }
    else p

-- One round of the loop at a character: what is written, and the text that remains.
unfoldable pub outside_step : ℕ → Text → Text × Text
outside_step c s = elim (skip_comment (c ∷ s)) [
  | some rest ↦ ([], rest)
  | none ↦
      if c == 0x2c && starts_closer (skip_ws_and_comments (length s) s)
      then ([], s)
      else (c ∷ [], s)
]

unfoldable pub sanitize_step : Place → ℕ → Text → Text × Text
sanitize_step p c s =
    if p.escaped
    then (c ∷ [], s)
    else if p.in_str
    then (if c == backslash || c == quote then c ∷ [] else in_string c, s)
    else outside_step c s

unfoldable pub sanitize_from : ℕ → Place → Text → Text
sanitize_from zero p s = []
sanitize_from (suc fuel) p [] = []
sanitize_from (suc fuel) p (c ∷ s) =
    let (out, rest) = sanitize_step p c s in out ++ sanitize_from fuel (next_place p c) rest

-- '\u{201c}' and '\u{201d}' become '"'.
unfoldable pub straight_quotes : Text → Text
straight_quotes [] = []
straight_quotes (c ∷ s) = (if c == 0x201c || c == 0x201d then quote else c) ∷ straight_quotes s

unfoldable pub sanitize_json : Text → Text
sanitize_json input =
    let s = straight_quotes (trim_start_matches (λ c. c == 0xfeff) (trim input)) in
    sanitize_from (length s) outside s
