-- ===== src/Json/Read.antt =====
-- eir-svc/src/ai/json.rs: from a reply to the value in it. serde_json is a parameter.
pub mod First
use eir.Prelude.{
  ℕ, zero, suc, Bool, true, ◌||◌, Option, none, some, List, [], ◌∷◌, ◌++◌, length, ltb, ◌==◌,
  if◌then◌else◌,
}
use eir.Prelude.Result.{Result, ok, err}
use eir.Text.{
  before_text, Text, codes, trim, trim_start, trim_start_matches, strip_prefix, to_ascii_lower,
  is_ascii_alphanumeric,
}
use eir.Json.Scan.{json_candidates}
use eir.Json.Repair.{sanitize_json}

abbrev pub think_tags : List (Text × Text)
think_tags =
    (codes "<think>", codes "</think>")
    ∷ (codes "<thinking>", codes "</thinking>")
    ∷ (codes "<reasoning>", codes "</reasoning>")
    ∷ []

-- The rest after `needle`, if the text starts with it up to ASCII case.
unfoldable pub strip_prefix_ci : Text → Text → Option Text
strip_prefix_ci [] s = some s
strip_prefix_ci (a ∷ needle) [] = none
strip_prefix_ci (a ∷ needle) (c ∷ s) =
    if to_ascii_lower a == to_ascii_lower c then strip_prefix_ci needle s else none

abbrev pub after_char : ℕ → Option (Text × Text) → Option (Text × Text)
after_char c none = none
after_char c (some (before, rest)) = some (c ∷ before, rest)

-- find_ci_ascii: the text before the first match and the text after it.
unfoldable pub find_ci_ascii : Text → Text → Option (Text × Text)
find_ci_ascii needle [] = none
find_ci_ascii needle (c ∷ s) = elim (strip_prefix_ci needle (c ∷ s)) [
  | some rest ↦ some ([], rest)
  | none ↦ after_char c (find_ci_ascii needle s)
]

-- What stands before a tag, what stands after it, the tag as it is written here, its end.
pub record TagMatch : Type 0 where
  pub before : Text
  pub after : Text
  pub close : Text

abbrev pub earlier : TagMatch → Option TagMatch → TagMatch
earlier m none = m
earlier m (some n) = if ltb (length n.before) (length m.before) then n else m

-- min_by_key over the tags that are found
unfoldable pub first_tag : List (Text × Text) → Text → Option TagMatch
first_tag [] s = none
first_tag ((open_tag, close_tag) ∷ tags) s = elim (find_ci_ascii open_tag s) [
  | none ↦ first_tag tags s
  | some (before, after) ↦
      some
        (earlier (record { before = before; after = after; close = close_tag }) (first_tag tags s))
]

unfoldable pub strip_think_from : ℕ → Text → Text
strip_think_from zero rest = rest
strip_think_from (suc fuel) rest = elim (first_tag think_tags rest) [
  | none ↦ rest
  | some m ↦ elim (find_ci_ascii m.close m.after) [
    | some (_, later) ↦ m.before ++ strip_think_from fuel later
    | none ↦ rest
  ]
]

unfoldable pub strip_think_tags : Text → Text
strip_think_tags s = strip_think_from (length s) s

-- s.find(needle) as the text before it
unfoldable pub after_newline : Text → Option Text
after_newline [] = none
after_newline (c ∷ s) = let later = after_newline s in if c == 0x0a then some s else later

-- the text after the language tag of a fence
unfoldable pub fence_body : Text → Text
fence_body rest = elim (after_newline rest) [
  | some t ↦ t
  | none ↦ trim_start (trim_start_matches (λ c. is_ascii_alphanumeric c || c == 0x2d) rest)
]

abbrev pub or_whole : Text → Option Text → Text
or_whole s none = trim s
or_whole s (some t) = trim t

unfoldable pub fenced : Text → Text → Text
fenced close rest = or_whole (fence_body rest) (before_text close (fence_body rest))

unfoldable pub strip_fences : Text → Text
strip_fences s = elim (strip_prefix (codes "```") (trim s)) [
  | some rest ↦ fenced (codes "```") rest
  | none ↦ elim (strip_prefix (codes "~~~") (trim s)) [
    | some rest ↦ fenced (codes "~~~") rest
    | none ↦ trim s
  ]
]

unfoldable pub prepare_model_text : Text → Text
prepare_model_text s = strip_fences (strip_think_tags s)

-- serde_json: a text to a JSON value, a value to the type that is wanted, and a text to that type.
pub record Serde (T : Type 0) : Type 1 where
  pub Value : Type 0
  pub Error : Type 0
  pub from_str : Text → Result Error Value
  pub from_value : Value → Result Error T
  pub from_text : Text → Result Error T

module _ {T : Type 0} (serde : Serde T) where
  open serde use {Value, Error, from_str, from_value, from_text}

  -- One candidate: none where the value does not pass the test.
  unfoldable pub read_value : (Value → Bool) → Result Error Value → Option (Result Error T)
  read_value accepts (err e) = some (err e)
  read_value accepts (ok value) = if accepts value then some (from_value value) else none

  unfoldable pub read_candidate : (Value → Bool) → Text → Option (Result Error T)
  unfolding read_value
  read_candidate accepts c = read_value accepts (from_str (sanitize_json c))

  -- the loop over the candidates, and what follows it
  unfoldable pub read_from : (Value → Bool) → Text → List Text → Option Error → Result Error T
  read_from accepts prepared [] none = from_text (sanitize_json prepared)
  read_from accepts prepared [] (some e) = err e
  read_from accepts prepared (c ∷ cs) last = elim (read_candidate accepts c) [
    | none ↦ read_from accepts prepared cs last
    | some (ok parsed) ↦ ok parsed
    | some (err e) ↦ read_from accepts prepared cs (some e)
  ]

  unfoldable pub parse_model_json_matching : Text → (Value → Bool) → Result Error T
  parse_model_json_matching s accepts =
      let prepared = prepare_model_text s in
      read_from accepts prepared (json_candidates prepared) none

  unfoldable pub parse_model_json : Text → Result Error T
  parse_model_json s = parse_model_json_matching s (λ _. true)
