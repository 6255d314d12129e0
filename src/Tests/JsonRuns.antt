-- ===== src/Tests/JsonRuns.antt =====
-- Replies of a model at concrete texts.
use eir.Prelude.{inl, [], ◌∷◌, any, ◌≡◌, ◌↔◌, refl, true, some, ◌++◌}
use eir.Prelude.Result.{ok, err}
use eir.Text.{
  Text, codes, trim, trim_start, trim_start_matches, trim_end_matches, is_whitespace, strip_prefix,
  to_ascii_lower,
}
use eir.Json.Scan.{from_open, close_delimited}
use eir.Json.Scan.Grammar.{Inside, IsNested}
use eir.Json.Scan.Nested.{close_delimited-IsNested_iff}
use eir.Json.Repair.{
  sanitize_json, sanitize_from, sanitize_step, outside_step, next_place, straight_quotes,
  skip_comment, skip_ws_and_comments,
}
use eir.Json.Read.{
  Serde, prepare_model_text, strip_fences, strip_think_tags, strip_think_from, first_tag,
  find_ci_ascii, strip_prefix_ci, read_candidate, read_value, parse_model_json_matching,
}
use eir.Json.Read.First.{parse_model_json_matching-payload}

-- A stand-in for serde_json that takes every text for itself.
abbrev plain : Serde Text
plain = record {
  Value = Text;
  Error = Text;
  from_str = λ t. ok t;
  from_value = λ t. ok t;
  from_text = λ t. err t;
}

abbrev brackets : Text
brackets = codes "{{}}"

brackets-IsNested : IsNested brackets
unfolding codes
brackets-IsNested = (
  0x7b,
  0x7d,
  0x7b ∷ 0x7d ∷ [],
  inl (refl, refl),
  Inside.nested [] [] (0x7b ∷ 0x7d ∷ []) Inside.nothing Inside.nothing refl,
  refl,
)

trailing_comma : sanitize_json (codes "{1}") ≡ codes "{1}"
unfolding sanitize_json sanitize_from sanitize_step outside_step next_place straight_quotes
    skip_comment skip_ws_and_comments codes trim trim_start trim_start_matches trim_end_matches
trailing_comma = refl

close_delimited-IsNested_iff_example :
    (close_delimited (codes "{{}}{") ≡ some (brackets, codes "{"))
    ↔ ((codes "{{}}{" ≡ brackets ++ codes "{") × IsNested brackets)
close_delimited-IsNested_iff_example =
    close_delimited-IsNested_iff (codes "{{}}{") brackets (codes "{")

parse_model_json_matching-payload_example :
    parse_model_json_matching plain (codes "so {{}} {") (λ _. true) ≡ ok brackets
unfolding any prepare_model_text strip_fences strip_think_tags strip_think_from first_tag
    find_ci_ascii strip_prefix_ci to_ascii_lower strip_prefix codes trim trim_start
    trim_start_matches trim_end_matches is_whitespace from_open read_candidate read_value
    sanitize_json sanitize_from sanitize_step outside_step next_place straight_quotes skip_comment
parse_model_json_matching-payload_example =
    parse_model_json_matching-payload plain (λ _. true) (codes "so {{}} {") (codes "so ") brackets
      (codes " {") brackets brackets refl refl brackets-IsNested refl refl refl
