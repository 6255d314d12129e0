-- ===== src/Json/Read/First.antt =====
-- Which value of a reply is taken.
use eir.Json.Scan.Grammar.{IsNested}
use eir.Json.Scan.Nested.{IsNested-IsValue}
use eir.Json.Repair.{sanitize_json}
use eir.Prelude.{
  ap, ◌∙◌, any, false, ◌==◌, ◌||◌, ◌≡◌, refl, ℕ, suc, Bool, true, some, [], ◌∷◌, ◌++◌, length,
  arith,
}
use eir.Prelude.Result.{ok}
use eir.Text.{Text}
use eir.Json.Scan.{is_open, from_open, close_delimited, candidates_from, json_candidates}
use eir.Json.Scan.Closed.{IsValue, close_delimited_iff}
use eir.Json.Read.{
  Serde, prepare_model_text, read_value, read_candidate, read_from, parse_model_json_matching,
}

from_open-append :
    (gap : Text) (c : ℕ) (t : Text)
    → from_open gap ≡ []
    → is_open c ≡ true
    → from_open (gap ++ (c ∷ t)) ≡ c ∷ t
unfolding from_open
from_open-append [] c t h o = rw o refl
from_open-append (x ∷ gap) c t h o = ground (arith, from_open-append gap c t)

abbrev pub is_bracket : ℕ → Bool
is_bracket c = c == 0x7b || c == 0x5b

from_value :
    (c : ℕ) (t rest : Text)
    → IsValue (c ∷ t)
    → close_delimited (c ∷ (t ++ rest)) ≡ some (c ∷ t, rest)
from_value c t rest v = (close_delimited_iff (c ∷ (t ++ rest)) (c ∷ t) rest).1 (refl, v)

candidates_from-value :
    (fuel : ℕ) (gap v rest : Text)
    → from_open gap ≡ []
    → IsValue v
    → candidates_from (suc fuel) (gap ++ (v ++ rest)) ≡ v ∷ candidates_from fuel rest
unfolding candidates_from
candidates_from-value fuel gap [] rest h v = absurd v
candidates_from-value fuel gap (c ∷ t) rest h v =
    ground (arith, from_open-append gap c (t ++ rest), from_value c t rest v)

no_opener : (gap : Text) → any is_bracket gap ≡ false → from_open gap ≡ []
unfolding any from_open
no_opener [] h = refl
no_opener (x ∷ gap) h = ground (arith, no_opener gap)

read_candidate-ok :
    {T : Type 0} (serde : Serde T) (accepts : serde.Value → Bool) (v : Text) (y : serde.Value)
    (x : T)
    → serde.from_str (sanitize_json v) ≡ ok y
    → accepts y ≡ true
    → serde.from_value y ≡ ok x
    → read_candidate serde accepts v ≡ some (ok x)
unfolding read_candidate read_value
read_candidate-ok serde accepts v y x r a d = ap (read_value serde accepts) r ∙ rw a (rw d refl)

-- The first value of a reply is recovered, whatever follows it: if the prepared text is a stretch with
-- no opening bracket, then a bracketed text of the grammar, then anything, and serde_json reads the
-- repaired bracketed text as a value that passes the test and decodes it, then this is the result.
pub parse_model_json_matching-payload :
    {T : Type 0} (serde : Serde T) (accepts : serde.Value → Bool) (s gap v rest : Text)
    (y : serde.Value) (x : T)
    → prepare_model_text s ≡ gap ++ (v ++ rest)
    → any is_bracket gap ≡ false
    → IsNested v
    → serde.from_str (sanitize_json v) ≡ ok y
    → accepts y ≡ true
    → serde.from_value y ≡ ok x
    → parse_model_json_matching serde s accepts ≡ ok x
unfolding parse_model_json_matching json_candidates read_from
parse_model_json_matching-payload serde accepts s gap v rest y x p h w r a d = rw p (
    rw
      (candidates_from-value (length (gap ++ (v ++ rest))) gap v rest (no_opener gap h)
        (IsNested-IsValue v w))
      (rw (read_candidate-ok serde accepts v y x r a d, read_from) refl))
