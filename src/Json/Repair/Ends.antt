-- ===== src/Json/Repair/Ends.antt =====
-- The loops of sanitize_json end within their fuel, and strict text passes unchanged.
use eir.Prelude.{
  ◌≡◌, refl, ap, ℕ, zero, suc, ◌≤◌, some, [], ◌∷◌, ◌++◌, length, arith, Option-cases, inl, inr,
}
use eir.Text.{Text}
use eir.Json.Repair.{
  skip_line, skip_block, skip_comment, Place, next_place, outside_step, sanitize_step,
  sanitize_from,
}

length-skip_line : (s : Text) → length (skip_line s) ≤ length s
unfolding skip_line
length-skip_line [] = omega arith
length-skip_line (c ∷ s) = ground (arith, length-skip_line s)

length-skip_block : (s : Text) → length (skip_block s) ≤ length s
unfolding skip_block
length-skip_block [] = omega arith
length-skip_block (c ∷ []) = omega arith
length-skip_block (c ∷ d ∷ s) = ground (arith, length-skip_block (d ∷ s))

length-skip_comment :
    (c : ℕ) (s rest : Text) → skip_comment (c ∷ s) ≡ some rest → length rest ≤ length s
unfolding skip_comment
length-skip_comment c [] rest h = absurd (ground arith)
length-skip_comment c (d ∷ s) rest h = ground (arith, length-skip_line s, length-skip_block s)

length-outside_step : (c : ℕ) (s : Text) → length (outside_step c s).1 ≤ length s
unfolding outside_step
length-outside_step c s = elim (Option-cases (skip_comment (c ∷ s))) [
  | inl e ↦ ground arith
  | inr (rest, e) ↦ ground (arith, length-skip_comment c s rest)
]

length-sanitize_step : (p : Place) (c : ℕ) (s : Text) → length (sanitize_step p c s).1 ≤ length s
unfolding sanitize_step
length-sanitize_step p c s = ground (arith, length-outside_step c s)

-- Every amount of fuel that is no less than the length of the text gives the same result: the loop
-- of sanitize_json has ended by then.
pub sanitize_from_fuel :
    (f g : ℕ) (p : Place) (s : Text)
    → length s ≤ f
    → length s ≤ g
    → sanitize_from f p s ≡ sanitize_from g p s
unfolding sanitize_from
sanitize_from_fuel zero zero p [] h k = refl
sanitize_from_fuel zero (suc g) p [] h k = refl
sanitize_from_fuel (suc f) zero p [] h k = refl
sanitize_from_fuel (suc f) (suc g) p [] h k = refl
sanitize_from_fuel zero g p (c ∷ s) h k = absurd (omega arith)
sanitize_from_fuel (suc f) zero p (c ∷ s) h k = absurd (omega arith)
sanitize_from_fuel (suc f) (suc g) p (c ∷ s) h k =
    ap (λ t. (sanitize_step p c s).0 ++ t)
      (sanitize_from_fuel f g (next_place p c) (sanitize_step p c s).1
        (omega (arith, h, length-sanitize_step p c s))
        (omega (arith, k, length-sanitize_step p c s)))
