-- ===== src/Json/Scan/Grammar.antt =====
-- The bracketed texts: an opener, strings, other characters and texts in the same brackets, a closer.
use eir.Prelude.{◌≡◌, ℕ, false, ◌⊎◌, [], ◌∷◌, ◌++◌, ◌==◌}
use eir.Text.{Text}

-- The rest of a string behind its opening quote, with the closing one; a backslash takes the
-- character behind it along.
pub data Quoted : Text → Type 0 where
  ends : Quoted (0x22 ∷ [])
  escapes : (x : ℕ) (t : Text) → Quoted t → Quoted (0x5c ∷ x ∷ t)
  goes : (x : ℕ) (t : Text) → (x == 0x22) ≡ false → (x == 0x5c) ≡ false → Quoted t → Quoted (x ∷ t)

-- What may stand between the opener o and its closer c.
pub data Inside (o c : ℕ) : Text → Type 0 where
  nothing : Inside o c []
  other :
      (x : ℕ) (t : Text)
      → (x == 0x22) ≡ false
      → (x == o) ≡ false
      → (x == c) ≡ false
      → Inside o c t
      → Inside o c (x ∷ t)
  quoted : (q t s : Text) → Quoted q → Inside o c t → s ≡ 0x22 ∷ (q ++ t) → Inside o c s
  nested : (i t s : Text) → Inside o c i → Inside o c t → s ≡ o ∷ (i ++ (c ∷ t)) → Inside o c s

-- { and }, or [ and ]
abbrev pub IsPair : ℕ → ℕ → Type 0
IsPair o c = ((o ≡ 0x7b) × (c ≡ 0x7d)) ⊎ ((o ≡ 0x5b) × (c ≡ 0x5d))

abbrev pub IsNested : Text → Type 0
IsNested s = (o c : ℕ) × (i : Text) × IsPair o c × Inside o c i × (s ≡ o ∷ (i ++ (c ∷ [])))
