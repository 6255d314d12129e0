-- ===== src/Json/Scan/Closed.antt =====
-- What the scan for the closer finds.
use eir.Prelude.{
  ◌≡◌, ◌↔◌, refl, subst, ℕ, Bool, true, false, ◌&&◌, not, some, [], ◌∷◌, ◌++◌, arith, ap,
  Bool-cases, Option-cases, inl, inr,
}
use eir.Text.{Text}
use eir.Json.Scan.{ScanState, advance, is_closed, scan, close_delimited, is_open, start_scan}

-- Whether the scan stands at the closer after the last character, and not before.
unfoldable pub closes : ℕ → ScanState → Text → Bool
closes opener st [] = false
closes opener st (c ∷ []) = is_closed opener st c
closes opener st (c ∷ d ∷ s) =
    not (is_closed opener st c) && closes opener (advance opener st c) (d ∷ s)

closes-cons :
    (opener : ℕ) (st : ScanState) (c : ℕ) (s : Text)
    → is_closed opener st c ≡ false
    → closes opener (advance opener st c) s ≡ true
    → closes opener st (c ∷ s) ≡ true
unfolding closes
closes-cons opener st c [] h k = cc
closes-cons opener st c (d ∷ s) h k = rw h k

scan_sound :
    (opener : ℕ) (st : ScanState) (s taken rest : Text)
    → scan opener st s ≡ some (taken, rest)
    → (s ≡ taken ++ rest) × (closes opener st taken ≡ true)
unfolding scan closes
scan_sound opener st [] taken rest h = absurd (ground arith)
scan_sound opener st (c ∷ s) taken rest h = elim (Bool-cases (is_closed opener st c)) [
  | inl e ↦
      let a : taken ≡ c ∷ [] = ground arith in
      let b : rest ≡ s = ground arith in (rw (a, b) refl, rw a e)
  | inr e ↦ elim (Option-cases (scan opener (advance opener st c) s)) [
    | inl n ↦ absurd (ground arith)
    | inr ((t, r), f) ↦
        let (p, q) = scan_sound opener (advance opener st c) s t r f in
        let a : taken ≡ c ∷ t = ground arith in
        let b : rest ≡ r = ground arith in
        (rw (a, b) (ap (λ x. c ∷ x) p), rw a (closes-cons opener st c t e q))
  ]
]

scan_complete :
    (opener : ℕ) (st : ScanState) (taken rest : Text)
    → closes opener st taken ≡ true
    → scan opener st (taken ++ rest) ≡ some (taken, rest)
unfolding scan closes
scan_complete opener st [] rest h = cc
scan_complete opener st (c ∷ []) rest h = rw h refl
scan_complete opener st (c ∷ d ∷ s) rest h =
    ground (arith, scan_complete opener (advance opener st c) (d ∷ s) rest)

-- A value starts with an opener and ends with the first character at which the scan closes.
abbrev pub IsValue : Text → Type 0
IsValue [] = ⊥
IsValue (c ∷ t) = (is_open c ≡ true) × (closes c start_scan (c ∷ t) ≡ true)

IsValue-of_scan :
    (c : ℕ) (s taken rest : Text)
    → is_open c ≡ true
    → c ∷ s ≡ taken ++ rest
    → closes c start_scan taken ≡ true
    → IsValue taken
unfolding closes
IsValue-of_scan c s [] rest o e k = cc
IsValue-of_scan c s (x ∷ t) rest o e k =
    let same : c ≡ x = cc in
    (subst (λ y. is_open y ≡ true) same o, subst (λ y. closes y start_scan (x ∷ t) ≡ true) same k)

close_delimited-to :
    (s taken rest : Text)
    → close_delimited s ≡ some (taken, rest)
    → (s ≡ taken ++ rest) × IsValue taken
unfolding close_delimited
close_delimited-to [] taken rest h = absurd (ground arith)
close_delimited-to (c ∷ s) taken rest h = elim (Bool-cases (is_open c)) [
  | inl o ↦
      let (e, k) = scan_sound c start_scan (c ∷ s) taken rest (rw o at h) in
      (e, IsValue-of_scan c s taken rest o e k)
  | inr n ↦ absurd (ground arith)
]

close_delimited-from :
    (taken rest : Text) → IsValue taken → close_delimited (taken ++ rest) ≡ some (taken, rest)
unfolding close_delimited
close_delimited-from [] rest v = absurd v
close_delimited-from (c ∷ t) rest v = rw v.0 (scan_complete c start_scan (c ∷ t) rest v.1)

-- The scan finds exactly the texts at whose last character it closes.
pub close_delimited_iff :
    (s taken rest : Text)
    → (close_delimited s ≡ some (taken, rest)) ↔ ((s ≡ taken ++ rest) × IsValue taken)
close_delimited_iff s taken rest =
    (close_delimited-to s taken rest, λ (e, v). rw e (close_delimited-from taken rest v))
