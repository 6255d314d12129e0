-- ===== src/Json/Scan/Brackets.antt =====
-- eir-svc/src/ai/json.rs, close_delimited: what each character of a bracketed text does to the scan.
use mathlib.Core.List.{append_assoc}
use eir.Prelude.{◌≡◌, refl, ap, ◌∙◌, subst, ℕ, suc, true, false, [], ◌∷◌, ◌++◌, ◌==◌, arith}
use eir.Text.{Text}
use eir.Json.Scan.{ScanState, advance, is_closed, closer, start_scan}
use eir.Json.Scan.Closed.{closes}
use eir.Json.Scan.Grammar.{Quoted, Inside}

-- Outside a string, in one, and behind a backslash in one.
abbrev pub at : ℕ → ScanState
at d = record { depth = d; in_str = false; escaped = false }

abbrev pub str : ℕ → ScanState
str d = record { depth = d; in_str = true; escaped = false }

abbrev pub esc : ℕ → ScanState
esc d = record { depth = d; in_str = true; escaped = true }

-- Where the scan does not close, it goes on.
pub closes-skip :
    (o : ℕ) (st : ScanState) (x : ℕ) (s : Text)
    → is_closed o st x ≡ false
    → closes o st (x ∷ s) ≡ closes o (advance o st x) s
unfolding closes
closes-skip o st x [] h = h
closes-skip o st x (y ∷ s) h = rw h refl

-- What the scan needs of a pair of brackets.
pub record Brackets (o c : ℕ) : Type 0 where
  pub closing : closer o ≡ c
  pub opener_unquoted : (o == 0x22) ≡ false
  pub closer_unquoted : (0x22 == c) ≡ false
  pub differ : (o == c) ≡ false

pub same_of_test : (x y : ℕ) → (x == y) ≡ true → x ≡ y
same_of_test x y h = ground arith

pub goes_to :
    (o : ℕ) {st st' : ScanState} (s : Text)
    → st ≡ st'
    → closes o st s ≡ true
    → closes o st' s ≡ true
goes_to o s e h = subst (λ st. closes o st s ≡ true) e h

module _ (o c : ℕ) (b : Brackets o c) where
  Quoted-run :
      {q : Text} (d : ℕ) (k : Text) → Quoted q → closes o (str d) (q ++ k) ≡ closes o (at d) k
  unfolding is_closed advance
  Quoted-run d k Quoted.ends = closes-skip o (str d) 0x22 k refl
  Quoted-run d k (Quoted.escapes x t q) =
      closes-skip o (str d) 0x5c (x ∷ (t ++ k)) refl
      ∙ closes-skip o (esc d) x (t ++ k) refl
      ∙ Quoted-run d k q
  Quoted-run d k (Quoted.goes x t h g q) =
      closes-skip o (str d) x (t ++ k) refl ∙ rw g (rw h (Quoted-run d k q))

  -- One character outside a string.
  pub at-quote : (d : ℕ) → (is_closed o (at d) 0x22 ≡ false) × (advance o (at d) 0x22 ≡ str d)
  unfolding is_closed advance
  at-quote d = (rw b.closing (rw b.closer_unquoted refl), refl)

  pub at-opener : (d : ℕ) → (is_closed o (at d) o ≡ false) × (advance o (at d) o ≡ at (suc d))
  unfolding is_closed advance
  at-opener d = (rw b.closing (rw b.differ refl), rw b.opener_unquoted (rw (same o) refl))
    where
      same : (x : ℕ) → (x == x) ≡ true
      same x = ground arith

  pub at-closer :
      (d : ℕ)
      → (is_closed o (at (suc (suc d))) c ≡ false) × (advance o (at (suc (suc d))) c ≡ at (suc d))
  unfolding is_closed advance
  at-closer d = (ground (arith, b.closing), ground (arith, b.closing, b.closer_unquoted, b.differ))

  pub at-other :
      (d x : ℕ)
      → (x == 0x22) ≡ false
      → (x == o) ≡ false
      → (x == c) ≡ false
      → (is_closed o (at d) x ≡ false) × (advance o (at d) x ≡ at d)
  unfolding is_closed advance
  at-other d x h g k = (ground (arith, b.closing), ground (arith, b.closing))

  -- What stands inside the brackets leaves the depth as it was.
  inside-run :
      {i : Text} (d : ℕ) (k : Text)
      → Inside o c i
      → closes o (at (suc d)) (i ++ k) ≡ closes o (at (suc d)) k
  inside-run d k Inside.nothing = refl
  inside-run d k (Inside.other x t h g l i) =
      let (a, e) = at-other (suc d) x h g l in
      closes-skip o (at (suc d)) x (t ++ k) a ∙ ap (λ st. closes o st (t ++ k)) e ∙ inside-run d k i
  inside-run d k (Inside.quoted q t s v i e) =
      let (a, f) = at-quote (suc d) in
      ap (λ r. closes o (at (suc d)) (r ++ k)) e
      ∙ closes-skip o (at (suc d)) 0x22 ((q ++ t) ++ k) a
      ∙ ap (λ st. closes o st ((q ++ t) ++ k)) f
      ∙ ap (closes o (str (suc d))) (append_assoc q t k)
      ∙ Quoted-run (suc d) (t ++ k) v
      ∙ inside-run d k i
  inside-run d k (Inside.nested i t s v w e) =
      let (a, f) = at-opener (suc d) in
      let (n, g) = at-closer d in
      ap (λ r. closes o (at (suc d)) (r ++ k)) e
      ∙ closes-skip o (at (suc d)) o ((i ++ (c ∷ t)) ++ k) a
      ∙ ap (λ st. closes o st ((i ++ (c ∷ t)) ++ k)) f
      ∙ ap (closes o (at (suc (suc d)))) (append_assoc i (c ∷ t) k)
      ∙ inside-run (suc d) (c ∷ (t ++ k)) v
      ∙ closes-skip o (at (suc (suc d))) c (t ++ k) n
      ∙ ap (λ st. closes o st (t ++ k)) g
      ∙ inside-run d k w

  pub closes-nested : (i : Text) → Inside o c i → closes o start_scan (o ∷ (i ++ (c ∷ []))) ≡ true
  unfolding closes is_closed
  closes-nested i v =
      let (a, f) = at-opener 0 in
      closes-skip o (at 0) o (i ++ (c ∷ [])) a
      ∙ ap (λ st. closes o st (i ++ (c ∷ []))) f
      ∙ inside-run 0 (c ∷ []) v
      ∙ last_closes
    where
      last_closes : is_closed o (at 1) c ≡ true
      last_closes = ground (arith, b.closing)
