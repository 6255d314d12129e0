-- ===== src/Json/Scan/Nested.antt =====
-- eir-svc/src/ai/json.rs, close_delimited: where a bracketed text ends.
use mathlib.Core.List.{append_assoc}
use eir.Prelude.{
  ◌≡◌, ◌↔◌, refl, sym, ap, ◌∙◌, subst, ℕ, zero, suc, true, false, [], ◌∷◌, ◌++◌, ◌==◌, arith,
  Bool-cases, inl, inr, some,
}
use eir.Text.{Text}
use eir.Json.Scan.{advance, is_closed, is_open, start_scan, close_delimited}
use eir.Json.Scan.Closed.{closes, IsValue, close_delimited_iff}
use eir.Json.Scan.Grammar.{Quoted, Inside, IsPair, IsNested}
use eir.Json.Scan.Brackets.{
  Brackets, at, str, esc, closes-skip, same_of_test, goes_to, at-quote, at-opener, at-closer,
  at-other, closes-nested,
}

module _ (o c : ℕ) (b : Brackets o c) where
  -- The text closes d brackets, the last one at its end.
  abbrev Levels : ℕ → Text → Type 0
  Levels zero s = s ≡ []
  Levels (suc d) s = (i : Text) × (t : Text) × Inside o c i × Levels d t × (s ≡ i ++ (c ∷ t))

  abbrev InString : ℕ → Text → Type 0
  InString d s = (q : Text) × (t : Text) × Quoted q × Levels d t × (s ≡ q ++ t)

  -- What the scan tells of a text, from each of its three places.
  abbrev Parsed : Text → Type 0
  Parsed s =
      ((d : ℕ) → closes o (at (suc d)) s ≡ true → Levels (suc d) s)
      × ((d : ℕ) → closes o (str (suc d)) s ≡ true → InString (suc d) s)
      × ((d : ℕ)
          → closes o (esc (suc d)) s ≡ true
          → (x : ℕ) × (t : Text) × InString (suc d) t × (s ≡ x ∷ t))

  str-Parsed :
      (x : ℕ) (s : Text)
      → Parsed s
      → (d : ℕ) → closes o (str (suc d)) (x ∷ s) ≡ true
      → InString (suc d) (x ∷ s)
  unfolding is_closed advance
  str-Parsed x s p d h =
      let k : closes o (advance o (str (suc d)) x) s ≡ true =
        sym (closes-skip o (str (suc d)) x s refl) ∙ h in
      elim (Bool-cases (x == 0x5c)) [
        | inl e ↦
            let j : closes o (esc (suc d)) s ≡ true = goes_to o s (rw e refl) k in
            let (y, t, (q, r, v, l, f), g) = p.2 d j in
            (
              0x5c ∷ y ∷ q,
              r,
              Quoted.escapes y q v,
              l,
              ap (λ z. z ∷ s) (same_of_test x 0x5c e) ∙ ap (λ u. 0x5c ∷ u) (g ∙ ap (λ u. y ∷ u) f),
            )
        | inr e ↦ elim (Bool-cases (x == 0x22)) [
          | inl f ↦
              let j : closes o (at (suc d)) s ≡ true = goes_to o s (rw e (rw f refl)) k in
              (0x22 ∷ [], s, Quoted.ends, p.0 d j, ap (λ z. z ∷ s) (same_of_test x 0x22 f))
          | inr f ↦
              let j : closes o (str (suc d)) s ≡ true = goes_to o s (rw e (rw f refl)) k in
              let (q, r, v, l, g) = p.1 d j in
              (x ∷ q, r, Quoted.goes x q f e v, l, ap (λ u. x ∷ u) g)
        ]
      ]

  esc-Parsed :
      (x : ℕ) (s : Text)
      → Parsed s
      → (d : ℕ) → closes o (esc (suc d)) (x ∷ s) ≡ true
      → (y : ℕ) × (t : Text) × InString (suc d) t × (x ∷ s ≡ y ∷ t)
  unfolding is_closed advance
  esc-Parsed x s p d h = (x, s, p.1 d (sym (closes-skip o (esc (suc d)) x s refl) ∙ h), refl)

  -- The closer of the only open bracket ends the text.
  at_end :
      (d x : ℕ) (s : Text)
      → is_closed o (at (suc d)) x ≡ true
      → closes o (at (suc d)) (x ∷ s) ≡ true
      → Levels (suc d) (x ∷ s)
  unfolding closes is_closed
  at_end zero x [] e h = (
    [],
    [],
    Inside.nothing,
    refl,
    ap (λ z. z ∷ []) (same_of_test x c (ground (arith, b.closing))),
  )
  at_end (suc d) x [] e h = absurd (ground arith)
  at_end d x (y ∷ s) e h = absurd (ground arith)

  closes_once : (x : ℕ) → x ≡ c → is_closed o (at 1) x ≡ false → ⊥
  unfolding is_closed
  closes_once x f e = ground (arith, b.closing)

  false_ne : false ≡ true → ⊥
  false_ne h = cc

  at-Parsed :
      (x : ℕ) (s : Text)
      → Parsed s
      → (d : ℕ) → closes o (at (suc d)) (x ∷ s) ≡ true
      → Levels (suc d) (x ∷ s)
  at-Parsed x s p d h = elim (Bool-cases (is_closed o (at (suc d)) x)) [
    | inl e ↦ at_end d x s e h
    | inr e ↦
        let k : closes o (advance o (at (suc d)) x) s ≡ true =
          sym (closes-skip o (at (suc d)) x s e) ∙ h in
        elim (Bool-cases (x == 0x22)) [
          | inl f ↦ from_quote x s p d (same_of_test x 0x22 f) k
          | inr f ↦ elim (Bool-cases (x == o)) [
            | inl g ↦ from_opener x s p d (same_of_test x o g) k
            | inr g ↦ elim (Bool-cases (x == c)) [
              | inl l ↦ from_closer x s p d (same_of_test x c l) e k
              | inr l ↦
                  let (i, t, v, w, q) = p.0 d (goes_to o s (at-other o c b (suc d) x f g l).1 k) in
                  (x ∷ i, t, Inside.other x i f g l v, w, ap (λ u. x ∷ u) q)
            ]
          ]
        ]
  ]
    where
      from_quote :
          (x : ℕ) (s : Text)
          → Parsed s
          → (d : ℕ) → x ≡ 0x22
          → closes o (advance o (at (suc d)) x) s ≡ true
          → Levels (suc d) (x ∷ s)
      from_quote x s p d f k =
          let j = goes_to o s (ap (advance o (at (suc d))) f ∙ (at-quote o c b (suc d)).1) k in
          let (q, t, v, (i, r, w, l, g), u) = p.1 d j in
          (
            0x22 ∷ (q ++ i),
            r,
            Inside.quoted q i (0x22 ∷ (q ++ i)) v w refl,
            l,
            ap (λ z. z ∷ s) f
                ∙ ap (λ z. 0x22 ∷ z) (u ∙ ap (λ z. q ++ z) g ∙ sym (append_assoc q i (c ∷ r))),
          )

      from_opener :
          (x : ℕ) (s : Text)
          → Parsed s
          → (d : ℕ) → x ≡ o
          → closes o (advance o (at (suc d)) x) s ≡ true
          → Levels (suc d) (x ∷ s)
      from_opener x s p d f k =
          let j = goes_to o s (ap (advance o (at (suc d))) f ∙ (at-opener o c b (suc d)).1) k in
          let (i, t, v, (i', r, w, l, g), u) = p.0 (suc d) j in
          (
            o ∷ (i ++ (c ∷ i')),
            r,
            Inside.nested i i' (o ∷ (i ++ (c ∷ i'))) v w refl,
            l,
            ap (λ z. z ∷ s) f
                ∙ ap (λ z. o ∷ z)
                    (u ∙ ap (λ z. i ++ (c ∷ z)) g ∙ sym (append_assoc i (c ∷ i') (c ∷ r))),
          )

      from_closer :
          (x : ℕ) (s : Text)
          → Parsed s
          → (d : ℕ) → x ≡ c
          → is_closed o (at (suc d)) x ≡ false
          → closes o (advance o (at (suc d)) x) s ≡ true
          → Levels (suc d) (x ∷ s)
      from_closer x s p zero f e k = absurd (closes_once x f e)
      from_closer x s p (suc d) f e k =
          let j = goes_to o s (ap (advance o (at (suc (suc d)))) f ∙ (at-closer o c b d).1) k in
          ([], s, Inside.nothing, p.0 d j, ap (λ z. z ∷ s) f)

  parsed : (s : Text) → Parsed s
  unfolding closes
  parsed [] = (λ d h. absurd (false_ne h), λ d h. absurd (false_ne h), λ d h. absurd (false_ne h))
  parsed (x ∷ s) = let p = parsed s in (at-Parsed x s p, str-Parsed x s p, esc-Parsed x s p)

  nested-closes :
      (s : Text)
      → closes o start_scan (o ∷ s) ≡ true
      → (i : Text) × Inside o c i × (s ≡ i ++ (c ∷ []))
  nested-closes s h =
      let (a, f) = at-opener o c b 0 in
      let j = goes_to o s f (sym (closes-skip o (at 0) o s a) ∙ h) in
      let (i, t, v, e, q) = (parsed s).0 0 j in (i, v, q ∙ ap (λ z. i ++ (c ∷ z)) e)

braces : Brackets 0x7b 0x7d
braces = record { closing = refl; opener_unquoted = refl; closer_unquoted = refl; differ = refl }

squares : Brackets 0x5b 0x5d
squares = record { closing = refl; opener_unquoted = refl; closer_unquoted = refl; differ = refl }

IsPair-Brackets : (o c : ℕ) → IsPair o c → Brackets o c
IsPair-Brackets o c (inl (e, f)) =
    subst (λ x. Brackets x c) (sym e) (subst (λ y. Brackets 0x7b y) (sym f) braces)
IsPair-Brackets o c (inr (e, f)) =
    subst (λ x. Brackets x c) (sym e) (subst (λ y. Brackets 0x5b y) (sym f) squares)

IsPair-is_open : (o c : ℕ) → IsPair o c → is_open o ≡ true
IsPair-is_open o c (inl (e, f)) = ground (arith, e)
IsPair-is_open o c (inr (e, f)) = ground (arith, e)

is_open-IsPair : (o : ℕ) → is_open o ≡ true → (c : ℕ) × IsPair o c
is_open-IsPair o h = elim (Bool-cases (o == 0x7b)) [
  | inl e ↦ (0x7d, inl (same_of_test o 0x7b e, refl))
  | inr e ↦ (0x5d, inr (same_of_test o 0x5b (ground arith), refl))
]

pub IsValue-IsNested : (s : Text) → IsValue s → IsNested s
IsValue-IsNested [] v = absurd v
IsValue-IsNested (o ∷ s) v =
    let (c, p) = is_open-IsPair o v.0 in
    let (i, w, e) = nested-closes o c (IsPair-Brackets o c p) s v.1 in
    (o, c, i, p, w, ap (λ t. o ∷ t) e)

pub IsNested-IsValue : (s : Text) → IsNested s → IsValue s
IsNested-IsValue s (o, c, i, p, w, e) =
    subst IsValue (sym e) (IsPair-is_open o c p, closes-nested o c (IsPair-Brackets o c p) i w)

-- The scan for the closer splits a text into a value and the rest just where a grammar of bracketed
-- texts says: an opener, then strings with their escapes, other characters and texts in the same
-- brackets, then the closer. What follows the value, another bracket or a cut one included, does not
-- change what is taken.
pub close_delimited-IsNested_iff :
    (s taken rest : Text)
    → (close_delimited s ≡ some (taken, rest)) ↔ ((s ≡ taken ++ rest) × IsNested taken)
close_delimited-IsNested_iff s taken rest =
    let (to, from) = close_delimited_iff s taken rest in
    (
      λ h. let (e, v) = to h in (e, IsValue-IsNested taken v),
      λ (e, v). from (e, IsNested-IsValue taken v),
    )
