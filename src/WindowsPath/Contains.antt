-- ===== src/WindowsPath/Contains.antt =====
-- eir-svc/src/policy/mod.rs, is_within: which directories and keys contain which, in terms of how the
-- two are spelled.
use eir.Prelude.{
  ◌≡◌, ◌≢◌, ◌↔◌, ◌⊎◌, inl, inr, refl, sym, ap, subst, ◌∙◌, some_injective, true, none, some, List,
  [], ◌∷◌, ◌++◌, arith, Bool-cases, Option-cases, ◌==◌, ◌||◌,
}
use eir.Text.{Text, Unicode, eq_ignore_ascii_case, trim, split, strip_prefix}
use eir.WindowsPath.{
  local_machine, current_user, hklm, hkcu, backslash, slash, is_separator, is_within,
  normalize_path_lexical, fold_alias, fold_hive, strip_verbatim,
}
use eir.WindowsPath.Hive.{fold_alias_of_eq}
use eir.WindowsPath.Laws.{is_within_iff}
use eir.WindowsPath.Resolve.{resolve, push_comps-resolve}

none-some : {t : Text} → none ≡ some t → ⊥
none-some e = cc

-- `s` is `name` in any case, and then `rest`.
abbrev Names : Text → Text → Text → Type 0
Names name s rest = (hive : Text) × (s ≡ hive ++ rest) × (eq_ignore_ascii_case hive name ≡ true)

abbrev Begins : Text → Text → Type 0
Begins name s = (rest : Text) × Names name s rest

-- `t` is `s` with the long name of a hive in front replaced by the short one.
abbrev Unaliased : Text → Text → Type 0
Unaliased s t =
    ((rest : Text) × Names local_machine s rest × (t ≡ hklm ++ rest))
    ⊎ ((¬ Begins local_machine s) × (rest : Text) × Names current_user s rest × (t ≡ hkcu ++ rest))
    ⊎ ((¬ Begins local_machine s) × (¬ Begins current_user s) × (t ≡ s))

abbrev verbatim : Text
verbatim = backslash ∷ backslash ∷ 0x3f ∷ backslash ∷ []

-- `q` is `t` without the verbatim mark in front.
abbrev Stripped : Text → Text → Type 0
Stripped t q = (t ≡ verbatim ++ q) ⊎ ((¬ ((r : Text) × (t ≡ verbatim ++ r))) × (q ≡ t))

fold_alias-Names :
    (from to s t : Text)
    → fold_alias from to s ≡ some t
    → (rest : Text) × Names from s rest × (t ≡ to ++ rest)
unfolding fold_alias eq_ignore_ascii_case
fold_alias-Names [] to s t h = (s, ([], refl, refl), sym (some_injective h))
fold_alias-Names (f ∷ from) to [] t h = cc
fold_alias-Names (f ∷ from) to (c ∷ s) t h =
    elim (Bool-cases (eq_ignore_ascii_case (c ∷ []) (f ∷ []))) [
      | inl e ↦
          let (rest, (hive, x, y), z) = fold_alias-Names from to s t (rw e at h) in
          (rest, (c ∷ hive, ap (λ t. c ∷ t) x, ground arith), z)
      | inr e ↦ absurd (none-some (rw e at h))
    ]

Names-fold_alias :
    (from to s rest : Text) → Names from s rest → fold_alias from to s ≡ some (to ++ rest)
Names-fold_alias from to s rest (hive, e, h) =
    ap (fold_alias from to) e ∙ fold_alias_of_eq hive from to rest h

other-fold_alias : (from to s : Text) → ¬ Begins from s → fold_alias from to s ≡ none
other-fold_alias from to s h = elim (Option-cases (fold_alias from to s)) [
  | inl e ↦ e
  | inr (t, e) ↦ let (rest, n, _) = fold_alias-Names from to s t e in absurd (h (rest, n))
]

none-not-Begins : (from to s : Text) → fold_alias from to s ≡ none → ¬ Begins from s
none-not-Begins from to s e (rest, n) =
    absurd (none-some (sym e ∙ Names-fold_alias from to s rest n))

fold_hive-to : (s t : Text) → Unaliased s t → t ≡ fold_hive s
unfolding fold_hive
fold_hive-to s t h = elim h [
  | inl (rest, n, e) ↦ rw (Names-fold_alias local_machine hklm s rest n) e
  | inr w ↦ elim w [
    | inl (a, rest, n, e) ↦
        rw (other-fold_alias local_machine hklm s a, Names-fold_alias current_user hkcu s rest n) e
    | inr (a, b, e) ↦
        rw (other-fold_alias local_machine hklm s a, other-fold_alias current_user hkcu s b) e
  ]
]

fold_hive-of : (s : Text) → Unaliased s (fold_hive s)
unfolding fold_hive
fold_hive-of s = elim (Option-cases (fold_alias local_machine hklm s)) [
  | inr (t, e) ↦
      let (rest, n, f) = fold_alias-Names local_machine hklm s t e in inl (rest, n, rw e f)
  | inl e ↦ elim (Option-cases (fold_alias current_user hkcu s)) [
    | inr (t, f) ↦
        let (rest, n, g) = fold_alias-Names current_user hkcu s t f in
        inr (inl (none-not-Begins local_machine hklm s e, rest, n, rw (e, f) g))
    | inl f ↦ inr (
        inr (
          none-not-Begins local_machine hklm s e,
          none-not-Begins current_user hkcu s f,
          rw (e, f) refl,
        ))
  ]
]

strip_prefix-to : (p s r : Text) → strip_prefix p s ≡ some r → s ≡ p ++ r
unfolding strip_prefix
strip_prefix-to [] s r h = some_injective h
strip_prefix-to (a ∷ p) [] r h = cc
strip_prefix-to (a ∷ p) (c ∷ s) r h = ground (arith, strip_prefix-to p s r)

strip_prefix-append : (p r : Text) → strip_prefix p (p ++ r) ≡ some r
unfolding strip_prefix
strip_prefix-append [] r = refl
strip_prefix-append (a ∷ p) r = ground (arith, strip_prefix-append p r)

strip_verbatim-to : (t q : Text) → Stripped t q → q ≡ strip_verbatim t
unfolding strip_verbatim
strip_verbatim-to t q h = elim h [
  | inl e ↦
      let f : strip_prefix verbatim t ≡ some q =
        ap (strip_prefix verbatim) e ∙ strip_prefix-append verbatim q in
      rw f refl
  | inr (n, e) ↦ elim (Option-cases (strip_prefix verbatim t)) [
    | inl f ↦ rw f e
    | inr (r, f) ↦ absurd (n (r, strip_prefix-to verbatim t r f))
  ]
]

strip_verbatim-of : (t : Text) → Stripped t (strip_verbatim t)
unfolding strip_verbatim
strip_verbatim-of t = elim (Option-cases (strip_prefix verbatim t)) [
  | inl f ↦ inr (
    λ (r, e). none-some (sym f ∙ ap (strip_prefix verbatim) e ∙ strip_prefix-append verbatim r),
    rw f refl,
  )
  | inr (r, f) ↦ inl (rw f (strip_prefix-to verbatim t r f))
]

module _ (u : Unicode) where
  -- `cs` are the components of the path, resolved, after its hive is named in short and its verbatim
  -- mark is gone.
  abbrev pub Components : Text → List Text → Type 0
  Components path cs =
      (t : Text) × (q : Text) × Unaliased (trim path) t
      × Stripped t q
      × (cs ≡ resolve u (split (λ c. c == backslash || c == slash) q))

  -- The ancestor has components, and they are the first of the path's.
  abbrev pub Contains : Text → Text → Type 0
  Contains ancestor path =
      (cs : List Text) × (rest : List Text) × Components ancestor cs
      × (cs ≢ [])
      × Components path (cs ++ rest)

  Components-to :
      (path : Text) (cs : List Text) → Components path cs → cs ≡ normalize_path_lexical u path
  unfolding normalize_path_lexical
  Components-to path cs (t, q, a, b, e) =
      let f : q ≡ strip_verbatim (fold_hive (trim path)) =
        strip_verbatim-to t q b ∙ ap strip_verbatim (fold_hive-to (trim path) t a) in
      e
      ∙ ap (λ q. resolve u (split is_separator q)) f
      ∙ sym (push_comps-resolve u (split is_separator (strip_verbatim (fold_hive (trim path)))))

  Components-of : (path : Text) → Components path (normalize_path_lexical u path)
  unfolding normalize_path_lexical
  Components-of path = (
    fold_hive (trim path),
    strip_verbatim (fold_hive (trim path)),
    fold_hive-of (trim path),
    strip_verbatim-of (fold_hive (trim path)),
    push_comps-resolve u (split is_separator (strip_verbatim (fold_hive (trim path)))),
  )

  pub is_within-Contains_iff :
      (path ancestor : Text) → (is_within u path ancestor ≡ true) ↔ Contains ancestor path
  is_within-Contains_iff path ancestor = (
    λ h.
        let (n, (rest, e)) = (is_within_iff u path ancestor).0 h in
        (
          normalize_path_lexical u ancestor,
          rest,
          Components-of ancestor,
          n,
          subst (Components path) e (Components-of path),
        ),
    λ (cs, rest, a, n, b).
        let f = Components-to ancestor cs a in
        (is_within_iff u path ancestor).1 (
          subst (λ cs. cs ≢ []) f n,
          (rest, sym (Components-to path (cs ++ rest) b) ∙ ap (λ cs. cs ++ rest) f),
        ),
  )
