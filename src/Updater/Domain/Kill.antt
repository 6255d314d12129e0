-- ===== src/Updater/Domain/Kill.antt =====
-- Which process the engine may stop to free a lock.
use eir.Prelude.{
  ◌≡◌, refl, ◌↔◌, ◌≤◌, ℕ, Bool, true, false, not, ◌||◌, List, [], ◌∷◌, Memᴰ, arith, any, Witness,
  any_iff, any_of_mem, Bool-cases, inl, inr, ltb, if◌then◌else◌,
}
use eir.Text.{Text, Unicode, text_eq, eq_ignore_ascii_case, split, to_ascii_lowercase, utf8_len}
use eir.Process.{protected_processes, is_wildcard, without_suffix, exe, validate_kill_target}
use eir.Updater.Domain.{
  Method, kill_process, StepContext, same_category, lock_held, kill_stem, is_token_break,
  names_stem, remedy_ok,
}

-- No member passes the test.
abbrev NoneOf : (Text → Bool) → List Text → Type 0
NoneOf p ts = (t : Text) → Memᴰ t ts → p t ≡ false

any-NoneOf-to : (p : Text → Bool) (ts : List Text) → any p ts ≡ false → NoneOf p ts
any-NoneOf-to p ts h t m = elim (Bool-cases (p t)) [ inl e ↦ cc (any_of_mem p ts m e) | inr e ↦ e ]

any-NoneOf-from : (p : Text → Bool) (ts : List Text) → NoneOf p ts → any p ts ≡ false
unfolding any
any-NoneOf-from p [] h = refl
any-NoneOf-from p (t ∷ ts) h =
    rw (h t (Memᴰ.head refl)) (any-NoneOf-from p ts (λ x m. h x (Memᴰ.tail m)))

-- The guards of the code, by themselves.
guards_iff :
    (held wildcard listed named : Bool) (len : ℕ)
    → ((if not held || not (if wildcard then false else if listed then false else true)
          then false
          else if ltb len 5
          then false
          else named)
        ≡ true)
      ↔ ((held ≡ true) × (wildcard ≡ false) × (listed ≡ false) × (5 ≤ len) × (named ≡ true))
guards_iff held wildcard listed named len = ground arith

module _ (u : Unicode) (ctx : StepContext) (name : Text) where
  -- The name stands in the error of a held lock, is long enough, and is no protected process.
  abbrev pub IsKillable : Type 0
  IsKillable =
      (same_category ctx.failed lock_held ≡ true)
      × (any is_wildcard name ≡ false)
      × NoneOf (λ p. eq_ignore_ascii_case p (without_suffix exe (u.to_lowercase name)))
          protected_processes
      × (5 ≤ utf8_len (kill_stem name))
      × Witness (λ t. text_eq (without_suffix exe t) (kill_stem name))
          (split is_token_break (to_ascii_lowercase ctx.error_text))

  -- The engine stops a process exactly if the failure is a held lock, the name has no wildcard, is
  -- none of the protected processes in any case and with or without .exe, has at least five bytes,
  -- and is a whole token of the error text.
  pub remedy_ok-kill_process_iff :
      (method : Method) → (remedy_ok u (kill_process name) method ctx ≡ true) ↔ IsKillable
  unfolding remedy_ok validate_kill_target names_stem
  remedy_ok-kill_process_iff method =
      let listed =
        any (λ p. eq_ignore_ascii_case p (without_suffix exe (u.to_lowercase name)))
          protected_processes in
      let tokens = split is_token_break (to_ascii_lowercase ctx.error_text) in
      let named = any (λ t. text_eq (without_suffix exe t) (kill_stem name)) tokens in
      let (to, from) =
        guards_iff (same_category ctx.failed lock_held) (any is_wildcard name) listed named
          (utf8_len (kill_stem name)) in
      (
        λ h.
            let (a, b, c, d, e) = to h in
            (a, b, any-NoneOf-to _ protected_processes c, d, (any_iff _ tokens).0 e),
        λ (a, b, c, d, e).
            from (a, b, any-NoneOf-from _ protected_processes c, d, (any_iff _ tokens).1 e),
      )
