-- ===== src/Updater/Selection/Fairness.antt =====
-- eir-svc/src/updater/orchestrator.rs: which applications a cycle attempts, sets aside and leaves over.
use Prim.Native.Nat.{min}
use mathlib.Core.List.{Permᴰ}
use mathlib.Core.List.Permᴰ
use eir.Prelude.Sort.Perm.{take-drop, sort_by-perm}
use eir.Prelude.{
  some, ap, subst, sym, map, ◌++◌, length-drop, ◌≡◌, refl, ℕ, ◌+◌, Bool, true, Option, List, [],
  ◌∷◌, all, length, drop, length-take, ◌⊎◌, inl, inr, arith, Bool-cases, Option-cases, is_none,
}
use eir.Prelude.Int.{ℤ}
use eir.Prelude.Sort.{sort_by, is_sorted, is_sorted-sort_by, all-take}
use eir.Text.{Text}
use eir.Updater.Backoff.{Pause}
use eir.Updater.Selection.{tried_no_later, without_paused, with_pause, select, Selected}
use eir.Updater.Domain.{UpdateCandidate}

tried_no_later_total :
    (last : Text → Option ℤ) (a b : UpdateCandidate)
    → (tried_no_later last a b ≡ true) ⊎ (tried_no_later last b a ≡ true)
unfolding tried_no_later
tried_no_later_total last a b = elim (Bool-cases (tried_no_later last a b)) [
  | inl e ↦ inl e
  | inr e ↦ inr (ground arith)
]

tried_no_later_trans :
    (last : Text → Option ℤ) (a b c : UpdateCandidate)
    → tried_no_later last a b ≡ true
    → tried_no_later last b c ≡ true
    → tried_no_later last a c ≡ true
unfolding tried_no_later
tried_no_later_trans last a b c h k = ground arith

abbrev pub is_unpaused : (Text → Option Pause) → UpdateCandidate → Bool
is_unpaused pauses c = is_none (pauses c.id)

module _ (pauses : Text → Option Pause) where
  all-without_paused :
      (p : UpdateCandidate → Bool) (cs : List UpdateCandidate)
      → all p cs ≡ true
      → all p (without_paused pauses cs) ≡ true
  unfolding all without_paused
  all-without_paused p [] h = refl
  all-without_paused p (c ∷ cs) h = elim (Option-cases (pauses c.id)) [
    | inl e ↦ rw e (ground (arith, all-without_paused p cs))
    | inr (x, e) ↦ rw e (ground (arith, all-without_paused p cs))
  ]

  is_sorted-without_paused :
      (le : UpdateCandidate → UpdateCandidate → Bool) (cs : List UpdateCandidate)
      → is_sorted le cs ≡ true
      → is_sorted le (without_paused pauses cs) ≡ true
  unfolding is_sorted without_paused
  is_sorted-without_paused le [] h = refl
  is_sorted-without_paused le (c ∷ cs) h = elim (Option-cases (pauses c.id)) [
    | inl e ↦ rw e (ground (arith, all-without_paused (le c) cs, is_sorted-without_paused le cs))
    | inr (x, e) ↦ rw e (ground (arith, is_sorted-without_paused le cs))
  ]

  without_paused-unpaused :
      (cs : List UpdateCandidate) → all (is_unpaused pauses) (without_paused pauses cs) ≡ true
  unfolding all without_paused
  without_paused-unpaused [] = refl
  without_paused-unpaused (c ∷ cs) = elim (Option-cases (pauses c.id)) [
    | inl e ↦ rw e (rw e (without_paused-unpaused cs))
    | inr (x, e) ↦ rw e (without_paused-unpaused cs)
  ]

  -- The paused candidates with their pauses: none is made up or changed.
  paused_of :
      (cs : List UpdateCandidate)
      → map (λ (e : UpdateCandidate × Pause). pauses e.0.id) (with_pause pauses cs)
        ≡ map (λ (e : UpdateCandidate × Pause). some e.1) (with_pause pauses cs)
  unfolding with_pause
  paused_of [] = refl
  paused_of (c ∷ cs) = elim (Option-cases (pauses c.id)) [
    | inl e ↦ rw e (paused_of cs)
    | inr (x, e) ↦ rw e (rw e (ap (λ t. some x ∷ t) (paused_of cs)))
  ]

  split-perm :
      (cs : List UpdateCandidate)
      → Permᴰ (without_paused pauses cs ++ map (λ e. e.0) (with_pause pauses cs)) cs
  unfolding without_paused with_pause
  split-perm [] = Permᴰ.nil
  split-perm (c ∷ cs) = elim (Option-cases (pauses c.id)) [
    | inl e ↦ rw e (Permᴰ.cons refl (split-perm cs))
    | inr (x, e) ↦ rw e (
        Permᴰ.trans
          (Permᴰ.middle c (without_paused pauses cs) (map (λ e. e.0) (with_pause pauses cs)))
          (Permᴰ.cons refl (split-perm cs)))
  ]

  -- The attempted, the paused and the left-over candidates are the candidates, each as often as it
  -- was listed; as many are attempted as the cap allows; the paused ones carry the pause in force for
  -- them and the others have none; and none left over was attempted earlier than an attempted one.
  abbrev pub IsFair : (Text → Option ℤ) → ℕ → List UpdateCandidate → Selected → Type 0
  IsFair last cap candidates s =
      (left : List UpdateCandidate) × (s.deferred ≡ length left)
      × Permᴰ ((s.attempted ++ left) ++ map (λ e. e.0) s.paused) candidates
      × (length s.attempted ≡ min cap (length s.attempted + length left))
      × (map (λ (e : UpdateCandidate × Pause). pauses e.0.id) s.paused
          ≡ map (λ (e : UpdateCandidate × Pause). some e.1) s.paused)
      × (all (is_unpaused pauses) (s.attempted ++ left) ≡ true)
      × (all (λ a. all (tried_no_later last a) left) s.attempted ≡ true)

  pub select-IsFair :
      (last : Text → Option ℤ) (cap : ℕ) (candidates : List UpdateCandidate)
      → IsFair last cap candidates (select last pauses cap candidates)
  unfolding select
  select-IsFair last cap candidates =
      let le = tried_no_later last in
      let sorted = sort_by le candidates in
      let kept = without_paused pauses sorted in
      (
        drop cap kept,
        sym (length-drop cap kept),
        subst (λ xs. Permᴰ (xs ++ map (λ e. e.0) (with_pause pauses sorted)) candidates)
            (sym (take-drop cap kept))
            (Permᴰ.trans (split-perm sorted) (sort_by-perm le candidates)),
        ground (arith, length-take cap kept, length-drop cap kept),
        paused_of sorted,
        rw (take-drop cap kept) (without_paused-unpaused sorted),
        all-take le cap kept (
            is_sorted-without_paused le sorted (
              is_sorted-sort_by le (tried_no_later_total last) (tried_no_later_trans last)
                candidates)),
      )
