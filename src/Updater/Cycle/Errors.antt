-- ===== src/Updater/Cycle/Errors.antt =====
-- eir-svc/src/updater/orchestrator.rs and check.rs: what the errors of a cycle come from.
use eir.Prelude.{
  ◌≡◌, ◌↔◌, refl, sym, ap, ◌∙◌, subst, some_injective, ℕ, zero, suc, Bool, true, false, ◌&&◌, ◌||◌,
  not, Option, none, some, List, [], ◌∷◌, ◌++◌, any, all, length, arith, ◌⊎◌, inl, inr, is_some,
  is_none,
}
use eir.Text.{Text}
use eir.Updater.Available.{Machine, available_methods, enabled_methods, push_when, scoop_available}
use eir.Updater.Check.{NativeCheck, Collected, Sources, with_native, listing_failed}
use eir.Updater.Config.{UpdaterConfig}
use eir.Updater.Cycle.{any_unrecorded}
use eir.Updater.Domain.{
  Method, winget, choco, scoop, ms_store, native, has_method, same_method, UpdateCandidate,
}

-- The check by the model is switched off, or it ran and nothing failed in it.
abbrev pub NativeWentWell : Bool → NativeCheck → List Text → Type 0
NativeWentWell enabled check managed =
    (enabled ≡ false)
    ⊎ ((f : List Text → List UpdateCandidate × Bool) × (check ≡ some f) × ((f managed).1 ≡ false))

true-false : true ≡ false → ⊥
true-false e = cc

none-some {ℓ} : {A : Type ℓ} {x : A} → none ≡ some x → ⊥
none-some e = cc

native_iff :
    (enabled : Bool) (check : NativeCheck) (managed : List Text) (c : Collected) (failed : Bool)
    → ((with_native (enabled && is_some check) enabled managed check c failed).had_errors ≡ false)
      ↔ ((failed ≡ false) × NativeWentWell enabled check managed)
unfolding with_native
native_iff false none managed c failed = (λ h. (h, inl refl), λ w. w.0)
native_iff false (some f) managed c failed = (λ h. (h, inl refl), λ w. w.0)
native_iff true none managed c failed = (
  λ h. absurd (true-false h),
  λ w. elim w.1 [ inl e ↦ absurd (true-false e) | inr (f, e, x) ↦ absurd (none-some e) ],
)
native_iff true (some f) managed c failed = (
  λ h. (ground arith, inr (f, refl, ground arith)),
  λ w. elim w.1 [
    | inl e ↦ absurd (true-false e)
    | inr (g, e, x) ↦
        let y : (f managed).1 ≡ false = ap (λ k. (k managed).1) (some_injective e) ∙ x in rw w.0 y
  ],
)

pub with_native_iff :
    {tried : Bool} {enabled : Bool} {check : NativeCheck} (managed : List Text) (c : Collected)
    (failed : Bool)
    → tried ≡ enabled && is_some check
    → ((with_native tried enabled managed check c failed).had_errors ≡ false)
      ↔ ((failed ≡ false) × NativeWentWell enabled check managed)
with_native_iff {tried} {enabled} {check} managed c failed e =
    subst
      (λ t.
        ((with_native t enabled managed check c failed).had_errors ≡ false)
        ↔ ((failed ≡ false) × NativeWentWell enabled check managed))
      (sym e) (native_iff enabled check managed c failed)

any-append {ℓ} :
    {A : Type ℓ} (p : A → Bool) (xs ys : List A) → any p (xs ++ ys) ≡ any p xs || any p ys
unfolding any
any-append p [] ys = refl
any-append p (x ∷ xs) ys = ground (arith, any-append p xs ys)

other-push_when :
    (b : Bool) (m : Method)
    → same_method native m ≡ false
    → has_method (push_when b m) native ≡ false
unfolding push_when has_method any
other-push_when true m h = rw h refl
other-push_when false m h = refl

same_push_when : (b : Bool) → any (same_method native) (push_when b native) ≡ b
unfolding push_when any same_method
same_push_when true = refl
same_push_when false = refl

any-append_five {ℓ} :
    {A : Type ℓ} (p : A → Bool) (a b c d e : List A)
    → any p a ≡ false
    → any p b ≡ false
    → any p c ≡ false
    → any p d ≡ false
    → any p (a ++ b ++ c ++ d ++ e) ≡ any p e
any-append_five p a b c d e h i j k = ground (
  arith,
  any-append p a b,
  any-append p (a ++ b) c,
  any-append p (a ++ b ++ c) d,
  any-append p (a ++ b ++ c ++ d) e,
)

only_native :
    (a b c d e : Bool)
    → has_method
        (push_when a winget
          ++ push_when b choco
          ++ push_when c scoop
          ++ push_when d ms_store
          ++ push_when e native)
        native
      ≡ e
unfolding has_method
only_native a b c d e =
    any-append_five (same_method native) (push_when a winget) (push_when b choco)
      (push_when c scoop) (push_when d ms_store) (push_when e native)
      (other-push_when a winget refl) (other-push_when b choco refl) (other-push_when c scoop refl)
      (other-push_when d ms_store refl)
    ∙ same_push_when e

pub has_native :
    (cfg : UpdaterConfig) (ai : Bool) (machine : Machine)
    → has_method (available_methods cfg ai machine) native ≡ cfg.native_enabled && ai
unfolding available_methods has_method same_method scoop_available
has_native cfg ai machine =
    let enabled = enabled_methods cfg.methods in
    let found =
      (has_method enabled winget || has_method enabled ms_store) && machine.winget_found in
    let choco_found = machine.choco_found || (cfg.bootstrap_managers && machine.choco_installs) in
    only_native (has_method enabled winget && found) (has_method enabled choco && choco_found)
      (has_method enabled scoop && scoop_available) (has_method enabled ms_store && found)
      (cfg.native_enabled && ai)

-- Each manager in use was listed.
abbrev pub all_listed : List Method → Sources → Bool
all_listed available sources =
    all (λ m. not (has_method available m) || is_some (sources m))
      (winget ∷ choco ∷ scoop ∷ ms_store ∷ [])

is_none-is_some {ℓ} : {A : Type ℓ} (x : Option A) → is_none x ≡ not (is_some x)
is_none-is_some none = refl
is_none-is_some (some x) = refl

pub listing_failed-all_listed :
    (available : List Method) (sources : Sources)
    → listing_failed available sources ≡ not (all_listed available sources)
unfolding listing_failed any all
listing_failed-all_listed available sources = ground (
  arith,
  is_none-is_some (sources winget),
  is_none-is_some (sources choco),
  is_none-is_some (sources scoop),
  is_none-is_some (sources ms_store),
)

-- The numbers of n applications, from the first on.
abbrev pub numbers : ℕ → ℕ → List ℕ
numbers first zero = []
numbers first (suc n) = first ∷ numbers (suc first) n

pub any_unrecorded-all {ℓ} :
    {A : Type ℓ} (is_recorded : ℕ → Bool) (first : ℕ) (xs : List A)
    → any_unrecorded is_recorded first xs ≡ not (all is_recorded (numbers first (length xs)))
unfolding any_unrecorded all
any_unrecorded-all is_recorded first [] = refl
any_unrecorded-all is_recorded first (x ∷ xs) =
    ground (arith, any_unrecorded-all is_recorded (suc first) xs)
