-- ===== src/Updater/Check/Rotation.antt =====
-- The rotation of the model's checks.
use Prim.Native.Nat.{min}
use mathlib.Core.List.{Permᴰ}
use eir.Prelude.Sort.Perm.{take-drop, sort_by-perm}
use eir.Prelude.{
  ap, subst, sym, ◌∙◌, ◌++◌, ◌≡◌, ℕ, true, Option, List, all, length, length-take, ◌⊎◌, inl, inr,
  arith, Bool-cases, ◌↔◌, ◌<◌,
}
use eir.Prelude.Int.{ℤ}
use eir.Prelude.Sort.{sort_by, is_sorted-sort_by, length-sort_by, all-take}
use eir.Text.{Text, Unicode}
use eir.Updater.Check.{is_staler, select_unmanaged_batch}

is_staler_total :
    (u : Unicode) (last : Text → Option ℤ) (a b : Text × Text)
    → (is_staler u last a b ≡ true) ⊎ (is_staler u last b a ≡ true)
unfolding is_staler
is_staler_total u last a b = elim (Bool-cases (is_staler u last a b)) [
  | inl e ↦ inl e
  | inr e ↦ inr (ground arith)
]

is_staler_trans :
    (u : Unicode) (last : Text → Option ℤ) (a b c : Text × Text)
    → is_staler u last a b ≡ true
    → is_staler u last b c ≡ true
    → is_staler u last a c ≡ true
unfolding is_staler
is_staler_trans u last a b c h k = ground arith

-- A cycle checks as many applications as there are, or as the cap allows, and defers the others: none
-- is lost and none is added. None of the deferred ones was checked earlier than one of those checked
-- now, and the cycle is incomplete just if the cap is below their number.
pub select_unmanaged_batch-stalest :
    (u : Unicode) (last_check : Text → Option ℤ) (cap : ℕ) (apps : List (Text × Text))
    → let b = select_unmanaged_batch u last_check cap apps in
      (length b.checked ≡ min cap (length apps))
      × Permᴰ (b.checked ++ b.deferred) apps
      × (all (λ a. all (is_staler u last_check a) b.deferred) b.checked ≡ true)
      × ((b.incomplete ≡ true) ↔ (cap < length apps))
unfolding select_unmanaged_batch
select_unmanaged_batch-stalest u last cap apps =
    let le = is_staler u last in
    let sorted = sort_by le apps in
    (
      length-take cap sorted ∙ ap (min cap) (length-sort_by le apps),
      subst (λ xs. Permᴰ xs apps) (sym (take-drop cap sorted)) (sort_by-perm le apps),
      all-take le cap sorted
          (is_sorted-sort_by le (is_staler_total u last) (is_staler_trans u last) apps),
      ground (arith, length-take cap sorted, length-sort_by le apps),
    )
