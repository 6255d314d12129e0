-- ===== src/Learn/Tally/Laws.antt =====
-- What a tally holds for a key, and which keys become candidates.
use eir.Prelude.{
  ◌≡◌, refl, Bool, true, false, ◌&&◌, ◌||◌, ◌↔◌, Option, none, some, List, [], ◌∷◌, any, arith,
  Option-cases, inl, inr, if◌then◌else◌,
}
use eir.Text.{Text}
use eir.Signals.LogMemory.{lookup}
use eir.Learn.Tally.{update_entry, tally_row, tally, insert_sorted, sort_by_subject, candidates}

abbrev pub or_default {ℓ} : {V : Type ℓ} → V → Option V → V
or_default d none = d
or_default d (some v) = v

module _ {K V : Type 0} (same : K → K → Bool)
    (same_iff : (a b : K) → (same a b ≡ true) ↔ (a ≡ b)) where
  abbrev pub value_at : K → List (K × V) → Option V
  value_at k es = lookup (λ j. same j k) es

  value_at-update_entry :
      (k j : K) (d : V) (f : V → V) (es : List (K × V))
      → value_at j (update_entry same k d f es)
        ≡ (if same k j then some (f (or_default d (value_at k es))) else value_at j es)
  unfolding update_entry lookup
  value_at-update_entry k j d f [] = refl
  value_at-update_entry k j d f ((i, v) ∷ es) =
      ground (arith, same_iff i k, same_iff i j, same_iff k j, value_at-update_entry k j d f es)

  -- No key stands twice.
  abbrev pub IsUnique : List (K × V) → Type 0
  IsUnique [] = Unit {0}
  IsUnique ((k, v) ∷ es) = (value_at k es ≡ none) × IsUnique es

  update_entry-IsUnique :
      (k : K) (d : V) (f : V → V) (es : List (K × V))
      → IsUnique es
      → IsUnique (update_entry same k d f es)
  unfolding update_entry lookup
  update_entry-IsUnique k d f [] h = (refl, tt)
  update_entry-IsUnique k d f ((i, v) ∷ es) h = ground (
    arith,
    same_iff i k,
    same_iff k i,
    value_at-update_entry k i d f es,
    update_entry-IsUnique k d f es,
  )

module _ {K V R : Type 0} (same : K → K → Bool) (same_iff : (a b : K) → (same a b ≡ true) ↔ (a ≡ b))
    (key : R → Option K) (step : R → V → V) (d : V) where
  tally-IsUnique :
      (rs : List R) (es : List (K × V))
      → IsUnique same same_iff es
      → IsUnique same same_iff (tally same key step d rs es)
  unfolding tally tally_row
  tally-IsUnique [] es h = h
  tally-IsUnique (r ∷ rs) es h = elim (Option-cases (key r)) [
    | inl e ↦ rw e (tally-IsUnique rs es h)
    | inr (k, e) ↦
        rw e (tally-IsUnique rs _ (update_entry-IsUnique same same_iff k d (step r) es h))
  ]

  -- The rows of a key, and their effect on its entry.
  abbrev pub is_of : K → R → Bool
  is_of k r = elim (key r) [ none ↦ false | some j ↦ same j k ]

  unfoldable pub total : K → List R → V → V
  total k [] v = v
  total k (r ∷ rs) v = total k rs (if is_of k r then step r v else v)

  -- The entry of a key after the loop, from its entry before.
  unfoldable pub summary : K → List R → Option V → Option V
  summary k rs (some v) = some (total k rs v)
  summary k rs none = if any (is_of k) rs then some (total k rs d) else none

  pub value_at-tally :
      (k : K) (rs : List R) (es : List (K × V))
      → value_at same same_iff k (tally same key step d rs es)
        ≡ summary k rs (value_at same same_iff k es)
  unfolding tally tally_row total any summary
  value_at-tally k [] es = elim (Option-cases (value_at same same_iff k es)) [
    | inl e ↦ rw e refl
    | inr (v, e) ↦ rw e refl
  ]
  value_at-tally k (r ∷ rs) es = elim (Option-cases (key r)) [
    | inl e ↦ rw e (ground (arith, value_at-tally k rs es))
    | inr (j, e) ↦ rw e (
        ground (
          arith,
          same_iff j k,
          same_iff k j,
          value_at-tally k rs (update_entry same j d (step r) es),
          value_at-update_entry same same_iff j k d (step r) es,
        ))
  ]

-- A key becomes a candidate exactly if its entry is good.
module _ {K V C : Type 0} (same : K → K → Bool) (same_iff : (a b : K) → (same a b ≡ true) ↔ (a ≡ b))
    (good : K → V → Bool) (make : K → V → C) (subject : C → Text) where
  any-insert_sorted :
      (p : C → Bool) (c : C) (xs : List C) → any p (insert_sorted subject c xs) ≡ (p c || any p xs)
  unfolding any insert_sorted
  any-insert_sorted p c [] = refl
  any-insert_sorted p c (x ∷ xs) = ground (arith, any-insert_sorted p c xs)

  any-sort_by_subject : (p : C → Bool) (xs : List C) → any p (sort_by_subject subject xs) ≡ any p xs
  unfolding any sort_by_subject
  any-sort_by_subject p [] = refl
  any-sort_by_subject p (x ∷ xs) =
      ground (arith, any-insert_sorted p x (sort_by_subject subject xs), any-sort_by_subject p xs)

  abbrev pub is_good : K → Option V → Bool
  is_good k none = false
  is_good k (some v) = good k v

  any-candidates :
      (p : C → Bool) (k : K) (es : List (K × V))
      → ((j : K) (v : V) → p (make j v) ≡ same j k)
      → IsUnique same same_iff es
      → any p (candidates good make es) ≡ is_good k (value_at same same_iff k es)
  unfolding any candidates lookup
  any-candidates p k [] h u = refl
  any-candidates p k ((j, v) ∷ es) h u =
      ground (arith, h j v, same_iff j k, any-candidates p k es h)

  -- A key is detected exactly if it has a row and the sum of its rows is good.
  pub any-detected :
      {R : Type 0} (key : R → Option K) (step : R → V → V) (d : V) (p : C → Bool) (k : K)
      (rs : List R)
      → ((j : K) (v : V) → p (make j v) ≡ same j k)
      → any p (sort_by_subject subject (candidates good make (tally same key step d rs []))) ≡ (
          any (is_of same same_iff key step d k) rs
          && good k (total same same_iff key step d k rs d))
  unfolding summary lookup
  any-detected key step d p k rs h = ground (
    arith,
    any-sort_by_subject p (candidates good make (tally same key step d rs [])),
    any-candidates p k (tally same key step d rs []) h
        (tally-IsUnique same same_iff key step d rs [] tt),
    value_at-tally same same_iff key step d k rs [],
  )
