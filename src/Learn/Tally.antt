-- ===== src/Learn/Tally.antt =====
-- The loops of eir-svc/src/learn/detect.rs that count rows by a key in a HashMap, and turn the
-- entries with enough evidence into candidates sorted by their subject.
pub mod Laws
use eir.Prelude.{Bool, Option, none, some, List, [], ◌∷◌, if◌then◌else◌}
use eir.Text.{Text}
use eir.Safety.{text_after}

module _ {K V : Type 0} (same : K → K → Bool) where
  -- map.entry(key).or_insert(default), then the change
  unfoldable pub update_entry : K → V → (V → V) → List (K × V) → List (K × V)
  update_entry k d f [] = (k, f d) ∷ []
  update_entry k d f ((j, v) ∷ es) =
      let rest = update_entry k d f es in if same j k then (j, f v) ∷ es else (j, v) ∷ rest

-- The loop over the rows: a row with no key is skipped.
module _ {K V R : Type 0} (same : K → K → Bool) (key : R → Option K) (step : R → V → V)
    (d : V) where
  unfoldable pub tally_row : R → Option K → List (K × V) → List (K × V)
  tally_row r none es = es
  tally_row r (some k) es = update_entry same k d (step r) es

  unfoldable pub tally : List R → List (K × V) → List (K × V)
  tally [] es = es
  tally (r ∷ rs) es = tally rs (tally_row r (key r) es)

-- out.sort_by_key(subject), which is stable
module _ {C : Type 0} (subject : C → Text) where
  unfoldable pub insert_sorted : C → List C → List C
  insert_sorted c [] = c ∷ []
  insert_sorted c (x ∷ xs) =
      let rest = insert_sorted c xs in
      if text_after (subject c) (subject x) then x ∷ rest else c ∷ (x ∷ xs)

  unfoldable pub sort_by_subject : List C → List C
  sort_by_subject [] = []
  sort_by_subject (x ∷ xs) = insert_sorted x (sort_by_subject xs)

module _ {K V C : Type 0} (good : K → V → Bool) (make : K → V → C) where
  unfoldable pub candidates : List (K × V) → List C
  candidates [] = []
  candidates ((k, v) ∷ es) = let rest = candidates es in if good k v then make k v ∷ rest else rest
