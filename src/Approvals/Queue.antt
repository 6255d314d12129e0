-- ===== src/Approvals/Queue.antt =====
-- What holds of the approval table between two calls, and the two shapes of a statement that keep
-- it: an update that wakes no row, and a deletion.
use eir.Prelude.{
  ℕ, ◌≤◌, ◌<◌, ◌≡◌, refl, Bool, true, false, Option, none, some, List, [], ◌∷◌, map, filter, arith,
  Bool-cases, inl, inr,
}
use eir.Text.{Text}
use eir.Approvals.Rows.{Row, is_active, count_active, active_key}

-- Ids fall along the table and stay below the next one, so no two rows share an id.
abbrev pub Descending : ℕ → List Row → Type 0
Descending n [] = Unit {0}
Descending n (r ∷ rs) = (r.id < n) × Descending r.id rs

-- No later active row has this row's key, if the row is active and has one.
abbrev pub FreshKey : Bool → Option Text → List Row → Type 0
FreshKey true (some key) rs = active_key key rs ≡ false
FreshKey _ _ rs = Unit {0}

-- At most one active row for each key.
abbrev pub UniqueKeys : List Row → Type 0
UniqueKeys [] = Unit {0}
UniqueKeys (r ∷ rs) = FreshKey (is_active r.status) r.action_key rs × UniqueKeys rs

pub Descending-mono : (m n : ℕ) (rs : List Row) → m ≤ n → Descending m rs → Descending n rs
Descending-mono m n [] h d = tt
Descending-mono m n (r ∷ rs) h d = (omega arith, d.1)

FreshKey-mono :
    (b c : Bool) (key : Option Text) (rs ss : List Row)
    → (c ≡ true → b ≡ true)
    → ((k : Text) → active_key k rs ≡ false → active_key k ss ≡ false)
    → FreshKey b key rs
    → FreshKey c key ss
FreshKey-mono b false key rs ss h k f = tt
FreshKey-mono b true none rs ss h k f = tt
FreshKey-mono true true (some key) rs ss h k f = k key f
FreshKey-mono false true (some key) rs ss h k f = cc (h refl)

-- An update that changes neither ids nor keys and activates no row.
pub record Tame (f : Row → Row) : Type 0 where
  pub id : (r : Row) → (f r).id ≡ r.id
  pub key : (r : Row) → (f r).action_key ≡ r.action_key
  pub active : (r : Row) → is_active (f r).status ≡ true → is_active r.status ≡ true

module _ (f : Row → Row) (t : Tame f) where
  pub map-Descending : (n : ℕ) (rs : List Row) → Descending n rs → Descending n (map f rs)
  map-Descending n [] d = tt
  map-Descending n (r ∷ rs) d = rw (t.id r) (d.0, map-Descending r.id rs d.1)

  pub count_active-map : (rs : List Row) → count_active (map f rs) ≤ count_active rs
  unfolding count_active
  count_active-map [] = omega arith
  count_active-map (r ∷ rs) = ground (arith, t.active r, count_active-map rs)

  pub active_key-map :
      (k : Text) (rs : List Row) → active_key k rs ≡ false → active_key k (map f rs) ≡ false
  unfolding active_key
  active_key-map k [] h = refl
  active_key-map k (r ∷ rs) h = ground (arith, t.active r, t.key r, active_key-map k rs)

  pub map-UniqueKeys : (rs : List Row) → UniqueKeys rs → UniqueKeys (map f rs)
  map-UniqueKeys [] u = tt
  map-UniqueKeys (r ∷ rs) u = (
    rw (t.key r)
        (FreshKey-mono _ _ r.action_key rs (map f rs) (t.active r) (λ k. active_key-map k rs) u.0),
    map-UniqueKeys rs u.1,
  )

module _ (p : Row → Bool) where
  pub filter-Descending : (n : ℕ) (rs : List Row) → Descending n rs → Descending n (filter p rs)
  unfolding filter
  filter-Descending n [] d = tt
  filter-Descending n (r ∷ rs) d =
      ground (arith, filter-Descending r.id rs d.1, Descending-mono r.id n (filter p rs))

  pub count_active-filter : (rs : List Row) → count_active (filter p rs) ≤ count_active rs
  unfolding count_active filter
  count_active-filter [] = omega arith
  count_active-filter (r ∷ rs) = ground (arith, count_active-filter rs)

  pub active_key-filter :
      (k : Text) (rs : List Row) → active_key k rs ≡ false → active_key k (filter p rs) ≡ false
  unfolding active_key filter
  active_key-filter k [] h = refl
  active_key-filter k (r ∷ rs) h = ground (arith, active_key-filter k rs)

  pub filter-UniqueKeys : (rs : List Row) → UniqueKeys rs → UniqueKeys (filter p rs)
  unfolding filter
  filter-UniqueKeys [] u = tt
  filter-UniqueKeys (r ∷ rs) u =
      let kept =
        FreshKey-mono (is_active r.status) (is_active r.status) r.action_key rs (filter p rs)
          (λ e. e) (λ k. active_key-filter k rs) u.0 in
      let rest = filter-UniqueKeys rs u.1 in
      elim (Bool-cases (p r)) [ inl e ↦ rw e (kept, rest) | inr e ↦ rw e rest ]
