-- ===== src/Approvals/Gone.antt =====
-- How the statements act on the rows of one id: none with it, none pending with it.
use eir.Prelude.{
  ℕ, ◌≤◌, ◌<◌, ◌≡◌, refl, ◌≢◌, Bool, false, not, Option, none, some, List, [], ◌∷◌, arith,
  Bool-cases, inl, inr, map, filter, ◌==◌,
}
use eir.Text.{Text}
use eir.Approvals.Rows.{
  Row, Status, pending, approved, same_status, first_match, count_matches, matches, move_row,
  update_status, delete_status,
}
use eir.Approvals.Queue.{Descending}
use eir.Approvals.{decided}

-- No row has this id.
abbrev pub Gone : ℕ → List Row → Type 0
Gone id [] = Unit {0}
Gone id (r ∷ rs) = (r.id ≢ id) × Gone id rs

module _ (id : ℕ) where
  pub Gone-above : (n : ℕ) (rs : List Row) → Descending n rs → n ≤ id → Gone id rs
  Gone-above n [] d h = tt
  Gone-above n (r ∷ rs) d h = (omega arith, Gone-above r.id rs d.1 (omega arith))

  pub Gone-filter : (p : Row → Bool) (rs : List Row) → Gone id rs → Gone id (filter p rs)
  unfolding filter
  Gone-filter p [] g = tt
  Gone-filter p (r ∷ rs) g = ground (arith, Gone-filter p rs)

  pub Gone-map :
      (f : Row → Row) (rs : List Row)
      → ((r : Row) → (f r).id ≡ r.id)
      → Gone id rs
      → Gone id (map f rs)
  Gone-map f [] e g = tt
  Gone-map f (r ∷ rs) e g = (rw (e r) (g.0), Gone-map f rs e g.1)

  pub count_matches-Gone : (s : Status) (rs : List Row) → Gone id rs → count_matches id s rs ≡ 0
  unfolding count_matches matches
  count_matches-Gone s [] g = refl
  count_matches-Gone s (r ∷ rs) g = ground (arith, count_matches-Gone s rs)

  pub first_match-Gone : (s : Status) (rs : List Row) → Gone id rs → first_match id s rs ≡ none
  unfolding first_match matches
  first_match-Gone s [] g = refl
  first_match-Gone s (r ∷ rs) g = ground (arith, first_match-Gone s rs)

  pub first_match-below :
      (s : Status) (n : ℕ) (rs : List Row) (r : Row)
      → Descending n rs
      → first_match id s rs ≡ some r
      → id < n
  unfolding first_match matches
  first_match-below s n [] r d e = cc
  first_match-below s n (x ∷ rs) r d e = ground (arith, first_match-below s x.id rs r)

  -- The row that an execution settled was the only one with its id.
  pub Gone-settled :
      (n : ℕ) (rs : List Row)
      → Descending n rs
      → count_matches id approved rs ≡ 1
      → (id < n) × Gone id (delete_status id approved rs)
  unfolding count_matches matches delete_status filter
  Gone-settled n [] d e = omega arith
  Gone-settled n (r ∷ rs) d e = elim (Bool-cases (r.id == id)) [
    | inl w ↦
        let g = Gone-above r.id rs d.1 (ground arith) in
        ground (
          arith,
          count_matches-Gone approved rs g,
          Gone-filter (λ x. not (matches id approved x)) rs g,
        )
    | inr w ↦ ground (arith, Gone-settled r.id rs d.1)
  ]

  -- Statements other than a requeue make no row pending.
  pub unclaimed-update :
      (i : ℕ) (from to : Status) (at : Option Text) (rs : List Row)
      → same_status to pending ≡ false
      → first_match id pending rs ≡ none
      → first_match id pending (update_status i from to at rs) ≡ none
  unfolding first_match matches update_status move_row same_status
  unclaimed-update i from to at [] t h = refl
  unclaimed-update i from to at (r ∷ rs) t h = ground (arith, unclaimed-update i from to at rs t)

  pub unclaimed-requeue :
      (i : ℕ) (at : Option Text) (rs : List Row)
      → i ≢ id
      → first_match id pending rs ≡ none
      → first_match id pending (update_status i approved pending at rs) ≡ none
  unfolding first_match matches update_status move_row same_status
  unclaimed-requeue i at [] t h = refl
  unclaimed-requeue i at (r ∷ rs) t h = ground (arith, unclaimed-requeue i at rs t)

  pub unclaimed-filter :
      (p : Row → Bool) (rs : List Row)
      → first_match id pending rs ≡ none
      → first_match id pending (filter p rs) ≡ none
  unfolding first_match filter
  unclaimed-filter p [] h = refl
  unclaimed-filter p (r ∷ rs) h = ground (arith, unclaimed-filter p rs)

  pub claimed-unclaimed :
      (accept : Bool) (at : Option Text) (rs : List Row)
      → first_match id pending (update_status id pending (decided accept) at rs) ≡ none
  unfolding first_match matches update_status move_row same_status
  claimed-unclaimed accept at [] = refl
  claimed-unclaimed accept at (r ∷ rs) = ground (arith, claimed-unclaimed accept at rs)
