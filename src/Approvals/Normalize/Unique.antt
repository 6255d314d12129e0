-- ===== src/Approvals/Normalize/Unique.antt =====
-- After the startup check the table keeps the queue's invariant.
use eir.Prelude.{
  ◌≡◌, refl, sym, ◌∙◌, ◌&&◌, ap, subst, ℕ, ◌≤◌, Bool, true, false, not, Option, none, some, List,
  [], ◌∷◌, map, all, filter, Memᴰ, arith, if-elim, Bool-cases, inl, inr,
}
use eir.Text.{Text, Unicode, member}
use eir.Text.Laws.{text_eq_iff}
use eir.Text.Distinct.{distinct, IsFresh, IsFresh-add, remembered_more, member_head}
use eir.Models.{FixAction, dedup_key}
use eir.Approvals.{Codec, Db, max_active_approvals}
use eir.Approvals.Rows.{Row, rejected, is_active, same_status, active_key, has_key, count_active}
use eir.Approvals.Queue.{Descending, FreshKey, UniqueKeys, filter-Descending, count_active-filter}
use eir.Approvals.Calls.Invariant.{Inv}
use eir.Approvals.Startup.{
  ranked, has_id, is_oversized, sanitize_rows, drop_overflow, sanitize_rows-bounded,
}
use eir.Approvals.Normalize.Keys.{
  key_of, set_keys-id, set_keys-status, set_keys-key, clear_key-id, clear_key-status,
  clear_key-none, one_id, none_ne_some,
}
use eir.Approvals.Normalize.{
  Sweep, sweep, sweep_row, clear_key, set_keys, normalize_rows, clean_startup,
}

abbrev HasFreshKeys : Sweep → Type 0
HasFreshKeys s = IsFresh key_of s.keep s.seen

sweep_row-fresh :
    (u : Unicode) (id : ℕ) (action : Option FixAction) (s : Sweep)
    → HasFreshKeys s
    → HasFreshKeys (sweep_row u id action s)
unfolding sweep_row
sweep_row-fresh u id none s h = h
sweep_row-fresh u id (some action) s h =
    let key = dedup_key u action in
    if-elim HasFreshKeys (member key s.seen) _ _ (λ _. h)
      (λ new.
        IsFresh-add key_of s.keep (id, key) s.seen (key ∷ s.seen) h new
          (remembered_more key_of key s.seen s.keep h.1) (member_head key s.seen))

sweep-fresh :
    (u : Unicode) (actions : Codec FixAction) (rs : List Row) (s : Sweep)
    → HasFreshKeys s
    → HasFreshKeys (sweep u actions rs s)
unfolding sweep
sweep-fresh u actions [] s h = h
sweep-fresh u actions (r ∷ rs) s h =
    sweep-fresh u actions rs _ (sweep_row-fresh u r.id (actions.decode r.action_json) s h)

FreshKey-of :
    (b : Bool) (o : Option Text) (rs : List Row)
    → ((k : Text) → b ≡ true → o ≡ some k → active_key k rs ≡ false)
    → FreshKey b o rs
FreshKey-of true (some k) rs f = f k refl refl
FreshKey-of true none rs f = tt
FreshKey-of false o rs f = tt

has_key-some : (k : Text) (o : Option Text) → has_key k o ≡ true → o ≡ some k
unfolding has_key
has_key-some k none h = cc
has_key-some k (some x) h = ap some ((text_eq_iff x k).0 h)

module _ (keep : List (ℕ × Text)) where
  rekeyed : Row → Row
  rekeyed r = set_keys keep (clear_key r)

  rekeyed-id : (r : Row) → (rekeyed r).id ≡ r.id
  unfolding rekeyed
  rekeyed-id r = set_keys-id keep (clear_key r) ∙ clear_key-id r

  rekeyed-status : (r : Row) → (rekeyed r).status ≡ r.status
  unfolding rekeyed
  rekeyed-status r = set_keys-status keep (clear_key r) ∙ clear_key-status r

  -- An active row has a key that was kept for its id.
  rekeyed-key :
      (r : Row) (k : Text)
      → is_active (rekeyed r).status ≡ true
      → (rekeyed r).action_key ≡ some k
      → Memᴰ (r.id, k) keep
  unfolding rekeyed
  rekeyed-key r k a h =
      let active : is_active r.status ≡ true = ap is_active (sym (rekeyed-status r)) ∙ a in
      elim (set_keys-key keep (clear_key r) k h) [
        | inl q ↦ absurd (none_ne_some k (sym (clear_key-none r active) ∙ q))
        | inr m ↦ subst (λ i. Memᴰ (i, k) keep) (clear_key-id r) m
      ]

  Descending-map : (n : ℕ) (rs : List Row) → Descending n rs → Descending n (map rekeyed rs)
  Descending-map n [] d = tt
  Descending-map n (r ∷ rs) d =
      (rw (rekeyed-id r) d.0, rw (rekeyed-id r) (Descending-map r.id rs d.1))

  count_active-map : (rs : List Row) → count_active (map rekeyed rs) ≡ count_active rs
  unfolding count_active
  count_active-map [] = refl
  count_active-map (r ∷ rs) = rw (rekeyed-status r, count_active-map rs) refl

  module _ (told : distinct (map key_of keep) ≡ true) where
    other_key :
        (k : Text) (i n : ℕ) (rs : List Row)
        → n ≤ i
        → Descending n rs
        → Memᴰ (i, k) keep
        → active_key k (map rekeyed rs) ≡ false
    unfolding active_key
    other_key k i n [] l d m = refl
    other_key k i n (r ∷ rs) l d m =
        elim (Bool-cases (is_active (rekeyed r).status && has_key k (rekeyed r).action_key)) [
          | inl e ↦
              let same : r.id ≡ i =
                one_id k r.id i keep told
                  (rekeyed-key r k (ground arith)
                    (has_key-some k (rekeyed r).action_key (ground arith)))
                  m in
              absurd (omega (arith, same, l, d.0))
          | inr e ↦ rw e (other_key k i r.id rs (omega (arith, l, d.0)) d.1 m)
        ]

    UniqueKeys-map : (n : ℕ) (rs : List Row) → Descending n rs → UniqueKeys (map rekeyed rs)
    UniqueKeys-map n [] d = tt
    UniqueKeys-map n (r ∷ rs) d = (
      FreshKey-of (is_active (rekeyed r).status) (rekeyed r).action_key (map rekeyed rs)
          (λ k a h. other_key k r.id r.id rs (omega arith) d.1 (rekeyed-key r k a h)),
      UniqueKeys-map r.id rs d.1,
    )

normalize_rows-Inv :
    (u : Unicode) (actions : Codec FixAction) (n : ℕ) (rs : List Row)
    → Descending n rs
    → count_active rs ≤ max_active_approvals
    → Inv (normalize_rows u actions rs) n
unfolding normalize_rows rekeyed distinct all
normalize_rows-Inv u actions n rs d c =
    let s = sweep u actions (ranked rs) (record { seen = []; keep = []; remove = [] }) in
    let p : Row → Bool = λ r. not (has_id s.remove r.id) in
    let e = filter-Descending p n rs d in
    record {
      ids = Descending-map s.keep n (filter p rs) e;
      bounded = omega (arith, count_active-map s.keep (filter p rs), count_active-filter p rs, c);
      keys =
          UniqueKeys-map s.keep (sweep-fresh u actions (ranked rs) _ (refl, refl)).0 n (filter p rs)
            e;
    }

-- Whatever rows an older version left, after the statements of the startup check at most 256 approvals
-- are active, no two active ones share an action key, and ids fall along the table, if they did before.
pub clean_startup-Inv :
    (u : Unicode) (actions : Codec FixAction) (db : Db)
    → Descending db.next_row db.rows
    → Inv (clean_startup u actions db).rows (clean_startup u actions db).next_row
unfolding clean_startup sanitize_rows drop_overflow
clean_startup-Inv u actions db d =
    let kept = filter (λ (r : Row). not (same_status r.status rejected)) db.rows in
    let e = filter-Descending (λ r. not (same_status r.status rejected)) db.next_row db.rows d in
    normalize_rows-Inv u actions db.next_row (sanitize_rows kept)
      (filter-Descending _ db.next_row _
        (filter-Descending (λ r. not (is_active r.status && is_oversized r)) db.next_row kept e))
      (sanitize_rows-bounded db.next_row kept e)
