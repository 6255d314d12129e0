-- ===== src/Settings/Loaded.antt =====
-- Lists that were cleaned when they were loaded pass the check for saving, unchanged.
use mathlib.Core.List.{append_assoc, append-nil}
use eir.Prelude.{
  ◌≡◌, refl, sym, ◌∙◌, ap, subst, ℕ, suc, ◌+◌, ◌≤◌, Bool, true, false, ◌&&◌, not, Option, none,
  some, List, [], ◌∷◌, ◌++◌, map, any, all, length, length-append, length-take, take, ltb, leb,
  arith, Option-cases, inl, inr, if-elim,
}
use eir.Prelude.Result.{Result, ok, err}
use eir.Text.{Text, member, is_empty, trim, text_eq}
use eir.Text.Laws.{text_eq_iff, text_eq_refl, text_eq_sym}
use eir.Text.Trim.{trim_again, all-append}
use eir.Text.Distinct.{distinct, member_head, remembered_more, IsFresh, IsFresh-add}
use eir.Settings.{
  Rules, SettingsError, Kept, normalize_from, normalize_list, channels, directories,
  max_event_log_channels, max_log_directories, normalize_event_log_channels,
  normalize_log_directories, keep_new, keep_loaded, load_channels, load_directories,
  sanitize_loaded_event_log_channels, sanitize_loaded_log_directories,
}

abbrev passes : Option SettingsError → Bool
passes none = true
passes (some _) = false

module _ (r : Rules) where
  -- A trimmed entry that passes the check.
  abbrev is_entry : Text → Bool
  is_entry c = not (is_empty c) && (passes (r.check c) && text_eq (trim c) c)

  -- None of the entries has a key that was seen.
  abbrev are_new : List Text → List Text → Bool
  are_new seen cs = all (λ c. not (member (r.key c) seen)) cs

  are_new-cons :
      (c : Text) (seen cs : List Text)
      → member (r.key c) (map r.key cs) ≡ false
      → are_new seen cs ≡ true
      → are_new (r.key c ∷ seen) cs ≡ true
  unfolding all member any
  are_new-cons c seen [] h k = refl
  are_new-cons c seen (d ∷ cs) h k =
      ground (arith, are_new-cons c seen cs, text_eq_sym (r.key c) (r.key d))

  normalize_from-new :
      (seen safe : List Text) (raw c : Text) (raws : List Text)
      → trim raw ≡ c
      → is_empty c ≡ false
      → r.check c ≡ none
      → member (r.key c) seen ≡ false
      → normalize_from r seen safe (raw ∷ raws)
        ≡ normalize_from r (r.key c ∷ seen) (safe ++ (c ∷ [])) raws
  unfolding normalize_from
  normalize_from-new seen safe raw c raws t i e m =
      subst
        (λ x.
          is_empty x ≡ false
          → r.check x ≡ none
          → member (r.key x) seen ≡ false
          → normalize_from r seen safe (raw ∷ raws)
            ≡ normalize_from r (r.key x ∷ seen) (safe ++ (x ∷ [])) raws)
        t (λ j f n. rw (j, f, n) refl) i e m

  passed : (o : Option SettingsError) → passes o ≡ true → o ≡ none
  passed none h = refl
  passed (some e) h = cc

  normalize_from-entries :
      (seen safe cs : List Text)
      → all is_entry cs ≡ true
      → distinct (map r.key cs) ≡ true
      → are_new seen cs ≡ true
      → normalize_from r seen safe cs ≡ ok (safe ++ cs)
  unfolding all distinct normalize_from
  normalize_from-entries seen safe [] a d n = ap ok (sym (append-nil safe))
  normalize_from-entries seen safe (c ∷ cs) a d n =
      normalize_from-new seen safe c c cs ((text_eq_iff (trim c) c).0 (ground arith)) (ground arith)
        (passed (r.check c) (ground arith)) (ground arith)
      ∙ normalize_from-entries (r.key c ∷ seen) (safe ++ (c ∷ [])) cs (ground arith) (ground arith)
          (are_new-cons c seen cs (ground arith) (ground arith))
      ∙ ap ok (append_assoc safe (c ∷ []) cs)

  all_new : (cs : List Text) → are_new [] cs ≡ true
  unfolding all member any
  all_new [] = refl
  all_new (c ∷ cs) = all_new cs

  -- A checked list of entries that are all different is kept as it is.
  normalize_list-entries :
      (max : ℕ) (cs : List Text)
      → length cs ≤ max
      → all is_entry cs ≡ true
      → distinct (map r.key cs) ≡ true
      → normalize_list r max cs ≡ ok cs
  unfolding normalize_list
  normalize_list-entries max cs h a d =
      let few : ltb max (length cs) ≡ false = ground arith in
      rw few (normalize_from-entries [] [] cs a d (all_new cs))

  Small : Text → Result SettingsError (List Text) → Type 0
  Small raw (ok cs) = (all is_entry cs ≡ true) × (length cs ≤ 1)
  Small raw (err e) = Unit {0}

  -- One entry gives one entry, none or an error.
  normalize_from-one : (raw : Text) → Small raw (normalize_from r [] [] (raw ∷ []))
  unfolding normalize_from all member any Small
  normalize_from-one raw =
      if-elim (Small raw) (is_empty (trim raw)) (ok []) _ (λ e. (refl, omega arith))
        (λ i. elim (Option-cases (r.check (trim raw))) [
          | inl e ↦ rw e (ground (arith, trim_again raw, text_eq_refl (trim raw)), omega arith)
          | inr (x, e) ↦ rw e tt
        ])

  normalize_list-one :
      (max : ℕ) (raw : Text) → 1 ≤ max → Small raw (normalize_list r max (raw ∷ []))
  unfolding normalize_list
  normalize_list-one max raw h =
      let few : ltb max 1 ≡ false = ground arith in rw few (normalize_from-one raw)

  -- What was kept is entries with different keys, at most so many.
  record IsKept (n : ℕ) (k : Kept) : Type 0 where
    entries : all is_entry k.safe ≡ true
    fresh : IsFresh r.key k.safe k.seen
    few : length k.safe ≤ n

  weaken : (n m : ℕ) (k : Kept) → n ≤ m → IsKept n k → IsKept m k
  weaken n m k h q = record { entries = q.entries; fresh = q.fresh; few = omega (arith, h, q.few) }

  keep_new-IsKept :
      (n : ℕ) (cs : List Text) (k : Kept)
      → all is_entry cs ≡ true
      → IsKept n k
      → IsKept (n + length cs) (keep_new r cs k)
  unfolding keep_new all
  keep_new-IsKept n [] k a h = weaken n (n + 0) k (omega arith) h
  keep_new-IsKept n (c ∷ cs) k a h =
      weaken (suc n + length cs) (n + suc (length cs)) _ (omega arith) (
        keep_new-IsKept (suc n) cs _ (ground arith) (
          if-elim (IsKept (suc n)) (member (r.key c) k.seen) k _
            (λ _. weaken n (suc n) k (omega arith) h)
            (λ new. record {
              entries = all-append is_entry k.safe (c ∷ []) h.entries (ground arith);
              fresh =
                  IsFresh-add r.key k.safe c k.seen (r.key c ∷ k.seen) h.fresh new
                    (remembered_more r.key (r.key c) k.seen k.safe h.fresh.1)
                    (member_head (r.key c) k.seen);
              few = ground (arith, length-append k.safe (c ∷ []), h.few);
            })))

  keep_loaded-IsKept :
      (n : ℕ) (raw : Text) (res : Result SettingsError (List Text)) (k : Kept)
      → Small raw res
      → IsKept n k
      → IsKept (suc n) (keep_loaded r res k)
  unfolding keep_loaded Small
  keep_loaded-IsKept n raw (ok cs) k s h =
      weaken (n + length cs) (suc n) _ (omega (arith, s.1)) (keep_new-IsKept n cs k s.0 h)
  keep_loaded-IsKept n raw (err e) k s h = weaken n (suc n) k (omega arith) h

abbrev nothing_kept : Kept
nothing_kept = record { seen = []; safe = [] }

nothing-IsKept : (r : Rules) → IsKept r 0 nothing_kept
unfolding all distinct
nothing-IsKept r = record { entries = refl; fresh = (refl, refl); few = omega arith }

load_channels-IsKept :
    (n : ℕ) (raws : List Text) (k : Kept)
    → IsKept channels n k
    → IsKept channels (n + length raws) (load_channels raws k)
unfolding load_channels normalize_event_log_channels
load_channels-IsKept n [] k h = weaken channels n (n + 0) k (omega arith) h
load_channels-IsKept n (raw ∷ raws) k h =
    weaken channels (suc n + length raws) (n + suc (length raws)) _ (omega arith) (
      load_channels-IsKept (suc n) raws _ (
        keep_loaded-IsKept channels n raw _ k
          (normalize_list-one channels max_event_log_channels raw (omega arith)) h))

load_directories-IsKept :
    (raws : List Text) (k : Kept)
    → IsKept directories max_log_directories k
    → IsKept directories max_log_directories (load_directories raws k)
unfolding load_directories normalize_log_directories
load_directories-IsKept [] k h = h
load_directories-IsKept (raw ∷ raws) k h =
    if-elim (IsKept directories max_log_directories) (leb max_log_directories (length k.safe)) k _
      (λ _. h)
      (λ room. load_directories-IsKept raws _ (
        weaken directories (suc (length k.safe)) max_log_directories _ (ground arith) (
          keep_loaded-IsKept directories (length k.safe) raw _ k
            (normalize_list-one directories max_log_directories raw (omega arith))
            (record { entries = h.entries; fresh = h.fresh; few = omega arith }))))

-- Settings that were loaded can be saved: the event-log channels and the log directories that loading
-- leaves of any list pass the check for saving, and the check changes nothing.
pub loaded-normalize :
    (items dirs : List Text)
    → (normalize_event_log_channels (sanitize_loaded_event_log_channels items)
        ≡ ok (sanitize_loaded_event_log_channels items))
      × (normalize_log_directories (sanitize_loaded_log_directories dirs)
          ≡ ok (sanitize_loaded_log_directories dirs))
unfolding normalize_event_log_channels normalize_log_directories sanitize_loaded_event_log_channels
    sanitize_loaded_log_directories
loaded-normalize items dirs =
    let c =
      load_channels-IsKept 0 (take max_event_log_channels items) nothing_kept
        (nothing-IsKept channels) in
    let d = load_directories-IsKept dirs nothing_kept (
      weaken directories 0 max_log_directories nothing_kept (omega arith)
        (nothing-IsKept directories)) in
    (
      normalize_list-entries channels max_event_log_channels _
          (omega (arith, c.few, length-take max_event_log_channels items)) c.entries c.fresh.0,
      normalize_list-entries directories max_log_directories _ d.few d.entries d.fresh.0,
    )
