-- ===== src/Updater/Check/Distinct.antt =====
-- Each application is a candidate once, and only if it may be updated.
use eir.Prelude.{
  ◌≡◌, refl, Bool, true, false, ◌&&◌, ◌||◌, not, Option, none, some, List, [], ◌∷◌, ◌++◌, map, any,
  all, filter, arith, if-elim, Bool-cases, inl, inr,
}
use eir.Text.{Text, Unicode, member, eq_ignore_ascii_case}
use eir.Text.Laws.{text_eq_refl}
use eir.Text.Trim.{all-append}
use eir.Updater.Config.{UpdaterConfig}
use eir.Updater.Domain.{Method, winget, choco, scoop, ms_store, native, has_method, UpdateCandidate}
use eir.Updater.Names.{app_id}
use eir.Updater.Winget.{is_noise}
use eir.Text.Distinct.{distinct, member_head, remembered_more, IsFresh, IsFresh-add}
use eir.Updater.Check.{
  Offer, Collected, Filter, Sources, base_id, should_skip, version_known, is_unwanted, candidate_of,
  push, push_all, listed, collect_method, collect_managers, add_native, retain_target, collect,
  with_native, NativeCheck, nothing_collected,
}

abbrev base_of : UpdateCandidate → Text
base_of x = base_id x.id

module _ (u : Unicode) (f : Filter) where
  -- An update that a manager may make.
  abbrev pub is_wanted : UpdateCandidate → Bool
  is_wanted x =
      not (should_skip f.cfg f.learned x.id) && not (is_noise u x.name) && version_known x.current

  record IsCollected (c : Collected) : Type 0 where
    wanted : all is_wanted c.candidates ≡ true
    ids : IsFresh (λ x. x.id) c.candidates c.seen
    bases : IsFresh base_of c.candidates c.seen

  push-IsCollected :
      (primary : Method) (o : Offer) (c : Collected)
      → IsCollected c
      → IsCollected (push u f primary o c)
  unfolding push is_unwanted all member any candidate_of
  push-IsCollected primary o c h =
      if-elim IsCollected (is_unwanted u f o.name) c _ (λ _. h)
        (λ good.
          if-elim IsCollected
            (member (app_id u o.name) c.seen || member (base_id (app_id u o.name)) c.seen) c _
            (λ _. h)
            (λ new.
              if-elim IsCollected (not (version_known o.current)) _ _
                (λ _. record { wanted = h.wanted; ids = h.ids; bases = h.bases })
                (λ known. add_candidate good new known)))
    where
      id : Text
      id = app_id u o.name

      base : Text
      base = base_id (app_id u o.name)

      x : UpdateCandidate
      x = candidate_of u f o primary

      add_candidate :
          is_unwanted u f o.name ≡ false
          → (member (app_id u o.name) c.seen || member (base_id (app_id u o.name)) c.seen) ≡ false
          → not (version_known o.current) ≡ false
          → IsCollected (record {
            candidates = c.candidates ++ (candidate_of u f o primary ∷ []);
            seen = app_id u o.name ∷ base_id (app_id u o.name) ∷ c.seen;
            unknown_version = c.unknown_version;
          })
      add_candidate good new known = record {
        wanted = all-append is_wanted c.candidates (x ∷ []) h.wanted (ground arith);
        ids =
            IsFresh-add (λ x. x.id) c.candidates x c.seen (id ∷ base ∷ c.seen) h.ids (ground arith)
              (remembered_more (λ x. x.id) id (base ∷ c.seen) c.candidates
                (remembered_more (λ x. x.id) base c.seen c.candidates h.ids.1))
              (ground (arith, text_eq_refl id));
        bases =
            IsFresh-add base_of c.candidates x c.seen (id ∷ base ∷ c.seen) h.bases (ground arith)
              (remembered_more base_of id (base ∷ c.seen) c.candidates
                (remembered_more base_of base c.seen c.candidates h.bases.1))
              (ground (arith, text_eq_refl base));
      }

  push_all-IsCollected :
      (primary : Method) (offers : List Offer) (c : Collected)
      → IsCollected c
      → IsCollected (push_all u f primary offers c)
  unfolding push_all
  push_all-IsCollected primary [] c h = h
  push_all-IsCollected primary (o ∷ offers) c h =
      push_all-IsCollected primary offers (push u f primary o c) (push-IsCollected primary o c h)

  collect_method-IsCollected :
      (available : List Method) (sources : Sources) (m : Method) (c : Collected)
      → IsCollected c
      → IsCollected (collect_method u f available sources m c)
  unfolding collect_method
  collect_method-IsCollected available sources m c h =
      if-elim IsCollected (has_method available m) _ c
        (λ _. push_all-IsCollected m (listed (sources m)) c h) (λ _. h)

  collect_managers_lem :
      (available : List Method) (sources : Sources)
      → IsCollected (collect_managers u f available sources nothing_collected)
  unfolding collect_managers distinct all
  collect_managers_lem available sources =
      let step = collect_method-IsCollected available sources in
      step ms_store _ (
        step scoop _ (
          step choco _ (
            step winget nothing_collected
              (record { wanted = refl; ids = (refl, refl); bases = (refl, refl) }))))

  -- Whatever the package managers offer, each candidate from them may be updated and has a version that
  -- is known, and no two are packages of one application.
  pub collect_managers-wanted :
      (available : List Method) (sources : Sources)
      → let cands = (collect_managers u f available sources nothing_collected).candidates in
        (all is_wanted cands ≡ true) × (distinct (map (λ x. base_id x.id) cands) ≡ true)
  collect_managers-wanted available sources =
      let h = collect_managers_lem available sources in (h.wanted, h.bases.0)

add_native-IsFresh :
    (cands : List UpdateCandidate) (c : Collected)
    → IsFresh (λ x. x.id) c.candidates c.seen
    → IsFresh (λ x. x.id) (add_native cands c).candidates (add_native cands c).seen
unfolding add_native
add_native-IsFresh [] c h = h
add_native-IsFresh (x ∷ cands) c h = add_native-IsFresh cands _ (
    if-elim (λ c. IsFresh (λ x. x.id) c.candidates c.seen) (member x.id c.seen) c _ (λ _. h)
      (λ new.
        IsFresh-add (λ x. x.id) c.candidates x c.seen (x.id ∷ c.seen) h new
          (remembered_more (λ x. x.id) x.id c.seen c.candidates h.1) (member_head x.id c.seen)))

member-filter :
    (t : Text) (p : UpdateCandidate → Bool) (xs : List UpdateCandidate)
    → member t (map (λ x. x.id) xs) ≡ false
    → member t (map (λ x. x.id) (filter p xs)) ≡ false
unfolding member any filter
member-filter t p [] h = refl
member-filter t p (x ∷ xs) h = elim (Bool-cases (p x)) [
  | inl e ↦ rw e (ground (arith, member-filter t p xs))
  | inr e ↦ rw e (ground (arith, member-filter t p xs))
]

distinct-filter :
    (p : UpdateCandidate → Bool) (xs : List UpdateCandidate)
    → distinct (map (λ x. x.id) xs) ≡ true
    → distinct (map (λ x. x.id) (filter p xs)) ≡ true
unfolding distinct filter
distinct-filter p [] h = refl
distinct-filter p (x ∷ xs) h = elim (Bool-cases (p x)) [
  | inl e ↦ rw e (ground (arith, member-filter x.id p xs, distinct-filter p xs))
  | inr e ↦ rw e (ground (arith, distinct-filter p xs))
]

distinct-retain_target :
    (target : Option Text) (xs : List UpdateCandidate)
    → distinct (map (λ x. x.id) xs) ≡ true
    → distinct (map (λ x. x.id) (retain_target target xs)) ≡ true
unfolding retain_target
distinct-retain_target none xs h = h
distinct-retain_target (some target) xs h =
    distinct-filter (λ c. eq_ignore_ascii_case c.id target) xs h

with_native-distinct :
    (native_avail enabled : Bool) (managed : List Text) (ai : NativeCheck) (c : Collected)
    (failed : Bool)
    → IsFresh (λ x. x.id) c.candidates c.seen
    → distinct (map (λ x. x.id) (with_native native_avail enabled managed ai c failed).candidates)
      ≡ true
unfolding with_native
with_native-distinct true enabled managed (some check) c failed h =
    (add_native-IsFresh (check managed).0 c h).0
with_native-distinct true enabled managed none c failed h = h.0
with_native-distinct false true managed none c failed h = h.0
with_native-distinct false false managed none c failed h = h.0
with_native-distinct false true managed (some check) c failed h = h.0
with_native-distinct false false managed (some check) c failed h = h.0

-- No application is a candidate twice, whatever the managers list and the model finds.
pub collect-distinct :
    (u : Unicode) (cfg : UpdaterConfig) (learned : List Text) (available : List Method)
    (sources : Sources) (ai : NativeCheck) (target : Option Text)
    → distinct (map (λ x. x.id) (collect u cfg learned available sources ai target).candidates)
      ≡ true
unfolding collect
collect-distinct u cfg learned available sources ai target =
    let f : Filter = record {
      cfg = cfg;
      learned = learned;
      native_avail = has_method available native;
    } in
    distinct-retain_target target _ (
      with_native-distinct f.native_avail cfg.native_enabled _ ai
        (collect_managers u f available sources nothing_collected) _
        (collect_managers_lem u f available sources).ids)
