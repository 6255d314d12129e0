-- ===== src/Updater/Check.antt =====
-- eir-svc/src/updater/check.rs: the candidates of one check.
pub mod Distinct
pub mod Rotation
use eir.Prelude.{
  ℕ, Bool, true, false, ◌&&◌, ◌||◌, not, Option, none, some, List, [], ◌∷◌, ◌++◌, map, any, filter,
  length, take, drop, ltb, if◌then◌else◌, is_none,
}
use eir.Prelude.Int.{ℤ, pos, ltb_ℤ}
use eir.Prelude.Sort.{sort_by}
use eir.Text.{Text, Unicode, codes, strip_suffix, member, is_empty, trim, eq_ignore_ascii_case}
use eir.Updater.Config.{UpdaterConfig, valid_app_id, guidance_for}
use eir.Updater.Domain.{
  Method, winget, choco, scoop, ms_store, native, has_method, same_method, UpdateCandidate,
}
use eir.Updater.Names.{app_id}
use eir.Updater.Winget.{is_noise}

abbrev pub choco_suffixes : List Text
choco_suffixes = codes ".install" ∷ codes ".portable" ∷ codes ".app" ∷ codes ".commandline" ∷ []

unfoldable pub strip_first : List Text → Text → Text
strip_first [] id = id
strip_first (suffix ∷ rest) id = elim (strip_suffix suffix id) [
  | some stripped ↦ stripped
  | none ↦ strip_first rest id
]

unfoldable pub base_id : Text → Text
unfolding strip_first
base_id id = strip_first choco_suffixes id

abbrev pub self_updating : List Text
self_updating = codes "discord" ∷ []

unfoldable pub should_skip : UpdaterConfig → List Text → Text → Bool
unfolding any
should_skip cfg learned id =
    if not (valid_app_id id)
    then true
    else member (base_id id) self_updating
      || member (base_id id) learned
      || any (λ ig. eq_ignore_ascii_case ig id || eq_ignore_ascii_case ig (base_id id)) cfg.ignored

unfoldable pub version_known : Text → Bool
version_known version =
    not (is_empty (trim version)) && not (eq_ignore_ascii_case (trim version) (codes "unknown"))

-- One update that a package manager offers.
pub record Offer : Type 0 where
  pub name : Text
  pub current : Text
  pub available : Text
  pub package_id : Option Text

pub record Collected : Type 0 where
  pub candidates : List UpdateCandidate
  pub seen : List Text
  pub unknown_version : List Text

abbrev pub nothing_collected : Collected
nothing_collected = record { candidates = []; seen = []; unknown_version = [] }

-- The parameters of Collected::new.
pub record Filter : Type 0 where
  pub cfg : UpdaterConfig
  pub learned : List Text
  pub native_avail : Bool

unfoldable pub is_unwanted : Unicode → Filter → Text → Bool
is_unwanted u f name =
    is_empty (app_id u name) || is_noise u name || should_skip f.cfg f.learned (app_id u name)

unfoldable pub methods_of : Bool → Method → List Method
methods_of native_avail primary =
    if native_avail && not (same_method primary native) then primary ∷ native ∷ [] else primary ∷ []

unfoldable pub candidate_of : Unicode → Filter → Offer → Method → UpdateCandidate
candidate_of u f o primary = record {
  id = app_id u o.name;
  name = o.name;
  current = o.current;
  available = o.available;
  package_id = o.package_id;
  guidance = guidance_for u (app_id u o.name) f.cfg;
  methods = methods_of f.native_avail primary;
}

unfoldable pub push : Unicode → Filter → Method → Offer → Collected → Collected
push u f primary o c =
    let id = app_id u o.name in
    let base = base_id id in
    if is_unwanted u f o.name
    then c
    else if member id c.seen || member base c.seen
    then c
    else if not (version_known o.current)
    then record c { unknown_version = c.unknown_version ++ (o.name ∷ []) }
    else record c {
      candidates = c.candidates ++ (candidate_of u f o primary ∷ []);
      seen = id ∷ base ∷ c.seen;
    }

unfoldable pub push_all : Unicode → Filter → Method → List Offer → Collected → Collected
push_all u f primary [] c = c
push_all u f primary (o ∷ offers) c = push_all u f primary offers (push u f primary o c)

-- What the managers answer, none where the listing failed.
abbrev pub Sources : Type 0
Sources = Method → Option (List Offer)

unfoldable pub listed : Option (List Offer) → List Offer
listed none = []
listed (some offers) = offers

unfoldable pub collect_method :
    Unicode → Filter → List Method → Sources → Method → Collected → Collected
collect_method u f available sources m c =
    if has_method available m then push_all u f m (listed (sources m)) c else c

unfoldable pub collect_managers : Unicode → Filter → List Method → Sources → Collected → Collected
collect_managers u f available sources c = collect_method u f available sources ms_store (
    collect_method u f available sources scoop
      (collect_method u f available sources choco (collect_method u f available sources winget c)))

-- The loop over the native candidates: seen.insert tells whether the id is new.
unfoldable pub add_native : List UpdateCandidate → Collected → Collected
add_native [] c = c
add_native (cand ∷ cands) c = add_native cands (
    if member cand.id c.seen
    then c
    else record c { candidates = c.candidates ++ (cand ∷ []); seen = cand.id ∷ c.seen })

unfoldable pub retain_target : Option Text → List UpdateCandidate → List UpdateCandidate
unfolding filter
retain_target none cands = cands
retain_target (some target) cands = filter (λ c. eq_ignore_ascii_case c.id target) cands

-- The candidates of `collect`; the native ones are what check_unmanaged returns.
pub record CheckResult : Type 0 where
  pub candidates : List UpdateCandidate
  pub had_errors : Bool

-- check_unmanaged, where a model is configured: from the keys that managers cover, the native candidates
-- and whether anything failed.
abbrev pub NativeCheck : Type 0
NativeCheck = Option (List Text → List UpdateCandidate × Bool)

abbrev pub managers : List Method
managers = winget ∷ choco ∷ scoop ∷ ms_store ∷ []

unfoldable pub listing_failed : List Method → Sources → Bool
unfolding any
listing_failed available sources = any (λ m. has_method available m && is_none (sources m)) managers

unfoldable pub managed_of : Unicode → List Method → Sources → List Method → List Text
managed_of u available sources [] = []
managed_of u available sources (m ∷ ms) =
    let rest = managed_of u available sources ms in
    if has_method available m
    then map (λ (o : Offer). app_id u o.name) (listed (sources m)) ++ rest
    else rest

-- The pass over the applications that no manager covers.
unfoldable pub with_native : Bool → Bool → List Text → NativeCheck → Collected → Bool → CheckResult
with_native true _ managed (some check) c failed = record {
  candidates = (add_native (check managed).0 c).candidates;
  had_errors = failed || (check managed).1;
}
with_native true _ managed none c failed = record { candidates = c.candidates; had_errors = true }
with_native false true managed none c failed = record {
  candidates = c.candidates;
  had_errors = true;
}
with_native false _ managed _ c failed = record { candidates = c.candidates; had_errors = failed }

unfoldable pub collect :
    Unicode
    → UpdaterConfig
    → List Text
    → List Method
    → Sources
    → NativeCheck
    → Option Text
    → CheckResult
collect u cfg learned available sources ai target =
    let f : Filter = record {
      cfg = cfg;
      learned = learned;
      native_avail = has_method available native;
    } in
    let r =
      with_native f.native_avail cfg.native_enabled (managed_of u available sources managers) ai
        (collect_managers u f available sources nothing_collected)
        (listing_failed available sources) in
    record r { candidates = retain_target target r.candidates }

-- The time of the last check of an application, 0 where there was none.
unfoldable pub checked_at : Unicode → (Text → Option ℤ) → Text × Text → ℤ
checked_at u last_check e = elim (last_check (app_id u e.0)) [ none ↦ pos 0 | some t ↦ t ]

unfoldable pub is_staler : Unicode → (Text → Option ℤ) → Text × Text → Text × Text → Bool
is_staler u last_check a b = not (ltb_ℤ (checked_at u last_check b) (checked_at u last_check a))

pub record Batch : Type 0 where
  pub checked : List (Text × Text)
  pub deferred : List (Text × Text)
  pub incomplete : Bool

unfoldable pub select_unmanaged_batch : Unicode → (Text → Option ℤ) → ℕ → List (Text × Text) → Batch
unfolding sort_by
select_unmanaged_batch u last_check cap apps =
    let sorted = sort_by (is_staler u last_check) apps in
    record {
      checked = take cap sorted;
      deferred = drop cap sorted;
      incomplete = ltb (length (take cap sorted)) (length apps);
    }
