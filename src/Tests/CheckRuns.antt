-- ===== src/Tests/CheckRuns.antt =====
-- Names, winget tables and update checks at concrete inputs.
use Prim.Native.Nat.{min}
use mathlib.Core.List.{Permᴰ}
use eir.Prelude.{
  ◌≡◌, ◌↔◌, refl, ◌<◌, true, false, none, some, [], ◌∷◌, ◌++◌, all, any, map, filter, length,
}
use eir.Text.{
  Text, codes, text_eq, member, is_empty, is_whitespace, trim, trim_start, trim_start_matches,
  trim_end_matches, split, split_whitespace, take_while, is_ascii_digit, is_ascii_alphanumeric,
  to_ascii_lowercase, to_ascii_lower,
}
use eir.Updater.Config.{UpdaterConfig, require_valid}
use eir.Updater.Domain.{winget, choco, native, UpdateCandidate}
use eir.Updater.Names.{
  app_id, is_version_token, is_version, is_core_char, is_separator, move_dots, strip_tail, tail_of,
  is_arch_qualifier, is_connector, counts,
}
use eir.Updater.Names.Stable.{app_id-version}
use eir.Updater.Winget.{parse_unmanaged}
use eir.Updater.Winget.Unmanaged.{is_left, parse_unmanaged-is_left}
use eir.Updater.Check.{
  Offer, Filter, Sources, collect, collect_managers, nothing_collected, select_unmanaged_batch,
  is_staler, base_id,
}
use eir.Text.Distinct.{distinct}
use eir.Updater.Check.Distinct.{is_wanted, collect-distinct, collect_managers-wanted}
use eir.Updater.Check.Rotation.{select_unmanaged_batch-stalest}
use eir.Tests.Fixtures.{ascii}

app_id-version_example :
    app_id ascii (codes "Krita" ++ (0x20 ∷ codes "5.2"))
    ≡ app_id ascii (codes "Krita" ++ (0x20 ∷ codes "6.0-rc1"))
unfolding codes is_whitespace any is_empty is_version_token is_version is_core_char is_separator
    move_dots strip_tail tail_of is_arch_qualifier is_connector counts split split_whitespace
    take_while trim trim_start trim_start_matches trim_end_matches is_ascii_digit to_ascii_lowercase
    to_ascii_lower member text_eq all filter is_ascii_alphanumeric
app_id-version_example =
    app_id-version ascii (codes "Krita") (codes "5.2") (codes "6.0-rc1") (codes "Krita") [] refl
      refl refl refl refl

abbrev entry : Text × Text
entry = (codes "krita", codes "5.2")

abbrev other : Text × Text
other = (codes "gimp", codes "2.10")

abbrev table : Text
table = codes "Name  Id   Version" ++ (0x0a ∷ (codes "-----" ++ (0x0a ∷ codes "Krita K    5.2")))

parse_unmanaged-is_left_example :
    all (is_left ascii (codes "gimp" ∷ [])) (parse_unmanaged ascii table (codes "gimp" ∷ [])) ≡ true
parse_unmanaged-is_left_example = parse_unmanaged-is_left ascii table (codes "gimp" ∷ [])

abbrev settings : UpdaterConfig
settings = record {
  enabled = true;
  schedule_interval_secs = 3600;
  methods = [];
  native_enabled = true;
  native_signature_policy = require_valid;
  max_attempts_per_app = 3;
  max_apps_per_run = 10;
  max_installer_mb = 100;
  bootstrap_managers = false;
  ignored = codes "steam" ∷ [];
  notes = [];
  learned_notes = [];
}

abbrev offer : Text → Offer
offer name = record {
  name = name;
  current = codes "1.0";
  available = codes "2.0";
  package_id = none;
}

abbrev sources : Sources
sources winget = some (offer (codes "Krita") ∷ offer (codes "Steam") ∷ [])
sources choco = some (offer (codes "krita.install") ∷ [])
sources _ = none

abbrev both : Filter
both = record { cfg = settings; learned = []; native_avail = true }

collect_managers-wanted_example :
    let cands =
      (collect_managers ascii both
        (winget ∷ choco ∷ native ∷ [])
        sources
        nothing_collected).candidates in
    (all (is_wanted ascii both) cands ≡ true)
    × (distinct (map (λ (x : UpdateCandidate). base_id x.id) cands) ≡ true)
collect_managers-wanted_example =
    collect_managers-wanted ascii both (winget ∷ choco ∷ native ∷ []) sources

-- The model finds krita again, and gimp.
abbrev found : Text → UpdateCandidate
found id = record {
  id = id;
  name = id;
  current = codes "1.0";
  available = codes "2.0";
  package_id = none;
  guidance = none;
  methods = [];
}

collect-distinct_example :
    distinct (
      map
        (λ x. x.id)
        (collect ascii settings []
          (winget ∷ choco ∷ native ∷ [])
          sources
          (some (λ managed. (found (codes "krita") ∷ found (codes "gimp") ∷ [], false)))
          none).candidates)
    ≡ true
collect-distinct_example =
    collect-distinct ascii settings [] (winget ∷ choco ∷ native ∷ []) sources
      (some (λ managed. (found (codes "krita") ∷ found (codes "gimp") ∷ [], false))) none

select_unmanaged_batch-stalest_example :
    let b = select_unmanaged_batch ascii (λ t. none) 1 (entry ∷ other ∷ []) in
    (length b.checked ≡ min 1 2)
    × Permᴰ (b.checked ++ b.deferred) (entry ∷ other ∷ [])
    × (all (λ a. all (is_staler ascii (λ t. none) a) b.deferred) b.checked ≡ true)
    × ((b.incomplete ≡ true) ↔ (1 < 2))
select_unmanaged_batch-stalest_example =
    select_unmanaged_batch-stalest ascii (λ t. none) 1 (entry ∷ other ∷ [])
