-- ===== src/Tests/PlanRuns.antt =====
-- The validation of install plans at concrete proposals.
use eir.Prelude.{◌≡◌, refl, false, none, some, [], ◌∷◌, all, any, filter}
use eir.Prelude.Result.{ok}
use eir.Text.{
  is_empty, trim, eq_ignore_ascii_case, starts_with, strip_suffix, contains, member, ends_with,
  first_word, is_ascii_alphanumeric, is_ascii_digit, is_whitespace, replace_char, split,
  strip_prefix, take_while, text_eq, to_ascii_lower, to_ascii_lowercase, trim_end_matches,
  trim_start, trim_start_matches, codes,
}
use eir.Updater.Hosts.{
  Url, UrlCrate, is_punycode, without_dot, host_acceptable, host_trusted, host_matches_name,
  brand_label, brand_matches, alnum_token, bare_ip, pick_label,
}
use eir.Updater.Plan.{
  InstallPlanRaw, InstallPlan, exe, validate_plan, is_absent, plan_host, final_args, has_arg,
  is_refused_arg, is_shell_char, kind_of_path, push_arg, push_args, read_archive_path,
  read_publisher, read_releases_url, read_sha256, sanitise_args,
}
use eir.Updater.Plan.Safe.{IsSafePlan, validate_plan-IsSafePlan}
use eir.Tests.Fixtures.{ascii}

abbrev krita_url : Url
krita_url = record {
  scheme = codes "https";
  username = [];
  password = none;
  port = none;
  host_str = some (codes "krita.org");
  path = codes "/a.exe";
  segments = codes "a.exe" ∷ [];
}

abbrev crate : UrlCrate
crate = record { parse = λ t. some krita_url; is_ip = λ t. false }

abbrev proposal : InstallPlanRaw
proposal = record {
  installer_url = codes "https://krita.org/a.exe";
  releases_url = [];
  archive_installer_path = [];
  expected_version = codes "5";
  silent_args = codes "/S" ∷ codes "/x y" ∷ [];
  sha256 = none;
  publisher = [];
}

abbrev plan : InstallPlan
plan = record {
  name = codes "Krita";
  current = codes "4";
  installer_url = codes "https://krita.org/a.exe";
  host = codes "krita.org";
  releases_url = none;
  archive_installer_path = none;
  expected_version = codes "5";
  kind = exe;
  silent_args = codes "/S" ∷ [];
  sha256 = none;
  expected_publisher = none;
}

proposal_accepted : validate_plan crate ascii proposal (codes "Krita") (codes "4") ≡ ok plan
unfolding validate_plan is_absent plan_host final_args has_arg is_refused_arg is_shell_char
    kind_of_path push_arg push_args read_archive_path read_publisher read_releases_url read_sha256
    sanitise_args is_punycode without_dot host_acceptable host_trusted host_matches_name brand_label
    brand_matches alnum_token bare_ip pick_label is_empty trim eq_ignore_ascii_case starts_with
    strip_suffix contains member ends_with first_word is_ascii_alphanumeric is_ascii_digit
    is_whitespace replace_char split strip_prefix take_while text_eq to_ascii_lower
    to_ascii_lowercase trim_end_matches trim_start trim_start_matches codes all any filter
proposal_accepted = refl

validate_plan-IsSafePlan_example :
    IsSafePlan crate ascii plan × (plan.name ≡ codes "Krita") × (plan.current ≡ codes "4")
validate_plan-IsSafePlan_example =
    validate_plan-IsSafePlan crate ascii proposal (codes "Krita") (codes "4") plan proposal_accepted
