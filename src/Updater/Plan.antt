-- ===== src/Updater/Plan.antt =====
-- eir-svc/src/updater/plan.rs: the plan for a native installer that a model proposed, as far as the
-- validation lets it through.
pub mod Args
pub mod Safe
use eir.Prelude.{
  ℕ, Bool, true, false, ◌&&◌, ◌||◌, not, Option, none, some, List, [], ◌∷◌, ◌++◌, any, all, length,
  ◌==◌, if◌then◌else◌, is_some, is_nil,
}
use eir.Prelude.Result.{Result, ok, err, ◌>>=◌, ◌>>◌, ensure}
use eir.Text.{
  Text, Unicode, codes, text_eq, is_empty, trim, starts_with, ends_with, split, replace_char,
  eq_ignore_ascii_case, is_ascii_hexdigit,
}
use eir.Updater.Hosts.{
  Url, UrlCrate, HostError, not_https, embeds_credentials, non_default_port, no_host, raw_ip_host,
  punycode_host, untrusted_host, repo_unrelated, github, host_acceptable, github_repo_correlates,
  without_dot, bare_ip, is_punycode, need,
}

pub data InstallerKind : Type 0 where
  exe msi zip seven_z tar tar_gz : InstallerKind

unfoldable pub is_archive : InstallerKind → Bool
is_archive exe = false
is_archive msi = false
is_archive _ = true

-- What the model sent; a JSON null or a missing field is the empty text.
pub record InstallPlanRaw : Type 0 where
  pub installer_url : Text
  pub releases_url : Text
  pub archive_installer_path : Text
  pub expected_version : Text
  pub silent_args : List Text
  pub sha256 : Option Text
  pub publisher : Text

pub record InstallPlan : Type 0 where
  pub name : Text
  pub current : Text
  pub installer_url : Text
  pub host : Text
  pub releases_url : Option Text
  pub archive_installer_path : Option Text
  pub expected_version : Text
  pub kind : InstallerKind
  pub silent_args : List Text
  pub sha256 : Option Text
  pub expected_publisher : Option Text

unfoldable pub is_hex64 : Text → Bool
unfolding all
is_hex64 s = length s == 64 && all is_ascii_hexdigit s

abbrev pub allowed_args : InstallerKind → List Text
allowed_args exe =
    codes "/S"
    ∷ codes "/silent"
    ∷ codes "/verysilent"
    ∷ codes "/quiet"
    ∷ codes "/q"
    ∷ codes "/norestart"
    ∷ codes "/passive"
    ∷ codes "/suppressmsgboxes"
    ∷ []
allowed_args msi =
    codes "/qn"
    ∷ codes "/quiet"
    ∷ codes "/norestart"
    ∷ codes "/passive"
    ∷ codes "REBOOT=ReallySuppress"
    ∷ []
allowed_args _ =
    codes "/S"
    ∷ codes "/silent"
    ∷ codes "/verysilent"
    ∷ codes "/quiet"
    ∷ codes "/q"
    ∷ codes "/norestart"
    ∷ codes "/passive"
    ∷ codes "/suppressmsgboxes"
    ∷ codes "/qn"
    ∷ codes "REBOOT=ReallySuppress"
    ∷ []

-- The white space and shell characters that no argument may hold.
abbrev pub shell_chars : Text
shell_chars = 0x20 ∷ 0x09 ∷ 0x27 ∷ 0x22 ∷ codes ";&|><$`" ++ (0x0a ∷ 0x0d ∷ [])

unfoldable pub is_shell_char : ℕ → Bool
unfolding any
is_shell_char c = any (λ s. s == c) shell_chars

unfoldable pub has_arg : Text → List Text → Bool
unfolding any
has_arg t ts = any (λ x. eq_ignore_ascii_case x t) ts

unfoldable pub is_refused_arg : Text → Bool
unfolding any
is_refused_arg t = is_empty t || any is_shell_char t

-- the body of the loop over the proposed arguments
unfoldable pub push_arg : List Text → List Text → Text → List Text
push_arg allow out a =
    let t = trim a in
    if is_refused_arg t
    then out
    else if has_arg t allow && not (has_arg t out)
    then out ++ (t ∷ [])
    else out

unfoldable pub push_args : List Text → List Text → List Text → List Text
push_args allow out [] = out
push_args allow out (a ∷ raw) = push_args allow (push_arg allow out a) raw

unfoldable pub sanitise_args : InstallerKind → List Text → List Text
unfolding push_args push_arg
sanitise_args kind raw = push_args (allowed_args kind) [] raw

pub data PlanError : Type 0 where
  no_direct_url url_not_valid unknown_extension bad_sha256 no_expected_version : PlanError
  unsafe_archive_path : PlanError
  refused : HostError → PlanError

-- s.is_empty() || s.eq_ignore_ascii_case("null")
unfoldable pub is_absent : Text → Bool
is_absent s = is_empty s || eq_ignore_ascii_case s (codes "null")

unfoldable pub kind_of_path : Text → Option InstallerKind
kind_of_path path =
    if ends_with path (codes ".msi")
    then some msi
    else if ends_with path (codes ".exe")
    then some exe
    else if ends_with path (codes ".tar.gz") || ends_with path (codes ".tgz")
    then some tar_gz
    else if ends_with path (codes ".tar")
    then some tar
    else if ends_with path (codes ".7z")
    then some seven_z
    else if ends_with path (codes ".zip")
    then some zip
    else none

unfoldable pub read_sha256 : Unicode → Option Text → Result PlanError (Option Text)
read_sha256 u none = ok none
read_sha256 u (some raw) =
    let s = u.to_lowercase (trim raw) in
    if is_empty s || text_eq s (codes "null")
    then ok none
    else if is_hex64 s
    then ok (some s)
    else err bad_sha256

-- A part that is no name of a file or folder.
unfoldable pub is_dots : Text → Bool
is_dots part = is_empty part || text_eq part (codes ".") || text_eq part (codes "..")

unfoldable pub is_unsafe_archive_path : Unicode → InstallerKind → Text → Bool
unfolding any
is_unsafe_archive_path u kind p =
    not (is_archive kind)
    || starts_with p (codes "/")
    || any (λ c. c == 0x3a) p
    || any is_dots (split (λ c. c == 0x2f) p)
    || not
        (ends_with (u.to_lowercase p) (codes ".exe") || ends_with (u.to_lowercase p) (codes ".msi"))

unfoldable pub read_archive_path : Unicode → InstallerKind → Text → Result PlanError (Option Text)
read_archive_path u kind raw =
    let p = replace_char 0x5c 0x2f (trim raw) in
    if is_absent p
    then ok none
    else if is_unsafe_archive_path u kind p
    then err unsafe_archive_path
    else ok (some p)

unfoldable pub read_publisher : Text → Option Text
read_publisher raw = let p = trim raw in if is_absent p then none else some p

unfoldable pub read_releases_url : Text → Option Text
read_releases_url raw =
    let r = trim raw in if starts_with r (codes "https://") then some r else none

unfoldable pub final_args : InstallerKind → List Text → List Text
final_args msi [] = codes "/qn" ∷ codes "/norestart" ∷ []
final_args _ args = args

-- The part of validate_plan that looks at the URL: the host it comes from.
unfoldable pub plan_host : UrlCrate → Unicode → Url → Text → Result PlanError Text
plan_host crate u parsed name = do
  ensure (text_eq parsed.scheme (codes "https")) (refused not_https)
  ensure (is_empty parsed.username && not (is_some parsed.password)) (refused embeds_credentials)
  ensure (not (is_some parsed.port)) (refused non_default_port)
  host_str ← need parsed.host_str (refused no_host)
  let host = without_dot (u.to_lowercase host_str)
  ensure (not (crate.is_ip (bare_ip host))) (refused raw_ip_host)
  ensure (not (is_punycode host)) (refused punycode_host)
  ensure (host_acceptable u host name) (refused untrusted_host)
  ensure (not (text_eq host github && not (github_repo_correlates parsed name)))
      (refused repo_unrelated)
  ok host

unfoldable pub validate_plan :
    UrlCrate → Unicode → InstallPlanRaw → Text → Text → Result PlanError InstallPlan
validate_plan crate u raw name current = do
  let url_str = trim raw.installer_url
  ensure (not (is_absent url_str)) no_direct_url
  parsed ← need (crate.parse url_str) url_not_valid
  host ← plan_host crate u parsed name
  kind ← need (kind_of_path (u.to_lowercase parsed.path)) unknown_extension
  sha256 ← read_sha256 u raw.sha256
  let expected_version = trim raw.expected_version
  ensure (not (is_absent expected_version)) no_expected_version
  archive_path ← read_archive_path u kind raw.archive_installer_path
  ok (record {
    name = name;
    current = current;
    installer_url = url_str;
    host = host;
    releases_url = read_releases_url raw.releases_url;
    archive_installer_path = archive_path;
    expected_version = expected_version;
    kind = kind;
    silent_args = final_args kind (sanitise_args kind raw.silent_args);
    sha256 = sha256;
    expected_publisher = read_publisher raw.publisher;
  })

unfoldable pub plan_runnable : InstallPlan → Bool
plan_runnable plan = elim plan.kind [ exe ↦ not (is_nil plan.silent_args) | _ ↦ true ]
