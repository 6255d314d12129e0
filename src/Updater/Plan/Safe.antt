-- ===== src/Updater/Plan/Safe.antt =====
-- What a plan that passed validation is.
use eir.Prelude.{
  ◌≡◌, ◌≢◌, ◌∷◌, sym, subst, ◌⊎◌, Memᴰ, any_of_mem, Bool, true, false, Option, none, some, List, [],
  any, all, arith, ◌==◌, Bool-cases, Option-cases, inl, inr,
}
use eir.Prelude.Result.{Result, ok, err}
use eir.Text.{Text, Unicode, trim, codes, split, starts_with, ends_with, is_empty}
use eir.Text.Laws.{text_eq_iff}
use eir.Updater.Hosts.{Url, UrlCrate, HostError, url_acceptable, without_dot}
use eir.Updater.Plan.{
  InstallerKind, InstallPlan, InstallPlanRaw, PlanError, refused, validate_plan, plan_host,
  is_hex64, read_sha256, read_archive_path, kind_of_path, is_unsafe_archive_path, allowed_args,
  sanitise_args, final_args, is_absent, is_dots, is_archive,
}
use eir.Updater.Plan.Args.{IsDistinct, AreFit, is_fit, sanitise_args-AreFit, final_args-AreFit}

-- The host of a URL as both gates compare it.
abbrev pub normal_host : Unicode → Option Text → Text
normal_host u none = []
normal_host u (some host) = without_dot (u.to_lowercase host)

-- The verdict of the gate of the downloads, in the words of the validation of plans.
abbrev pub as_plan_host : Text → Result HostError (Unit {0}) → Result PlanError Text
as_plan_host host (ok _) = ok host
as_plan_host host (err e) = err (refused e)

-- The two gates agree on every URL: the validation of a plan accepts a URL exactly where the gate
-- of the downloads and redirects does, and refuses it for the same reason.
pub plan_host-url_acceptable :
    (crate : UrlCrate) (u : Unicode) (url : Url) (name : Text)
    → plan_host crate u url name
      ≡ as_plan_host (normal_host u url.host_str) (url_acceptable crate u url name)
unfolding url_acceptable plan_host
plan_host-url_acceptable crate u url name = ground arith

plan_host-ok :
    (crate : UrlCrate) (u : Unicode) (url : Url) (name host : Text)
    → plan_host crate u url name ≡ ok host
    → (url_acceptable crate u url name ≡ ok tt)
unfolding url_acceptable plan_host
plan_host-ok crate u url name host h = ground arith

read_sha256-ok :
    (u : Unicode) (raw : Option Text) (h : Text)
    → read_sha256 u raw ≡ ok (some h)
    → is_hex64 h ≡ true
unfolding read_sha256
read_sha256-ok u none h e = cc
read_sha256-ok u (some raw) h e = ground arith

read_archive_path-ok :
    (u : Unicode) (kind : InstallerKind) (raw p : Text)
    → read_archive_path u kind raw ≡ ok (some p)
    → is_unsafe_archive_path u kind p ≡ false
unfolding read_archive_path
read_archive_path-ok u kind raw p e = ground arith

-- A part of a path that names an entry of its folder.
abbrev pub IsName : Text → Type 0
IsName part = (part ≢ []) × (part ≢ codes ".") × (part ≢ codes "..")

is_dots-IsName : (part : Text) → is_dots part ≡ false → IsName part
unfolding is_dots is_empty
is_dots-IsName [] h = absurd (ground arith)
is_dots-IsName (c ∷ part) h = (
  λ e. ground arith,
  λ e. ground (arith, text_eq_iff (c ∷ part) (codes ".")),
  λ e. ground (arith, text_eq_iff (c ∷ part) (codes "..")),
)

-- A relative path to an .exe or .msi inside an archive, none of whose parts leads outside.
pub record IsInside (u : Unicode) (kind : InstallerKind) (p : Text) : Type 0 where
  pub archive : is_archive kind ≡ true
  pub relative : starts_with p (codes "/") ≡ false
  pub no_drive : any (λ c. c == 0x3a) p ≡ false
  pub no_dots : (part : Text) → Memᴰ part (split (λ c. c == 0x2f) p) → IsName part
  pub program :
      (ends_with (u.to_lowercase p) (codes ".exe") ≡ true)
      ⊎ (ends_with (u.to_lowercase p) (codes ".msi") ≡ true)

none_of_any :
    (q : Text → Bool) (ts : List Text) → any q ts ≡ false → (t : Text) → Memᴰ t ts → q t ≡ false
none_of_any q ts h t m = elim (Bool-cases (q t)) [
  | inl e ↦ let w : any q ts ≡ true = any_of_mem q ts m e in cc
  | inr e ↦ e
]

is_unsafe-IsInside :
    (u : Unicode) (kind : InstallerKind) (p : Text)
    → is_unsafe_archive_path u kind p ≡ false
    → IsInside u kind p
unfolding is_unsafe_archive_path
is_unsafe-IsInside u kind p h = record {
  archive = ground arith;
  relative = ground arith;
  no_drive = ground arith;
  no_dots = λ part m. is_dots-IsName part (none_of_any is_dots _ (ground arith) part m);
  program = ground arith;
}

-- The plan of an accepted proposal: its URL passed the gate and names the kind of installer, its
-- arguments are known and hold no shell character, its hash is 64 hexadecimal digits, the path
-- inside an archive stays there, and the expected version is given.
pub record IsSafePlan (crate : UrlCrate) (u : Unicode) (plan : InstallPlan) : Type 0 where
  pub url : Url
  pub parsed : crate.parse plan.installer_url ≡ some url
  pub gate : url_acceptable crate u url plan.name ≡ ok tt
  pub from_host : plan.host ≡ normal_host u url.host_str
  pub of_kind : kind_of_path (u.to_lowercase url.path) ≡ some plan.kind
  pub args : all (is_fit (allowed_args plan.kind)) plan.silent_args ≡ true
  pub distinct : IsDistinct plan.silent_args
  pub hash : (h : Text) → plan.sha256 ≡ some h → is_hex64 h ≡ true
  pub inside : (p : Text) → plan.archive_installer_path ≡ some p → IsInside u plan.kind p
  pub version : is_absent plan.expected_version ≡ false

silent_args-AreFit :
    (plan : InstallPlan) (raw : List Text)
    → plan.silent_args ≡ final_args plan.kind (sanitise_args plan.kind raw)
    → AreFit (allowed_args plan.kind) plan.silent_args
silent_args-AreFit plan raw e =
    subst (AreFit (allowed_args plan.kind)) (sym e)
      (final_args-AreFit plan.kind _ (sanitise_args-AreFit plan.kind raw))

read_archive_path-IsInside :
    (u : Unicode) (kind : InstallerKind) (raw p : Text) (found : Option Text)
    → read_archive_path u kind raw ≡ ok found
    → found ≡ some p
    → IsInside u kind p
read_archive_path-IsInside u kind raw p found e k =
    is_unsafe-IsInside u kind p (read_archive_path-ok u kind raw p (cc))

-- Every plan that validation lets through is safe, under the name and version it was asked for.
pub validate_plan-IsSafePlan :
    (crate : UrlCrate) (u : Unicode) (raw : InstallPlanRaw) (name current : Text)
    (plan : InstallPlan)
    → validate_plan crate u raw name current ≡ ok plan
    → IsSafePlan crate u plan × (plan.name ≡ name) × (plan.current ≡ current)
unfolding validate_plan
validate_plan-IsSafePlan crate u raw name current plan h =
    elim (Option-cases (crate.parse (trim raw.installer_url))) [
      | inl e ↦ absurd (ground arith)
      | inr (url, e) ↦ (
        record {
          url = url;
          parsed = ground arith;
          gate = ground (arith, plan_host-url_acceptable crate u url name);
          from_host = ground (arith, plan_host-url_acceptable crate u url name);
          of_kind = ground arith;
          args = (silent_args-AreFit plan raw.silent_args (ground arith)).0;
          distinct = (silent_args-AreFit plan raw.silent_args (ground arith)).1;
          hash = λ x ex. ground (arith, read_sha256-ok u raw.sha256 x);
          inside = λ x ex.
              read_archive_path-IsInside u plan.kind raw.archive_installer_path x
                plan.archive_installer_path (ground arith) ex;
          version = ground arith;
        },
        ground arith,
        ground arith,
      )
    ]
