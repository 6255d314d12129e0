-- ===== src/Updater/Hosts.antt =====
-- eir-svc/src/updater/plan.rs: which URL a native installer may come from. The url crate and the
-- parser of IP addresses are parameters.
pub mod Gate
use eir.Prelude.{
  ℕ, Bool, false, ◌&&◌, ◌||◌, not, Option, none, some, List, [], ◌∷◌, ◌++◌, filter, length, reverse,
  leb, ltb, ◌==◌, if◌then◌else◌, is_some,
}
use eir.Prelude.Result.{Result, ok, err, ◌>>=◌, ◌>>◌, ensure}
use eir.Text.{
  Text, Unicode, codes, text_eq, member, is_empty, strip_prefix, strip_suffix, starts_with,
  contains, split, first_word, is_ascii_alphanumeric, to_ascii_lowercase,
}

-- What url::Url tells of a parsed URL; `segments` is empty where path_segments gives nothing.
pub record Url : Type 0 where
  pub scheme : Text
  pub username : Text
  pub password : Option Text
  pub port : Option ℕ
  pub host_str : Option Text
  pub path : Text
  pub segments : List Text

-- Url::parse, and whether a text parses as an IpAddr.
pub record UrlCrate : Type 0 where
  pub parse : Text → Option Url
  pub is_ip : Text → Bool

-- The reasons for which a URL is refused.
pub data HostError : Type 0 where
  not_https embeds_credentials non_default_port no_host raw_ip_host punycode_host : HostError
  untrusted_host repo_unrelated : HostError

abbrev pub github : Text
github = codes "github.com"

abbrev pub trusted_hosts : List Text
trusted_hosts =
    github
    ∷ codes "objects.githubusercontent.com"
    ∷ codes "release-assets.githubusercontent.com"
    ∷ []

abbrev pub multi_suffixes : List Text
multi_suffixes =
    codes "co.uk"
    ∷ codes "org.uk"
    ∷ codes "com.au"
    ∷ codes "co.nz"
    ∷ codes "co.jp"
    ∷ codes "com.br"
    ∷ codes "co.in"
    ∷ codes "co.za"
    ∷ codes "com.tr"
    ∷ []

abbrev pub dot : ℕ
dot = 0x2e

-- The labels from the right, then the one left of the public suffix.
unfoldable pub pick_label : List Text → Option Text
pick_label [] = none
pick_label (last ∷ []) = none
pick_label (last ∷ second ∷ []) =
    if member (second ++ dot ∷ last) multi_suffixes then none else some second
pick_label (last ∷ second ∷ third ∷ rest) =
    if member (second ++ dot ∷ last) multi_suffixes then some third else some second

unfoldable pub brand_label : Text → Option Text
unfolding pick_label split filter
brand_label host =
    pick_label (reverse (filter (λ l. not (is_empty l)) (split (λ c. c == dot) host)))

unfoldable pub host_trusted : Unicode → Text → Bool
host_trusted u host = member (u.to_lowercase host) trusted_hosts

-- to_lowercase on an ASCII letter or digit is to_ascii_lowercase.
unfoldable pub alnum_token : Text → Text
unfolding filter
alnum_token s = to_ascii_lowercase (filter is_ascii_alphanumeric s)

unfoldable pub brand_matches : Text → Text → Bool
brand_matches brand name =
    not (ltb (length brand) 4)
    && ((leb 4 (length (alnum_token name)) && text_eq brand (alnum_token name))
        || (leb 4 (length (alnum_token (first_word name)))
            && text_eq brand (alnum_token (first_word name))))

unfoldable pub host_matches_name : Text → Text → Bool
host_matches_name host name = elim (brand_label host) [
  | none ↦ false
  | some label ↦ brand_matches (alnum_token label) name
]

unfoldable pub host_acceptable : Unicode → Text → Text → Bool
host_acceptable u host name = host_trusted u host || host_matches_name host name

-- the closure `relates`
unfoldable pub relates : Text → Text → Text → Bool
relates app first seg =
    not (is_empty seg)
    && ((leb 3 (length app) && (contains seg app || contains app seg))
        || (leb 3 (length first) && (contains seg first || contains first seg)))

-- segs.next().unwrap_or("")
abbrev next_or_empty : List Text → Text × List Text
next_or_empty [] = ([], [])
next_or_empty (s ∷ ss) = (s, ss)

unfoldable pub github_repo_correlates : Url → Text → Bool
github_repo_correlates url name =
    let (owner, rest) = next_or_empty url.segments in
    let app = alnum_token name in
    let first = alnum_token (first_word name) in
    relates app first (alnum_token owner) || relates app first (alnum_token (next_or_empty rest).0)

unfoldable pub without_dot : Text → Text
without_dot host = elim (strip_suffix (dot ∷ []) host) [ none ↦ host | some stripped ↦ stripped ]

-- host.strip_prefix('[').and_then(|h| h.strip_suffix(']')).unwrap_or(&host)
unfoldable pub bare_ip : Text → Text
bare_ip host = elim (strip_prefix (0x5b ∷ []) host) [
  | none ↦ host
  | some h ↦ elim (strip_suffix (0x5d ∷ []) h) [ none ↦ host | some inner ↦ inner ]
]

unfoldable pub is_punycode : Text → Bool
is_punycode host = starts_with host (codes "xn--") || contains host (codes ".xn--")

abbrev pub need {ℓ κ} : {A : Type ℓ} {E : Type κ} → Option A → E → Result E A
need none e = err e
need (some a) e = ok a

unfoldable pub url_acceptable : UrlCrate → Unicode → Url → Text → Result HostError (Unit {0})
url_acceptable crate u url name = do
  ensure (text_eq url.scheme (codes "https")) not_https
  ensure (is_empty url.username && not (is_some url.password)) embeds_credentials
  ensure (not (is_some url.port)) non_default_port
  host_str ← need url.host_str no_host
  let host = without_dot (u.to_lowercase host_str)
  ensure (not (crate.is_ip (bare_ip host))) raw_ip_host
  ensure (not (is_punycode host)) punycode_host
  ensure (host_acceptable u host name) untrusted_host
  ensure (not (text_eq host github && not (github_repo_correlates url name))) repo_unrelated
  ok tt
