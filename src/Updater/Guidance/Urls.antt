-- ===== src/Updater/Guidance/Urls.antt =====
-- The rewrite of a guidance keeps its addresses and adds none, on one line that is not too long.
use eir.Prelude.{
  ◌≡◌, refl, sym, ap, ◌∙◌, ◌≤◌, true, false, any, ◌&&◌, not, ◌⊎◌, inl, inr, List, [], ◌∷◌, map,
  filter, all, length, leb, arith, Bool-cases, if-elim,
}
use eir.Text.{Text, contains, member, join, split_whitespace, trim_end_matches, is_empty}
use eir.Text.Contains.{contains-join, contains_part}
use eir.Text.Distinct.{member_head}
use eir.Text.Trim.{trim_end_matches-gap}
use eir.Text.Words.{all-split_whitespace, split_whitespace-join}
use eir.Updater.Config.{max_app_note_chars}
use eir.Updater.Guidance.{
  one_line, is_url, is_closing, guidance_urls, max_ℕ, rewrite_limit, keeps_urls, choose_line,
  concise_guidance,
}

-- Taking a text to one line keeps its words, so it is done once.
words-one_line : (s : Text) → split_whitespace (one_line s) ≡ split_whitespace s
unfolding one_line
words-one_line s = split_whitespace-join (split_whitespace s) (all-split_whitespace s)

pub one_line_again : (s : Text) → one_line (one_line s) ≡ one_line s
unfolding one_line
one_line_again s = ap (join (0x20 ∷ [])) (words-one_line s)

guidance_urls-one_line : (s : Text) → guidance_urls (one_line s) ≡ guidance_urls s
unfolding guidance_urls
guidance_urls-one_line s =
    ap (λ ws. map (trim_end_matches is_closing) (filter is_url ws)) (words-one_line s)

contains-trimmed :
    (s w : Text) → contains s w ≡ true → contains s (trim_end_matches is_closing w) ≡ true
contains-trimmed s w h =
    let (k, e, _) = trim_end_matches-gap is_closing w in
    contains_part s (trim_end_matches is_closing w) k (sym (ap (contains s) e) ∙ h)

contains-urls_of :
    (s : Text) (ws : List Text)
    → all (contains s) ws ≡ true
    → all (contains s) (map (trim_end_matches is_closing) (filter is_url ws)) ≡ true
unfolding all filter
contains-urls_of s [] h = refl
contains-urls_of s (w ∷ ws) h = elim (Bool-cases (is_url w)) [
  | inl e ↦ rw e (ground (arith, contains-trimmed s w, contains-urls_of s ws))
  | inr e ↦ rw e (ground (arith, contains-urls_of s ws))
]

-- A line contains its own addresses.
contains-guidance_urls : (s : Text) → all (contains (one_line s)) (guidance_urls s) ≡ true
unfolding guidance_urls one_line
contains-guidance_urls s =
    contains-urls_of (one_line s) (split_whitespace s)
      (contains-join (0x20 ∷ []) (split_whitespace s))

all-member_more :
    (x : Text) (us vs : List Text)
    → all (λ u. member u vs) us ≡ true
    → all (λ u. member u (x ∷ vs)) us ≡ true
unfolding all member any
all-member_more x [] vs h = refl
all-member_more x (u ∷ us) vs h = ground (arith, all-member_more x us vs)

all-member : (us : List Text) → all (λ u. member u us) us ≡ true
unfolding all
all-member [] = refl
all-member (u ∷ us) = rw (member_head u us) (all-member_more u us us (all-member us))

abbrev pub IsFaithful : Text → Text → Type 0
IsFaithful original r =
    (all (contains r) (guidance_urls original) ≡ true)
    × (all (λ url. member url (guidance_urls original)) (guidance_urls r) ≡ true)
    × (one_line r ≡ r)
    × (length r ≤ max_ℕ (length (one_line original)) max_app_note_chars)
    × ((r ≡ one_line original) ⊎ (is_empty r ≡ false))

pub original-IsFaithful : (original : Text) → IsFaithful original (one_line original)
original-IsFaithful original = (
  contains-guidance_urls original,
  rw (guidance_urls-one_line original) (all-member (guidance_urls original)),
  one_line_again original,
  ground arith,
  inl refl,
)

choose_line-IsFaithful :
    (original p : Text) → IsFaithful original (choose_line (one_line original) (one_line p))
unfolding choose_line keeps_urls rewrite_limit
choose_line-IsFaithful original p =
    if-elim (IsFaithful original)
      (not (is_empty (one_line p))
        && leb (length (one_line p)) (rewrite_limit (length (one_line original)))
        && keeps_urls (one_line original) (one_line p))
      _ _
      (λ e.
        let keeps : keeps_urls (one_line original) (one_line p) ≡ true = ground arith in
        let k = rw (guidance_urls-one_line original) at keeps in
        (ground (arith, k), ground (arith, k), one_line_again p, ground arith, inr (ground arith)))
      (λ e. original-IsFaithful original)

-- The guidance that is kept holds every address of the user's and no other one, stands on one line
-- and is no longer than the user's, taken to one line, or the bound on a note; where it is not the
-- user's own, it is not empty.
pub concise_guidance-IsFaithful :
    (original proposed : Text) → IsFaithful original (concise_guidance original proposed)
unfolding concise_guidance
concise_guidance-IsFaithful original proposed = choose_line-IsFaithful original _
