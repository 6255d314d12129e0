-- ===== src/Updater/Guidance.antt =====
-- eir-svc/src/updater/orchestrator.rs: the user's guidance on an application, as one line, and the
-- model's rewrite of it.
pub mod Urls
use eir.Prelude.{
  ℕ, ◌+◌, ◌/◌, Bool, ◌&&◌, ◌||◌, not, List, [], ◌∷◌, map, filter, all, length, leb, ltb, ◌==◌,
  if◌then◌else◌,
}
use eir.Text.{
  Text, codes, is_empty, member, contains, starts_with, trim, trim_start_matches, trim_end_matches,
  split_whitespace, join,
}
use eir.Updater.Config.{max_app_note_chars}

unfoldable pub one_line : Text → Text
unfolding split_whitespace join
one_line text = join (0x20 ∷ []) (split_whitespace text)

unfoldable pub is_url : Text → Bool
is_url word = starts_with word (codes "https://") || starts_with word (codes "http://")

-- . , ; ) ] }
abbrev pub is_closing : ℕ → Bool
is_closing c = c == 0x2e || c == 0x2c || c == 0x3b || c == 0x29 || c == 0x5d || c == 0x7d

-- ` "
abbrev pub is_quote : ℕ → Bool
is_quote c = c == 0x60 || c == 0x22

unfoldable pub guidance_urls : Text → List Text
unfolding filter split_whitespace trim_end_matches is_url
guidance_urls text = map (trim_end_matches is_closing) (filter is_url (split_whitespace text))

abbrev pub max_ℕ : ℕ → ℕ → ℕ
max_ℕ a b = if ltb a b then b else a

abbrev pub min_ℕ : ℕ → ℕ → ℕ
min_ℕ a b = if ltb b a then b else a

unfoldable pub rewrite_limit : ℕ → ℕ
rewrite_limit chars = min_ℕ (chars + max_ℕ (chars / 4) 40) max_app_note_chars

unfoldable pub keeps_urls : Text → Text → Bool
unfolding guidance_urls
keeps_urls original proposed =
    all (contains proposed) (guidance_urls original)
    && all (λ url. member url (guidance_urls original)) (guidance_urls proposed)

-- `original` and `proposed` are on one line.
unfoldable pub choose_line : Text → Text → Text
unfolding keeps_urls rewrite_limit
choose_line original proposed =
    if not (is_empty proposed)
      && leb (length proposed) (rewrite_limit (length original))
      && keeps_urls original proposed
    then proposed
    else original

-- The counts of characters are exact: no text is as long as usize::MAX, where saturating_add stops.
unfoldable pub concise_guidance : Text → Text → Text
unfolding one_line choose_line trim trim_end_matches trim_start_matches
concise_guidance original proposed =
    choose_line (one_line original)
      (one_line (trim_end_matches is_quote (trim_start_matches is_quote (trim proposed))))
