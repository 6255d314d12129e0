-- ===== src/Updater/Domain.antt =====
-- eir-svc/src/updater/domain.rs: methods, failures, remedies, and the validation of the next step
-- that the diagnostician proposes.
pub mod Laws
pub mod Methods
pub mod Kill
mod Data
unfoldable pub use Data.*
use eir.Prelude.{
  ℕ, Bool, true, false, ◌&&◌, ◌||◌, not, Option, none, some, List, any, find, ltb, ◌==◌,
  if◌then◌else◌,
}
use eir.Text.{
  Text, Unicode, codes, text_eq, is_empty, is_whitespace, trim, to_ascii_lowercase, split, utf8_len,
}
use eir.Process.{validate_kill_target, without_suffix, exe}

-- available.iter().find(|m| !tried.contains(m))
unfoldable pub first_untried : List Method → List Method → Option Method
unfolding find
first_untried available tried = find (λ m. not (has_method tried m)) available

unfoldable pub deterministic_next : StepContext → NextStep
unfolding is_terminal same_category
deterministic_next ctx =
    if is_terminal ctx.failed
    then stop (codes "integrity check failed")
    else if same_category ctx.failed needs_reboot
    then stop (codes "reboot required")
    else if same_category ctx.failed already_current
    then stop (codes "already current")
    else elim (first_untried ctx.available ctx.tried) [
      | some m ↦ switch_to m
      | none ↦ stop (codes "all available methods tried")
    ]

-- Where the error text is cut into tokens: white space and \ / " ' : , ; ( )
unfoldable pub is_token_break : ℕ → Bool
is_token_break c =
    is_whitespace c
    || c == 0x5c
    || c == 0x2f
    || c == 0x22
    || c == 0x27
    || c == 0x3a
    || c == 0x2c
    || c == 0x3b
    || c == 0x28
    || c == 0x29

-- The process name without its extension, as `remedy_ok` looks for it.
unfoldable pub kill_stem : Text → Text
kill_stem name = without_suffix exe (to_ascii_lowercase (trim name))

-- Some token of the error text is this stem, with or without its extension.
unfoldable pub names_stem : Text → Text → Bool
names_stem error_text stem =
    any (λ t. text_eq (without_suffix exe t) stem)
      (split is_token_break (to_ascii_lowercase error_text))

unfoldable pub is_reboot_retry : ProposedStep → Bool
is_reboot_retry (retry _ retry_after_reboot) = true
is_reboot_retry _ = false

module _ (u : Unicode) where
  unfoldable pub remedy_ok : Remedy → Method → StepContext → Bool
  unfolding same_category supports_force has_manager_lock
  remedy_ok force method ctx = same_category ctx.failed needs_force && supports_force method
  remedy_ok clear_manager_lock method ctx =
      same_category ctx.failed lock_held && has_manager_lock method
  remedy_ok retry_after_reboot method ctx = same_category ctx.failed needs_reboot
  remedy_ok (kill_process name) method ctx =
      if not (same_category ctx.failed lock_held) || not (validate_kill_target u name)
      then false
      else let stem = kill_stem name in
        if ltb (utf8_len stem) 5 then false else names_stem ctx.error_text stem

  unfoldable pub validate_next_step : ProposedStep → StepContext → NextStep
  unfolding is_terminal same_category is_reboot_retry deterministic_next has_method
  validate_next_step proposed ctx =
      if is_terminal ctx.failed
      then stop (codes "integrity check failed")
      else if same_category ctx.failed already_current
          || (same_category ctx.failed needs_reboot && not (is_reboot_retry proposed))
      then deterministic_next ctx
      else elim proposed [
        | give_up reason ↦
            let reason = trim reason in
            stop (if is_empty reason then codes "AI advised giving up" else reason)
        | switch method ↦
            if has_method ctx.available method && not (has_method ctx.tried method)
            then switch_to method
            else deterministic_next ctx
        | retry method remedy ↦
            if has_method ctx.available method && remedy_ok remedy method ctx
            then retry_with method remedy
            else deterministic_next ctx
      ]
