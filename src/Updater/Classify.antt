-- ===== src/Updater/Classify.antt =====
-- eir-svc/src/updater/domain.rs: the category of a failure, from the exit code and the output.
use eir.Prelude.{
  ℕ, ◌≡◌, ◌↔◌, ◌⊎◌, Bool, true, false, ◌&&◌, ◌||◌, not, Option, none, some, arith, if◌then◌else◌,
  ◌==◌,
}
use eir.Prelude.Int.{ℤ, pos, negsuc}
use eir.Text.{Text, codes, contains, to_ascii_lowercase}
use eir.Updater.Domain.{
  ErrorCategory, not_found, network_transient, hash_mismatch, signature_rejected, installer_failed,
  permission_denied, lock_held, needs_force, needs_reboot, already_current, unknown, is_terminal,
}

-- exit_code == Some(n)
unfoldable pub exited_with : Option ℤ → ℕ → Bool
exited_with (some (pos c)) n = c == n
exited_with _ n = false

-- The tests on the lower-cased output, in the order of the source.
unfoldable pub says_hash_mismatch : Text → Bool
says_hash_mismatch o =
    contains o (codes "sha-256 mismatch")
    || contains o (codes "sha256 mismatch")
    || contains o (codes "hash mismatch")

unfoldable pub says_signature_rejected : Text → Bool
says_signature_rejected o =
    contains o (codes "signature")
    && (contains o (codes "reject")
        || contains o (codes "unsigned")
        || contains o (codes "untrusted")
        || contains o (codes "not signed"))

unfoldable pub says_needs_force : Text → Bool
says_needs_force o = contains o (codes "has been modified") && contains o (codes "--force")

unfoldable pub says_needs_reboot : Option ℤ → Text → Bool
says_needs_reboot exit_code o =
    exited_with exit_code 3010
    || contains o (codes "pending reboot")
    || (contains o (codes "restart") && contains o (codes "required"))

unfoldable pub says_lock_held : Text → Bool
says_lock_held o =
    contains o (codes "being used by another process")
    || contains o (codes "another installation is already in progress")
    || contains o (codes "0x80070652")
    || (contains o (codes "lock")
        && (contains o (codes "held") || contains o (codes "could not acquire")))

unfoldable pub says_permission_denied : Option ℤ → Text → Bool
says_permission_denied exit_code o =
    contains o (codes "access is denied")
    || contains o (codes "access denied")
    || exited_with exit_code 5
    || exited_with exit_code 740

unfoldable pub says_network_transient : Text → Bool
says_network_transient o =
    contains o (codes "timed out")
    || contains o (codes "could not be resolved")
    || contains o (codes "connection")
    || contains o (codes "download failed")
    || contains o (codes "network")

unfoldable pub says_already_current : Text → Bool
says_already_current o =
    contains o (codes "no applicable upgrade")
    || contains o (codes "no available upgrade")
    || contains o (codes "already up to date")
    || contains o (codes "already installed")
    || contains o (codes "no newer version")

unfoldable pub says_not_found : Text → Bool
says_not_found o =
    contains o (codes "no installed package found")
    || contains o (codes "no package found")
    || contains o (codes "not found")
    || contains o (codes "could not find")

unfoldable pub exit_category : Option ℤ → ErrorCategory
exit_category none = unknown
exit_category (some (negsuc c)) = installer_failed
exit_category (some (pos c)) = if not (c == 0) && not (c == 3010) then installer_failed else unknown

unfoldable pub classify_error : Option ℤ → Text → ErrorCategory
unfolding exit_category
classify_error exit_code output =
    let o = to_ascii_lowercase output in
    if says_hash_mismatch o
    then hash_mismatch
    else if says_signature_rejected o
    then signature_rejected
    else if says_needs_force o
    then needs_force
    else if says_needs_reboot exit_code o
    then needs_reboot
    else if says_lock_held o
    then lock_held
    else if says_permission_denied exit_code o
    then permission_denied
    else if says_network_transient o
    then network_transient
    else if says_already_current o
    then already_current
    else if says_not_found o
    then not_found
    else exit_category exit_code

-- A failure is terminal exactly if the output reports a hash mismatch or a rejected signature,
-- whatever the exit code is and whatever else the output says.
pub classify_error-is_terminal_iff :
    (exit_code : Option ℤ) (output : Text)
    → let o = to_ascii_lowercase output in
      (is_terminal (classify_error exit_code output) ≡ true)
      ↔ ((says_hash_mismatch o ≡ true) ⊎ (says_signature_rejected o ≡ true))
unfolding classify_error is_terminal
classify_error-is_terminal_iff none output = ground arith
classify_error-is_terminal_iff (some (pos c)) output = ground arith
classify_error-is_terminal_iff (some (negsuc c)) output = ground arith
