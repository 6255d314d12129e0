-- ===== src/Process.antt =====
-- eir-svc/src/executor/process.rs: which process names may be killed (the Windows build).
use eir.Prelude.{ℕ, Bool, true, false, ◌||◌, none, some, List, [], ◌∷◌, any, ◌==◌, if◌then◌else◌}
use eir.Text.{Text, Unicode, codes, strip_suffix, eq_ignore_ascii_case}

abbrev pub protected_processes : List Text
protected_processes =
    codes "System"
    ∷ codes "Idle"
    ∷ codes "lsass"
    ∷ codes "winlogon"
    ∷ codes "csrss"
    ∷ codes "smss"
    ∷ codes "wininit"
    ∷ codes "services"
    ∷ codes "svchost"
    ∷ codes "ntoskrnl"
    ∷ codes "eir-svc"
    ∷ codes "MsMpEng"
    ∷ []

-- One of * ? [ ]
unfoldable pub is_wildcard : ℕ → Bool
is_wildcard c = c == 0x2a || c == 0x3f || c == 0x5b || c == 0x5d

abbrev pub exe : Text
exe = codes ".exe"

-- t.strip_suffix(s).unwrap_or(t)
unfoldable pub without_suffix : Text → Text → Text
without_suffix s t = elim (strip_suffix s t) [ none ↦ t | some stem ↦ stem ]

-- Is the result Ok?
unfoldable pub validate_kill_target : Unicode → Text → Bool
validate_kill_target u process_name =
    let lower = without_suffix exe (u.to_lowercase process_name) in
    if any is_wildcard process_name
    then false
    else if any (λ protected. eq_ignore_ascii_case protected lower) protected_processes
    then false
    else true
