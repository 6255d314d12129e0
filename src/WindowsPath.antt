-- ===== src/WindowsPath.antt =====
-- eir-svc/src/policy/mod.rs: the lexical path comparison that the policy gate, the registry
-- executor and `FixAction::dedup_key` share.
pub mod Laws
pub mod Root
pub mod Hive
pub mod Remote
pub mod Resolve
pub mod Contains
use eir.Prelude.{
  ℕ, Bool, true, false, ◌&&◌, ◌||◌, not, Option, none, some, List, [], ◌∷◌, ◌++◌, reverse, ◌==◌,
  if◌then◌else◌,
}
use eir.Text.{
  Text, Unicode, codes, text_eq, is_empty, eq_ignore_ascii_case, trim, trim_start, strip_prefix,
  starts_with, split, replace_char,
}

abbrev pub backslash : ℕ
backslash = 0x5c

abbrev pub slash : ℕ
slash = 0x2f

unfoldable pub is_network_path : Text → Bool
unfolding trim_start replace_char starts_with
is_network_path path =
    starts_with (replace_char slash backslash (trim_start path)) (backslash ∷ backslash ∷ [])

abbrev pub local_machine : Text
local_machine = codes "HKEY_LOCAL_MACHINE"

abbrev pub hklm : Text
hklm = codes "HKLM:"

abbrev pub current_user : Text
current_user = codes "HKEY_CURRENT_USER"

abbrev pub hkcu : Text
hkcu = codes "HKCU:"

-- One round of the loop over the hive aliases: the replacement, where `from` stands in front.
-- A prefix that equals an ASCII name up to case has as many bytes as code points.
unfoldable pub fold_alias : Text → Text → Text → Option Text
unfolding eq_ignore_ascii_case
fold_alias [] to s = some (to ++ s)
fold_alias (f ∷ from) to [] = none
fold_alias (f ∷ from) to (c ∷ s) =
    let rest = fold_alias from to s in if eq_ignore_ascii_case (c ∷ []) (f ∷ []) then rest else none

abbrev or_else {ℓ} : {A : Type ℓ} → Option A → A → A
or_else none a = a
or_else (some b) a = b

unfoldable pub fold_hive : Text → Text
unfolding fold_alias codes
fold_hive p = elim (fold_alias local_machine hklm p) [
  | some q ↦ q
  | none ↦ or_else (fold_alias current_user hkcu p) p
]

unfoldable pub strip_verbatim : Text → Text
unfolding strip_prefix
strip_verbatim p = or_else (strip_prefix (backslash ∷ backslash ∷ 0x3f ∷ backslash ∷ []) p) p

abbrev pub is_separator : ℕ → Bool
is_separator c = c == backslash || c == slash

-- `comps.len() > 1` guards the pop: the drive or root stays.
unfoldable pub pop_comp : List Text → List Text
pop_comp [] = []
pop_comp (c ∷ []) = c ∷ []
pop_comp (c ∷ d ∷ cs) = d ∷ cs

-- cand.len() >= anc.len() && cand[..anc.len()] == anc[..]
unfoldable pub has_prefix : List Text → List Text → Bool
unfolding text_eq
has_prefix cand [] = true
has_prefix [] (a ∷ anc) = false
has_prefix (c ∷ cand) (a ∷ anc) = text_eq c a && has_prefix cand anc

unfoldable pub is_nil : List Text → Bool
is_nil [] = true
is_nil (_ ∷ _) = false

-- the test of `is_within` on the two component lists
unfoldable pub within_comps : List Text → List Text → Bool
unfolding has_prefix is_nil
within_comps cand anc = not (is_nil anc) && has_prefix cand anc

module _ (u : Unicode) where
  -- One round of the loop over the parts; `comps` has its last component at the head.
  unfoldable pub push_comp : List Text → Text → List Text
  unfolding text_eq pop_comp is_empty
  push_comp comps raw =
      if is_empty raw || text_eq raw (0x2e ∷ [])
      then comps
      else if text_eq raw (0x2e ∷ 0x2e ∷ [])
      then pop_comp comps
      else u.to_lowercase raw ∷ comps

  unfoldable pub push_comps : List Text → List Text → List Text
  push_comps comps [] = comps
  push_comps comps (raw ∷ parts) = push_comps (push_comp comps raw) parts

  unfoldable pub normalize_path_lexical : Text → List Text
  normalize_path_lexical path =
      reverse (push_comps [] (split is_separator (strip_verbatim (fold_hive (trim path)))))

  unfoldable pub is_within : Text → Text → Bool
  is_within path ancestor =
      within_comps (normalize_path_lexical path) (normalize_path_lexical ancestor)
