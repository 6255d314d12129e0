-- ===== src/Updater/Winget/Unmanaged.antt =====
-- The applications that are left for the model's check.
use eir.Prelude.{◌≡◌, refl, Bool, true, not, List, [], ◌∷◌, all, arith, ◌&&◌}
use eir.Text.{Text, Unicode, codes, member, is_empty}
use eir.Updater.Names.{app_id}
use eir.Updater.Names.Stable.{app_id-clean_app_name}
use eir.Updater.Winget.{Offset, column, is_skipped_row, apps_of_rows, parse_unmanaged}

-- A version that is known, and a name whose key no manager covers.
abbrev pub is_left : Unicode → List Text → Text × Text → Bool
is_left u already_managed e = not (is_empty e.1) && not (member (app_id u e.0) already_managed)

all-apps_of_rows :
    (u : Unicode) (already_managed : List Text) (offsets : List Offset) (rows : List Text)
    → all (is_left u already_managed) (apps_of_rows u already_managed offsets rows) ≡ true
unfolding all apps_of_rows is_skipped_row
all-apps_of_rows u m offsets [] = refl
all-apps_of_rows u m offsets (row ∷ rows) = ground (
  arith,
  app_id-clean_app_name u (column offsets row (codes "Name")),
  all-apps_of_rows u m offsets rows,
)

-- Whatever winget prints, each application that is left for the model has a version, and no manager
-- covers it under its cleaned name.
pub parse_unmanaged-is_left :
    (u : Unicode) (text : Text) (already_managed : List Text)
    → all (is_left u already_managed) (parse_unmanaged u text already_managed) ≡ true
unfolding parse_unmanaged
parse_unmanaged-is_left u text m = all-apps_of_rows u m _ _
