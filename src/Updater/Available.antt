-- ===== src/Updater/Available.antt =====
-- eir-svc/src/updater/orchestrator.rs and methods/detect.rs: the methods that are usable right now.
pub mod Enabled
use eir.Prelude.{Bool, true, false, ◌&&◌, ◌||◌, none, some, List, [], ◌∷◌, ◌++◌}
use eir.Text.{Text}
use eir.Updater.Config.{UpdaterConfig}
use eir.Updater.Domain.{Method, winget, choco, scoop, ms_store, native, has_method, from_token}

-- filter_map(Method::from_token)
unfoldable pub enabled_methods : List Text → List Method
enabled_methods [] = []
enabled_methods (m ∷ ms) =
    let rest = enabled_methods ms in elim (from_token m) [ none ↦ rest | some x ↦ x ∷ rest ]

-- What is found on the machine; the last field tells whether installing Chocolatey succeeds.
pub record Machine : Type 0 where
  pub winget_found : Bool
  pub choco_found : Bool
  pub choco_installs : Bool

unfoldable pub scoop_available : Bool
scoop_available = false

unfoldable pub push_when : Bool → Method → List Method
push_when true m = m ∷ []
push_when false m = []

-- `ai` tells whether a model is configured.
unfoldable pub available_methods : UpdaterConfig → Bool → Machine → List Method
unfolding push_when scoop_available
available_methods cfg ai machine =
    let enabled = enabled_methods cfg.methods in
    let winget_present =
      (has_method enabled winget || has_method enabled ms_store) && machine.winget_found in
    let choco_present = machine.choco_found || (cfg.bootstrap_managers && machine.choco_installs) in
    push_when (has_method enabled winget && winget_present) winget
    ++ push_when (has_method enabled choco && choco_present) choco
    ++ push_when (has_method enabled scoop && scoop_available) scoop
    ++ push_when (has_method enabled ms_store && winget_present) ms_store
    ++ push_when (cfg.native_enabled && ai) native
