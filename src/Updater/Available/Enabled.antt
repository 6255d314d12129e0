-- ===== src/Updater/Available/Enabled.antt =====
-- The usable methods are enabled ones.
use eir.Prelude.{◌≡◌, refl, Bool, true, false, ◌&&◌, ◌||◌, all, arith}
use eir.Text.Trim.{all-append}
use eir.Updater.Config.{UpdaterConfig}
use eir.Updater.Domain.{Method, winget, choco, scoop, ms_store, native, has_method}
use eir.Updater.Available.{Machine, enabled_methods, push_when, available_methods, scoop_available}

-- The settings allow the method: native has a switch of its own and needs a model, scoop cannot run.
abbrev pub is_allowed : UpdaterConfig → Bool → Method → Bool
is_allowed cfg ai native = cfg.native_enabled && ai
is_allowed cfg ai scoop = false
is_allowed cfg ai m = has_method (enabled_methods cfg.methods) m

all-push_when :
    (p : Method → Bool) (b : Bool) (m : Method)
    → (b ≡ true → p m ≡ true)
    → all p (push_when b m) ≡ true
unfolding all push_when
all-push_when p true m h = rw (h refl) refl
all-push_when p false m h = refl

both_left : (a b : Bool) → (a && b) ≡ true → a ≡ true
both_left a b e = ground arith

both_right : (a b : Bool) → (a && b) ≡ true → b ≡ true
both_right a b e = ground arith

-- Whatever is found on the machine, the methods in use are named by the settings, native among them
-- only with its own switch and a configured model, and scoop never is.
pub available_methods-enabled :
    (cfg : UpdaterConfig) (ai : Bool) (machine : Machine)
    → all (is_allowed cfg ai) (available_methods cfg ai machine) ≡ true
unfolding available_methods scoop_available
available_methods-enabled cfg ai machine =
    let p = is_allowed cfg ai in
    let has = has_method (enabled_methods cfg.methods) in
    let winget_present = (has winget || has ms_store) && machine.winget_found in
    let choco_present = machine.choco_found || (cfg.bootstrap_managers && machine.choco_installs) in
    all-append p _ (push_when (cfg.native_enabled && ai) native)
      (all-append p _ (push_when (has ms_store && winget_present) ms_store)
        (all-append p _ (push_when (has scoop && false) scoop)
          (all-append p _ (push_when (has choco && choco_present) choco)
            (all-push_when p _ winget (both_left (has winget) winget_present))
            (all-push_when p _ choco (both_left (has choco) choco_present)))
          (all-push_when p _ scoop (both_right (has scoop) false)))
        (all-push_when p _ ms_store (both_left (has ms_store) winget_present)))
      (all-push_when p _ native (λ e. e))
