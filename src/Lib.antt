-- ===== src/Lib.antt =====
-- Eir is a Windows service that watches a machine, asks a language model what is wrong, and applies
-- fixes under a policy. This library models the parts of the service that decide: what may run, what
-- waits for the user, what is recorded, and how application updates are retried.
--
-- A proposed or requested fix (eir-svc/src/models.rs, FixAction; Models) meets the policy gate
-- (eir-svc/src/policy/mod.rs, evaluate; Policy, with the path normalisation in WindowsPath) and the
-- rate limit (eir-svc/src/safety.rs; Safety). It then runs, or waits in the approval queue
-- (eir-svc/src/audit.rs; Approvals) until the user claims it; its execution is recorded there with
-- the snapshot that undoes it. The routing of a user's own action through the same gate, the
-- preflight of an approved one, Game Mode and the update schedule are in eir-svc/src/main.rs
-- (Service). The update engine (eir-svc/src/updater; Updater) classifies a failed attempt, validates
-- the model's next step and runs the attempts; it kills only processes that
-- eir-svc/src/executor/process.rs allows (Process). What collectors report reaches the user through
-- the feed and the screen buffer, after the log memory dropped the lines it has seen
-- (eir-svc/src/signals; Signals). Facts about the machine are detected in the recorded attempts,
-- executions and rejections (eir-svc/src/learn/detect.rs; Learn.Detect with Learn.Tally), stored with
-- the user's decisions on them (learn/store.rs, label.rs, mod.rs; Learn.Store, Learn.Analyse), and
-- lower the confidence in an action before the gate (learn/apply.rs; Learn). A native installer that
-- a model proposes passes the gate of eir-svc/src/updater/plan.rs (Updater.Hosts, Updater.Plan).
-- The candidates of an update come from the managers' listings, the winget tables and the model
-- (updater/check.rs, winget_parse.rs, names.rs; Updater.Check, Updater.Winget, Updater.Names). The
-- lists in the monitoring settings are checked by eir-svc/src/config.rs (Settings).
-- A cycle over all applications, its rows in the interface, the guidance that the user gives and the
-- retry of one application are in updater/orchestrator.rs (Updater.Heal, Updater.Available,
-- Updater.Selection, Updater.Cycle, Updater.Rows, Updater.Guidance, Updater.Retried, Updater.Retry).
-- The JSON in a model's reply is found, repaired and read by eir-svc/src/ai/json.rs (Json). The user
-- keeps preferences for actions (eir-svc/src/prefs.rs; Prefs) and settings and notes for the updater
-- (eir-svc/src/updater/config.rs; Updater.Config, Updater.Notes); Game Mode changes the power plan and
-- gives it back (eir-svc/src/game_mode.rs; GameMode).
--
-- Text is the list of code points of a str (Text); functions that need the Unicode tables take them
-- as the parameter Unicode. f32 values are exact multiples of 2 ^ -149 with NaN and the infinities
-- (Float); only comparisons are modelled. i64 and u64 values are integers without wrap-around where
-- the code adds times, and saturate where it says so. SQLite is the tables that the modelled
-- functions read and write, newest row first; a failed transaction leaves them alone, and calls run
-- one at a time in any order. serde_json is a codec for each stored type, the semver and url crates are records,
-- and package managers, the process killer and the AI client are the World of an update, indexed by
-- the attempt. The while loop of heal runs on fuel, as much as the attempt cap, and returns with it.
-- Messages to the user are data where a decision depends on them and are left out elsewhere.
--
-- Not modelled: operating-system and network I/O (collectors, executors, the AI clients, the pipe
-- server, the tray application, the web view, the command line client), scripts, display texts
-- and prompts.
pub mod Prelude
pub mod Text
pub mod Float
pub mod WindowsPath
pub mod Models
pub mod Policy
pub mod Approvals
pub mod Process
pub mod Updater
pub mod Signals
pub mod GameMode
pub mod Json
pub mod Prefs
pub mod Settings
pub mod Learn
pub mod Safety
pub mod Service
pub mod Tests
