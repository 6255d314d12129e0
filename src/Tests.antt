-- ===== src/Tests.antt =====
-- The theorems at concrete inputs.
mod Fixtures
mod PolicyRuns
mod QueueRuns
mod UpdaterRuns
mod SignalRuns
mod ServiceRuns
mod LearnRuns
mod PlanRuns
mod JsonRuns
mod SettingsRuns
mod CheckRuns
mod CycleRuns
