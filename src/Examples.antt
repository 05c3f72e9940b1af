-- ===== src/Examples.antt =====
-- The theorems at concrete inputs, and runs of the definitions.
mod Demo
mod MapRuns
mod DriverRuns
mod LifecycleRuns
mod LegacyRuns
mod SafetyRuns
mod TimespecRuns
mod PracticeRuns
mod ProfilerRuns
mod DeviceRuns
mod ToolRuns
mod OrderRuns
mod PreemptRuns
mod MachineRuns
mod BudgetRuns
mod OverlapRuns
mod EndRuns
mod MeasureRuns
