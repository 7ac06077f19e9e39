-- ===== src/Tests.antt =====
-- Runs of the modelled code at concrete inputs.
mod LimitsRuns
mod ClockRuns
mod LedgerRuns
mod GoalRuns
mod ManifestRuns
mod TopologyRuns
mod RunnerRuns
mod WholeRuns
mod BudgetRuns
mod LimiterRuns
mod ProxyRuns
mod SpendingRuns
mod ServerRuns
