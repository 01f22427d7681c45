-- ===== src/Tests.antt =====
-- Tests, and the theorems of the development at concrete inputs.
mod Fixtures
mod CacheCases
mod FilterCases
mod StatsCases
mod ProxyCases
mod ReplyCases
mod RetentionCases
mod MachineCases
mod BenchCases
mod ConnectionCases
mod ScenarioCases
mod HttpCases
mod SessionCases
mod MainCases
mod ProgramCases
