-- ===== src/Tests.antt =====
-- Tests on small inputs, and each property at one concrete input.
mod StatusCases
mod LedgerCases
mod PermissionCases
mod RunnerCases
mod ProjectionCases
mod RewindCases
mod ScheduleCases
mod SlotCases
mod StorageCases
mod OpenAiCases
mod StreamerCases
mod CompactionCases
mod SettlingCases
