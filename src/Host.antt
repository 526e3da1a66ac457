-- ===== src/Host.antt =====
-- The host's part: src/host, and what it takes from src/compat/dsh.
pub mod UsageLedger
pub mod UsageProjection
pub mod RequestUsageSettler
pub mod DayEnd
