-- ===== src/Shared.antt =====
-- src/shared: what the backend and the host have in common.
pub mod BusinessDate
