-- ===== src/Service.antt =====
-- The agent's schedule and its log (internal/service).
pub mod Loop
pub mod Log
