-- ===== src/Command.antt =====
-- cmd/dtp-agent: what the agent's commands publish.
pub mod PublicError
