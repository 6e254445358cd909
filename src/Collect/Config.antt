-- ===== src/Collect/Config.antt =====
-- Web servers' configurations (internal/collect/apache.go, nginx.go and serverconfig.go): what both
-- parsers share.
pub mod References
pub mod Reader
pub mod Directives
