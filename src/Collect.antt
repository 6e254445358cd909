-- ===== src/Collect.antt =====
-- internal/collect: what the collectors find and the contract they meet (collect.go), and the run
-- over all of them (run.go).
pub mod Result
pub mod Run
pub mod Config
pub mod Nginx
pub mod Apache
pub mod ServerConfig
pub mod Sockets
pub mod Listener
pub mod Walk
pub mod FileSystem
pub mod Keystores
pub mod Iis
