-- ===== src/Tray.antt =====
-- What the notification-area icon shows (internal/tray).
pub mod View
