-- ===== src/Http.antt =====
-- The handlers of internal/adapters/primary/http.
pub mod Gin
pub mod Errors
pub mod Traffic
pub mod Virtual
