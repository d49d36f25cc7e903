-- ===== src/Traffic.antt =====
-- internal/core/services/traffic.go: TrafficService over the tables and the clients of the store.
pub mod Route
pub mod Configs
pub mod Canary
pub mod Variants
