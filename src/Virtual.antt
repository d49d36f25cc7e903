-- ===== src/Virtual.antt =====
-- Virtual models: internal/adapters/secondary/postgres/virtual_model_repo.go and
-- internal/core/services/virtual_model.go, over the client of the gateway.
pub mod Tables
pub mod Service
