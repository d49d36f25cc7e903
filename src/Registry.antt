-- ===== src/Registry.antt =====
-- The services on registered models and their versions: registered-model.go, model-version.go and
-- model-artifact.go of internal/core/services.
pub mod Slug
pub mod Models
pub mod Versions
