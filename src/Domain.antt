-- ===== src/Domain.antt =====
-- The entities of internal/core/domain and the errors their operations return.
pub mod Result
pub mod Traffic
pub mod Serving
pub mod Registry
pub mod Virtual
