-- ===== src/Models.antt =====
-- The stored settings and their normal forms (pkg/models).
pub mod Config
pub mod Proxies
mod Tests
pub mod Cores
