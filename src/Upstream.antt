-- ===== src/Upstream.antt =====
-- Requests to the upstream service: how failures are judged and retried (pkg/gateway).
pub mod Policy
pub mod Guard
pub mod Request
pub mod Prefetch
mod Tests
