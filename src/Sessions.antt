-- ===== src/Sessions.antt =====
-- What the gateway keeps between requests: stored responses and the keys that conversations are
-- bound to (pkg/gateway/responses_store.go, pkg/gateway/upstream_affinity.go).
pub mod Responses
pub mod Affinity
mod Tests
