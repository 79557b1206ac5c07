-- ===== src/Hooks.antt =====
-- web/src/lib/hooks: the public webhook endpoint.
pub mod Limiter
pub mod Handler
mod Tests
