-- ===== src/System.antt =====
-- The worker, the webhook endpoint and the routes as steps on one database.
pub mod Deliveries
pub mod Fanned
pub mod Polls
pub mod Deletions
pub mod Batches
pub mod Rows
pub mod Requests
pub mod Reach
pub mod Isolation
mod Tests
