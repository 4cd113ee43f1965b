-- ===== src/Server.antt =====
-- The Go server behind the front end (internal/): the operations that it runs, the events that it
-- publishes of them, and how these compose with what the front end makes of them.
pub mod Runner
pub mod Hub
pub mod Missed
pub mod Guard
pub mod Arguments
pub mod Wire
mod Tests
