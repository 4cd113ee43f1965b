-- ===== src/Plans.antt =====
-- The backup plans' part of the front end: the form (`Form`), the page with its forms (`Page`) and a
-- plan's card (`Card`).
pub mod Form
pub mod Page
pub mod Card
mod Tests
