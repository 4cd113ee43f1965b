-- ===== src/Repos.antt =====
-- The repositories' part of the front end: the form (`Form`), a repository's card (`Card`), where it
-- points (`Location`), and a snapshot's browser (`Browser`).
pub mod Form
pub mod Location
pub mod Browser
pub mod Card
mod Tests
