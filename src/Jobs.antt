-- ===== src/Jobs.antt =====
-- The jobs that the cloud hands to the device (app/aws_iot).
pub mod JobList
pub mod Ota
pub mod Texts
pub mod Parse
pub mod Connect
pub mod Events
pub mod Handler
mod Tests
