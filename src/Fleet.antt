-- ===== src/Fleet.antt =====
-- The provisioning of the device's certificate (app/aws_iot/fleet_provisioning_handler.c).
pub mod Texts
pub mod Parse
pub mod Events
pub mod Handle
mod Tests
