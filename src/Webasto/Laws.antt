-- ===== src/Webasto/Laws.antt =====
-- What is proved of the burner's control.
pub mod Idle
pub mod Apart
pub mod Waiting
pub mod Driven
pub mod Starting
pub mod Stopping
pub mod Shipped
pub mod Switch
