-- ===== src/Automation.antt =====
-- The previews that an automation run is applied from.
pub mod Previews
