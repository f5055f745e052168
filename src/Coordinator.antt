-- ===== src/Coordinator.antt =====
-- src/custom_components/bluetooth_mesh/coordinator.py: the object that owns the network and its link.
-- Each child has the fields of the coordinator that belong together, with the methods that use them.
pub mod Cursor
pub mod Health
pub mod Links
pub mod Source
