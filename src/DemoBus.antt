-- ===== src/DemoBus.antt =====
-- The demonstration bus with devices that own resources, bus/demo_bus/bus_resource: bus.c, and the
-- driver and device of resource.c.
pub mod State
pub mod Match
pub mod Claim
pub mod Rollback
pub mod Register
pub mod Bus
pub mod Probe
pub mod Held
pub mod Removal
mod Tests
