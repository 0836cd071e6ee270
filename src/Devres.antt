-- ===== src/Devres.antt =====
-- Managed device resources, bus/common/device/device_register/devres.c: the list of nodes that a
-- device keeps, and its release. `Nodes` translates the code, the other children prove.
pub mod Nodes
pub mod Markers
pub mod Colours
pub mod Release
mod Tests
