-- ===== src/Device.antt =====
-- Adding a device to the hierarchy and deleting it, bus/common/device/device_register/device.c, with
-- the bus part of bus.c. `State`, `Attrs`, `Links`, `BusLink`, `Add`, `Uevent`, `Files`
-- and `Startup` translate the code; the other children prove.
pub mod State
pub mod Attrs
pub mod Links
pub mod BusLink
pub mod Add
pub mod Tables
pub mod OnBus
pub mod Rollback
pub mod Settle
pub mod Joined
pub mod Result
pub mod Uevent
pub mod Devnode
pub mod Files
pub mod Startup
mod Tests
mod NodeTests
