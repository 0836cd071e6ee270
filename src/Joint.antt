-- ===== src/Joint.antt =====
-- The device core as a whole: what `Device` records as calls into the driver core, run on the state of
-- `Driver`, for the registration and the removal of a device (device.c, demo_device_register and
-- demo_device_unregister).
pub mod Machine
pub mod Forgotten
pub mod Registered
mod Tests
