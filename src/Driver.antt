-- ===== src/Driver.antt =====
-- Binding drivers to devices and the deferred probes, bus/common/device/device_register/driver.c,
-- with the driver iterator of bus.c. `State`, `Deferred`, `Probe` and `Attach` translate the code;
-- the other children prove.
pub mod State
pub mod Deferred
pub mod Probe
pub mod Attach
pub mod Lists
pub mod Outcome
pub mod Undone
pub mod Refused
pub mod Quiet
pub mod Rounds
pub mod Work
pub mod Verdict
pub mod Unbind
pub mod Queue
pub mod Once
mod Tests
