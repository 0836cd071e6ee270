-- ===== src/Can.antt =====
-- The demonstration CAN device, bus/can/can_device_parse_can_frame.c (subsystem/net/can holds a copy):
-- the handlers of its network interface and of its work queue, the identifier of a frame, the start.
pub mod Handlers
pub mod Frame
pub mod Reached
mod Tests
