-- ===== src/Arisc.antt =====
-- The requests of soc/sunxi/arisc/hardmsgbox/demo_hwmessagebox.c to the ARISC coprocessor: the
-- message frame, the message box as an interface, and the course that every request takes.
-- `Requests` has the requests and the init call, the other children the proofs and the tests.
pub mod Box
pub mod Requests
pub mod Frames
pub mod Wire
pub mod ChipId
mod Tests
