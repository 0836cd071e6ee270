-- ===== src/Tty.antt =====
-- The demonstration serial port, char/tty/tty.c: the transmission into the FIFO, and the file
-- operations by which a program at the other side reads it; `Manager` has the port's other
-- operations, `Create` the creation of a port, `Ports` all of them.
pub mod State
pub mod Sent
pub mod Drain
pub mod Turns
pub mod Manager
pub mod Create
pub mod Ports
mod Tests
