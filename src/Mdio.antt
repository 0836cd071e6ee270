-- ===== src/Mdio.antt =====
-- The MDIO driver, bus/mdio/MDIO_MISC.c (subsystem/net/mdio holds a copy): the command words, the
-- transfers over the registers of the controller, the file operations of the misc device, what its
-- probe takes; and the user program of MDIO_userspace_API.c over them.
pub mod Command
pub mod Fields
pub mod Bus
pub mod Transfer
pub mod Misc
pub mod Served
pub mod User
pub mod Api
pub mod Session
pub mod Syscalls
pub mod Calls
pub mod Alias
pub mod Clock
pub mod Probe
pub mod Taken
mod Board
mod Tests
