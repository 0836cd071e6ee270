-- ===== src/Smi.antt =====
-- The management interface by hand: bus/mdio/arduino/mdio.c, which sends its frames bit by bit, with
-- the sketches sketch_mar28b.ino and aup_tools.ino. `Pins`, `Serdes`, `Menu`, `Sketch`, `Aup` and
-- `Boards` translate the code; `Frames` and `Wiring` say what the line carries, the others prove.
pub mod Frames
pub mod Pins
pub mod Wiring
mod Levels
pub mod Sent
pub mod Wire
pub mod Heard
pub mod Clause
pub mod Serdes
pub mod Indirect
pub mod Behind
pub mod Access
pub mod Stuck
pub mod Menu
pub mod Shown
pub mod Guarded
pub mod Rounds
pub mod Aup
pub mod Boards
pub mod Unbuffered
pub mod Sketch
pub mod Modes
mod Bench
mod Listener
mod Heeds
mod Tests
mod SwitchTests
